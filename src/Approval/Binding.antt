-- ===== src/Approval/Binding.antt =====
-- internal/approval/approval.go: which plans an approval fits.
use sre_agent_gitops.Prelude.{
  String, Time, List, Sha256, [], ◌∷◌, ◌≡◌, false, none, arith, ap, refl, sym, ◌∙◌,
}
use sre_agent_gitops.Prelude.Text.{concat, join_nul}
use sre_agent_gitops.Approval.Accepting.{validate-Accepts, IsWellFormed-plan}
use sre_agent_gitops.Approval.{
  Approval, Plan, PlanCommand, has_nul, invalid_identity, is_invalid_plan, canonical, validate,
  command_of, plan_hash_for,
}
use text.Mathlib.TextLemmas.{
  cons-append, nil-append, tail-eq_of_cons-eq, head-eq_of_cons-eq, append_cancel_right,
  append_cancel_left,
}
use Prim.Native.Char.{Char, code, nul}
use Prim.Native.String.{◌++◌}

starts_nul : (d : Char) (s t : String) → String.◌∷◌ nul s ≡ String.◌∷◌ d t → code d ≡ 0
starts_nul d s t e = ap code (sym (head-eq_of_cons-eq e))

-- Texts without the separator are read off what they are joined to.
split_nul :
    (a b s t : String)
    → has_nul a ≡ false
    → has_nul b ≡ false
    → a ++ String.◌∷◌ nul s ≡ b ++ String.◌∷◌ nul t
    → (a ≡ b) × (s ≡ t)
unfolding has_nul
split_nul String.[] String.[] s t h k e =
    (refl, tail-eq_of_cons-eq (rw (nil-append, nil-append) at e))
split_nul String.[] (String.◌∷◌ d b) s t h k e =
    absurd
      (ground (arith, starts_nul d s (b ++ String.◌∷◌ nul t) (rw (nil-append, cons-append) at e)))
split_nul (String.◌∷◌ c a) String.[] s t h k e = absurd (
    ground
      (arith, starts_nul c t (a ++ String.◌∷◌ nul s) (sym (rw (nil-append, cons-append) at e))))
split_nul (String.◌∷◌ c a) (String.◌∷◌ d b) s t h k e = ground (
  arith,
  split_nul a b s t,
  cons-append d b (String.◌∷◌ nul t),
  cons-append c a (String.◌∷◌ nul s),
)

-- Two lists of one length, without the separator in their texts.
abbrev BothClean : List String → List String → Type 0
BothClean [] [] = Unit {0}
BothClean (a ∷ s) (b ∷ t) = (has_nul a ≡ false) × (has_nul b ≡ false) × BothClean s t
BothClean _ _ = ⊥

-- What is joined determines the parts.
join_nul_inj :
    (a b : String) (s t : List String)
    → BothClean (a ∷ s) (b ∷ t)
    → join_nul (a ∷ s) ≡ join_nul (b ∷ t)
    → a ∷ s ≡ b ∷ t
unfolding join_nul
join_nul_inj a b [] [] h e = cc e
join_nul_inj a b [] (d ∷ t) h e = absurd h.2
join_nul_inj a b (c ∷ s) [] h e = absurd h.2
join_nul_inj a b (c ∷ s) (d ∷ t) h e =
    let (same, rest) = split_nul a b (join_nul (c ∷ s)) (join_nul (d ∷ t)) h.0 h.1 e in
    cc (same, join_nul_inj c d s t h.2 rest)

-- The parts of the canonical text.
abbrev parts : PlanCommand → List String
parts c =
    c.incident_id ∷ c.action ∷ c.target.cluster ∷ c.target.namespace ∷ c.target.kind ∷ c.target.name
    ∷ c.target.uid ∷ []

clean_parts :
    (c d : PlanCommand)
    → is_invalid_plan c ≡ false
    → is_invalid_plan d ≡ false
    → BothClean ("v1" ∷ parts c) ("v1" ∷ parts d)
unfolding is_invalid_plan invalid_identity has_nul
clean_parts c d h k = ground arith

canonical_inj :
    (c d : PlanCommand)
    → is_invalid_plan c ≡ false
    → is_invalid_plan d ≡ false
    → canonical c ≡ canonical d
    → c ≡ d
unfolding canonical
canonical_inj c d h k e = cc (join_nul_inj "v1" "v1" (parts c) (parts d) (clean_parts c d h k) e)

module _ (sha : Sha256) where
  plan_hash_for_hex :
      (c d : PlanCommand)
      → plan_hash_for sha c ≡ plan_hash_for sha d
      → sha.hex (canonical c) ≡ sha.hex (canonical d)
  unfolding plan_hash_for concat
  plan_hash_for_hex c d e =
      append_cancel_right (sha.hex (canonical c)) (sha.hex (canonical d)) ""
        (append_cancel_left "sha256:" (sha.hex (canonical c) ++ "") (sha.hex (canonical d) ++ "") e)

  -- An approval fits one plan: two plans that `Validate` accepts with the same approval, at whatever
  -- times, are equal in every field, unless their canonical texts differ and have the same SHA-256.
  pub validate_unique :
      (granted : Approval) (p q : Plan) (now later : Time)
      → (sha.hex (canonical (command_of p)) ≡ sha.hex (canonical (command_of q))
          → canonical (command_of p) ≡ canonical (command_of q))
      → validate sha granted p now ≡ none
      → validate sha granted q later ≡ none
      → p ≡ q
  validate_unique granted p q now later inj v w =
      let a = (validate-Accepts sha granted p now).0 v in
      let b = (validate-Accepts sha granted q later).0 w in
      let hashes : plan_hash_for sha (command_of p) ≡ plan_hash_for sha (command_of q) =
        unfold plan_hash_for canonical in sym a.hashed ∙ sym a.plan_hash ∙ b.plan_hash ∙ b.hashed in
      let same =
        canonical_inj (command_of p) (command_of q) (IsWellFormed-plan p a.well_formed)
          (IsWellFormed-plan q b.well_formed)
          (inj (plan_hash_for_hex (command_of p) (command_of q) hashes)) in
      ground (
        arith,
        ap (λ (c : PlanCommand). c.incident_id) same,
        ap (λ (c : PlanCommand). c.action) same,
        ap (λ (c : PlanCommand). c.target) same,
      )

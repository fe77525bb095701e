-- ===== src/Remediation/Verification/Evidence.antt =====
-- internal/remediation/verification_store.go: `RequireRecovered`, and runs of calls after it.
use mathlib.Core.List.{Permᴰ}
use mathlib.Core.Path.{subst, ap}
use sre_agent_gitops.Prelude.Method.{ok, result}
use sre_agent_gitops.Remediation.Verification.Steps.{
  Call, Change, begun, ended, run, step, step-Change, unchanged,
}
use sre_agent_gitops.Prelude.{
  Bool-cases, Context, IsLive, List, String, [], arith, eq_iff, false, inl, inr, is_blank, none,
  some, ◌==◌, ◌∷◌, ◌≡◌, ◌⊎◌,
}
use sre_agent_gitops.Prelude.Dict.{Dict, insert, lookup}
use sre_agent_gitops.Remediation.Keys.{ActionKey, action_key, action_key_eq}
use sre_agent_gitops.Remediation.Verification.{Verification, pending, recovered, status_eqb_iff}
use sre_agent_gitops.Remediation.Verification.Store.{
  MemoryVerificationStore, completed, new_pending, recovery_of, require_recovered,
}

-- Some stored verification has the property, whatever the order of the entries.
abbrev pub Holds : (Verification → Type 0) → Dict ActionKey Verification → Type 0
Holds P [] = ⊥
Holds P ((k, v) ∷ m) = P v ⊎ Holds P m

abbrev pub Every : (Verification → Type 0) → Dict ActionKey Verification → Type 0
Every P [] = Unit {0}
Every P ((k, v) ∷ m) = P v × Every P m

-- The evidence asked for: this verification, of this incident, with the outcome RECOVERED.
pub record Recovers (id incident_id : String) (v : Verification) : Type 0 where
  pub identified : v.id ≡ id
  pub owned : v.action_key.incident_id ≡ incident_id
  pub recovers : v.status ≡ recovered

-- No other verification with this id speaks against it.
abbrev pub Undisputed : String → String → Verification → Type 0
Undisputed id incident_id v = v.id ≡ id → Recovers id incident_id v

recovery_of_sound :
    (id incident_id : String) (m : Dict ActionKey Verification)
    → recovery_of id incident_id m ≡ none
    → Holds (Recovers id incident_id) m
unfolding recovery_of
recovery_of_sound id incident_id [] h = cc
recovery_of_sound id incident_id ((k, v) ∷ m) h = ground (
  arith,
  recovery_of_sound id incident_id m,
  eq_iff v.id id,
  eq_iff v.action_key.incident_id incident_id,
  status_eqb_iff v.status recovered,
)

recovery_of_complete :
    (id incident_id : String) (m : Dict ActionKey Verification)
    → Holds (Recovers id incident_id) m
    → Every (Undisputed id incident_id) m
    → recovery_of id incident_id m ≡ none
unfolding recovery_of
recovery_of_complete id incident_id [] h u = absurd h
recovery_of_complete id incident_id ((k, v) ∷ m) h u = ground (
  arith,
  recovery_of_complete id incident_id m,
  eq_iff v.id id,
  eq_iff v.action_key.incident_id incident_id,
  status_eqb_iff v.status recovered,
)

-- A write that replaces nothing but what is pending loses no evidence.
insert-Holds :
    (id incident_id : String) (k : ActionKey) (w : Verification) (m : Dict ActionKey Verification)
    → ((x : Verification) → lookup k m ≡ some x → x.status ≡ pending)
    → Holds (Recovers id incident_id) m
    → Holds (Recovers id incident_id) (insert k w m)
unfolding insert lookup
insert-Holds id incident_id k w [] p h = absurd h
insert-Holds id incident_id k w ((j, v) ∷ m) p h = elim (Bool-cases (j == k)) [
  | inl here ↦
      rw here
        (elim h [ inl r ↦ absurd (ground (arith, r.recovers, p v (rw here))) | inr l ↦ inr l ])
  | inr there ↦ rw there (elim h [
    | inl r ↦ inl r
    | inr l ↦ inr (insert-Holds id incident_id k w m (λ x e. p x (rw there e)) l)
  ])
]

-- `RequireRecovered` that succeeds has found a stored verification with this id that belongs to this
-- incident and has the status RECOVERED.
pub require_recovered_sound :
    (ctx : Context) (id incident_id : String) (s : MemoryVerificationStore)
    → result (require_recovered ctx id incident_id) s ≡ ok tt
    → Holds (Recovers id incident_id) s.verifications
unfolding require_recovered
require_recovered_sound ctx id incident_id s h =
    recovery_of_sound id incident_id s.verifications (ground arith)

-- If it is not cancelled, the ids are not blank, such a verification is stored, and every stored one
-- with this id is such, `RequireRecovered` succeeds and changes nothing, whatever the order in which
-- it meets the entries.
pub require_recovered_complete :
    (ctx : Context) (id incident_id : String) (s : MemoryVerificationStore)
    → IsLive ctx
    → is_blank id ≡ false
    → is_blank incident_id ≡ false
    → Holds (Recovers id incident_id) s.verifications
    → Every (Undisputed id incident_id) s.verifications
    → require_recovered ctx id incident_id s ≡ (ok tt, s)
unfolding require_recovered
require_recovered_complete ctx id incident_id s l b b' h u =
    ground (arith, l 0, l 1, recovery_of_complete id incident_id s.verifications h u)

require_recovered_inv :
    (ctx : Context) (id incident_id : String) (s : MemoryVerificationStore)
    → result (require_recovered ctx id incident_id) s ≡ ok tt
    → (is_blank id ≡ false) × (is_blank incident_id ≡ false)
unfolding require_recovered
require_recovered_inv ctx id incident_id s h = ground arith

-- The entries in another order, as another range over the map may meet them.
Holds-Perm :
    (P : Verification → Type 0) (m n : Dict ActionKey Verification)
    → Permᴰ m n
    → Holds P m
    → Holds P n
Holds-Perm P m n Permᴰ.nil h = h
Holds-Perm P ((j, v) ∷ m) ((k, w) ∷ n) (Permᴰ.cons e p) (inl h) = inl (subst P (ap (λ o. o.1) e) h)
Holds-Perm P ((j, v) ∷ m) ((k, w) ∷ n) (Permᴰ.cons e p) (inr h) = inr (Holds-Perm P m n p h)
Holds-Perm P ((j, v) ∷ (k, w) ∷ m) ((j', v') ∷ (k', w') ∷ n) (Permᴰ.swap d e) (inl h) =
    inr (inl (subst P (ap (λ o. o.1) d) h))
Holds-Perm P ((j, v) ∷ (k, w) ∷ m) ((j', v') ∷ (k', w') ∷ n) (Permᴰ.swap d e) (inr (inl h)) =
    inl (subst P (ap (λ o. o.1) e) h)
Holds-Perm P ((j, v) ∷ (k, w) ∷ m) ((j', v') ∷ (k', w') ∷ n) (Permᴰ.swap d e) (inr (inr h)) =
    inr (inr h)
Holds-Perm P m n (Permᴰ.trans p q) h = Holds-Perm P _ n q (Holds-Perm P m _ p h)

module _ (digest : String → String) where
  change-Holds :
      (id incident_id : String) (s t : MemoryVerificationStore)
      → Change digest s t
      → Holds (Recovers id incident_id) s.verifications
      → Holds (Recovers id incident_id) t.verifications
  change-Holds id incident_id s t (unchanged e) h = rw e h
  change-Holds id incident_id s t (begun c v n e) h = rw e (
      insert-Holds id incident_id (action_key c.action_attempt.key) (new_pending digest c)
        s.verifications (λ x f. ground (arith, n, f)) h)
  change-Holds id incident_id s t (ended c x f d e) h = rw e (
      insert-Holds id incident_id c.action_key (completed x c) s.verifications
        (λ y g. ground (arith, f, g, d.waiting)) h)

  run-Holds :
      (calls : List Call) (id incident_id : String) (s : MemoryVerificationStore)
      → Holds (Recovers id incident_id) s.verifications
      → Holds (Recovers id incident_id) (run digest calls s).verifications
  unfolding run
  run-Holds [] id incident_id s h = h
  run-Holds (c ∷ cs) id incident_id s h =
      run-Holds cs id incident_id (step digest c s)
        (change-Holds id incident_id s (step digest c s) (step-Change digest c s) h)

  -- Evidence is never lost: once `RequireRecovered` has succeeded for a verification and an incident,
  -- it succeeds again after every run of calls and changes nothing, if it is not cancelled and no
  -- verification that is stored by then under the same id speaks against it, in whatever order it
  -- meets the entries.
  pub require_recovered-run :
      (ctx ctx' : Context) (calls : List Call) (id incident_id : String)
      (s t : MemoryVerificationStore)
      → IsLive ctx'
      → result (require_recovered ctx id incident_id) s ≡ ok tt
      → Permᴰ (run digest calls s).verifications t.verifications
      → Every (Undisputed id incident_id) t.verifications
      → require_recovered ctx' id incident_id t ≡ (ok tt, t)
  require_recovered-run ctx ctx' calls id incident_id s t l h p u =
      let (b, b') = require_recovered_inv ctx id incident_id s h in
      require_recovered_complete ctx' id incident_id t l b b'
        (Holds-Perm (Recovers id incident_id) _ _ p
          (run-Holds calls id incident_id s (require_recovered_sound ctx id incident_id s h)))
        u

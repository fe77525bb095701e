-- ===== src/Remediation/Verification/Steps.antt =====
-- The verification store as a state machine: the calls that may change it, and how they do.
use sre_agent_gitops.Prelude.{
  Context, List, Option-cases, String, [], arith, if◌then◌else◌, inl, inr, int_eqb_iff, none, refl,
  some, ◌==◌, ◌∷◌, ◌≡◌, ◌≤◌,
}
use sre_agent_gitops.Prelude.Dict.{lookup-insert}
use sre_agent_gitops.Prelude.Method.{final}
use sre_agent_gitops.Remediation.Keys.{ActionKey, action_key, action_key_eq}
use sre_agent_gitops.Remediation.Verification.{
  BeginVerificationCommand, CompleteVerificationCommand, Verification, pending, status_eqb_iff,
  validate_begin, validate_complete,
}
use sre_agent_gitops.Remediation.Verification.Store.{
  MemoryVerificationStore, begin, complete, completed, new_pending, put, verification_of,
}

pub lookup-put :
    (k j : ActionKey) (v : Verification) (s : MemoryVerificationStore)
    → verification_of j (put k v s) ≡ (if k == j then some v else verification_of j s)
lookup-put k j v s = lookup-insert k j v s.verifications

pub data Call : Type 0 where
  begins : Context → BeginVerificationCommand → Call
  completes : Context → CompleteVerificationCommand → Call

-- A pending verification gets its outcome.
pub record Completes (c : CompleteVerificationCommand) (current : Verification) : Type 0 where
  pub valid : validate_complete c ≡ none
  pub waiting : current.status ≡ pending
  pub expected : current.version ≡ c.expected_version
  pub ordered : current.started_at ≤ c.finished_at

complete_change :
    (P : MemoryVerificationStore → Type 0) (ctx : Context) (c : CompleteVerificationCommand)
    (s : MemoryVerificationStore)
    → P s
    → ((x : Verification)
        → verification_of c.action_key s ≡ some x
        → Completes c x
        → P (put c.action_key (completed x c) s))
    → P (final (complete ctx c) s)
unfolding complete
complete_change P ctx c s same new = elim (Option-cases (verification_of c.action_key s)) [
  | inl e ↦ ground arith
  | inr (x, e) ↦
      ground
        (arith, new x e, status_eqb_iff x.status pending, int_eqb_iff x.version c.expected_version)
]

module _ (digest : String → String) where
  pub data Change (s t : MemoryVerificationStore) : Type 0 where
    unchanged : t ≡ s → Change s t
    begun :
        (c : BeginVerificationCommand)
        → validate_begin c ≡ none
        → verification_of (action_key c.action_attempt.key) s ≡ none
        → t ≡ put (action_key c.action_attempt.key) (new_pending digest c) s
        → Change s t
    ended :
        (c : CompleteVerificationCommand) (current : Verification)
        → verification_of c.action_key s ≡ some current
        → Completes c current
        → t ≡ put c.action_key (completed current c) s
        → Change s t

  unfoldable pub step : Call → MemoryVerificationStore → MemoryVerificationStore
  step (begins ctx c) s = final (begin digest ctx c) s
  step (completes ctx c) s = final (complete ctx c) s

  unfoldable pub run : List Call → MemoryVerificationStore → MemoryVerificationStore
  run [] s = s
  run (call ∷ calls) s = run calls (step call s)

  begin_change :
      (P : MemoryVerificationStore → Type 0) (ctx : Context) (c : BeginVerificationCommand)
      (s : MemoryVerificationStore)
      → P s
      → (validate_begin c ≡ none
          → verification_of (action_key c.action_attempt.key) s ≡ none
          → P (put (action_key c.action_attempt.key) (new_pending digest c) s))
      → P (final (begin digest ctx c) s)
  unfolding begin
  begin_change P ctx c s same new = ground arith

  -- Whatever a call returns, it leaves the store, begins a verification that was not there, or ends
  -- a pending one.
  pub step-Change : (call : Call) (s : MemoryVerificationStore) → Change s (step call s)
  unfolding step
  step-Change (begins ctx c) s =
      begin_change (Change s) ctx c s (unchanged refl) (λ v n. begun c v n refl)
  step-Change (completes ctx c) s =
      complete_change (Change s) ctx c s (unchanged refl) (λ x e h. ended c x e h refl)

-- ===== src/Remediation/Attempt/Steps.antt =====
-- The attempt store as a state machine: the calls of its methods, and the ways in which a call may
-- change the store.
use sre_agent_gitops.Prelude.Dict.{lookup-insert}
use sre_agent_gitops.Prelude.{
  Context, List, Option-cases, String, [], arith, if◌then◌else◌, inl, inr, none, refl, some, ◌<◌,
  ◌==◌, ◌∷◌, ◌≡◌, ◌≤◌,
}
use sre_agent_gitops.Prelude.Method.{final}
use sre_agent_gitops.Remediation.Keys.{ActionKey, action_key, action_key_eq}
use sre_agent_gitops.Remediation.Attempt.{
  ActionAttempt, BeginActionAttemptCommand, CompleteActionAttemptCommand,
  RecoverActionAttemptCommand, started, validate_begin, validate_complete, validate_recover,
}
use sre_agent_gitops.Remediation.Attempt.Store.{
  MemoryActionAttemptStore, attempt_of, begin, complete, completed, new_attempt, put, recover,
  recovered,
}

pub lookup-put :
    (k j : ActionKey) (a : ActionAttempt) (s : MemoryActionAttemptStore)
    → attempt_of j (put k a s) ≡ (if k == j then some a else attempt_of j s)
lookup-put k j a s = lookup-insert k j a s.attempts

pub data Call : Type 0 where
  begins : Context → BeginActionAttemptCommand → Call
  completes : Context → CompleteActionAttemptCommand → Call
  recovers : Context → RecoverActionAttemptCommand → Call

-- The owner of a started attempt ends it.
pub record Completes (c : CompleteActionAttemptCommand) (current : ActionAttempt) : Type 0 where
  pub valid : validate_complete c ≡ none
  pub pending : current.status ≡ started
  pub owner : current.key.fencing_token ≡ c.key.fencing_token
  pub expected : current.version ≡ c.expected_version
  pub ordered : current.started_at ≤ c.finished_at

-- The holder of a larger token gives a started attempt up.
pub record Recovers (c : RecoverActionAttemptCommand) (current : ActionAttempt) : Type 0 where
  pub valid : validate_recover c ≡ none
  pub pending : current.status ≡ started
  pub newer : current.key.fencing_token < c.key.fencing_token
  pub ordered : current.started_at ≤ c.recovered_at

complete_change :
    (P : MemoryActionAttemptStore → Type 0) (ctx : Context) (c : CompleteActionAttemptCommand)
    (s : MemoryActionAttemptStore)
    → P s
    → ((x : ActionAttempt)
        → attempt_of (action_key c.key) s ≡ some x
        → Completes c x
        → P (put (action_key c.key) (completed x c) s))
    → P (final (complete ctx c) s)
unfolding complete
complete_change P ctx c s same new = elim (Option-cases (attempt_of (action_key c.key) s)) [
  | inl e ↦ ground arith
  | inr (x, e) ↦ ground (arith, new x e)
]

recover_change :
    (P : MemoryActionAttemptStore → Type 0) (ctx : Context) (c : RecoverActionAttemptCommand)
    (s : MemoryActionAttemptStore)
    → P s
    → ((x : ActionAttempt)
        → attempt_of (action_key c.key) s ≡ some x
        → Recovers c x
        → P (put (action_key c.key) (recovered x c) s))
    → P (final (recover ctx c) s)
unfolding recover
recover_change P ctx c s same new = elim (Option-cases (attempt_of (action_key c.key) s)) [
  | inl e ↦ ground arith
  | inr (x, e) ↦ ground (arith, new x e)
]

module _ (digest : String → String) where
  pub data Change (s t : MemoryActionAttemptStore) : Type 0 where
    unchanged : t ≡ s → Change s t
    begun :
        (c : BeginActionAttemptCommand)
        → validate_begin c ≡ none
        → attempt_of (action_key c.key) s ≡ none
        → t ≡ put (action_key c.key) (new_attempt digest c) s
        → Change s t
    ended :
        (c : CompleteActionAttemptCommand) (current : ActionAttempt)
        → attempt_of (action_key c.key) s ≡ some current
        → Completes c current
        → t ≡ put (action_key c.key) (completed current c) s
        → Change s t
    given_up :
        (c : RecoverActionAttemptCommand) (current : ActionAttempt)
        → attempt_of (action_key c.key) s ≡ some current
        → Recovers c current
        → t ≡ put (action_key c.key) (recovered current c) s
        → Change s t

  unfoldable pub step : Call → MemoryActionAttemptStore → MemoryActionAttemptStore
  step (begins ctx c) s = final (begin digest ctx c) s
  step (completes ctx c) s = final (complete ctx c) s
  step (recovers ctx c) s = final (recover ctx c) s

  unfoldable pub run : List Call → MemoryActionAttemptStore → MemoryActionAttemptStore
  run [] s = s
  run (call ∷ calls) s = run calls (step call s)

  begin_change :
      (P : MemoryActionAttemptStore → Type 0) (ctx : Context) (c : BeginActionAttemptCommand)
      (s : MemoryActionAttemptStore)
      → P s
      → (validate_begin c ≡ none
          → attempt_of (action_key c.key) s ≡ none
          → P (put (action_key c.key) (new_attempt digest c) s))
      → P (final (begin digest ctx c) s)
  unfolding begin
  begin_change P ctx c s same new = ground arith

  -- Whatever a call returns, it leaves the store, begins an attempt that was not there, ends a
  -- started attempt for its owner, or gives one up for the holder of a larger token.
  pub step-Change : (call : Call) (s : MemoryActionAttemptStore) → Change s (step call s)
  unfolding step
  step-Change (begins ctx c) s =
      begin_change (Change s) ctx c s (unchanged refl) (λ v n. begun c v n refl)
  step-Change (completes ctx c) s =
      complete_change (Change s) ctx c s (unchanged refl) (λ x e h. ended c x e h refl)
  step-Change (recovers ctx c) s =
      recover_change (Change s) ctx c s (unchanged refl) (λ x e h. given_up c x e h refl)

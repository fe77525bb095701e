-- ===== src/Remediation/Attempt/Invariant.antt =====
-- internal/remediation/action_attempt_store.go: the fields of an attempt, status by status.
use sre_agent_gitops.Prelude.{
  List, Option, String, Time, [], arith, false, is_blank, none, some, true, ◌<◌, ◌∷◌, ◌≡◌, ◌≤◌,
}
use sre_agent_gitops.Remediation.Keys.{ActionKey, action_key, action_key_eqb_iff}
use sre_agent_gitops.Remediation.Attempt.{
  ActionAttempt, ActionAttemptStatus, BeginActionAttemptCommand, CompleteActionAttemptCommand,
  RecoverActionAttemptCommand, failed, other, started, succeeded, unknown, validate_begin,
  validate_complete, validate_recover,
}
use sre_agent_gitops.Remediation.Attempt.Store.{
  MemoryActionAttemptStore, attempt_of, completed, new_attempt, put, recovered,
}
use sre_agent_gitops.Remediation.Attempt.Steps.{
  Call, Change, Completes, Recovers, begun, ended, given_up, lookup-put, run, step, step-Change,
  unchanged,
}

-- An attempt ends no earlier than it started.
abbrev EndedAfter : Time → Option Time → Type 0
EndedAfter start none = ⊥
EndedAfter start (some t) = start ≤ t

-- What the fields say, status by status.
abbrev Outcome : ActionAttemptStatus → ActionAttempt → Type 0
Outcome started a = (a.version ≡ 1) × (a.finished_at ≡ none) × (a.recovered_by_fencing_token ≡ 0)
Outcome succeeded a =
    (a.version ≡ 2)
    × EndedAfter a.started_at a.finished_at
    × (is_blank a.error_code ≡ true)
    × (a.recovered_by_fencing_token ≡ 0)
Outcome failed a =
    (a.version ≡ 2)
    × EndedAfter a.started_at a.finished_at
    × (is_blank a.error_code ≡ false)
    × (a.recovered_by_fencing_token ≡ 0)
Outcome unknown a =
    (a.version ≡ 2)
    × EndedAfter a.started_at a.finished_at
    × (is_blank a.error_code ≡ false)
    × (a.key.fencing_token < a.recovered_by_fencing_token)
Outcome (other s) a = ⊥

pub record IsSound (key : ActionKey) (a : ActionAttempt) : Type 0 where
  pub keyed : action_key a.key ≡ key
  pub owned : 0 < a.key.fencing_token
  pub dated : 0 < a.started_at
  pub outcome : Outcome a.status a

-- At a key there is no attempt, or a sound one.
abbrev SoundAt : ActionKey → Option ActionAttempt → Type 0
SoundAt k none = Unit {0}
SoundAt k (some a) = IsSound k a

abbrev pub AllSound : MemoryActionAttemptStore → Type 0
AllSound s = (k : ActionKey) → SoundAt k (attempt_of k s)

put-AllSound :
    (k : ActionKey) (a : ActionAttempt) (s : MemoryActionAttemptStore)
    → IsSound k a
    → AllSound s
    → AllSound (put k a s)
put-AllSound k a s new h j = rw (lookup-put k j a s) (ground (arith, action_key_eqb_iff k j, h j))

module _ (digest : String → String) where
  new-IsSound :
      (c : BeginActionAttemptCommand)
      → validate_begin c ≡ none
      → IsSound (action_key c.key) (new_attempt digest c)
  unfolding validate_begin
  new-IsSound c v = ground arith

completed-IsSound :
    (c : CompleteActionAttemptCommand) (x : ActionAttempt)
    → Completes c x
    → IsSound (action_key c.key) x
    → IsSound (action_key c.key) (completed x c)
unfolding validate_complete
completed-IsSound c x d h = ground arith

recovered-IsSound :
    (c : RecoverActionAttemptCommand) (x : ActionAttempt)
    → Recovers c x
    → IsSound (action_key c.key) x
    → IsSound (action_key c.key) (recovered x c)
unfolding validate_recover
recovered-IsSound c x d h = ground arith

module _ (digest : String → String) where
  change-AllSound : (s t : MemoryActionAttemptStore) → Change digest s t → AllSound s → AllSound t
  change-AllSound s t (unchanged e) h = rw e h
  change-AllSound s t (begun c v n e) h =
      rw e (put-AllSound (action_key c.key) (new_attempt digest c) s (new-IsSound digest c v) h)
  change-AllSound s t (ended c x f d e) h = rw e (
      put-AllSound (action_key c.key) (completed x c) s
        (completed-IsSound c x d (rw f at (h (action_key c.key)))) h)
  change-AllSound s t (given_up c x f d e) h = rw e (
      put-AllSound (action_key c.key) (recovered x c) s
        (recovered-IsSound c x d (rw f at (h (action_key c.key)))) h)

  -- Every run of calls keeps the attempts sound: each stands at its own key, has an owner and a
  -- start, and its version, end, error code and recovering token fit its status. A started attempt
  -- has version 1 and no end; an ended one has version 2 and ends no earlier than it started; only a
  -- given-up attempt names a recovering token, which exceeds its owner's.
  pub attempts-AllSound :
      (calls : List Call) (s : MemoryActionAttemptStore)
      → AllSound s
      → AllSound (run digest calls s)
  unfolding run
  attempts-AllSound [] s h = h
  attempts-AllSound (c ∷ cs) s h =
      attempts-AllSound cs (step digest c s)
        (change-AllSound s (step digest c s) (step-Change digest c s) h)

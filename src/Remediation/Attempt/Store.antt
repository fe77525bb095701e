-- ===== src/Remediation/Attempt/Store.antt =====
-- internal/remediation/action_attempt_store.go: the methods of `MemoryActionAttemptStore`. The copies
-- that the methods return are values here, so `cloneActionAttempt` has no counterpart.
use mathlib.Core.Option
use sre_agent_gitops.Prelude.{
  Bool, Context, Option, String, Time, [], before, concat, false, if◌then◌else◌, join_nul, leb,
  nat_eq, next_u64, none, some, text_eq, true, ℕ, ◌!=◌, ◌&&◌, ◌==◌, ◌∷◌,
}
use sre_agent_gitops.Prelude.Dict.{Dict, insert, lookup}
use sre_agent_gitops.Prelude.Method.{
  Method, Result, err, fail_if, fail_on, lift, ok, reads, returns, some_or, writes, ◌>>=◌, ◌>>◌,
}
use sre_agent_gitops.Remediation.Keys.{
  ActionKey, Error, action_attempt_fencing_conflict, action_attempt_not_found,
  action_attempt_version_conflict, action_key, action_key_eq, context, invalid_action_attempt,
  invalid_action_attempt_transition,
}
use sre_agent_gitops.Remediation.Attempt.{
  ActionAttempt, BeginActionAttemptCommand, CompleteActionAttemptCommand,
  RecoverActionAttemptCommand, started, status_eq, unknown, validate_begin, validate_complete,
  validate_recover,
}

pub record MemoryActionAttemptStore : Type 0 where
  pub attempts : Dict ActionKey ActionAttempt

abbrev pub new_memory_action_attempt_store : MemoryActionAttemptStore
new_memory_action_attempt_store = record { attempts = [] }

-- `ctx.Err()`, the `k`-th time
abbrev check : Context → ℕ → Method MemoryActionAttemptStore Error Unit
check ctx k = fail_on (Option.map context (ctx k))

abbrev pub attempt_of : ActionKey → MemoryActionAttemptStore → Option ActionAttempt
attempt_of key store = lookup key store.attempts

abbrev pub put : ActionKey → ActionAttempt → MemoryActionAttemptStore → MemoryActionAttemptStore
put key attempt store = record store { attempts = insert key attempt store.attempts }

-- `existing.FinishedAt != nil && existing.FinishedAt.Equal(at)`
abbrev finished_exactly : Option Time → Time → Bool
finished_exactly none at = false
finished_exactly (some t) at = t == at

unfoldable pub completion_matches : ActionAttempt → CompleteActionAttemptCommand → Bool
completion_matches current command =
    current.status == command.to
    && current.key.fencing_token == command.key.fencing_token
    && finished_exactly current.finished_at command.finished_at
    && current.error_code == command.error_code
    && current.recovered_by_fencing_token == 0

unfoldable pub recovery_matches : ActionAttempt → RecoverActionAttemptCommand → Bool
recovery_matches current command =
    current.status == unknown
    && finished_exactly current.finished_at command.recovered_at
    && current.error_code == command.reason_code
    && current.recovered_by_fencing_token == command.key.fencing_token

-- `digest` gives the first 12 bytes of the SHA-256 of a text, in hexadecimal.
module _ (digest : String → String) where
  unfoldable pub action_attempt_id_for : ActionKey → String
  action_attempt_id_for key =
      concat
        ("att-" ∷ digest (join_nul (key.incident_id ∷ key.plan_hash ∷ key.target_uid ∷ [])) ∷ [])

  abbrev pub new_attempt : BeginActionAttemptCommand → ActionAttempt
  new_attempt command = record {
    id = action_attempt_id_for (action_key command.key);
    key = command.key;
    status = started;
    version = 1;
    started_at = command.started_at;
    finished_at = none;
    error_code = "";
    recovered_by_fencing_token = 0;
  }

  unfoldable pub new_action_attempt : BeginActionAttemptCommand → Result Error ActionAttempt
  new_action_attempt command = elim (validate_begin command) [
    | some e ↦ err e
    | none ↦ ok (new_attempt command)
  ]

  abbrev begin_at :
      ActionAttempt
      → Option ActionAttempt
      → Method MemoryActionAttemptStore Error (ActionAttempt × Bool)
  begin_at attempt (some existing) = returns (existing, false)
  begin_at attempt none = do writes (put (action_key attempt.key) attempt); returns (attempt, true)

  unfoldable pub begin :
      Context
      → BeginActionAttemptCommand
      → Method MemoryActionAttemptStore Error (ActionAttempt × Bool)
  unfolding new_action_attempt
  begin ctx command = do
    check ctx 0
    attempt ← lift (new_action_attempt command)
    check ctx 1
    existing ← reads (attempt_of (action_key command.key))
    begin_at attempt existing

abbrev pub completed : ActionAttempt → CompleteActionAttemptCommand → ActionAttempt
completed current command = record current {
  status = command.to;
  version = next_u64 current.version;
  finished_at = some command.finished_at;
  error_code = command.error_code;
  recovered_by_fencing_token = 0;
}

-- what `Complete` does once it has found the attempt
abbrev complete_at :
    CompleteActionAttemptCommand
    → ActionAttempt
    → Method MemoryActionAttemptStore Error ActionAttempt
complete_at command current = do
  fail_if (current.key.fencing_token != command.key.fencing_token) action_attempt_fencing_conflict
  if completion_matches current command then returns current else do
    fail_if (current.version != command.expected_version) action_attempt_version_conflict
    fail_if (current.status != started) invalid_action_attempt_transition
    fail_if (before command.finished_at current.started_at)
        (invalid_action_attempt "finish time precedes start time")
    writes (put (action_key command.key) (completed current command))
    returns (completed current command)

unfoldable pub complete :
    Context → CompleteActionAttemptCommand → Method MemoryActionAttemptStore Error ActionAttempt
complete ctx command = do
  check ctx 0
  fail_on (validate_complete command)
  check ctx 1
  found ← reads (attempt_of (action_key command.key))
  current ← some_or found action_attempt_not_found
  complete_at command current

abbrev pub recovered : ActionAttempt → RecoverActionAttemptCommand → ActionAttempt
recovered current command = record current {
  status = unknown;
  version = next_u64 current.version;
  finished_at = some command.recovered_at;
  error_code = command.reason_code;
  recovered_by_fencing_token = command.key.fencing_token;
}

-- what `Recover` does once it has found the attempt
abbrev recover_at :
    RecoverActionAttemptCommand
    → ActionAttempt
    → Method MemoryActionAttemptStore Error (ActionAttempt × Bool)
recover_at command current =
    if recovery_matches current command then returns (current, false) else do
      fail_if (current.status != started) invalid_action_attempt_transition
      fail_if (leb command.key.fencing_token current.key.fencing_token)
          action_attempt_fencing_conflict
      fail_if (before command.recovered_at current.started_at)
          (invalid_action_attempt "recovery time precedes start time")
      writes (put (action_key command.key) (recovered current command))
      returns (recovered current command, true)

unfoldable pub recover :
    Context
    → RecoverActionAttemptCommand
    → Method MemoryActionAttemptStore Error (ActionAttempt × Bool)
recover ctx command = do
  check ctx 0
  fail_on (validate_recover command)
  check ctx 1
  found ← reads (attempt_of (action_key command.key))
  current ← some_or found action_attempt_not_found
  recover_at command current

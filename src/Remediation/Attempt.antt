-- ===== src/Remediation/Attempt.antt =====
-- internal/remediation/action_attempt_store.go: one attempt for each action, owned by the holder of
-- a fencing token, completed once or taken over by the holder of a larger token. This file has the
-- data and the validation of commands; the store is in `Store`.
pub mod Store
pub mod Steps
pub mod Retries
pub mod Finality
pub mod Invariant
use sre_agent_gitops.Prelude.{
  Bool, Eq, Option, String, Time, arith, eq_iff, false, if◌then◌else◌, is_blank, is_zero_time,
  nat_eq, none, some, text_eq, true, zero, ℕ, ◌==◌, ◌↔◌, ◌≡◌,
}
use sre_agent_gitops.Prelude.Method.{first_error}
use sre_agent_gitops.Remediation.Keys.{
  Error, ExecutionKey, invalid_action_attempt, invalid_action_attempt_transition,
  validate_execution_key,
}

-- `other` is a text that none of the constants spells.
pub data ActionAttemptStatus : Type 0 where
  started succeeded failed unknown : ActionAttemptStatus
  other : String → ActionAttemptStatus

abbrev status_eqb : ActionAttemptStatus → ActionAttemptStatus → Bool
status_eqb started started = true
status_eqb succeeded succeeded = true
status_eqb failed failed = true
status_eqb unknown unknown = true
status_eqb (other s) (other t) = s == t
status_eqb _ _ = false

pub status_eqb_iff : (a b : ActionAttemptStatus) → (status_eqb a b ≡ true) ↔ (a ≡ b)
status_eqb_iff (other s) (other t) = ground (arith, eq_iff s t)
status_eqb_iff a b = ground arith

instance abbrev pub status_eq : Eq ActionAttemptStatus
status_eq = record { eqb = status_eqb; eqb_iff = status_eqb_iff }

pub record ActionAttempt : Type 0 where
  pub id : String
  pub key : ExecutionKey
  pub status : ActionAttemptStatus
  pub version : ℕ  -- uint64
  pub started_at : Time
  pub finished_at : Option Time
  pub error_code : String
  pub recovered_by_fencing_token : ℕ  -- uint64

pub record BeginActionAttemptCommand : Type 0 where
  pub key : ExecutionKey
  pub started_at : Time

pub record CompleteActionAttemptCommand : Type 0 where
  pub key : ExecutionKey
  pub expected_version : ℕ  -- uint64
  pub to : ActionAttemptStatus
  pub finished_at : Time
  pub error_code : String

pub record RecoverActionAttemptCommand : Type 0 where
  pub key : ExecutionKey
  pub recovered_at : Time
  pub reason_code : String

unfoldable pub validate_begin : BeginActionAttemptCommand → Option Error
unfolding validate_execution_key
validate_begin command = first_error (validate_execution_key command.key) (
    if is_zero_time command.started_at
    then some (invalid_action_attempt "start time is required")
    else none)

-- the `switch command.To`
abbrev validate_outcome : ActionAttemptStatus → String → Option Error
validate_outcome succeeded code =
    if is_blank code
    then none
    else some (invalid_action_attempt "successful attempt cannot have an error code")
validate_outcome failed code =
    if is_blank code
    then some (invalid_action_attempt "failed attempt requires an error code")
    else none
validate_outcome _ code = some invalid_action_attempt_transition

unfoldable pub validate_complete : CompleteActionAttemptCommand → Option Error
unfolding validate_execution_key
validate_complete command = first_error (validate_execution_key command.key) (
    if command.expected_version == 0
    then some (invalid_action_attempt "expected version must be greater than zero")
    else first_error (validate_outcome command.to command.error_code) (
        if is_zero_time command.finished_at
        then some (invalid_action_attempt "finish time is required")
        else none))

unfoldable pub validate_recover : RecoverActionAttemptCommand → Option Error
unfolding validate_execution_key
validate_recover command = first_error (validate_execution_key command.key) (
    if is_zero_time command.recovered_at
    then some (invalid_action_attempt "recovery time is required")
    else if is_blank command.reason_code
    then some (invalid_action_attempt "recovery reason code is required")
    else none)

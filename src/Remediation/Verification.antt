-- ===== src/Remediation/Verification.antt =====
-- internal/remediation/verification_store.go: whether the target of an ended action attempt has
-- recovered. This file has the data and the validation of commands; the store is in `Store`.
pub mod Store
pub mod Steps
pub mod Retries
pub mod Finality
pub mod Invariant
pub mod Evidence
pub mod Listing
use sre_agent_gitops.Prelude.{
  Bool, Eq, Option, String, Time, arith, before, eq_iff, false, if◌then◌else◌, is_blank,
  is_positive, is_zero_time, nat_eq, none, not, some, text_eq, true, ℤ, ◌&&◌, ◌==◌, ◌||◌, ◌↔◌, ◌≡◌,
}
use sre_agent_gitops.Remediation.Keys.{ActionKey, Error, action_key, invalid_verification}
use sre_agent_gitops.Remediation.Attempt.{
  ActionAttempt, ActionAttemptStatus, failed, succeeded, unknown,
}

-- `other` is a text that none of the constants spells.
pub data VerificationStatus : Type 0 where
  pending recovered not_recovered inconclusive : VerificationStatus
  other : String → VerificationStatus

abbrev pub status_eqb : VerificationStatus → VerificationStatus → Bool
status_eqb pending pending = true
status_eqb recovered recovered = true
status_eqb not_recovered not_recovered = true
status_eqb inconclusive inconclusive = true
status_eqb (other s) (other t) = s == t
status_eqb _ _ = false

pub status_eqb_iff : (a b : VerificationStatus) → (status_eqb a b ≡ true) ↔ (a ≡ b)
status_eqb_iff (other s) (other t) = ground (arith, eq_iff s t)
status_eqb_iff a b = ground arith

instance abbrev pub verification_status_eq : Eq VerificationStatus
verification_status_eq = record { eqb = status_eqb; eqb_iff = status_eqb_iff }

pub record VerificationSubject : Type 0 where
  pub cluster : String
  pub namespace : String
  pub kind : String
  pub name : String
  pub uid : String

unfoldable pub subject_eqb : VerificationSubject → VerificationSubject → Bool
subject_eqb a b =
    a.cluster == b.cluster
    && a.namespace == b.namespace
    && a.kind == b.kind
    && a.name == b.name
    && a.uid == b.uid

pub subject_eqb_iff : (a b : VerificationSubject) → (subject_eqb a b ≡ true) ↔ (a ≡ b)
unfolding subject_eqb
subject_eqb_iff a b = ground (
  arith,
  eq_iff a.cluster b.cluster,
  eq_iff a.namespace b.namespace,
  eq_iff a.kind b.kind,
  eq_iff a.name b.name,
  eq_iff a.uid b.uid,
)

instance abbrev pub subject_eq : Eq VerificationSubject
subject_eq = record { eqb = subject_eqb; eqb_iff = subject_eqb_iff }

unfoldable pub validate_subject : VerificationSubject → Option Error
validate_subject subject =
    if is_blank subject.cluster
    then some (invalid_verification "verification subject cluster is required")
    else if is_blank subject.namespace
    then some (invalid_verification "verification subject namespace is required")
    else if is_blank subject.kind
    then some (invalid_verification "verification subject kind is required")
    else if is_blank subject.name
    then some (invalid_verification "verification subject name is required")
    else if is_blank subject.uid
    then some (invalid_verification "verification subject UID is required")
    else none

pub record Verification : Type 0 where
  pub id : String
  pub action_attempt_id : String
  pub action_key : ActionKey
  pub status : VerificationStatus
  pub subject : VerificationSubject
  pub version : ℤ  -- int64
  pub started_at : Time
  pub finished_at : Option Time
  pub evidence_code : String

pub record BeginVerificationCommand : Type 0 where
  pub action_attempt : ActionAttempt
  pub subject : VerificationSubject
  pub started_at : Time

pub record CompleteVerificationCommand : Type 0 where
  pub action_key : ActionKey
  pub expected_version : ℤ  -- int64
  pub to : VerificationStatus
  pub finished_at : Time
  pub evidence_code : String

unfoldable pub invalid_verification_action_key : ActionKey → Bool
invalid_verification_action_key key =
    is_blank key.incident_id || is_blank key.plan_hash || is_blank key.target_uid

-- The errors that carry no text of their own.
abbrev pub bare : Error
bare = invalid_verification ""

-- the `switch command.ActionAttempt.Status`
abbrev has_ended : ActionAttemptStatus → Bool
has_ended ActionAttemptStatus.succeeded = true
has_ended ActionAttemptStatus.failed = true
has_ended ActionAttemptStatus.unknown = true
has_ended _ = false

-- what follows the check that `FinishedAt` is not nil, which comes with the others of its `if`
abbrev validate_begin_after : BeginVerificationCommand → Option Time → Option Error
validate_begin_after command none = some bare
validate_begin_after command (some finished_at) =
    if is_zero_time command.started_at
    then some bare
    else if not (has_ended command.action_attempt.status)
    then some bare
    else if before command.started_at finished_at
    then some bare
    else validate_subject command.subject

unfoldable pub validate_begin : BeginVerificationCommand → Option Error
unfolding invalid_verification_action_key
validate_begin command =
    if invalid_verification_action_key (action_key command.action_attempt.key)
      || is_blank command.action_attempt.id
      || command.action_attempt.key.fencing_token == 0
      || command.action_attempt.version == 0
    then some bare
    else validate_begin_after command command.action_attempt.finished_at

-- the `switch command.To`
abbrev is_outcome : VerificationStatus → Bool
is_outcome recovered = true
is_outcome not_recovered = true
is_outcome inconclusive = true
is_outcome _ = false

unfoldable pub validate_complete : CompleteVerificationCommand → Option Error
unfolding invalid_verification_action_key
validate_complete command =
    if invalid_verification_action_key command.action_key
      || not (is_positive command.expected_version)
      || is_zero_time command.finished_at
      || is_blank command.evidence_code
    then some bare
    else if is_outcome command.to
    then none
    else some bare

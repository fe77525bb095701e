-- ===== src/Incident.antt =====
-- internal/incident: the states and commands of the incident registry, and its errors.
pub mod Stores
pub mod Rules
pub mod Registry
pub mod Fence
pub mod Passing
pub mod Lifecycle
pub mod Scheduler
pub mod Calls
pub mod Scheduling
pub mod Changes
pub mod Failures
pub mod Steps
pub mod Evolution
pub mod Invariant
pub mod Histories
pub mod Leases
pub mod Fencing
pub mod Resolution
pub mod Observing
use sre_agent_gitops.Prelude.{
  Bool, ContextError, Duration, Eq, Option, String, Time, arith, eq_iff, false, if◌then◌else◌,
  is_blank, is_positive, is_zero_time, nat_eq, none, not, some, text_eq, true, zero, ℕ, ◌&&◌, ◌==◌,
  ◌↔◌, ◌≡◌,
}
use sre_agent_gitops.Remediation.Keys.{Error as RemediationError}

-- `other` is a text that none of the constants spells.
pub data State : Type 0 where
  detected diagnosed waiting_approval verifying resolved : State
  other : String → State

abbrev pub state_eqb : State → State → Bool
state_eqb detected detected = true
state_eqb diagnosed diagnosed = true
state_eqb waiting_approval waiting_approval = true
state_eqb verifying verifying = true
state_eqb resolved resolved = true
state_eqb (other s) (other t) = s == t
state_eqb _ _ = false

pub state_eqb_iff : (a b : State) → (state_eqb a b ≡ true) ↔ (a ≡ b)
state_eqb_iff (other s) (other t) = ground (arith, eq_iff s t)
state_eqb_iff a b = ground arith

instance abbrev pub state_eq : Eq State
state_eq = record { eqb = state_eqb; eqb_iff = state_eqb_iff }

-- A text is what the message says behind the sentinel, less the values that are put into it.
pub data Error : Type 0 where
  context : ContextError → Error
  -- an error that wraps no sentinel
  not_found : Error
  invalid_observation : String → Error
  invalid_transition : String → Error
  version_conflict : Error
  lease_held : Error
  invalid_claim : String → Error
  invalid_resolution : String → Error
  recovery_evidence_unavailable : Error
  invalid_fenced_verification : String → Error
  -- `%v` of what the validation of the inner command says
  invalid_verification_command : RemediationError → Error
  verification_fence_conflict : String → Error
  verification_lifecycle_unavailable : Error
  verification_incident_not_found : Error
  invalid_verification_incident_state : Error
  invalid_pending_verification_claim : String → Error
  pending_verification_scheduler_unavailable : Error
  invalid_recovered_verification_resolution_claim : String → Error
  recovered_verification_resolution_scheduler_unavailable : Error
  -- `%w` of an error of a store, behind a text
  wraps : String → RemediationError → Error

pub record Target : Type 0 where
  pub kind : String
  pub namespace : String
  pub name : String
  pub uid : String

pub record Observation : Type 0 where
  pub source : String
  pub cluster : String
  pub alert_name : String
  pub target : Target

pub record ApprovalBinding : Type 0 where
  pub plan_hash : String
  pub target_uid : String

abbrev pub no_binding : ApprovalBinding
no_binding = record { plan_hash = ""; target_uid = "" }

unfoldable pub binding_eqb : ApprovalBinding → ApprovalBinding → Bool
binding_eqb a b = a.plan_hash == b.plan_hash && a.target_uid == b.target_uid

pub record Incident : Type 0 where
  pub id : String
  pub state : State
  pub version : ℕ  -- uint64
  pub approval_binding : ApprovalBinding
  pub resolution_verification_id : String
  pub idempotency_key : String

pub record Claim : Type 0 where
  pub incident : Incident
  pub holder_id : String
  pub expires_at : Time

pub record ClaimAuditEvent : Type 0 where
  pub incident_id : String
  pub incident_version : ℕ  -- uint64
  pub holder_id : String
  pub acquired_at : Time
  pub expires_at : Time

pub record TransitionCommand : Type 0 where
  pub incident_id : String
  pub expected_version : ℕ  -- uint64
  pub to : State
  pub actor : String
  pub reason_code : String
  pub approval_binding : ApprovalBinding

pub record ClaimCommand : Type 0 where
  pub incident_id : String
  pub expected_version : ℕ  -- uint64
  pub holder_id : String
  pub now : Time
  pub lease_duration : Duration

pub record ResolveCommand : Type 0 where
  pub incident_id : String
  pub expected_version : ℕ  -- uint64
  pub verification_id : String
  pub holder_id : String
  pub now : Time
  pub actor : String
  pub reason_code : String

unfoldable pub validate_resolve : ResolveCommand → Option Error
validate_resolve command =
    if is_blank command.incident_id
    then some (invalid_resolution "incident ID is required")
    else if command.expected_version == 0
    then some (invalid_resolution "expected version must be positive")
    else if is_blank command.verification_id
    then some (invalid_resolution "verification ID is required")
    else if is_blank command.holder_id
    then some (invalid_resolution "holder ID is required")
    else if is_zero_time command.now
    then some (invalid_resolution "current time is required")
    else if is_blank command.actor
    then some (invalid_resolution "actor is required")
    else if is_blank command.reason_code
    then some (invalid_resolution "reason code is required")
    else none

unfoldable pub validate_claim : ClaimCommand → Option Error
validate_claim command =
    if is_blank command.incident_id
    then some (invalid_claim "incident ID is required")
    else if command.expected_version == 0
    then some (invalid_claim "expected version must be greater than zero")
    else if is_blank command.holder_id
    then some (invalid_claim "holder ID is required")
    else if is_zero_time command.now
    then some (invalid_claim "current time is required")
    else if not (is_positive command.lease_duration)
    then some (invalid_claim "lease duration must be greater than zero")
    else none

unfoldable pub validate_transition : TransitionCommand → Option Error
validate_transition command =
    if is_blank command.actor
    then some (invalid_transition "actor is required")
    else if is_blank command.reason_code
    then some (invalid_transition "reason code is required")
    else if command.to == waiting_approval
    then (if is_blank command.approval_binding.plan_hash
        then some (invalid_transition "approval plan hash is required")
        else if is_blank command.approval_binding.target_uid
        then some (invalid_transition "approval target UID is required")
        else none)
    else if not (binding_eqb command.approval_binding no_binding)
    then some (invalid_transition "approval binding is only allowed for WAITING_APPROVAL")
    else none

-- ===== src/Agent/Action.antt =====
-- agent_action_attempt.go, agent_verification.go and waiting_approval.go: an approved action, from the
-- plan to the verification that it begins. The agent's stores are the ones in memory. What is logged
-- is not modelled, but for the error code: an error is the code that it is logged with, or the text
-- of an error that is only passed on, less the values that are put into it.
pub mod Attempting
pub mod Resuming
pub mod Extending
pub mod Safety
pub mod Beginning
pub mod Once
pub mod Interleaving
pub mod Weighing
pub mod Histories
pub mod Authorizing
use sre_agent_gitops.Prelude.{
  Bool, Context, List, Option, String, Time, ℕ, some, not, is_blank, ◌!=◌, ◌==◌, text_eq, nat_eq,
}
use sre_agent_gitops.Prelude.Method.{
  Method, Result, err, fail_if, fail_on, ok, returns, ◌>>=◌, ◌>>◌,
}
use sre_agent_gitops.Incident.{
  Error, Incident, invalid_fenced_verification, invalid_verification_incident_state, state_eq,
  verification_fence_conflict, verification_lifecycle_unavailable, verifying, version_conflict,
}
use sre_agent_gitops.Incident.Registry.{Registry}
use sre_agent_gitops.Incident.Lifecycle.{begin_fenced_verification, BeginFencedVerificationCommand}
use sre_agent_gitops.Remediation.Attempt.{ActionAttempt}
use sre_agent_gitops.Remediation.Attempt.Store.{MemoryActionAttemptStore}
use sre_agent_gitops.Remediation.Verification.{
  BeginVerificationCommand, Verification, VerificationSubject, pending, validate_begin,
  validate_subject, verification_status_eq,
}
use sre_agent_gitops.Remediation.Verification.Store.{MemoryVerificationStore}
use sre_agent_gitops.Approval.{Plan}
use sre_agent_gitops.Approval.Store.{MemoryStore}
use sre_agent_gitops.Approval.PlanStore.{MemoryPlanStore}
use sre_agent_gitops.Agent.Config.{AgentConfig}
use sre_agent_gitops.Agent.Memory.{RemediationMemory}
use mathlib.Core.Option

-- What the agent's calls change: the stores behind it, and what it has had Kubernetes delete, the
-- plan of each request, the last first.
pub record World : Type 0 where
  pub incidents : Registry MemoryVerificationStore
  pub plans : MemoryPlanStore
  pub approvals : MemoryStore
  pub attempts : MemoryActionAttemptStore
  pub memory : RemediationMemory
  pub deletions : List Plan

-- The configuration, and which of its stores and clients the agent has.
pub record ActionAgent : Type 0 where
  pub config : AgentConfig
  pub has_plans : Bool
  pub has_approvals : Bool
  pub has_action_attempts : Bool
  pub has_verification_lifecycle : Bool
  pub has_kubernetes : Bool

-- What one action gets from without: the answers of the context that each call gets, the readings of
-- the clock, and what Kubernetes answers to the request. No two readings are related, so each call
-- has one of its own, whether or not the calls before it were made.
pub record Given : Type 0 where
  pub ctx : ℕ → Context
  pub now : ℕ → Time
  pub delete_error : Option String

-- the outcome of a method of a part of the world
abbrev pub placed :
    {S E A : Type 0}
    → (S → World → World)
    → (E → String)
    → World
    → Result E A × S
    → Result String A × World
placed set code w (ok a, s) = (ok a, set s w)
placed set code w (err e, s) = (err (code e), set s w)

abbrev pub on_incidents :
    {E A : Type 0}
    → (E → String)
    → Method (Registry MemoryVerificationStore) E A
    → Method World String A
on_incidents code m w = placed (λ s v. record v { incidents = s }) code w (m w.incidents)

abbrev pub on_plans :
    {E A : Type 0} → (E → String) → Method MemoryPlanStore E A → Method World String A
on_plans code m w = placed (λ s v. record v { plans = s }) code w (m w.plans)

abbrev pub on_approvals :
    {E A : Type 0} → (E → String) → Method MemoryStore E A → Method World String A
on_approvals code m w = placed (λ s v. record v { approvals = s }) code w (m w.approvals)

abbrev pub on_attempts :
    {E A : Type 0} → (E → String) → Method MemoryActionAttemptStore E A → Method World String A
on_attempts code m w = placed (λ s v. record v { attempts = s }) code w (m w.attempts)

abbrev pub on_memory :
    {E A : Type 0} → (E → String) → Method RemediationMemory E A → Method World String A
on_memory code m w = placed (λ s v. record v { memory = s }) code w (m w.memory)

-- whatever the error, this code
abbrev pub coded : {E : Type 0} → String → E → String
coded code e = code

-- The error code for an error of the lifecycle.
abbrev pub lifecycle_error_code : Error → String
lifecycle_error_code (verification_fence_conflict text) = "INCIDENT_VERIFYING_FENCE_CONFLICT"
lifecycle_error_code version_conflict = "INCIDENT_VERIFYING_FENCE_CONFLICT"
lifecycle_error_code verification_lifecycle_unavailable = "VERIFICATION_STORE_UNAVAILABLE"
lifecycle_error_code invalid_verification_incident_state = "INCIDENT_VERIFYING_TRANSITION_FAILED"
lifecycle_error_code (invalid_fenced_verification text) = "VERIFICATION_BEGIN_FAILED"
lifecycle_error_code e = "VERIFICATION_BEGIN_FAILED"

abbrev pub begin_verification_command :
    ActionAttempt → VerificationSubject → Time → BeginVerificationCommand
begin_verification_command attempt subject started_at = record {
  action_attempt = attempt;
  subject = subject;
  started_at = started_at;
}

module _ (agent : ActionAgent) where
  abbrev fenced_command : Incident → ℕ → BeginVerificationCommand → BeginFencedVerificationCommand
  fenced_command current expected_version command = record {
    incident_id = current.id;
    expected_version = expected_version;
    holder_id = agent.config.incident_claim_holder_id;
    now = command.started_at;
    reason_code = "ACTION_ATTEMPT_TERMINAL";
    verification = command;
  }

  -- what is refused before the lifecycle is called
  abbrev check_verification : Incident → ℕ → BeginVerificationCommand → Method World String Unit
  check_verification current expected_version command = do
    fail_if (not agent.has_verification_lifecycle) "VERIFICATION_STORE_UNAVAILABLE"
    fail_if (is_blank agent.config.incident_claim_holder_id) "INCIDENT_VERIFYING_TRANSITION_FAILED"
    fail_if (expected_version == 0) "INCIDENT_VERIFYING_FENCE_CONFLICT"
    fail_if (command.action_attempt.key.incident_id != current.id) "VERIFICATION_BEGIN_FAILED"
    fail_on (Option.map (λ _. "VERIFICATION_SUBJECT_INVALID") (validate_subject command.subject))
    fail_on (Option.map (λ _. "VERIFICATION_BEGIN_FAILED") (validate_begin command))

  -- `beginVerification`, with its context and its reading of the clock
  unfoldable pub begin_verification :
      Context
      → Time
      → Incident
      → ActionAttempt
      → ℕ
      → VerificationSubject
      → Method World String Verification
  begin_verification ctx started_at current attempt expected_version subject = do
    let command = begin_verification_command attempt subject started_at
    check_verification current expected_version command
    begun ←
        on_incidents lifecycle_error_code
          (begin_fenced_verification (some ctx) (fenced_command current expected_version command))
    fail_if (begun.incident.id != current.id) "INCIDENT_VERIFYING_TRANSITION_FAILED"
    fail_if (begun.incident.state != verifying) "INCIDENT_VERIFYING_TRANSITION_FAILED"
    fail_if (begun.verification.status != pending) "VERIFICATION_NOT_PENDING"
    returns begun.verification

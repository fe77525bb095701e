-- ===== src/Agent/Execution.antt =====
-- agent_verification.go: what an executor of verifications answers, and when that is accepted.
pub mod Executing
use sre_agent_gitops.Prelude.{ContextError, Option, String, if◌then◌else◌, is_blank, none, some}
use sre_agent_gitops.Remediation.Verification.{
  VerificationStatus, inconclusive, not_recovered, recovered, verification_status_eq,
}

-- An executor's own errors: a context that ended, or another failure.
pub data ExecutionError : Type 0 where
  interrupted : ContextError → ExecutionError
  failed : String → ExecutionError

pub record VerificationExecutionResult : Type 0 where
  pub status : VerificationStatus
  pub evidence_code : String

pub data InvalidResult : Type 0 where
  evidence_code_required : InvalidResult
  not_terminal : VerificationStatus → InvalidResult

-- the `switch result.Status`
abbrev check_terminal : VerificationStatus → Option InvalidResult
check_terminal recovered = none
check_terminal not_recovered = none
check_terminal inconclusive = none
check_terminal status = some (not_terminal status)

unfoldable pub validate_result : VerificationExecutionResult → Option InvalidResult
validate_result answer =
    if is_blank answer.evidence_code
    then some evidence_code_required
    else check_terminal answer.status

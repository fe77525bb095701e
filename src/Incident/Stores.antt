-- ===== src/Incident/Stores.antt =====
-- internal/incident: what the registry asks of the stores behind it. The interfaces are records of
-- methods over a state `S`, the state of whatever store implements them.
use sre_agent_gitops.Prelude.{Bool, Context, List, Option, String}
use sre_agent_gitops.Prelude.Method.{Method}
use sre_agent_gitops.Remediation.Keys.{Error as RemediationError}
use sre_agent_gitops.Remediation.Verification.{
  BeginVerificationCommand, CompleteVerificationCommand, Verification,
}

-- `RecoveryEvidenceStore`
pub record RecoveryEvidenceStore (S : Type 0) : Type 0 where
  pub require_recovered : Context → String → String → Method S RemediationError Unit

-- `VerificationLifecycleStore`. The schedulers assert that the store lists verifications too, and
-- take a store that does not for unavailable.
pub record VerificationLifecycleStore (S : Type 0) : Type 0 where
  pub begin : Context → BeginVerificationCommand → Method S RemediationError (Verification × Bool)
  pub complete : Context → CompleteVerificationCommand → Method S RemediationError Verification
  pub evidence : RecoveryEvidenceStore S
  pub list_pending : Option (Context → Method S RemediationError (List Verification))
  pub list_recovered : Option (Context → Method S RemediationError (List Verification))

-- ===== src/Scenarios.antt =====
-- Runs of the stores and of the registry on concrete data: one action, one incident.
mod Approvals
mod Attempts
mod Verifications
mod Soundness
mod Fences
mod Methods
mod Actions
mod Workers
mod Decisions
use sre_agent_gitops.Remediation.Keys.{ActionKey, ExecutionKey}
use sre_agent_gitops.Remediation.Attempt.{
  ActionAttempt, BeginActionAttemptCommand, CompleteActionAttemptCommand,
  RecoverActionAttemptCommand, succeeded,
}
use sre_agent_gitops.Remediation.Verification.{
  BeginVerificationCommand, CompleteVerificationCommand, Verification, VerificationSubject, pending,
  recovered,
}
use sre_agent_gitops.Remediation.Verification.Store.{MemoryVerificationStore}
use sre_agent_gitops.Incident.{Claim, ClaimAuditEvent, Incident, Observation, verifying, no_binding}
use sre_agent_gitops.Incident.Registry.{Registry}
use sre_agent_gitops.Incident.Resolution.{memory_lifecycle}
use sre_agent_gitops.Prelude.{Context, Sha256, String, none, some, pos, [], ◌∷◌}

-- A context that is never cancelled.
abbrev pub live : Context
live k = none

-- Stand-ins for the digests: every observation has the key of the incident below.
abbrev pub digest : String → String
digest text = text

abbrev pub sha : Sha256
sha = record { hex = λ _. "key-1"; hex12 = digest }

abbrev pub owner_key : ExecutionKey
owner_key = record {
  incident_id = "inc-1";
  plan_hash = "plan-1";
  target_uid = "uid-1";
  fencing_token = 3;
}

abbrev pub later_key : ExecutionKey
later_key = record owner_key { fencing_token = 5 }

abbrev pub key : ActionKey
key = record { incident_id = "inc-1"; plan_hash = "plan-1"; target_uid = "uid-1" }

abbrev pub begins_attempt : BeginActionAttemptCommand
begins_attempt = record { key = owner_key; started_at = 10 }

abbrev pub begins_attempt_later : BeginActionAttemptCommand
begins_attempt_later = record { key = later_key; started_at = 30 }

abbrev pub completes_attempt : CompleteActionAttemptCommand
completes_attempt = record {
  key = owner_key;
  expected_version = 1;
  to = succeeded;
  finished_at = 12;
  error_code = "";
}

abbrev pub recovers_attempt : RecoverActionAttemptCommand
recovers_attempt = record { key = later_key; recovered_at = 20; reason_code = "owner lost" }

abbrev pub subject : VerificationSubject
subject = record {
  cluster = "c";
  namespace = "n";
  kind = "Deployment";
  name = "web";
  uid = "uid-1";
}

-- the attempt of a begun and completed action
abbrev pub ended_attempt : ActionAttempt
ended_attempt = record {
  id = "att-1";
  key = owner_key;
  status = succeeded;
  version = 2;
  started_at = 10;
  finished_at = some 12;
  error_code = "";
  recovered_by_fencing_token = 0;
}

abbrev pub begins_verification : BeginVerificationCommand
begins_verification = record { action_attempt = ended_attempt; subject = subject; started_at = 13 }

abbrev pub completes_verification : CompleteVerificationCommand
completes_verification = record {
  action_key = key;
  expected_version = pos 1;
  to = recovered;
  finished_at = 15;
  evidence_code = "replicas ready";
}

abbrev pub pending_verification : Verification
pending_verification = record {
  id = "ver-att-1";
  action_attempt_id = "att-1";
  action_key = key;
  status = pending;
  subject = subject;
  version = pos 1;
  started_at = 13;
  finished_at = none;
  evidence_code = "";
}

abbrev pub recovered_verification : Verification
recovered_verification = record pending_verification {
  status = recovered;
  version = pos 2;
  finished_at = some 15;
  evidence_code = "replicas ready";
}

abbrev pub pending_store : MemoryVerificationStore
pending_store = record { verifications = (key, pending_verification) ∷ [] }

abbrev pub recovered_store : MemoryVerificationStore
recovered_store = record { verifications = (key, recovered_verification) ∷ [] }

abbrev pub observation : Observation
observation = record {
  source = "alerts";
  cluster = "c";
  alert_name = "down";
  target = record { kind = "Deployment"; namespace = "n"; name = "web"; uid = "uid-1" };
}

-- an incident that is being verified, and its claim until 20
abbrev pub incident : Incident
incident = record {
  id = "inc-1";
  state = verifying;
  version = 3;
  approval_binding = no_binding;
  resolution_verification_id = "";
  idempotency_key = "key-1";
}

abbrev pub held : Claim
held = record { incident = incident; holder_id = "worker-1"; expires_at = 20 }

abbrev pub audit : ClaimAuditEvent
audit = record {
  incident_id = "inc-1";
  incident_version = 3;
  holder_id = "worker-1";
  acquired_at = 14;
  expires_at = 20;
}

abbrev pub registry : MemoryVerificationStore → Registry MemoryVerificationStore
registry store = record {
  recovery_evidence_store = some (memory_lifecycle digest).evidence;
  verification_lifecycle_store = some (memory_lifecycle digest);
  active_by_key = ("key-1", "inc-1") ∷ [];
  incidents_by_id = ("inc-1", incident) ∷ [];
  claims_by_incident_id = ("inc-1", held) ∷ [];
  claim_history_by_incident_id = ("inc-1", audit ∷ []) ∷ [];
  next_sequence = 1;
  store = store;
}

-- ===== src/Agent/Action/Attempting.antt =====
-- agent_action_attempt.go and `publishCanonicalPlan` of waiting_approval.go: an attempt at an action
-- begun and completed. The result that comes beside false, which no caller uses, is an error here.
use sre_agent_gitops.Prelude.{
  Bool, Sha256, String, not, ltb, ◌!=◌, ◌==◌, ◌&&◌, text_eq, if◌then◌else◌, Time,
}
use sre_agent_gitops.Prelude.Method.{
  Method, Result, err, fail_if, fails, ok, returns, ◌>>=◌, ◌>>◌, map_error,
}
use sre_agent_gitops.Incident.{Claim, Incident}
use sre_agent_gitops.Incident.Registry.{claim}
use sre_agent_gitops.Remediation.Keys.{ExecutionKey}
use sre_agent_gitops.Remediation.Attempt.{
  ActionAttempt, failed, started, status_eq, succeeded, CompleteActionAttemptCommand,
}
use sre_agent_gitops.Remediation.Attempt.Store.{begin, complete, recover}
use sre_agent_gitops.Remediation.Verification.{VerificationSubject}
use sre_agent_gitops.Approval.{Plan}
use sre_agent_gitops.Approval.PlanStore.{publish}
use sre_agent_gitops.Agent.Action.{
  ActionAgent, Given, World, begin_verification, coded, on_attempts, on_incidents, on_plans,
}

abbrev pub execution_key : Incident → Plan → Claim → ExecutionKey
execution_key current plan granted = record {
  incident_id = current.id;
  plan_hash = plan.hash;
  target_uid = plan.target.uid;
  fencing_token = granted.incident.version;
}

module _ (agent : ActionAgent) (sha : Sha256) (given : Given) where
  unfoldable pub publish_canonical_plan : Plan → Method World String Unit
  publish_canonical_plan plan = do
    fail_if (not agent.has_plans) "canonical plan store is not configured"
    on_plans (coded "publish canonical remediation plan") (publish sha (given.ctx 3) plan)

  -- a started attempt of an earlier holder is given up, and verified
  abbrev pub give_up :
      Incident → Claim → ExecutionKey → VerificationSubject → Method World String ActionAttempt
  give_up current granted key subject = do
    recovered ← on_attempts (coded "ACTION_ATTEMPT_RECOVERY_FAILED") (
        recover (given.ctx 6) (record {
          key = key;
          recovered_at = given.now 6;
          reason_code = "PREVIOUS_EXECUTOR_LOST";
        }))
    begin_verification agent (given.ctx 7) (given.now 7) granted.incident recovered.0
        key.fencing_token subject
    fails "PREVIOUS_EXECUTOR_LOST"

  -- an attempt that has ended is verified
  abbrev pub skip_ended :
      Claim → ExecutionKey → VerificationSubject → ActionAttempt → Method World String ActionAttempt
  skip_ended granted key subject attempt = do
    begin_verification agent (given.ctx 7) (given.now 7) granted.incident attempt key.fencing_token
        subject
    fails "DUPLICATE_ACTION_ATTEMPT"

  -- `if !created`
  abbrev pub existing_attempt :
      Incident
      → Claim
      → ExecutionKey
      → VerificationSubject
      → ActionAttempt
      → Method World String ActionAttempt
  existing_attempt current granted key subject attempt =
      if attempt.status == started && ltb attempt.key.fencing_token key.fencing_token
      then give_up current granted key subject
      else if attempt.status != started
      then skip_ended granted key subject attempt
      else fails "DUPLICATE_ACTION_ATTEMPT"

  -- what follows `Begin`
  abbrev pub after_begin :
      Incident
      → Claim
      → ExecutionKey
      → VerificationSubject
      → ActionAttempt × Bool
      → Method World String ActionAttempt
  after_begin current granted key subject begun =
      if begun.1 then returns begun.0 else existing_attempt current granted key subject begun.0

  -- The plan published and the incident claimed.
  unfoldable pub fence_action : Incident → Plan → Method World String Claim
  fence_action current plan = do
    fail_if (not agent.has_action_attempts) "ACTION_ATTEMPT_BEGIN_FAILED"
    fail_if (not agent.has_plans) "ACTION_ATTEMPT_BEGIN_FAILED"
    fail_if (plan.incident_id != current.id) "ACTION_ATTEMPT_BEGIN_FAILED"
    map_error (coded "ACTION_ATTEMPT_BEGIN_FAILED") (publish_canonical_plan plan)
    on_incidents (coded "INCIDENT_ACTION_FENCE_FAILED") (
        claim (given.ctx 4) (record {
          incident_id = current.id;
          expected_version = current.version;
          holder_id = agent.config.incident_claim_holder_id;
          now = given.now 4;
          lease_duration = agent.config.incident_claim_lease_duration;
        }))

  abbrev pub begin_fenced :
      Incident → Plan → VerificationSubject → Claim → Method World String ActionAttempt
  begin_fenced current plan subject granted = do
    let key = execution_key current plan granted
    begun ←
        on_attempts (coded "ACTION_ATTEMPT_BEGIN_FAILED")
          (begin sha.hex12 (given.ctx 5) (record { key = key; started_at = given.now 5 }))
    after_begin current granted key subject begun

  -- `beginActionAttempt`
  unfoldable pub begin_action_attempt :
      Incident → Plan → VerificationSubject → Method World String ActionAttempt
  begin_action_attempt current plan subject = do
    granted ← fence_action current plan
    begin_fenced current plan subject granted

  -- the status and the error code of an outcome
  abbrev completion : ActionAttempt → Time → Result String Unit → CompleteActionAttemptCommand
  completion attempt now (ok done) = record {
    key = attempt.key;
    expected_version = attempt.version;
    to = succeeded;
    finished_at = now;
    error_code = "";
  }
  completion attempt now (err e) = record {
    key = attempt.key;
    expected_version = attempt.version;
    to = failed;
    finished_at = now;
    error_code = "KUBERNETES_ACTION_FAILED";
  }

  -- `completeActionAttempt`
  unfoldable pub complete_action_attempt :
      ActionAttempt → Result String Unit → Method World String ActionAttempt
  complete_action_attempt attempt outcome = do
    fail_if (not agent.has_action_attempts) "ACTION_ATTEMPT_RESULT_PERSIST_FAILED"
    on_attempts (coded "ACTION_ATTEMPT_RESULT_PERSIST_FAILED")
        (complete (given.ctx 9) (completion attempt (given.now 9) outcome))

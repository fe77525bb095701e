-- ===== src/Agent/Worker.antt =====
-- agent_verification_worker.go: one item of the worker's work. What it logs is not modelled, nor are
-- the durations it measures for that.
pub mod Backoff
pub mod Loop
pub mod Running
pub mod Waiting
pub mod Ensuring
pub mod Recovering
use sre_agent_gitops.Prelude.{
  Bool, Context, ContextError, Duration, Option, String, Time, none, some, if◌then◌else◌, int_leb,
  pos, is_blank, ◌!=◌, ◌==◌, ℕ, concat, [], ◌∷◌, ◌||◌, not,
}
use sre_agent_gitops.Prelude.Method.{
  Method, Result, ok, err, fail_on, fails, lift, returns, ◌>>=◌, ◌>>◌, map_error, result,
}
use sre_agent_gitops.Incident.{Error, Incident, ResolveCommand}
use sre_agent_gitops.Incident.Registry.{Registry}
use sre_agent_gitops.Incident.Fence.{resolve}
use sre_agent_gitops.Incident.Lifecycle.{
  CompleteFencedVerificationCommand, FencedVerificationCompletionResult,
  complete_fenced_verification,
}
use sre_agent_gitops.Incident.Scheduler.{
  ScheduleCommand, VerificationClaim, claim_pending_verification,
  claim_recovered_verification_resolution,
}
use sre_agent_gitops.Remediation.Verification.{Verification, recovered, verification_status_eq}
use sre_agent_gitops.Agent.Config.{AgentConfig}
use sre_agent_gitops.Agent.Execution.{
  ExecutionError, InvalidResult, VerificationExecutionResult, validate_result,
}
use mathlib.Core.Option

-- The error that a failure wraps, behind its text.
pub data Cause : Type 0 where
  of_incident : String → Error → Cause
  of_deadline : String → ContextError → Cause
  of_execution : String → ExecutionError → Cause
  of_result : String → InvalidResult → Cause

pub record VerificationWorkerFailure : Type 0 where
  pub error_code : String
  pub action : String
  pub incident_id : String
  pub verification_id : String
  pub action_attempt_id : String
  pub target : String
  pub cause : Cause

pub data WorkerError : Type 0 where
  -- the sentinel `errVerificationWorkerConfiguration`, behind a text
  configuration : String → WorkerError
  failure : VerificationWorkerFailure → WorkerError
  -- `errors.Join` of two
  joined : WorkerError → WorkerError → WorkerError

abbrev pub failure_without_work : String → String → Cause → WorkerError
failure_without_work error_code action cause = failure (record {
  error_code = error_code;
  action = action;
  incident_id = "";
  verification_id = "";
  action_attempt_id = "";
  target = "";
  cause = cause;
})

abbrev pub failure_for_work : String → String → VerificationClaim → Cause → WorkerError
failure_for_work error_code action work cause = failure (record {
  error_code = error_code;
  action = action;
  incident_id = work.claim.incident.id;
  verification_id = work.verification.id;
  action_attempt_id = work.verification.action_attempt_id;
  target = concat (work.verification.subject.namespace ∷ "/" ∷ work.verification.subject.name ∷ []);
  cause = cause;
})

unfoldable pub combine_errors : Option WorkerError → Option WorkerError → Option WorkerError
combine_errors none second = second
combine_errors (some first) none = some first
combine_errors (some first) (some second) = some (joined first second)

-- The interface over a state `R`, that of whatever implements it.
pub record VerificationWorkerLifecycle (R : Type 0) : Type 0 where
  pub claim_recovered_resolution :
      Option Context → ScheduleCommand → Method R Error (Option VerificationClaim)
  pub claim_pending : Option Context → ScheduleCommand → Method R Error (Option VerificationClaim)
  pub complete_fenced :
      Option Context
      → CompleteFencedVerificationCommand
      → Method R Error FencedVerificationCompletionResult
  pub resolve_incident : Context → ResolveCommand → Method R Error Incident

-- The registry in memory as what the worker works on.
abbrev pub registry_worker : {S : Type 0} → VerificationWorkerLifecycle (Registry S)
registry_worker = record {
  claim_recovered_resolution = claim_recovered_verification_resolution;
  claim_pending = claim_pending_verification;
  complete_fenced = complete_fenced_verification;
  resolve_incident = resolve;
}

-- What the worker reads of the agent. A clock and an executor are there or are not.
pub record WorkerAgent (R : Type 0) : Type 0 where
  pub verification_worker : Option (VerificationWorkerLifecycle R)
  pub has_clock : Bool
  pub has_executor : Bool
  pub config : AgentConfig

-- What one item gets from without: the answers of the context that each call gets, the readings of
-- the clock, what the executor answers for a verification and what its own context says when it is
-- back, and what the worker's context says when the item is done. No two readings are related, so
-- each call has one of its own, whether or not the calls before it were made.
pub record Surroundings : Type 0 where
  pub ctx : ℕ → Context
  pub now : ℕ → Time
  pub verify : Verification → Result ExecutionError VerificationExecutionResult
  pub deadline : Verification → Option ContextError
  pub ended : Option ContextError

-- What an item of work returns: the incident, when it did work, and the error, which may come beside.
pub record ItemResult : Type 0 where
  pub worked : Option Incident
  pub error : Option WorkerError

abbrev pub schedule_command : AgentConfig → Time → ScheduleCommand
schedule_command config now = record {
  holder_id = config.incident_claim_holder_id;
  now = now;
  lease_duration = config.incident_claim_lease_duration;
}

abbrev pub resolve_command : AgentConfig → Time → Incident → Verification → ResolveCommand
resolve_command config now current verification = record {
  incident_id = current.id;
  expected_version = current.version;
  verification_id = verification.id;
  holder_id = config.incident_claim_holder_id;
  now = now;
  actor = config.incident_claim_holder_id;
  reason_code = "VERIFICATION_RECOVERED";
}

abbrev pub complete_command :
    AgentConfig
    → Time
    → VerificationClaim
    → VerificationExecutionResult
    → CompleteFencedVerificationCommand
complete_command config now work answer = record {
  incident_id = work.claim.incident.id;
  expected_version = work.claim.incident.version;
  holder_id = config.incident_claim_holder_id;
  now = now;
  verification = record {
    action_key = work.verification.action_key;
    expected_version = work.verification.version;
    to = answer.status;
    finished_at = now;
    evidence_code = answer.evidence_code;
  };
}

-- what is configured wrongly before anything is claimed, the lifecycle apart
unfoldable pub check_claiming : Bool → AgentConfig → Option WorkerError
check_claiming has_clock config =
    if not has_clock
    then some (configuration "verification worker clock is not configured")
    else if is_blank config.incident_claim_holder_id
    then some (configuration "verification worker claim holder ID is required")
    else if int_leb config.incident_claim_lease_duration (pos 0)
    then some (configuration "verification worker claim lease duration must be greater than zero")
    else none

-- what is configured wrongly before a verification is claimed
unfoldable pub check_executing : Bool → AgentConfig → Option WorkerError
check_executing has_executor config =
    if not has_executor
    then some (configuration "verification executor is not configured")
    else if int_leb config.kubernetes_request_timeout (pos 0)
    then some (configuration "verification execution timeout must be greater than zero")
    else if int_leb config.incident_claim_lease_duration config.kubernetes_request_timeout
    then some (
        configuration
          "verification worker claim lease duration must be greater than verification execution timeout")
    else none

module _ {R : Type 0} (lifecycle : VerificationWorkerLifecycle R) (config : AgentConfig)
    (around : Surroundings) where
  abbrev pub resolve_claimed : Option VerificationClaim → Method R WorkerError (Option Incident)
  resolve_claimed none = returns none
  resolve_claimed (some work) = do
    resolved ←
        map_error
          (λ e.
            failure_for_work "VERIFICATION_WORKER_RECOVERED_RESOLUTION_FAILED"
              "RESOLVE_RECOVERED_VERIFICATION" work
              (of_incident "resolve recovered verification" e))
          (lifecycle.resolve_incident (around.ctx 1)
            (resolve_command config (around.now 1) work.claim.incident work.verification))
    returns (some resolved)

  -- A resolution that an earlier item left over.
  unfoldable pub resolve_recovered : Method R WorkerError (Option Incident)
  resolve_recovered = do
    work ←
        map_error
          (λ e.
            failure_without_work "VERIFICATION_WORKER_RECOVERED_RESOLUTION_CLAIM_FAILED"
              "CLAIM_RECOVERED_VERIFICATION_RESOLUTION"
              (of_incident "claim recovered verification resolution" e))
          (lifecycle.claim_recovered_resolution (some (around.ctx 0))
            (schedule_command config (around.now 0)))
    resolve_claimed work

  abbrev pub resolve_completed :
      VerificationClaim
      → FencedVerificationCompletionResult
      → Method R WorkerError (Option Incident)
  resolve_completed work completion = do
    resolved ←
        map_error
          (λ e.
            failure_for_work "VERIFICATION_WORKER_RECOVERED_RESOLUTION_FAILED"
              "RESOLVE_RECOVERED_VERIFICATION" work
              (of_incident "resolve completed recovered verification" e))
          (lifecycle.resolve_incident (around.ctx 4)
            (resolve_command config (around.now 4) completion.incident completion.verification))
    returns (some resolved)

  -- what follows the completion
  abbrev pub settle :
      VerificationClaim
      → FencedVerificationCompletionResult
      → Method R WorkerError (Option Incident)
  settle work completion =
      if completion.verification.status != recovered
      then returns (some completion.incident)
      else resolve_completed work completion

  -- what follows the execution
  abbrev pub complete_claimed :
      VerificationClaim → VerificationExecutionResult → Method R WorkerError (Option Incident)
  complete_claimed work answer = do
    fail_on (
        Option.map
          (λ e.
            failure_for_work "VERIFICATION_WORKER_EXECUTION_RESULT_INVALID"
              "VALIDATE_VERIFICATION_RESULT" work
              (of_result "validate verification execution result" e))
          (validate_result answer))
    completion ←
        map_error
          (λ e.
            failure_for_work "VERIFICATION_WORKER_FENCED_COMPLETION_FAILED"
              "COMPLETE_FENCED_VERIFICATION" work (of_incident "complete fenced verification" e))
          (lifecycle.complete_fenced (some (around.ctx 3))
            (complete_command config (around.now 3) work answer))
    settle work completion

  abbrev pub execute_claimed : Option VerificationClaim → Method R WorkerError (Option Incident)
  execute_claimed none = returns none
  execute_claimed (some work) = do
    fail_on (
        Option.map
          (λ e.
            failure_for_work "VERIFICATION_WORKER_EXECUTION_DEADLINE_EXCEEDED"
              "EXECUTE_VERIFICATION" work (of_deadline "verification execution deadline" e))
          (around.deadline work.verification))
    answer ←
        map_error
          (λ e.
            failure_for_work "VERIFICATION_WORKER_EXECUTION_FAILED" "EXECUTE_VERIFICATION" work
              (of_execution "execute verification" e))
          (lift (around.verify work.verification))
    complete_claimed work answer

  -- A verification claimed, executed, completed and, if it recovered, resolved.
  unfoldable pub verify_pending : Method R WorkerError (Option Incident)
  verify_pending = do
    work ←
        map_error
          (λ e.
            failure_without_work "VERIFICATION_WORKER_PENDING_VERIFICATION_CLAIM_FAILED"
              "CLAIM_PENDING_VERIFICATION" (of_incident "claim pending verification" e))
          (lifecycle.claim_pending (some (around.ctx 2)) (schedule_command config (around.now 2)))
    execute_claimed work

-- the error of what was left over comes beside what the verification returns
abbrev pub beside : Option WorkerError → Result WorkerError (Option Incident) → ItemResult
beside recovered_error (ok worked) = record { worked = worked; error = recovered_error }
beside recovered_error (err e) = record {
  worked = none;
  error = combine_errors recovered_error (some e);
}

-- the error that is returned in place of an error of configuration
abbrev or_configuration : Option WorkerError → WorkerError → ItemResult
or_configuration none e = record { worked = none; error = some e }
or_configuration (some first) e = record { worked = none; error = some first }

module _ {R : Type 0} (agent : WorkerAgent R) (around : Surroundings) where
  abbrev pub verify_checked :
      VerificationWorkerLifecycle R → Option WorkerError → Option WorkerError → R → ItemResult × R
  verify_checked lifecycle (some e) recovered_error r = (or_configuration recovered_error e, r)
  verify_checked lifecycle none recovered_error r =
      let after = verify_pending lifecycle agent.config around r in
      (beside recovered_error after.0, after.1)

  abbrev pub after_recovered :
      VerificationWorkerLifecycle R → Result WorkerError (Option Incident) × R → ItemResult × R
  after_recovered lifecycle (ok (some incident), r) =
      (record { worked = some incident; error = none }, r)
  after_recovered lifecycle (ok none, r) =
      verify_checked lifecycle (check_executing agent.has_executor agent.config) none r
  after_recovered lifecycle (err e, r) =
      verify_checked lifecycle (check_executing agent.has_executor agent.config) (some e) r

  abbrev pub run_checked :
      Option (VerificationWorkerLifecycle R) → Option WorkerError → R → ItemResult × R
  run_checked none invalid r = (
    record {
      worked = none;
      error = some (configuration "verification worker lifecycle is not configured");
    },
    r,
  )
  run_checked (some lifecycle) (some e) r = (record { worked = none; error = some e }, r)
  run_checked (some lifecycle) none r =
      after_recovered lifecycle (resolve_recovered lifecycle agent.config around r)

  unfoldable pub run_once : R → ItemResult × R
  run_once r = run_checked agent.verification_worker (check_claiming agent.has_clock agent.config) r

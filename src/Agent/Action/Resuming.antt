-- ===== src/Agent/Action/Resuming.antt =====
-- waiting_approval.go: an incident that waits for approval, taken up again.
use sre_agent_gitops.Prelude.{
  Bool, List, Option, [], ◌∷◌, Sha256, String, Time, ℕ, none, some, not, ◌!=◌, ◌==◌, ◌||◌, text_eq,
  if◌then◌else◌, int_leb, pos, false, true, ℤ,
}
use sre_agent_gitops.Prelude.Method.{
  Method, Result, err, fail_if, fail_on, ok, returns, writes, ◌>>=◌, ◌>>◌, map_error, lift,
}
use sre_agent_gitops.Incident.{Incident, state_eq, waiting_approval}
use sre_agent_gitops.Remediation.Attempt.{ActionAttempt}
use sre_agent_gitops.Remediation.Verification.{VerificationSubject}
use sre_agent_gitops.Approval.{
  Approval, Error, Plan, approval_expired, approval_not_found, approval_not_yet_valid, target_eq,
  validate,
}
use sre_agent_gitops.Approval.Store.{ApprovalKey, lookup_approval}
use sre_agent_gitops.Approval.PlanStore.{PlanKey, lookup_plan, validate_plan}
use sre_agent_gitops.Agent.Config.{AgentConfig}
use sre_agent_gitops.Agent.Evidence.{PodEvidence, expected_target, subject_for_pod}
use sre_agent_gitops.Agent.Memory.{RemediationSnapshot, action_attempted, record_state}
use sre_agent_gitops.Agent.Action.{
  ActionAgent, Given, World, begin_verification, coded, on_memory, on_plans,
}
use sre_agent_gitops.Agent.Action.Attempting.{begin_action_attempt, complete_action_attempt}
use mathlib.Core.Option

-- `containsString` of policy.go
unfoldable pub contains_string : List String → String → Bool
contains_string [] candidate = false
contains_string (value ∷ values) candidate =
    let later = contains_string values candidate in if value == candidate then true else later

-- `attempts >= maximum`
abbrev pub reaches : ℕ → ℤ → Bool
reaches attempts maximum = int_leb maximum (pos attempts)

-- The code with which an approved plan is denied, if it is.
unfoldable pub waiting_approval_policy_code :
    AgentConfig → Plan → PodEvidence → RemediationSnapshot → Option String
waiting_approval_policy_code config plan evidence state =
    if not config.restart_pod_approved
    then some "APPROVAL_REQUIRED"
    else if not (contains_string config.allowed_namespaces plan.target.namespace)
    then some "NAMESPACE_DENIED"
    else if not (contains_string config.allowed_controller_kinds evidence.owner.kind)
    then some "OWNER_DENIED"
    else if state.duplicate
    then some "DUPLICATE_INCIDENT"
    else if state.in_cooldown
    then some "COOLDOWN_ACTIVE"
    else if int_leb config.maximum_attempts (pos 0)
        || reaches state.attempts_in_window config.maximum_attempts
    then some "ATTEMPT_LIMIT_REACHED"
    else none

abbrev pub binding_key : Incident → PlanKey
binding_key current = record {
  incident_id = current.id;
  hash = current.approval_binding.plan_hash;
  target_uid = current.approval_binding.target_uid;
}

abbrev pub approval_key : Plan → ApprovalKey
approval_key plan = record {
  incident_id = plan.incident_id;
  plan_hash = plan.hash;
  target_uid = plan.target.uid;
}

-- the tests that a recovered plan has to pass
unfoldable pub mismatches : Incident → PodEvidence → Plan → Bool
mismatches current evidence plan =
    plan.incident_id != current.id
    || plan.hash != current.approval_binding.plan_hash
    || plan.target.uid != current.approval_binding.target_uid
    || plan.target != expected_target evidence
    || plan.action != "RESTART_POD"

-- a method's outcome as a value
abbrev pub captured : {A : Type 0} → Method World String A → Method World String (Result String A)
captured m w = let out = m w in (ok out.0, out.1)

module _ (agent : ActionAgent) (sha : Sha256) (given : Given) where
  -- `recoverWaitingApprovalPlan`
  unfoldable pub recover_plan : Incident → PodEvidence → Method World String Plan
  recover_plan current evidence = do
    fail_if (not agent.has_plans) "canonical plan store is not configured"
    fail_if (current.state != waiting_approval) "incident is not WAITING_APPROVAL"
    plan ←
        on_plans (coded "lookup canonical remediation plan")
          (lookup_plan (given.ctx 0) (binding_key current))
    fail_on (Option.map (λ _. "validate recovered canonical plan") (validate_plan sha plan))
    fail_if (mismatches current evidence plan)
        "recovered canonical plan does not match the incident binding and current target"
    returns plan

  -- what `Validate` says of an approval that was found
  abbrev pub judged : Option Error → Result String Bool
  judged none = ok true
  judged (some approval_expired) = ok false
  judged (some approval_not_yet_valid) = ok false
  judged (some e) = err "validate remediation approval"

  -- an approval that is not there is not granted
  abbrev pub judged_found : Plan → Time → Result Error Approval → Result String Bool
  judged_found plan now (ok granted) = judged (validate sha granted plan now)
  judged_found plan now (err approval_not_found) = ok false
  judged_found plan now (err e) = err "lookup remediation approval"

  -- what the look-up answers, as a value
  abbrev pub found_approval : Plan → Method World String (Result Error Approval)
  found_approval plan w =
      let out = lookup_approval (given.ctx 1) (approval_key plan) w.approvals in
      (ok out.0, record w { approvals = out.1 })

  -- `waitingApprovalGranted`
  unfoldable pub approval_granted : Plan → Time → Method World String Bool
  approval_granted plan now = do
    fail_if (not agent.has_approvals) "approval store is not configured"
    found ← found_approval plan
    lift (judged_found plan now found)

  -- `executeApprovedPlan`
  unfoldable pub execute_approved_plan : Plan → Method World String Unit
  execute_approved_plan plan = do
    fail_if (not agent.has_kubernetes) "Kubernetes client is not configured"
    fail_on (Option.map (λ _. "refuse invalid canonical plan") (validate_plan sha plan))
    fail_if (plan.action != "RESTART_POD") "refuse unsupported executable action"
    writes (λ w. record w { deletions = plan ∷ w.deletions })
    fail_on (Option.map (λ _. "delete approved plan target") given.delete_error)

  -- what follows the execution
  abbrev pub report :
      Incident → VerificationSubject → ActionAttempt → Result String Unit → Method World String Unit
  report current subject attempt outcome = do
    completed ← complete_action_attempt agent sha given attempt outcome
    begin_verification agent (given.ctx 10) (given.now 10) current completed
        completed.key.fencing_token subject
    map_error (coded "KUBERNETES_ACTION_FAILED") (lift outcome)

  -- The attempt that the agent has begun, carried out.
  abbrev pub act : Incident → Plan → VerificationSubject → ActionAttempt → Method World String Unit
  act current plan subject attempt = do
    outcome ← captured (execute_approved_plan plan)
    report current subject attempt outcome

  -- what is checked once the answer of the approvals is known
  abbrev pub permit : PodEvidence → RemediationSnapshot → Plan → Bool → Method World String Plan
  permit evidence state plan granted = do
    fail_if (not granted) "APPROVAL_REQUIRED"
    fail_on (waiting_approval_policy_code agent.config plan evidence state)
    fail_if
        (agent.config.incident_claim_holder_id == ""
          || int_leb agent.config.incident_claim_lease_duration (pos 0))
        "INCIDENT_ACTION_FENCE_UNAVAILABLE"
    returns plan

  -- what is checked once the plan is known
  abbrev pub approve : PodEvidence → RemediationSnapshot → Time → Plan → Method World String Plan
  approve evidence state now plan = do
    granted ← map_error (coded "APPROVAL_CHECK_FAILED") (approval_granted plan now)
    permit evidence state plan granted

  -- what is checked before the attempt is begun
  unfoldable pub authorize :
      Incident → PodEvidence → RemediationSnapshot → Time → Method World String Plan
  authorize current evidence state now = do
    plan ← map_error (coded "INCIDENT_PLAN_RECOVERY_FAILED") (recover_plan current evidence)
    approve evidence state now plan

  -- what follows the checks
  abbrev pub proceed :
      String → Incident → PodEvidence → String → Time → Plan → Method World String Unit
  proceed remediation_incident_id current evidence target_key now plan = do
    on_memory (coded "REMEDIATION_STATE_RECORD_FAILED") (
        record_state (record {
          kind = action_attempted;
          incident_id = remediation_incident_id;
          target_key = target_key;
          occurred_at = now;
        }))
    attempt ← begin_action_attempt agent sha given current plan (subject_for_pod evidence)
    act current plan (subject_for_pod evidence) attempt

  -- `resumeWaitingApproval`
  unfoldable pub resume_waiting_approval :
      String
      → Incident
      → PodEvidence
      → RemediationSnapshot
      → String
      → Time
      → Method World String Unit
  resume_waiting_approval remediation_incident_id current evidence state target_key now = do
    plan ← authorize current evidence state now
    proceed remediation_incident_id current evidence target_key now plan

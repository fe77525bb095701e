-- ===== src/Scenarios/Actions.antt =====
-- An approved action: the plan of the scenarios' incident, approved, taken up by two agents.
use sre_agent_gitops.Agent.Action.{begin_verification, ActionAgent, Given, World}
use sre_agent_gitops.Agent.Action.Resuming.{
  contains_string, waiting_approval_policy_code, mismatches, recover_plan, approval_granted,
  execute_approved_plan, authorize, resume_waiting_approval,
}
use sre_agent_gitops.Agent.Action.Attempting.{
  publish_canonical_plan, fence_action, begin_action_attempt, complete_action_attempt,
}
use sre_agent_gitops.Agent.Action.Interleaving.{Resumption, advance}
use sre_agent_gitops.Agent.Action.Weighing.{DeletesOnce, deletions_of}
use sre_agent_gitops.Agent.Action.Histories.{
  perform, Event, advance_at, perform_all, perform_all-DeletesOnce, takes_up, goes_on,
}
use sre_agent_gitops.Agent.Memory.{record_state, RemediationSnapshot, new_remediation_memory}
use sre_agent_gitops.Approval.{
  target_eqb, plan_eqb, has_nul, invalid_identity, is_invalid_plan, validate_record, plan_hash_for,
  new_plan, validate, Approval, Plan,
}
use sre_agent_gitops.Approval.Store.{approval_key_eqb, validate_approval_key, lookup_approval}
use sre_agent_gitops.Approval.PlanStore.{
  plan_key_eqb, validate_plan_key, lookup_plan, validate_plan, publish,
}
use sre_agent_gitops.Incident.Registry.{put_claim, claim, Registry}
use sre_agent_gitops.Incident.Fence.{is_audit_of, is_audited, validate_verification_fence}
use sre_agent_gitops.Incident.Lifecycle.{
  validate_begin_fenced, begin_locked, begin_fenced_verification,
}
use sre_agent_gitops.Incident.{validate_claim, Incident, waiting_approval}
use sre_agent_gitops.Remediation.Keys.{action_key_eqb}
use sre_agent_gitops.Remediation.Attempt.{validate_begin, validate_complete}
use sre_agent_gitops.Remediation.Attempt.Store.{
  completion_matches, action_attempt_id_for, begin, complete,
}
use sre_agent_gitops.Remediation.Verification.{
  validate_subject, validate_begin as validate_begin_85,
}
use sre_agent_gitops.Remediation.Verification.Store.{begin as begin_93, MemoryVerificationStore}
use sre_agent_gitops.Prelude.Dict.{lookup, insert}
use sre_agent_gitops.Prelude.Text.{is_blank, concat, join_nul}
use sre_agent_gitops.Prelude.{List, [], ◌∷◌, none, pos, refl, true, false, ◌≡◌, ◌⊎◌, ℕ, arith}
use sre_agent_gitops.Prelude.Method.{final}
use sre_agent_gitops.Agent.Config.{AgentConfig}
use sre_agent_gitops.Agent.Evidence.{PodEvidence}
use sre_agent_gitops.Agent.Action.Once.{Deletes}
use sre_agent_gitops.Agent.Action.Authorizing.{Authorized, resume-Authorized}
use sre_agent_gitops.Scenarios.{incident, live, registry, sha}

abbrev pub config : AgentConfig
config = record {
  cluster_name = "c";
  prometheus_url = "";
  ollama_url = "";
  ollama_model = "";
  allowed_namespaces = "n" ∷ [];
  allowed_controller_kinds = "ReplicaSet" ∷ [];
  restart_pod_approved = true;
  minimum_confidence = 0;
  poll_interval = pos 30;
  readiness_stale_after = pos 0;
  liveness_stale_after = pos 0;
  restart_cooldown = pos 60;
  attempt_window = pos 600;
  maximum_attempts = pos 3;
  prometheus_timeout = pos 5;
  ollama_timeout = pos 5;
  kubernetes_request_timeout = pos 5;
  incident_store_connect_timeout = pos 5;
  incident_store_migration_timeout = pos 5;
  incident_store_backend = "memory";
  incident_store_postgres_dsn = "";
  incident_claim_holder_id = "worker-1";
  incident_claim_lease_duration = pos 20;
  remediation_state_namespace = "";
  remediation_state_config_map = "";
  health_address = "";
}

abbrev agent : ActionAgent
agent = record {
  config = config;
  has_plans = true;
  has_approvals = true;
  has_action_attempts = true;
  has_verification_lifecycle = true;
  has_kubernetes = true;
}

-- all of it at one time, and Kubernetes accepts
abbrev given_at : ℕ → Given
given_at now = record { ctx = λ k. live; now = λ k. now; delete_error = none }

abbrev plan : Plan
plan = record {
  incident_id = "inc-1";
  action = "RESTART_POD";
  target = record { cluster = "c"; namespace = "n"; kind = "Pod"; name = "web-1"; uid = "uid-1" };
  hash = "sha256:key-1";
}

abbrev granted : Approval
granted = record {
  incident_id = "inc-1";
  plan_hash = "sha256:key-1";
  target_uid = "uid-1";
  approved_by = "operator";
  approved_at = 10;
  expires_at = 90;
}

abbrev waiting : Incident
waiting = record incident {
  state = waiting_approval;
  approval_binding = record { plan_hash = "sha256:key-1"; target_uid = "uid-1" };
}

abbrev evidence : PodEvidence
evidence = record {
  target = record { cluster = "c"; namespace = "n"; kind = "Pod"; name = "web-1"; uid = "uid-1" };
  owner = record { kind = "ReplicaSet"; name = "web"; uid = "rs-1" };
}

abbrev calm : RemediationSnapshot
calm = record { duplicate = false; in_cooldown = false; attempts_in_window = 0 }

abbrev incidents : Registry MemoryVerificationStore
incidents =
    let held = registry (record { verifications = [] }) in
    record held {
      incidents_by_id = ("inc-1", waiting) ∷ [];
      claims_by_incident_id = [];
      claim_history_by_incident_id = [];
    }

abbrev world : World
world = record {
  incidents = incidents;
  plans = record {
    plans =
        (record { incident_id = "inc-1"; hash = "sha256:key-1"; target_uid = "uid-1" }, plan) ∷ [];
  };
  approvals = record {
    approvals =
        (
          record { incident_id = "inc-1"; plan_hash = "sha256:key-1"; target_uid = "uid-1" },
          granted,
        )
        ∷ [];
  };
  attempts = record { attempts = [] };
  memory = new_remediation_memory;
  deletions = [];
}

abbrev resumption : ℕ → Resumption
resumption now = record {
  agent = agent;
  given = given_at now;
  id = "inc-1";
  current = waiting;
  evidence = evidence;
  state = calm;
  target = "scope";
  now = now;
}

-- Two agents take the incident up, neither knowing of the other, and their calls alternate.
abbrev race : List Event
race =
    takes_up (resumption 20)
    ∷ takes_up (resumption 60)
    ∷ goes_on 0
    ∷ goes_on 1
    ∷ goes_on 0
    ∷ goes_on 1
    ∷ goes_on 1
    ∷ goes_on 1
    ∷ goes_on 0
    ∷ goes_on 0
    ∷ goes_on 1
    ∷ goes_on 0
    ∷ goes_on 1
    ∷ goes_on 0
    ∷ goes_on 1
    ∷ goes_on 0
    ∷ []

perform_all-DeletesOnce_example :
    DeletesOnce (perform_all sha race (record { world = world; threads = [] })).world
unfolding deletions_of
perform_all-DeletesOnce_example =
    perform_all-DeletesOnce sha race world (λ k. (omega arith, λ e. refl))

resume-Authorized_example :
    let t =
      final
        (resume_waiting_approval agent sha (given_at 20) "inc-1" waiting evidence calm "scope" 20)
        world in
    (t.deletions ≡ [])
    ⊎ ((p : Plan) × Authorized agent sha (given_at 20) waiting evidence calm 20 p world
        × Deletes p world t)
resume-Authorized_example =
    resume-Authorized agent sha (given_at 20) "inc-1" waiting evidence calm "scope" 20 world

-- the pod is deleted, once
race_run :
    (perform_all sha race (record { world = world; threads = [] })).world.deletions ≡ plan ∷ []
unfolding begin_verification contains_string waiting_approval_policy_code mismatches recover_plan
    approval_granted execute_approved_plan authorize resume_waiting_approval publish_canonical_plan
    fence_action begin_action_attempt complete_action_attempt perform perform_all advance advance_at
    record_state target_eqb plan_eqb has_nul invalid_identity is_invalid_plan validate_record
    plan_hash_for new_plan validate approval_key_eqb validate_approval_key lookup_approval
    plan_key_eqb validate_plan_key lookup_plan validate_plan publish put_claim claim is_audit_of
    is_audited validate_verification_fence validate_begin_fenced begin_locked
    begin_fenced_verification validate_claim action_key_eqb validate_begin validate_complete
    completion_matches action_attempt_id_for begin complete validate_subject validate_begin_85
    begin_93 lookup insert is_blank concat join_nul
race_run = refl

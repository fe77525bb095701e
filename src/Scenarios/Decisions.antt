-- ===== src/Scenarios/Decisions.antt =====
-- What the agent decides on concrete data: an answer of Kubernetes, a decision, a snapshot, and a
-- verification executed.
use sre_agent_gitops.Remediation.Keys.{action_key_eqb}
use sre_agent_gitops.Remediation.Verification.Store.{complete, completion_matches}
use sre_agent_gitops.Agent.Action.Resuming.{contains_string}
use sre_agent_gitops.Prelude.Text.{is_blank}
use sre_agent_gitops.Prelude.{
  [], ◌∷◌, none, some, pos, refl, true, false, text_eq, ◌≡◌, ◌↔◌, ltb, arith, ◌+◌,
}
use sre_agent_gitops.Prelude.Method.{ok, final}
use sre_agent_gitops.Prelude.Dict.{lookup}
use sre_agent_gitops.Remediation.Verification.{
  Verification, pending, recovered, validate_subject, validate_complete,
}
use sre_agent_gitops.Agent.Execution.{VerificationExecutionResult, validate_result}
use sre_agent_gitops.Agent.Execution.Executing.{
  Executed, Stored, execute_verification, execute_verification-Stored,
}
use sre_agent_gitops.Agent.Kubernetes.{Client, Pod, ReplicaSet, verify, check_executor}
use sre_agent_gitops.Agent.Kubernetes.Replacing.{FitsInt32, Replaced, verify-Replaced}
use sre_agent_gitops.Agent.Decision.{Decision, Floats, validate_decision, has_blank}
use sre_agent_gitops.Agent.Policy.{
  Allows, PolicyContext, evaluate_decision, evaluate_decision-Allows, decision_target_eqb,
}
use sre_agent_gitops.Agent.Memory.{
  RemediationStateQuery, count, new_remediation_memory, record_attempt, retain_times, snapshot,
  times_of,
}
use sre_agent_gitops.Agent.Memory.Remembering.{record_attempt-snapshot}
use sre_agent_gitops.Scenarios.{live, pending_store, pending_verification}

abbrev replica_set : ReplicaSet
replica_set = record {
  uid = "rs-1";
  deletion_timestamp = none;
  generation = pos 2;
  observed_generation = pos 2;
  desired_replicas = some (pos 1);
  replicas = pos 1;
  ready_replicas = pos 1;
  available_replicas = pos 1;
  selector = some (ok "app=web");
}

abbrev pod : Pod
pod = record {
  uid = "uid-2";
  deletion_timestamp = none;
  controller = some (record { kind = "ReplicaSet"; uid = "rs-1" });
  conditions = record { type = "Ready"; status = "True" } ∷ [];
}

abbrev client : Client
client = record {
  get_replica_set = λ namespace name. ok replica_set;
  list_pods = λ namespace selector. ok (pod ∷ []);
}

abbrev verification : Verification
verification = record pending_verification {
  subject = record {
    cluster = "c";
    namespace = "n";
    kind = "ReplicaSet";
    name = "web";
    uid = "rs-1";
  };
}

client-FitsInt32 : FitsInt32 client
client-FitsInt32 namespace selector pods h = ground arith

verify-Replaced_example :
    ((r : VerificationExecutionResult) × (verify
          (record { client = some client; cluster_name = "c" })
          (some live)
          verification
        ≡ ok r)
      × (r.status ≡ recovered))
    ↔ Replaced client verification
unfolding check_executor validate_subject is_blank
verify-Replaced_example = verify-Replaced client "c" live verification client-FitsInt32 refl refl

-- Confidences in hundredths, in place of the bits of a `float64`.
abbrev floats : Floats
floats = record { less = ltb; zero = 0; one = 100 }

abbrev decision : Decision
decision = record {
  schema_version = "v1";
  incident_id = "inc-1";
  action = "RESTART_POD";
  target = record { cluster = "c"; namespace = "n"; kind = "Pod"; name = "web-1"; uid = "uid-1" };
  reason = "crash loop";
  evidence = "back-off" ∷ [];
  confidence = 90;
  risk = "low";
  requires_approval = true;
}

abbrev context : PolicyContext
context = record {
  incident_id = "inc-1";
  current_target = record {
    cluster = "c";
    namespace = "n";
    kind = "Pod";
    name = "web-1";
    uid = "uid-1";
  };
  allowed_namespaces = "n" ∷ [];
  controller_owner_kind = "ReplicaSet";
  allowed_controller_kinds = "ReplicaSet" ∷ [];
  approval_granted = true;
  minimum_confidence = 80;
  duplicate = false;
  in_cooldown = false;
  attempts_in_window = 1;
  maximum_attempts = pos 3;
}

evaluate_decision-Allows_example :
    ((evaluate_decision floats decision context).allowed ≡ true) ↔ Allows floats decision context
evaluate_decision-Allows_example = evaluate_decision-Allows floats decision context

allowed_run : (evaluate_decision floats decision context).code ≡ "ALLOWED"
unfolding evaluate_decision validate_decision is_blank has_blank decision_target_eqb contains_string
allowed_run = refl

denied_run :
    (evaluate_decision floats decision (record context { attempts_in_window = 3 })).code
    ≡ "ATTEMPT_LIMIT_REACHED"
unfolding evaluate_decision validate_decision is_blank has_blank decision_target_eqb contains_string
denied_run = refl

abbrev query : RemediationStateQuery
query = record {
  incident_id = "inc-1";
  target_key = "scope";
  now = 130;
  cooldown = pos 60;
  attempt_window = pos 600;
}

record_attempt-snapshot_example :
    (snapshot query (record_attempt "inc-1" "scope" 100 new_remediation_memory)).0 ≡ record {
      duplicate = true;
      in_cooldown = true;
      attempts_in_window =
          count (
            some
              (retain_times 0 (times_of (lookup "scope" new_remediation_memory.attempts_by_scope))))
          + 1;
    }
record_attempt-snapshot_example =
    record_attempt-snapshot query 100 59 599 new_remediation_memory refl refl (omega arith)
      (omega arith) (omega arith)

abbrev given : Executed
given = record {
  ctx = live;
  finished_at = 15;
  answer = λ v. ok (record { status = recovered; evidence_code = "replicas ready" });
  deadline = none;
}

abbrev done : Verification
done = record pending_verification {
  status = recovered;
  version = pos 2;
  finished_at = some 15;
  evidence_code = "replicas ready";
}

execute_verification-Stored_example :
    (pending_verification.status ≡ pending)
    × Stored given pending_verification done
        (final (execute_verification true true given pending_verification) pending_store)
unfolding execute_verification validate_result is_blank validate_complete complete lookup
    action_key_eqb completion_matches
execute_verification-Stored_example =
    execute_verification-Stored true true given pending_verification done pending_store refl

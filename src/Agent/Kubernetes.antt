-- ===== src/Agent/Kubernetes.antt =====
-- kubernetes_verification_executor.go: whether Kubernetes shows that an action has helped. The client
-- and what metav1 makes of a selector and of a pod's owners are parameters; of the objects, the fields
-- that are read stand here.
pub mod Counting
pub mod Replacing
use sre_agent_gitops.Prelude.{
  Bool, Context, ContextError, List, Option, String, Time, [], ◌∷◌, if◌then◌else◌, int_leb,
  is_blank, is_some, none, not, pos, negsuc, some, text_eq, true, false, zero, suc, ◌!=◌, ◌&&◌,
  ◌==◌, ◌||◌, ℕ, ℤ, ◌+◌, ◌^◌, ◌-◌, nat_eqb,
}
use sre_agent_gitops.Prelude.Method.{Result, err, ok}
use sre_agent_gitops.Remediation.Verification.{
  Verification, not_recovered, recovered, validate_subject,
}
use sre_agent_gitops.Agent.Execution.{
  ExecutionError, VerificationExecutionResult, failed, interrupted,
}

pub record OwnerReference : Type 0 where
  pub kind : String
  pub uid : String

pub record PodCondition : Type 0 where
  pub type : String
  pub status : String

-- `controller` is what metav1.GetControllerOf answers for the pod.
pub record Pod : Type 0 where
  pub uid : String
  pub deletion_timestamp : Option Time
  pub controller : Option OwnerReference
  pub conditions : List PodCondition

-- `selector` is what metav1.LabelSelectorAsSelector makes of the selector, as a text, or its error.
pub record ReplicaSet : Type 0 where
  pub uid : String
  pub deletion_timestamp : Option Time
  pub generation : ℤ  -- int64
  pub observed_generation : ℤ  -- int64
  pub desired_replicas : Option ℤ  -- int32
  pub replicas : ℤ  -- int32
  pub ready_replicas : ℤ  -- int32
  pub available_replicas : ℤ  -- int32
  pub selector : Option (Result ExecutionError String)

pub record Client : Type 0 where
  pub get_replica_set : String → String → Result ExecutionError ReplicaSet
  pub list_pods : String → String → Result ExecutionError (List Pod)

pub record KubernetesVerificationExecutor : Type 0 where
  pub client : Option Client
  pub cluster_name : String

abbrev pub int_ltb : ℤ → ℤ → Bool
int_ltb a b = not (int_leb b a)

abbrev pub i32_max : ℕ
i32_max = 2 ^ 31 - 1

-- `x++` on an `int32`
abbrev pub next_i32 : ℤ → ℤ
next_i32 (pos n) = if nat_eqb n i32_max then negsuc i32_max else pos (n + 1)
next_i32 (negsuc zero) = pos 0
next_i32 (negsuc (suc n)) = negsuc n

unfoldable pub has_ready_condition : List PodCondition → Bool
has_ready_condition [] = false
has_ready_condition (condition ∷ conditions) =
    let later = has_ready_condition conditions in
    if condition.type == "Ready" && condition.status == "True" then true else later

abbrev pub is_controlled_by : String → Option OwnerReference → Bool
is_controlled_by uid none = false
is_controlled_by uid (some controller) = controller.kind == "ReplicaSet" && controller.uid == uid

unfoldable pub ready_controlled_replacement_pod : Pod → ReplicaSet → String → Bool
ready_controlled_replacement_pod pod replica_set action_target_uid =
    if is_some pod.deletion_timestamp || pod.uid == action_target_uid
    then false
    else if not (is_controlled_by replica_set.uid pod.controller)
    then false
    else has_ready_condition pod.conditions

-- The loop that counts, from a count on.
unfoldable pub count_ready : ReplicaSet → String → List Pod → ℤ → ℤ
count_ready replica_set target [] count = count
count_ready replica_set target (pod ∷ pods) count =
    count_ready replica_set target pods
      (if ready_controlled_replacement_pod pod replica_set target then next_i32 count else count)

abbrev pub not_ready : VerificationExecutionResult
not_ready = record { status = not_recovered; evidence_code = "REPLICASET_REPLACEMENT_NOT_READY" }

abbrev pub available : VerificationExecutionResult
available = record { status = recovered; evidence_code = "REPLICASET_AVAILABLE" }

abbrev pub Answer : Type 0
Answer = Result ExecutionError VerificationExecutionResult

-- what the pods that are listed show
abbrev pub judge_pods : Verification → ReplicaSet → ℤ → Result ExecutionError (List Pod) → Answer
judge_pods verification replica_set desired (err e) = err e
judge_pods verification replica_set desired (ok pods) =
    if int_ltb (count_ready replica_set verification.action_key.target_uid pods (pos 0)) desired
    then ok not_ready
    else ok available

abbrev pub select_pods :
    Client → Verification → ReplicaSet → ℤ → Option (Result ExecutionError String) → Answer
select_pods client verification replica_set desired none = err (failed "has no selector")
select_pods client verification replica_set desired (some (err e)) = err e
select_pods client verification replica_set desired (some (ok selector)) =
    judge_pods verification replica_set desired
      (client.list_pods verification.subject.namespace selector)

-- what is checked once the number of replicas that is wanted is known
abbrev pub judge_counts : Client → Verification → ReplicaSet → ℤ → Answer
judge_counts client verification replica_set desired =
    if int_leb desired (pos 0)
    then err (failed "has non-positive desired replicas")
    else if int_ltb replica_set.observed_generation replica_set.generation
    then err (failed "status generation is behind")
    else if int_ltb replica_set.replicas desired
        || int_ltb replica_set.ready_replicas desired
        || int_ltb replica_set.available_replicas desired
    then ok not_ready
    else select_pods client verification replica_set desired replica_set.selector

abbrev pub judge_desired : Client → Verification → ReplicaSet → Option ℤ → Answer
judge_desired client verification replica_set none = err (failed "has no desired replica count")
judge_desired client verification replica_set (some desired) =
    judge_counts client verification replica_set desired

abbrev pub judge_replica_set : Client → Verification → Result ExecutionError ReplicaSet → Answer
judge_replica_set client verification (err e) = err e
judge_replica_set client verification (ok replica_set) =
    if replica_set.uid != verification.subject.uid
    then err (failed "UID does not match")
    else if is_some replica_set.deletion_timestamp
    then err (failed "is terminating")
    else judge_desired client verification replica_set replica_set.desired_replicas

-- what is checked before Kubernetes is asked
unfoldable pub check_executor : String → Verification → Option String
check_executor cluster_name verification =
    if cluster_name == ""
    then some "verification cluster is not configured"
    else if is_some (validate_subject verification.subject)
    then some "validate verification subject"
    else if is_blank verification.action_key.target_uid
    then some "verification action target UID is required"
    else if verification.subject.cluster != cluster_name
    then some "verification subject cluster does not match configured cluster"
    else if verification.subject.kind != "ReplicaSet"
    then some "verification subject kind is not supported"
    else none

abbrev pub verify_checked : Client → Verification → Option String → Answer
verify_checked client verification (some e) = err (failed e)
verify_checked client verification none =
    judge_replica_set client verification
      (client.get_replica_set verification.subject.namespace verification.subject.name)

abbrev pub verify_with : Option Client → String → Verification → Answer
verify_with none cluster_name verification = err (failed "Kubernetes client is not configured")
verify_with (some client) cluster_name verification =
    verify_checked client verification (check_executor cluster_name verification)

abbrev pub verify_in : KubernetesVerificationExecutor → Option ContextError → Verification → Answer
verify_in executor (some e) verification = err (interrupted e)
verify_in executor none verification =
    verify_with executor.client executor.cluster_name verification

-- `Verify`; a nil executor, which it refuses like a nil client, is not modelled.
unfoldable pub verify : KubernetesVerificationExecutor → Option Context → Verification → Answer
verify executor none verification = err (failed "verification context is required")
verify executor (some ctx) verification = verify_in executor (ctx 0) verification

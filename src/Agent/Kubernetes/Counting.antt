-- ===== src/Agent/Kubernetes/Counting.antt =====
-- kubernetes_verification_executor.go: what the pods that it counts are.
use sre_agent_gitops.Prelude.{
  zero, suc, ◌⊎◌, ◌≢◌, Bool-cases, List, String, [], ◌∷◌, arith, if◌then◌else◌, inl, inr, none, pos,
  some, text_eq, true, ◌+◌, ◌≡◌, ◌≤◌, ℕ, Option-cases, eq_iff, ◌↔◌,
}
use sre_agent_gitops.Agent.Kubernetes.{
  OwnerReference, PodCondition, has_ready_condition, Pod, ReplicaSet, count_ready, i32_max,
  ready_controlled_replacement_pod,
}

-- A condition says that the pod is ready.
abbrev pub HasReady : List PodCondition → Type 0
HasReady [] = ⊥
HasReady (condition ∷ conditions) =
    ((condition.type ≡ "Ready") × (condition.status ≡ "True")) ⊎ HasReady conditions

-- A pod that replaces the one that the action was on: another one, not being deleted, controlled by
-- the replica set with this UID, and ready.
pub record IsReplacement (replica_set_uid target_uid : String) (pod : Pod) : Type 0 where
  pub controller : OwnerReference
  pub present : pod.deletion_timestamp ≡ none
  pub other : pod.uid ≢ target_uid
  pub controlled : pod.controller ≡ some controller
  pub kind : controller.kind ≡ "ReplicaSet"
  pub owned : controller.uid ≡ replica_set_uid
  pub ready : HasReady pod.conditions

pub has_ready_condition-HasReady :
    (conditions : List PodCondition) → (has_ready_condition conditions ≡ true) ↔ HasReady conditions
unfolding has_ready_condition
has_ready_condition-HasReady [] = ground arith
has_ready_condition-HasReady (condition ∷ conditions) = ground (
  arith,
  has_ready_condition-HasReady conditions,
  eq_iff condition.type "Ready",
  eq_iff condition.status "True",
)

pub ready_pod-IsReplacement :
    (pod : Pod) (rs : ReplicaSet) (target : String)
    → ready_controlled_replacement_pod pod rs target ≡ true
    → IsReplacement rs.uid target pod
unfolding ready_controlled_replacement_pod
ready_pod-IsReplacement pod rs target h = elim (Option-cases pod.controller) [
  | inl n ↦ absurd (ground arith)
  | inr (c, e) ↦ elim (Option-cases pod.deletion_timestamp) [
    | inr (t, d) ↦ absurd (ground arith)
    | inl d ↦ record {
      controller = c;
      present = d;
      other = ground (arith, eq_iff pod.uid target);
      controlled = e;
      kind = ground (arith, eq_iff c.kind "ReplicaSet");
      owned = ground (arith, eq_iff c.uid rs.uid);
      ready = ground (arith, has_ready_condition-HasReady pod.conditions);
    }
  ]
]

pub IsReplacement-ready_pod :
    (pod : Pod) (rs : ReplicaSet) (target : String)
    → IsReplacement rs.uid target pod
    → ready_controlled_replacement_pod pod rs target ≡ true
unfolding ready_controlled_replacement_pod
IsReplacement-ready_pod pod rs target h = ground (
  arith,
  h.present,
  h.other,
  h.controlled,
  h.kind,
  h.owned,
  h.ready,
  eq_iff pod.uid target,
  eq_iff h.controller.kind "ReplicaSet",
  eq_iff h.controller.uid rs.uid,
  has_ready_condition-HasReady pod.conditions,
)

-- So many pods of the list, at different places, have the property.
abbrev pub AtLeast : (Pod → Type 0) → ℕ → List Pod → Type 0
AtLeast P zero pods = Unit {0}
AtLeast P (suc n) [] = ⊥
AtLeast P (suc n) (pod ∷ pods) = (P pod × AtLeast P n pods) ⊎ AtLeast P (suc n) pods

-- how many pods the code takes for ready replacements
unfoldable pub ready_replacements : ReplicaSet → String → List Pod → ℕ
ready_replacements replica_set target [] = 0
ready_replacements replica_set target (pod ∷ pods) =
    let rest = ready_replacements replica_set target pods in
    if ready_controlled_replacement_pod pod replica_set target then rest + 1 else rest

pub ready_replacements-AtLeast :
    (rs : ReplicaSet) (target : String) (n : ℕ) (pods : List Pod)
    → n ≤ ready_replacements rs target pods
    → AtLeast (IsReplacement rs.uid target) n pods
unfolding ready_replacements
ready_replacements-AtLeast rs target zero pods h = tt
ready_replacements-AtLeast rs target (suc n) [] h = absurd (omega arith)
ready_replacements-AtLeast rs target (suc n) (pod ∷ pods) h =
    elim (Bool-cases (ready_controlled_replacement_pod pod rs target)) [
      | inl e ↦ inl (
        ready_pod-IsReplacement pod rs target e,
        ready_replacements-AtLeast rs target n pods (ground arith),
      )
      | inr e ↦ inr (ready_replacements-AtLeast rs target (suc n) pods (ground arith))
    ]

pub AtLeast-ready_replacements :
    (rs : ReplicaSet) (target : String) (n : ℕ) (pods : List Pod)
    → AtLeast (IsReplacement rs.uid target) n pods
    → n ≤ ready_replacements rs target pods
unfolding ready_replacements
AtLeast-ready_replacements rs target zero pods h = omega arith
AtLeast-ready_replacements rs target (suc n) [] h = absurd h
AtLeast-ready_replacements rs target (suc n) (pod ∷ pods) (inl (p, h)) =
    ground (
      arith,
      IsReplacement-ready_pod pod rs target p,
      AtLeast-ready_replacements rs target n pods h,
    )
AtLeast-ready_replacements rs target (suc n) (pod ∷ pods) (inr h) =
    ground (arith, AtLeast-ready_replacements rs target (suc n) pods h)

abbrev pub number : List Pod → ℕ
number [] = 0
number (pod ∷ pods) = number pods + 1

pub ready_replacements-number :
    (rs : ReplicaSet) (target : String) (pods : List Pod)
    → ready_replacements rs target pods ≤ number pods
unfolding ready_replacements
ready_replacements-number rs target [] = omega arith
ready_replacements-number rs target (pod ∷ pods) =
    ground (arith, ready_replacements-number rs target pods)

-- The counter does not overflow while the number fits.
pub count_ready_from :
    (replica_set : ReplicaSet) (target : String) (pods : List Pod) (n : ℕ)
    → n + ready_replacements replica_set target pods ≤ i32_max
    → count_ready replica_set target pods (pos n)
      ≡ pos (n + ready_replacements replica_set target pods)
unfolding count_ready ready_replacements
count_ready_from replica_set target [] n h = ground arith
count_ready_from replica_set target (pod ∷ pods) n h =
    elim (Bool-cases (ready_controlled_replacement_pod pod replica_set target)) [
      | inl e ↦ ground (arith, count_ready_from replica_set target pods (n + 1))
      | inr e ↦ ground (arith, count_ready_from replica_set target pods n)
    ]

-- ===== src/Agent/Kubernetes/Replacing.antt =====
-- kubernetes_verification_executor.go: when an action counts as having helped.
use sre_agent_gitops.Prelude.{
  negsuc, ap, ◌∙◌, ◌<◌, List, String, arith, false, inl, inr, int_leb, none, pos, refl, some,
  text_eq, true, ◌≡◌, ◌≤◌, ℕ, ℤ, Option-cases, sym, eq_iff, Context, ◌↔◌,
}
use sre_agent_gitops.Prelude.Method.{Result, err, ok}
use sre_agent_gitops.Remediation.Verification.{Verification, recovered}
use mathlib.Core.Path.{subst}
use sre_agent_gitops.Agent.Execution.{ExecutionError, VerificationExecutionResult}
use sre_agent_gitops.Agent.Kubernetes.{
  KubernetesVerificationExecutor, verify, verify_in, available, check_executor, judge_counts,
  judge_desired, judge_pods, judge_replica_set, select_pods, verify_checked, verify_with, Client,
  Pod, ReplicaSet, count_ready, i32_max, Option,
}
use sre_agent_gitops.Agent.Kubernetes.Counting.{
  IsReplacement, AtLeast, ready_replacements, ready_replacements-AtLeast,
  AtLeast-ready_replacements, number, ready_replacements-number, count_ready_from,
}

-- What Kubernetes shows of an action that has helped.
pub record Replaced (client : Client) (verification : Verification) : Type 0 where
  pub replica_set : ReplicaSet
  pub desired : ℕ
  pub selector : String
  pub pods : List Pod
  pub got :
      client.get_replica_set verification.subject.namespace verification.subject.name
      ≡ ok replica_set
  pub same : replica_set.uid ≡ verification.subject.uid
  pub present : replica_set.deletion_timestamp ≡ none
  pub wanted : replica_set.desired_replicas ≡ some (pos desired)
  pub positive : 0 < desired
  pub current : int_leb replica_set.generation replica_set.observed_generation ≡ true
  pub enough : int_leb (pos desired) replica_set.replicas ≡ true
  pub ready : int_leb (pos desired) replica_set.ready_replicas ≡ true
  pub serving : int_leb (pos desired) replica_set.available_replicas ≡ true
  pub selected : replica_set.selector ≡ some (ok selector)
  pub listed : client.list_pods verification.subject.namespace selector ≡ ok pods
  pub replaced :
      AtLeast
        (IsReplacement verification.subject.uid verification.action_key.target_uid)
        desired
        pods

-- No list of pods is longer than an `int32` counts.
abbrev pub FitsInt32 : Client → Type 0
FitsInt32 client =
    (namespace selector : String) (pods : List Pod)
    → client.list_pods namespace selector ≡ ok pods
    → number pods ≤ i32_max

module _ (client : Client) (fits : FitsInt32 client) (v : Verification) where
  counted :
      (rs : ReplicaSet) (selector : String) (pods : List Pod)
      → client.list_pods v.subject.namespace selector ≡ ok pods
      → count_ready rs v.action_key.target_uid pods (pos 0)
        ≡ pos (ready_replacements rs v.action_key.target_uid pods)
  counted rs selector pods h = ground (
    arith,
    count_ready_from rs v.action_key.target_uid pods 0,
    fits v.subject.namespace selector pods h,
    ready_replacements-number rs v.action_key.target_uid pods,
  )

  pods_recovered :
      (rs : ReplicaSet) (d : ℤ) (o : Result ExecutionError (List Pod))
      (r : VerificationExecutionResult)
      → judge_pods v rs d o ≡ ok r
      → r.status ≡ recovered
      → (pods : List Pod) × (o ≡ ok pods)
        × (int_leb d (count_ready rs v.action_key.target_uid pods (pos 0)) ≡ true)
  pods_recovered rs d (err e) r h s = absurd (ground arith)
  pods_recovered rs d (ok pods) r h s = (pods, refl, ground arith)

  selector_recovered :
      (rs : ReplicaSet) (d : ℤ) (o : Option (Result ExecutionError String))
      (r : VerificationExecutionResult)
      → select_pods client v rs d o ≡ ok r
      → r.status ≡ recovered
      → (selector : String) × (o ≡ some (ok selector))
        × (judge_pods v rs d (client.list_pods v.subject.namespace selector) ≡ ok r)
  selector_recovered rs d none r h s = absurd (ground arith)
  selector_recovered rs d (some (err e)) r h s = absurd (ground arith)
  selector_recovered rs d (some (ok selector)) r h s = (selector, refl, h)

  counts_recovered :
      (rs : ReplicaSet) (d : ℤ) (r : VerificationExecutionResult)
      → judge_counts client v rs d ≡ ok r
      → r.status ≡ recovered
      → (int_leb d (pos 0) ≡ false)
        × (int_leb rs.generation rs.observed_generation ≡ true)
        × (int_leb d rs.replicas ≡ true)
        × (int_leb d rs.ready_replicas ≡ true)
        × (int_leb d rs.available_replicas ≡ true)
        × (select_pods client v rs d rs.selector ≡ ok r)
  counts_recovered rs d r h s = ground arith

  desired_recovered :
      (rs : ReplicaSet) (o : Option ℤ) (r : VerificationExecutionResult)
      → judge_desired client v rs o ≡ ok r
      → (d : ℤ) × (o ≡ some d) × (judge_counts client v rs d ≡ ok r)
  desired_recovered rs none r h = absurd (ground arith)
  desired_recovered rs (some d) r h = (d, refl, h)

  set_recovered :
      (o : Result ExecutionError ReplicaSet) (r : VerificationExecutionResult)
      → judge_replica_set client v o ≡ ok r
      → (rs : ReplicaSet) × (o ≡ ok rs)
        × (rs.uid ≡ v.subject.uid)
        × (rs.deletion_timestamp ≡ none)
        × (judge_desired client v rs rs.desired_replicas ≡ ok r)
  set_recovered (err e) r h = absurd (ground arith)
  set_recovered (ok rs) r h = elim (Option-cases rs.deletion_timestamp) [
    | inr (t, e) ↦ absurd (ground arith)
    | inl e ↦ (rs, refl, ground (arith, eq_iff rs.uid v.subject.uid), e, ground arith)
  ]

  checked_recovered :
      (o : Option String) (r : VerificationExecutionResult)
      → verify_checked client v o ≡ ok r
      → (o ≡ none)
        × (judge_replica_set client v (client.get_replica_set v.subject.namespace v.subject.name)
            ≡ ok r)
  checked_recovered none r h = (refl, h)
  checked_recovered (some e) r h = absurd (ground arith)

  positive_natural : (d : ℤ) → int_leb d (pos 0) ≡ false → (n : ℕ) × (d ≡ pos n)
  positive_natural (pos n) h = (n, refl)
  positive_natural (negsuc n) h = absurd (ground arith)

  recovered-Replaced :
      (cluster : String) (r : VerificationExecutionResult)
      → verify_with (some client) cluster v ≡ ok r
      → r.status ≡ recovered
      → Replaced client v
  recovered-Replaced cluster r h s =
      let (valid, a) = checked_recovered (check_executor cluster v) r h in
      let (rs, got, same, present, b) =
        set_recovered (client.get_replica_set v.subject.namespace v.subject.name) r a in
      let (d, wanted, c) = desired_recovered rs rs.desired_replicas r b in
      let (positive, current, enough, ready, serving, e) = counts_recovered rs d r c s in
      let (selector, selected, f) = selector_recovered rs d rs.selector r e s in
      let (pods, listed, g) =
        pods_recovered rs d (client.list_pods v.subject.namespace selector) r f s in
      let (n, natural) = positive_natural d positive in
      let many : n ≤ ready_replacements rs v.action_key.target_uid pods =
        ground (arith, g, natural, counted rs selector pods listed) in
      record {
        replica_set = rs;
        desired = n;
        selector = selector;
        pods = pods;
        got = got;
        same = same;
        present = present;
        wanted = wanted ∙ ap some natural;
        positive = ground (arith, natural);
        current = current;
        enough = subst (λ z. int_leb z rs.replicas ≡ true) natural enough;
        ready = subst (λ z. int_leb z rs.ready_replicas ≡ true) natural ready;
        serving = subst (λ z. int_leb z rs.available_replicas ≡ true) natural serving;
        selected = selected;
        listed = listed;
        replaced =
            subst (λ u. AtLeast (IsReplacement u v.action_key.target_uid) n pods) same
              (ready_replacements-AtLeast rs v.action_key.target_uid n pods many);
      }

  pods_available :
      (rs : ReplicaSet) (d : ℤ) (pods : List Pod)
      → int_leb d (count_ready rs v.action_key.target_uid pods (pos 0)) ≡ true
      → judge_pods v rs d (ok pods) ≡ ok available
  pods_available rs d pods h = rw h refl

  counts_available :
      (rs : ReplicaSet) (d : ℤ)
      → int_leb d (pos 0) ≡ false
      → int_leb rs.generation rs.observed_generation ≡ true
      → int_leb d rs.replicas ≡ true
      → int_leb d rs.ready_replicas ≡ true
      → int_leb d rs.available_replicas ≡ true
      → select_pods client v rs d rs.selector ≡ ok available
      → judge_counts client v rs d ≡ ok available
  counts_available rs d a b c e f h = ground arith

  set_available :
      (rs : ReplicaSet)
      → rs.uid ≡ v.subject.uid
      → rs.deletion_timestamp ≡ none
      → judge_desired client v rs rs.desired_replicas ≡ ok available
      → judge_replica_set client v (ok rs) ≡ ok available
  set_available rs a b h = ground (arith, eq_iff rs.uid v.subject.uid)

  Replaced-recovered :
      (cluster : String)
      → check_executor cluster v ≡ none
      → Replaced client v
      → verify_with (some client) cluster v ≡ ok available
  Replaced-recovered cluster valid p =
      let many : p.desired ≤ ready_replacements p.replica_set v.action_key.target_uid p.pods =
        AtLeast-ready_replacements p.replica_set v.action_key.target_uid p.desired p.pods (
          subst (λ u. AtLeast (IsReplacement u v.action_key.target_uid) p.desired p.pods)
            (sym p.same) p.replaced) in
      let all : int_leb (pos p.desired)
            (count_ready p.replica_set v.action_key.target_uid p.pods (pos 0))
          ≡ true =
        ground (arith, many, counted p.replica_set p.selector p.pods p.listed) in
      let listed : judge_pods v p.replica_set (pos p.desired)
            (client.list_pods v.subject.namespace p.selector)
          ≡ ok available =
        subst (λ o. judge_pods v p.replica_set (pos p.desired) o ≡ ok available) (sym p.listed)
          (pods_available p.replica_set (pos p.desired) p.pods all) in
      let selected : select_pods client v p.replica_set (pos p.desired) p.replica_set.selector
          ≡ ok available =
        subst (λ o. select_pods client v p.replica_set (pos p.desired) o ≡ ok available)
          (sym p.selected) listed in
      let counts : judge_counts client v p.replica_set (pos p.desired) ≡ ok available =
        counts_available p.replica_set (pos p.desired) (ground (arith, p.positive)) p.current
          p.enough p.ready p.serving selected in
      let wanted : judge_desired client v p.replica_set p.replica_set.desired_replicas
          ≡ ok available =
        subst (λ o. judge_desired client v p.replica_set o ≡ ok available) (sym p.wanted) counts in
      let got : judge_replica_set client v
            (client.get_replica_set v.subject.namespace v.subject.name)
          ≡ ok available =
        subst (λ o. judge_replica_set client v o ≡ ok available) (sym p.got)
          (set_available p.replica_set p.same p.present wanted) in
      subst (λ o. verify_checked client v o ≡ ok available) (sym valid) got

-- An executor that has a client, which lists no more pods than an `int32` counts, for a verification
-- that it accepts and a context that has not ended,
-- answers RECOVERED exactly if Kubernetes shows the subject of the verification replaced: the replica
-- set is there under the subject's UID, is not being deleted, wants at least one replica, its status is
-- up to date, and has as many replicas, ready ones and available ones as are wanted; and of the pods
-- that its selector lists, as many as are wanted are ready, controlled by it, not being deleted, and
-- not the pod that the action was on.
pub verify-Replaced :
    (client : Client) (cluster : String) (ctx : Context) (v : Verification)
    → FitsInt32 client
    → ctx 0 ≡ none
    → check_executor cluster v ≡ none
    → ((r : VerificationExecutionResult) × (verify
            (record { client = some client; cluster_name = cluster })
            (some ctx)
            v
          ≡ ok r)
        × (r.status ≡ recovered))
      ↔ Replaced client v
unfolding verify
verify-Replaced client cluster ctx v fits live valid = (
  λ (r, h, s). recovered-Replaced client fits v cluster r (opened r h) s,
  λ p. (available, closed p, refl),
)
  where
    executor : KubernetesVerificationExecutor
    executor = record { client = some client; cluster_name = cluster }

    opened :
        (r : VerificationExecutionResult)
        → verify_in executor (ctx 0) v ≡ ok r
        → verify_with (some client) cluster v ≡ ok r
    opened r h = subst (λ o. verify_in executor o v ≡ ok r) live h

    closed : Replaced client v → verify_in executor (ctx 0) v ≡ ok available
    closed p =
        subst (λ o. verify_in executor o v ≡ ok available) (sym live)
          (Replaced-recovered client fits v cluster valid p)

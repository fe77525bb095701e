-- ===== src/Agent/Action/Authorizing.antt =====
-- waiting_approval.go: on what an action is taken.
use sre_agent_gitops.Prelude.{
  Bool, Option, Option-cases, Sha256, String, Time, ap, arith, false, inl, inr, none, refl, some,
  true, ◌≡◌, ◌⊎◌, eq_iff, text_eq, nat_eq,
}
use sre_agent_gitops.Prelude.Method.{Result, continue, err, final, ok, result, map_result}
use sre_agent_gitops.Incident.{Incident, state_eq, state_eqb_iff, waiting_approval}
use sre_agent_gitops.Approval.{
  target_eqb_iff, Approval, Error, Approval, Error, Plan, target_eq, validate, approval_expired,
  approval_not_yet_valid,
}
use sre_agent_gitops.Approval.Store.{approval_of, lookup_approval}
use sre_agent_gitops.Approval.PlanStore.{lookup_plan, plan_of, validate_plan}
use sre_agent_gitops.Agent.Permitting.{Listed, Below, contains_string-Listed, reaches-Below}
use sre_agent_gitops.Agent.Action.Resuming.{
  approval_granted, approval_key, judged, recover_plan, mismatches, binding_key, approve, authorize,
  permit, resume_waiting_approval, waiting_approval_policy_code,
}
use mathlib.Core.Path.{subst}
use sre_agent_gitops.Agent.Action.{coded, ActionAgent, Given, World}
use sre_agent_gitops.Agent.Action.Once.{Deletes, resume_cases}
use sre_agent_gitops.Agent.Config.{AgentConfig}
use sre_agent_gitops.Agent.Evidence.{PodEvidence, expected_target}
use sre_agent_gitops.Agent.Memory.{RemediationSnapshot}

-- The configuration and the snapshot of the pod's past permit the action.
pub record Permits (config : AgentConfig) (evidence : PodEvidence) (state : RemediationSnapshot)
    (plan : Plan) : Type 0 where
  pub enabled : config.restart_pod_approved ≡ true
  pub namespace : Listed plan.target.namespace config.allowed_namespaces
  pub owner : Listed evidence.owner.kind config.allowed_controller_kinds
  pub not_duplicate : state.duplicate ≡ false
  pub cooled_down : state.in_cooldown ≡ false
  pub below_maximum : Below state.attempts_in_window config.maximum_attempts

policy-Permits :
    (config : AgentConfig) (plan : Plan) (evidence : PodEvidence) (state : RemediationSnapshot)
    → waiting_approval_policy_code config plan evidence state ≡ none
    → Permits config evidence state plan
unfolding waiting_approval_policy_code
policy-Permits config plan evidence state h = record {
  enabled = ground arith;
  namespace =
      ground (arith, contains_string-Listed config.allowed_namespaces plan.target.namespace);
  owner =
      ground (arith, contains_string-Listed config.allowed_controller_kinds evidence.owner.kind);
  not_duplicate = ground arith;
  cooled_down = ground arith;
  below_maximum = ground (arith, reaches-Below state.attempts_in_window config.maximum_attempts);
}

module _ (agent : ActionAgent) (sha : Sha256) (given : Given) where
  -- The plan is the one that the incident is bound to.
  pub record Recovered (current : Incident) (evidence : PodEvidence) (plan : Plan) (w : World)
      : Type 0 where
    pub waiting : current.state ≡ waiting_approval
    pub stored : plan_of (binding_key current) w.plans ≡ some plan
    pub canonical : validate_plan sha plan ≡ none
    pub incident : plan.incident_id ≡ current.id
    pub hash : plan.hash ≡ current.approval_binding.plan_hash
    pub target : plan.target ≡ expected_target evidence
    pub action : plan.action ≡ "RESTART_POD"

  matches :
      (current : Incident) (evidence : PodEvidence) (p : Plan)
      → mismatches current evidence p ≡ false
      → (p.incident_id ≡ current.id)
        × (p.hash ≡ current.approval_binding.plan_hash)
        × (p.target ≡ expected_target evidence)
        × (p.action ≡ "RESTART_POD")
  unfolding mismatches
  matches current evidence p h = ground (
    arith,
    eq_iff p.incident_id current.id,
    eq_iff p.hash current.approval_binding.plan_hash,
    target_eqb_iff p.target (expected_target evidence),
    eq_iff p.action "RESTART_POD",
  )

  recovered_inv :
      (current : Incident) (evidence : PodEvidence) (p plan : Plan) (w : World)
      → plan_of (binding_key current) w.plans ≡ some p
      → result (recover_plan agent sha given current evidence) w ≡ ok plan
      → (current.state ≡ waiting_approval)
        × (plan ≡ p)
        × (validate_plan sha p ≡ none)
        × (mismatches current evidence p ≡ false)
  unfolding recover_plan lookup_plan
  recovered_inv current evidence p plan w e h =
      ground (arith, state_eqb_iff current.state waiting_approval)

  recover_plan-Recovered :
      (current : Incident) (evidence : PodEvidence) (plan : Plan) (w : World)
      → result (recover_plan agent sha given current evidence) w ≡ ok plan
      → Recovered current evidence plan w
  recover_plan-Recovered current evidence plan w h =
      elim (Option-cases (plan_of (binding_key current) w.plans)) [
        | inl e ↦ absurd (unfold recover_plan lookup_plan in ground arith)
        | inr (p, e) ↦
            let (waiting, same, valid, m) = recovered_inv current evidence p plan w e h in
            let (incident, hash, target, action) = matches current evidence p m in
            record {
              waiting = waiting;
              stored = cc (e, same);
              canonical = rw same valid;
              incident = rw same incident;
              hash = rw same hash;
              target = rw same target;
              action = rw same action;
            }
      ]

  -- The approval of a plan that is on record and fits it.
  abbrev pub Approved : Plan → Time → World → Type 0
  Approved plan now w =
      (granted : Approval) × (approval_of (approval_key plan) w.approvals ≡ some granted)
      × (validate sha granted plan now ≡ none)

  judged-none : (o : Option Error) → judged agent sha given o ≡ ok true → o ≡ none
  judged-none none h = refl
  judged-none (some approval_expired) h = absurd (ground arith)
  judged-none (some approval_not_yet_valid) h = absurd (ground arith)
  judged-none (some e) h = absurd (ground arith)

  recover_plan_keeps :
      (current : Incident) (evidence : PodEvidence) (w : World)
      → (final (recover_plan agent sha given current evidence) w).approvals ≡ w.approvals
  unfolding recover_plan lookup_plan
  recover_plan_keeps current evidence w = ground arith

  approval_granted-Approved :
      (plan : Plan) (now : Time) (w : World)
      → result (approval_granted agent sha given plan now) w ≡ ok true
      → Approved plan now w
  unfolding approval_granted lookup_approval
  approval_granted-Approved plan now w h =
      elim (Option-cases (approval_of (approval_key plan) w.approvals)) [
        | inl e ↦ absurd (ground arith)
        | inr (g, e) ↦ (g, e, judged-none (validate sha g plan now) (ground arith))
      ]

  -- What the checks have found when they accept a plan.
  pub record Authorized (current : Incident) (evidence : PodEvidence) (state : RemediationSnapshot)
      (now : Time) (plan : Plan) (w : World) : Type 0 where
    pub recovered : Recovered current evidence plan w
    pub approved : Approved plan now w
    pub permitted : Permits agent.config evidence state plan

  permit_inv :
      (evidence : PodEvidence) (state : RemediationSnapshot) (p plan : Plan) (b : Bool) (t : World)
      → result (permit agent sha given evidence state p b) t ≡ ok plan
      → (b ≡ true)
        × (p ≡ plan)
        × (waiting_approval_policy_code agent.config p evidence state ≡ none)
  permit_inv evidence state p plan b t h = ground arith

  approve_inv :
      (evidence : PodEvidence) (state : RemediationSnapshot) (now : Time) (p plan : Plan)
      (t : World)
      → result (approve agent sha given evidence state now p) t ≡ ok plan
      → (result (approval_granted agent sha given p now) t ≡ ok true)
        × (p ≡ plan)
        × (waiting_approval_policy_code agent.config p evidence state ≡ none)
  approve_inv evidence state now p plan t h = go (approval_granted agent sha given p now t) h
    where
      go :
          (o : Result String Bool × World)
          → (continue
              (map_result (coded "APPROVAL_CHECK_FAILED") o)
              (permit agent sha given evidence state p)).0
            ≡ ok plan
          → (o.0 ≡ ok true)
            × (p ≡ plan)
            × (waiting_approval_policy_code agent.config p evidence state ≡ none)
      go (err e, u) q = absurd (ground arith)
      go (ok b, u) q =
          let (holds, same, allowed) = permit_inv evidence state p plan b u q in
          (ap ok holds, same, allowed)

  authorize_inv :
      (current : Incident) (evidence : PodEvidence) (state : RemediationSnapshot) (now : Time)
      (plan : Plan) (w : World)
      → result (authorize agent sha given current evidence state now) w ≡ ok plan
      → (result (recover_plan agent sha given current evidence) w ≡ ok plan)
        × (result
              (approval_granted agent sha given plan now)
              (final (recover_plan agent sha given current evidence) w)
            ≡ ok true)
        × (waiting_approval_policy_code agent.config plan evidence state ≡ none)
  unfolding authorize
  authorize_inv current evidence state now plan w h =
      go (recover_plan agent sha given current evidence w) h
    where
      go :
          (o : Result String Plan × World)
          → (continue
              (map_result (coded "INCIDENT_PLAN_RECOVERY_FAILED") o)
              (approve agent sha given evidence state now)).0
            ≡ ok plan
          → (o.0 ≡ ok plan)
            × (result (approval_granted agent sha given plan now) o.1 ≡ ok true)
            × (waiting_approval_policy_code agent.config plan evidence state ≡ none)
      go (err e, u) q = absurd (ground arith)
      go (ok p, u) q =
          let (granted, same, allowed) = approve_inv evidence state now p plan u q in
          (ap ok same, rw same at granted, rw same at allowed)

  authorize-Authorized :
      (current : Incident) (evidence : PodEvidence) (state : RemediationSnapshot) (now : Time)
      (plan : Plan) (w : World)
      → result (authorize agent sha given current evidence state now) w ≡ ok plan
      → Authorized current evidence state now plan w
  authorize-Authorized current evidence state now plan w h =
      let (r, a, p) = authorize_inv current evidence state now plan w h in
      let (g, found, valid) =
        approval_granted-Approved plan now (final (recover_plan agent sha given current evidence) w)
          a in
      record {
        recovered = recover_plan-Recovered current evidence plan w r;
        approved = (
          g,
          subst (λ s. approval_of (approval_key plan) s ≡ some g)
              (recover_plan_keeps current evidence w) found,
          valid,
        );
        permitted = policy-Permits agent.config plan evidence state p;
      }

  -- Whenever the agent has Kubernetes delete a pod, the incident waits for approval, the plan is the
  -- canonical one that it is bound to, for the observed pod and to restart it, an approval of that
  -- plan is on record and valid at this time, and the configuration and the pod's past permit the
  -- action; the plan had no attempt before and has one after. Otherwise nothing is deleted.
  pub resume-Authorized :
      (id : String) (current : Incident) (evidence : PodEvidence) (state : RemediationSnapshot)
      (target : String) (now : Time) (w : World)
      → let t =
          final (resume_waiting_approval agent sha given id current evidence state target now) w in
        (t.deletions ≡ w.deletions)
        ⊎ ((plan : Plan) × Authorized current evidence state now plan w × Deletes plan w t)
  resume-Authorized id current evidence state target now w =
      elim (resume_cases agent sha given id current evidence state target now w) [
        | inl x ↦ inl x.deletions
        | inr (plan, a, d) ↦ inr (plan, authorize-Authorized current evidence state now plan w a, d)
      ]

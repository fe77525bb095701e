-- ===== src/Agent/Policy.antt =====
-- policy.go: which of the model's decisions is allowed.
use sre_agent_gitops.Prelude.{
  Bool, List, Option, String, if◌then◌else◌, int_leb, pos, none, some, not, text_eq, ◌!=◌, ◌==◌,
  ◌||◌, ◌&&◌, true, false, ℕ, ℤ, ◌≡◌, ◌↔◌, ◌≢◌, arith, eq_iff, inl, inr, is_some, Option-cases,
  refl, sym,
}
use mathlib.Core.Path.{subst}
use sre_agent_gitops.Agent.Config.{Float64}
use sre_agent_gitops.Agent.Evidence.{DecisionTarget}
use sre_agent_gitops.Agent.Decision.{Decision, Floats, validate_decision}
use sre_agent_gitops.Agent.Permitting.{
  Listed, Below, Restarts, contains_string-Listed, reaches-Below, valid-Restarts, Restarts-valid,
}
use sre_agent_gitops.Agent.Action.Resuming.{contains_string, reaches}

pub record PolicyContext : Type 0 where
  pub incident_id : String
  pub current_target : DecisionTarget
  pub allowed_namespaces : List String
  pub controller_owner_kind : String
  pub allowed_controller_kinds : List String
  pub approval_granted : Bool
  pub minimum_confidence : Float64
  pub duplicate : Bool
  pub in_cooldown : Bool
  pub attempts_in_window : ℕ
  pub maximum_attempts : ℤ  -- int

pub record PolicyResult : Type 0 where
  pub allowed : Bool
  pub action : String
  pub code : String

unfoldable pub decision_target_eqb : DecisionTarget → DecisionTarget → Bool
decision_target_eqb a b =
    a.cluster == b.cluster
    && a.namespace == b.namespace
    && a.kind == b.kind
    && a.name == b.name
    && a.uid == b.uid

pub decision_target_eqb_iff : (a b : DecisionTarget) → (decision_target_eqb a b ≡ true) ↔ (a ≡ b)
unfolding decision_target_eqb
decision_target_eqb_iff a b = ground (
  arith,
  eq_iff a.cluster b.cluster,
  eq_iff a.namespace b.namespace,
  eq_iff a.kind b.kind,
  eq_iff a.name b.name,
  eq_iff a.uid b.uid,
)

abbrev pub denied_policy_result : String → String → PolicyResult
denied_policy_result action code = record { allowed = false; action = action; code = code }

module _ (floats : Floats) where
  -- the code with which a valid decision to restart is denied, if it is
  abbrev denied_code : Decision → PolicyContext → Option String
  denied_code decision given =
      if decision.incident_id != given.incident_id
      then some "INCIDENT_MISMATCH"
      else if not (decision_target_eqb decision.target given.current_target)
      then some "TARGET_MISMATCH"
      else if not (contains_string given.allowed_namespaces decision.target.namespace)
      then some "NAMESPACE_DENIED"
      else if not (contains_string given.allowed_controller_kinds given.controller_owner_kind)
      then some "OWNER_DENIED"
      else if not given.approval_granted
      then some "APPROVAL_REQUIRED"
      else if floats.less decision.confidence given.minimum_confidence
      then some "LOW_CONFIDENCE"
      else if decision.risk == "high"
      then some "RISK_DENIED"
      else if given.duplicate
      then some "DUPLICATE_INCIDENT"
      else if given.in_cooldown
      then some "COOLDOWN_ACTIVE"
      else if int_leb given.maximum_attempts (pos 0)
          || reaches given.attempts_in_window given.maximum_attempts
      then some "ATTEMPT_LIMIT_REACHED"
      else none

  abbrev refused_code : Decision → PolicyContext → Option String
  refused_code decision given =
      if is_some (validate_decision floats decision)
      then some "INVALID_DECISION"
      else if decision.action == "IGNORE"
      then some "DECISION_IGNORE"
      else if decision.action == "ESCALATE"
      then some "DECISION_ESCALATE"
      else denied_code decision given

  abbrev policy_result : Decision → Option String → PolicyResult
  policy_result decision (some code) = denied_policy_result decision.action code
  policy_result decision none = record {
    allowed = true;
    action = decision.action;
    code = "ALLOWED";
  }

  unfoldable pub evaluate_decision : Decision → PolicyContext → PolicyResult
  evaluate_decision decision given = policy_result decision (refused_code decision given)

  -- What a decision has to meet.
  pub record Allows (decision : Decision) (given : PolicyContext) : Type 0 where
    pub restarts : Restarts floats decision
    pub incident : decision.incident_id ≡ given.incident_id
    pub target : decision.target ≡ given.current_target
    pub namespace : Listed decision.target.namespace given.allowed_namespaces
    pub owner : Listed given.controller_owner_kind given.allowed_controller_kinds
    pub approved : given.approval_granted ≡ true
    pub confident : floats.less decision.confidence given.minimum_confidence ≡ false
    pub risk : decision.risk ≢ "high"
    pub not_duplicate : given.duplicate ≡ false
    pub cooled_down : given.in_cooldown ≡ false
    pub below_maximum : Below given.attempts_in_window given.maximum_attempts

  valid_action :
      (decision : Decision)
      → validate_decision floats decision ≡ none
      → (decision.action == "IGNORE") ≡ false
      → (decision.action == "ESCALATE") ≡ false
      → decision.action ≡ "RESTART_POD"
  unfolding validate_decision
  valid_action decision v i e = ground (arith, eq_iff decision.action "RESTART_POD")

  allowed-Allows :
      (decision : Decision) (given : PolicyContext)
      → (evaluate_decision decision given).allowed ≡ true
      → Allows decision given
  unfolding evaluate_decision
  allowed-Allows decision given h = elim (Option-cases (validate_decision floats decision)) [
    | inr (e, v) ↦ absurd (ground arith)
    | inl v ↦ record {
      restarts =
          valid-Restarts floats decision v (valid_action decision v (ground arith) (ground arith));
      incident = ground (arith, eq_iff decision.incident_id given.incident_id);
      target = ground (arith, decision_target_eqb_iff decision.target given.current_target);
      namespace =
          ground (arith, contains_string-Listed given.allowed_namespaces decision.target.namespace);
      owner = ground (
        arith,
        contains_string-Listed given.allowed_controller_kinds given.controller_owner_kind,
      );
      approved = ground arith;
      confident = ground arith;
      risk = ground (arith, eq_iff decision.risk "high");
      not_duplicate = ground arith;
      cooled_down = ground arith;
      below_maximum = ground (arith, reaches-Below given.attempts_in_window given.maximum_attempts);
    }
  ]

  Allows-allowed :
      (decision : Decision) (given : PolicyContext)
      → Allows decision given
      → (evaluate_decision decision given).allowed ≡ true
  unfolding evaluate_decision
  Allows-allowed decision given h =
      let ignored : (decision.action == "IGNORE") ≡ false =
        subst (λ a. (a == "IGNORE") ≡ false) (sym h.restarts.action) refl in
      let escalated : (decision.action == "ESCALATE") ≡ false =
        subst (λ a. (a == "ESCALATE") ≡ false) (sym h.restarts.action) refl in
      let same : (decision.incident_id == given.incident_id) ≡ true =
        (eq_iff decision.incident_id given.incident_id).1 h.incident in
      let there : decision_target_eqb decision.target given.current_target ≡ true =
        (decision_target_eqb_iff decision.target given.current_target).1 h.target in
      let listed : contains_string given.allowed_namespaces decision.target.namespace ≡ true =
        (contains_string-Listed given.allowed_namespaces decision.target.namespace).1 h.namespace in
      let owned : contains_string given.allowed_controller_kinds given.controller_owner_kind
          ≡ true =
        (contains_string-Listed given.allowed_controller_kinds given.controller_owner_kind).1
          h.owner in
      let risk : (decision.risk == "high") ≡ false =
        ground (arith, h.risk, eq_iff decision.risk "high") in
      let below : (int_leb given.maximum_attempts (pos 0)
            || reaches given.attempts_in_window given.maximum_attempts)
          ≡ false =
        (reaches-Below given.attempts_in_window given.maximum_attempts).1 h.below_maximum in
      rw
        (
          Restarts-valid floats decision h.restarts,
          ignored,
          escalated,
          same,
          there,
          listed,
          owned,
          h.approved,
          h.confident,
          risk,
          h.not_duplicate,
          h.cooled_down,
          below,
        )
        refl

  -- A decision is allowed exactly if it is a well-formed one to restart a pod (of this schema, nothing
  -- that it names blank, with a reason and evidence, a confidence from 0 to 1 and one of the three
  -- risks, asking for approval), names the incident and the pod that were observed, in a namespace and
  -- of an owner that are listed, is approved, is not below the minimum of confidence nor of high risk,
  -- the incident was not handled and no cooldown runs, and fewer attempts were made than the maximum.
  pub evaluate_decision-Allows :
      (decision : Decision) (given : PolicyContext)
      → ((evaluate_decision decision given).allowed ≡ true) ↔ Allows decision given
  evaluate_decision-Allows decision given =
      (allowed-Allows decision given, Allows-allowed decision given)

-- ===== src/Agent/Decision.antt =====
-- decision.go: the decision that the model proposes. Its parsing from JSON, by encoding/json, is not
-- modelled; a decision is what comes of it.
use sre_agent_gitops.Prelude.{
  Bool, List, Option, String, [], ◌∷◌, if◌then◌else◌, is_blank, none, some, not, text_eq, ◌!=◌,
  ◌==◌, ◌||◌, ◌&&◌, true, false,
}
use sre_agent_gitops.Prelude.Method.{first_error}
use sre_agent_gitops.Agent.Config.{Float64}
use sre_agent_gitops.Agent.Evidence.{DecisionTarget}

pub record Decision : Type 0 where
  pub schema_version : String
  pub incident_id : String
  pub action : String
  pub target : DecisionTarget
  pub reason : String
  pub evidence : List String
  pub confidence : Float64
  pub risk : String
  pub requires_approval : Bool

-- Go's `<` on `float64`, and the constants that confidences are compared with.
pub record Floats : Type 0 where
  pub less : Float64 → Float64 → Bool
  pub zero : Float64
  pub one : Float64

-- the `switch d.Action`
abbrev is_action : String → Bool
is_action action = action == "IGNORE" || action == "RESTART_POD" || action == "ESCALATE"

abbrev is_risk : String → Bool
is_risk risk = risk == "low" || risk == "medium" || risk == "high"

unfoldable pub has_blank : List String → Bool
has_blank [] = false
has_blank (item ∷ items) = let rest = has_blank items in if is_blank item then true else rest

abbrev validate_target : DecisionTarget → Option String
validate_target target =
    if is_blank target.cluster
    then some "target.cluster is required"
    else if is_blank target.namespace
    then some "target.namespace is required"
    else if target.kind != "Pod"
    then some "unsupported target.kind"
    else if is_blank target.name
    then some "target.name is required"
    else if is_blank target.uid
    then some "target.uid is required"
    else none

abbrev is_empty : List String → Bool
is_empty [] = true
is_empty (item ∷ items) = false

module _ (floats : Floats) where
  -- `Validate`; an error is its text, less the values that are put into it.
  unfoldable pub validate_decision : Decision → Option String
  validate_decision d =
      if d.schema_version != "v1"
      then some "unsupported schema_version"
      else if is_blank d.incident_id
      then some "incident_id is required"
      else if not (is_action d.action)
      then some "unsupported action"
      else first_error (validate_target d.target) (
          if is_blank d.reason
          then some "reason is required"
          else if is_empty d.evidence
          then some "at least one evidence item is required"
          else if has_blank d.evidence
          then some "evidence must not be empty"
          else if floats.less d.confidence floats.zero || floats.less floats.one d.confidence
          then some "confidence must be between 0 and 1"
          else if not (is_risk d.risk)
          then some "unsupported risk"
          else if d.action == "RESTART_POD" && not d.requires_approval
          then some "RESTART_POD requires approval"
          else none)

-- ===== src/Approval.antt =====
-- internal/approval/approval.go: remediation plans, and the approvals that are granted for them.
pub mod Store
pub mod PlanStore
pub mod Accepting
pub mod Binding
pub mod Granting
pub mod Publishing
use sre_agent_gitops.Prelude.{
  Bool, ContextError, Eq, Option, ◌&&◌, String, Time, Sha256, [], ◌∷◌, true, false, none, some,
  ◌==◌, ◌!=◌, ◌||◌, not, if◌then◌else◌, is_blank, is_zero_time, before, join_nul, concat, text_eq,
  nat_eq, ◌≡◌, ◌↔◌, arith, ◌≤◌, ◌<◌, eq_iff,
}
use sre_agent_gitops.Prelude.Method.{Result, ok, err}
use Prim.Native.Char.{code}

-- The errors of the package.
pub data Error : Type 0 where
  context : ContextError → Error
  invalid_plan invalid_approval incident_mismatch target_uid_mismatch : Error
  plan_hash_mismatch approval_not_yet_valid approval_expired : Error
  invalid_approval_key approval_not_found approval_conflict : Error
  invalid_plan_key plan_not_found plan_conflict : Error

pub record Target : Type 0 where
  pub cluster : String
  pub namespace : String
  pub kind : String
  pub name : String
  pub uid : String

unfoldable pub target_eqb : Target → Target → Bool
target_eqb a b =
    a.cluster == b.cluster
    && a.namespace == b.namespace
    && a.kind == b.kind
    && a.name == b.name
    && a.uid == b.uid

pub target_eqb_iff : (a b : Target) → (target_eqb a b ≡ true) ↔ (a ≡ b)
unfolding target_eqb
target_eqb_iff a b = ground (
  arith,
  eq_iff a.cluster b.cluster,
  eq_iff a.namespace b.namespace,
  eq_iff a.kind b.kind,
  eq_iff a.name b.name,
  eq_iff a.uid b.uid,
)

instance abbrev pub target_eq : Eq Target
target_eq = record { eqb = target_eqb; eqb_iff = target_eqb_iff }

pub record PlanCommand : Type 0 where
  pub incident_id : String
  pub action : String
  pub target : Target

pub record Plan : Type 0 where
  pub incident_id : String
  pub action : String
  pub target : Target
  pub hash : String

unfoldable pub plan_eqb : Plan → Plan → Bool
plan_eqb a b =
    a.incident_id == b.incident_id
    && a.action == b.action
    && a.target == b.target
    && a.hash == b.hash

pub plan_eqb_iff : (a b : Plan) → (plan_eqb a b ≡ true) ↔ (a ≡ b)
unfolding plan_eqb
plan_eqb_iff a b = ground (
  arith,
  eq_iff a.incident_id b.incident_id,
  eq_iff a.action b.action,
  target_eqb_iff a.target b.target,
  eq_iff a.hash b.hash,
)

instance abbrev pub plan_eq : Eq Plan
plan_eq = record { eqb = plan_eqb; eqb_iff = plan_eqb_iff }

pub record Approval : Type 0 where
  pub incident_id : String
  pub plan_hash : String
  pub target_uid : String
  pub approved_by : String
  pub approved_at : Time
  pub expires_at : Time

-- `strings.ContainsRune(value, '\x00')`
unfoldable pub has_nul : String → Bool
has_nul String.[] = false
has_nul (String.◌∷◌ c s) = let rest = has_nul s in if code c == 0 then true else rest

unfoldable pub invalid_identity : String → Bool
invalid_identity value = is_blank value || has_nul value

unfoldable pub is_invalid_plan : PlanCommand → Bool
is_invalid_plan command =
    invalid_identity command.incident_id
    || invalid_identity command.action
    || invalid_identity command.target.cluster
    || invalid_identity command.target.namespace
    || invalid_identity command.target.kind
    || invalid_identity command.target.name
    || invalid_identity command.target.uid

unfoldable pub canonical : PlanCommand → String
canonical command = join_nul (
    "v1" ∷ command.incident_id ∷ command.action ∷ command.target.cluster ∷ command.target.namespace
    ∷ command.target.kind ∷ command.target.name ∷ command.target.uid ∷ [])

unfoldable pub validate_record : Approval → Option Error
validate_record granted =
    if invalid_identity granted.incident_id
      || invalid_identity granted.plan_hash
      || invalid_identity granted.target_uid
      || invalid_identity granted.approved_by
      || is_zero_time granted.approved_at
      || is_zero_time granted.expires_at
      || not (before granted.approved_at granted.expires_at)
    then some invalid_approval
    else none

abbrev pub command_of : Plan → PlanCommand
command_of plan = record {
  incident_id = plan.incident_id;
  action = plan.action;
  target = plan.target;
}

module _ (sha : Sha256) where
  unfoldable pub plan_hash_for : PlanCommand → String
  plan_hash_for command = concat ("sha256:" ∷ sha.hex (canonical command) ∷ [])

  unfoldable pub new_plan : PlanCommand → Result Error Plan
  new_plan command =
      if is_invalid_plan command
      then err invalid_plan
      else ok (record {
        incident_id = command.incident_id;
        action = command.action;
        target = command.target;
        hash = plan_hash_for command;
      })

  -- `err != nil || canonicalPlan.Hash != plan.Hash`
  abbrev differs : Result Error Plan → Plan → Bool
  differs (err e) plan = true
  differs (ok made) plan = made.hash != plan.hash

  abbrev validate_granted : Approval → Plan → Time → Option Error
  validate_granted granted plan now =
      if granted.incident_id != plan.incident_id
      then some incident_mismatch
      else if granted.target_uid != plan.target.uid
      then some target_uid_mismatch
      else if granted.plan_hash != plan.hash
      then some plan_hash_mismatch
      else if before now granted.approved_at
      then some approval_not_yet_valid
      else if not (before now granted.expires_at)
      then some approval_expired
      else none

  unfoldable pub validate : Approval → Plan → Time → Option Error
  validate granted plan now =
      if differs (new_plan (command_of plan)) plan
      then some invalid_plan
      else elim (validate_record granted) [
        | some e ↦ some e
        | none ↦ validate_granted granted plan now
      ]

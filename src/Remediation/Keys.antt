-- ===== src/Remediation/Keys.antt =====
-- internal/remediation: the errors of the package, and the keys of actions and executions.
use sre_agent_gitops.Prelude.{
  Bool, ContextError, Eq, Option, String, arith, eq_iff, if◌then◌else◌, is_blank, nat_eq, none,
  some, text_eq, true, ℕ, ◌&&◌, ◌==◌, ◌↔◌, ◌≡◌,
}
use sre_agent_gitops.Prelude.Method.{first_error}

-- A text is what the message says behind the sentinel, less the values that are put into it.
pub data Error : Type 0 where
  context : ContextError → Error
  invalid_execution_key : String → Error
  invalid_action_attempt : String → Error
  action_attempt_not_found : Error
  action_attempt_version_conflict : Error
  action_attempt_fencing_conflict : Error
  invalid_action_attempt_transition : Error
  invalid_verification : String → Error
  verification_not_found : Error
  verification_version_conflict : Error
  invalid_verification_transition : Error
  verification_subject_conflict : Error
  verification_not_recovered : Error

pub record ActionKey : Type 0 where
  pub incident_id : String
  pub plan_hash : String
  pub target_uid : String

unfoldable pub action_key_eqb : ActionKey → ActionKey → Bool
action_key_eqb a b =
    a.incident_id == b.incident_id && a.plan_hash == b.plan_hash && a.target_uid == b.target_uid

pub action_key_eqb_iff : (a b : ActionKey) → (action_key_eqb a b ≡ true) ↔ (a ≡ b)
unfolding action_key_eqb
action_key_eqb_iff a b = ground (
  arith,
  eq_iff a.incident_id b.incident_id,
  eq_iff a.plan_hash b.plan_hash,
  eq_iff a.target_uid b.target_uid,
)

instance abbrev pub action_key_eq : Eq ActionKey
action_key_eq = record { eqb = action_key_eqb; eqb_iff = action_key_eqb_iff }

unfoldable pub validate_action_key : ActionKey → Option Error
validate_action_key key =
    if is_blank key.incident_id
    then some (invalid_execution_key "incident ID is required")
    else if is_blank key.plan_hash
    then some (invalid_execution_key "plan hash is required")
    else if is_blank key.target_uid
    then some (invalid_execution_key "target UID is required")
    else none

pub record ExecutionKey : Type 0 where
  pub incident_id : String
  pub plan_hash : String
  pub target_uid : String
  pub fencing_token : ℕ

abbrev pub action_key : ExecutionKey → ActionKey
action_key key = record {
  incident_id = key.incident_id;
  plan_hash = key.plan_hash;
  target_uid = key.target_uid;
}

unfoldable pub validate_execution_key : ExecutionKey → Option Error
unfolding validate_action_key
validate_execution_key key = first_error (validate_action_key (action_key key)) (
    if key.fencing_token == 0
    then some (invalid_execution_key "fencing token must be greater than zero")
    else none)

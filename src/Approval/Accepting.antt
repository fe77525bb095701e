-- ===== src/Approval/Accepting.antt =====
-- internal/approval/approval.go: what `Validate` accepts.
use sre_agent_gitops.Prelude.{
  String, Time, Sha256, [], ◌∷◌, false, none, concat, is_blank, join_nul, text_eq, nat_eq, ◌≡◌, ◌≢◌,
  ◌↔◌, arith, ◌≤◌, ◌<◌, eq_iff,
}
use sre_agent_gitops.Approval.{
  Approval, Plan, canonical, command_of, has_nul, invalid_identity, is_invalid_plan, new_plan,
  plan_hash_for, validate, validate_record,
}
use Prim.Native.Char.{code}

abbrev pub NoNul : String → Type 0
NoNul String.[] = Unit {0}
NoNul (String.◌∷◌ c s) = (code c ≢ 0) × NoNul s

-- A text that may stand for something: it is not blank, and no character of it is NUL.
pub record IsIdentity (value : String) : Type 0 where
  pub not_blank : is_blank value ≡ false
  pub no_nul : NoNul value

has_nul-NoNul : (value : String) → (has_nul value ≡ false) ↔ NoNul value
unfolding has_nul
has_nul-NoNul String.[] = ground arith
has_nul-NoNul (String.◌∷◌ c s) = ground (arith, has_nul-NoNul s)

invalid_identity-IsIdentity : (value : String) → invalid_identity value ≡ false → IsIdentity value
unfolding invalid_identity
invalid_identity-IsIdentity value h = record {
  not_blank = ground arith;
  no_nul = ground (arith, has_nul-NoNul value);
}

IsIdentity-invalid_identity : (value : String) → IsIdentity value → invalid_identity value ≡ false
unfolding invalid_identity
IsIdentity-invalid_identity value h = ground (arith, h.not_blank, h.no_nul, has_nul-NoNul value)

-- A plan whose fields all may stand for something.
pub record IsWellFormed (plan : Plan) : Type 0 where
  pub incident_id : IsIdentity plan.incident_id
  pub action : IsIdentity plan.action
  pub cluster : IsIdentity plan.target.cluster
  pub namespace : IsIdentity plan.target.namespace
  pub kind : IsIdentity plan.target.kind
  pub name : IsIdentity plan.target.name
  pub uid : IsIdentity plan.target.uid

pub plan-IsWellFormed :
    (plan : Plan) → is_invalid_plan (command_of plan) ≡ false → IsWellFormed plan
unfolding is_invalid_plan
plan-IsWellFormed plan h = record {
  incident_id = invalid_identity-IsIdentity plan.incident_id (ground arith);
  action = invalid_identity-IsIdentity plan.action (ground arith);
  cluster = invalid_identity-IsIdentity plan.target.cluster (ground arith);
  namespace = invalid_identity-IsIdentity plan.target.namespace (ground arith);
  kind = invalid_identity-IsIdentity plan.target.kind (ground arith);
  name = invalid_identity-IsIdentity plan.target.name (ground arith);
  uid = invalid_identity-IsIdentity plan.target.uid (ground arith);
}

pub IsWellFormed-plan :
    (plan : Plan) → IsWellFormed plan → is_invalid_plan (command_of plan) ≡ false
unfolding is_invalid_plan
IsWellFormed-plan plan h = ground (
  arith,
  IsIdentity-invalid_identity plan.incident_id h.incident_id,
  IsIdentity-invalid_identity plan.action h.action,
  IsIdentity-invalid_identity plan.target.cluster h.cluster,
  IsIdentity-invalid_identity plan.target.namespace h.namespace,
  IsIdentity-invalid_identity plan.target.kind h.kind,
  IsIdentity-invalid_identity plan.target.name h.name,
  IsIdentity-invalid_identity plan.target.uid h.uid,
)

-- A record of an approval that was granted by someone at some time, and expires later.
pub record IsGrant (granted : Approval) : Type 0 where
  pub incident_id : IsIdentity granted.incident_id
  pub plan_hash : IsIdentity granted.plan_hash
  pub target_uid : IsIdentity granted.target_uid
  pub approved_by : IsIdentity granted.approved_by
  pub dated : 0 < granted.approved_at
  pub lasts : granted.approved_at < granted.expires_at

record-IsGrant : (granted : Approval) → validate_record granted ≡ none → IsGrant granted
unfolding validate_record
record-IsGrant granted h = record {
  incident_id = invalid_identity-IsIdentity granted.incident_id (ground arith);
  plan_hash = invalid_identity-IsIdentity granted.plan_hash (ground arith);
  target_uid = invalid_identity-IsIdentity granted.target_uid (ground arith);
  approved_by = invalid_identity-IsIdentity granted.approved_by (ground arith);
  dated = ground arith;
  lasts = ground arith;
}

IsGrant-record : (granted : Approval) → IsGrant granted → validate_record granted ≡ none
unfolding validate_record
IsGrant-record granted h = ground (
  arith,
  IsIdentity-invalid_identity granted.incident_id h.incident_id,
  IsIdentity-invalid_identity granted.plan_hash h.plan_hash,
  IsIdentity-invalid_identity granted.target_uid h.target_uid,
  IsIdentity-invalid_identity granted.approved_by h.approved_by,
  h.dated,
  h.lasts,
)

module _ (sha : Sha256) where
  -- What an accepted approval says.
  pub record Accepts (granted : Approval) (plan : Plan) (now : Time) : Type 0 where
    pub well_formed : IsWellFormed plan
    pub hashed :
        plan.hash
        ≡ concat (
            "sha256:"
            ∷ sha.hex (
                join_nul (
                  "v1" ∷ plan.incident_id ∷ plan.action ∷ plan.target.cluster
                  ∷ plan.target.namespace ∷ plan.target.kind ∷ plan.target.name ∷ plan.target.uid
                  ∷ []))
            ∷ [])
    pub recorded : IsGrant granted
    pub incident : granted.incident_id ≡ plan.incident_id
    pub target : granted.target_uid ≡ plan.target.uid
    pub plan_hash : granted.plan_hash ≡ plan.hash
    pub started : granted.approved_at ≤ now
    pub unexpired : now < granted.expires_at

  accepted :
      (granted : Approval) (plan : Plan) (now : Time)
      → validate sha granted plan now ≡ none
      → Accepts granted plan now
  unfolding validate new_plan
  accepted granted plan now h = record {
    well_formed = plan-IsWellFormed plan (ground arith);
    hashed =
        unfold plan_hash_for canonical in
        ground (arith, eq_iff (plan_hash_for sha (command_of plan)) plan.hash);
    recorded = record-IsGrant granted (ground arith);
    incident = ground (arith, eq_iff granted.incident_id plan.incident_id);
    target = ground (arith, eq_iff granted.target_uid plan.target.uid);
    plan_hash = ground (arith, eq_iff granted.plan_hash plan.hash);
    started = ground arith;
    unexpired = ground arith;
  }

  accepts :
      (granted : Approval) (plan : Plan) (now : Time)
      → Accepts granted plan now
      → validate sha granted plan now ≡ none
  unfolding validate new_plan
  accepts granted plan now h =
      let hashed : plan.hash ≡ plan_hash_for sha (command_of plan) =
        unfold plan_hash_for canonical in h.hashed in
      ground (
        arith,
        hashed,
        h.incident,
        h.target,
        h.plan_hash,
        h.started,
        h.unexpired,
        IsWellFormed-plan plan h.well_formed,
        IsGrant-record granted h.recorded,
        eq_iff granted.incident_id plan.incident_id,
        eq_iff granted.target_uid plan.target.uid,
        eq_iff granted.plan_hash plan.hash,
        eq_iff (plan_hash_for sha (command_of plan)) plan.hash,
      )

  -- `Validate` accepts an approval for a plan at a time exactly if no field of the plan is blank or
  -- has a NUL and its hash is that of its fields, joined; the approval names its incident, the plan's
  -- hash, the target and who granted it, all of them without NUL and not blank, has a time at which it
  -- was granted and a later one at which it expires; it names the incident, the target and the hash of
  -- this plan; and the time is not before the grant and is before the expiry.
  pub validate-Accepts :
      (granted : Approval) (plan : Plan) (now : Time)
      → (validate sha granted plan now ≡ none) ↔ Accepts granted plan now
  validate-Accepts granted plan now = (accepted granted plan now, accepts granted plan now)

-- ===== src/Approval/PlanStore.antt =====
-- internal/approval/plan_store.go: `MemoryPlanStore`, which holds plans under the hash of their text.
use sre_agent_gitops.Prelude.{
  Bool, Context, Eq, Option, String, Sha256, [], arith, eq_iff, none, some, text_eq, true, ℕ, ◌!=◌,
  ◌&&◌, ◌==◌, ◌||◌, ◌↔◌, ◌≡◌, if◌then◌else◌,
}
use sre_agent_gitops.Prelude.Dict.{Dict, insert, lookup}
use sre_agent_gitops.Prelude.Method.{
  Method, Result, err, fail_on, ok, reads, returns, fails, some_or, writes, ◌>>=◌, ◌>>◌,
}
use sre_agent_gitops.Approval.{
  Plan, Error, command_of, context, invalid_identity, invalid_plan, invalid_plan_key, new_plan,
  plan_conflict, plan_eq, plan_not_found,
}
use mathlib.Core.Option

pub record PlanKey : Type 0 where
  pub incident_id : String
  pub hash : String
  pub target_uid : String

unfoldable pub plan_key_eqb : PlanKey → PlanKey → Bool
plan_key_eqb a b =
    a.incident_id == b.incident_id && a.hash == b.hash && a.target_uid == b.target_uid

pub plan_key_eqb_iff : (a b : PlanKey) → (plan_key_eqb a b ≡ true) ↔ (a ≡ b)
unfolding plan_key_eqb
plan_key_eqb_iff a b = ground (
  arith,
  eq_iff a.incident_id b.incident_id,
  eq_iff a.hash b.hash,
  eq_iff a.target_uid b.target_uid,
)

instance abbrev pub plan_key_eq : Eq PlanKey
plan_key_eq = record { eqb = plan_key_eqb; eqb_iff = plan_key_eqb_iff }

unfoldable pub validate_plan_key : PlanKey → Option Error
validate_plan_key key =
    if invalid_identity key.incident_id
      || invalid_identity key.hash
      || invalid_identity key.target_uid
    then some invalid_plan_key
    else none

pub record MemoryPlanStore : Type 0 where
  pub plans : Dict PlanKey Plan

abbrev pub new_memory_plan_store : MemoryPlanStore
new_memory_plan_store = record { plans = [] }

abbrev check : Context → ℕ → Method MemoryPlanStore Error Unit
check ctx k = fail_on (Option.map context (ctx k))

abbrev pub plan_of : PlanKey → MemoryPlanStore → Option Plan
plan_of key store = lookup key store.plans

abbrev pub put_plan : PlanKey → Plan → MemoryPlanStore → MemoryPlanStore
put_plan key plan store = record { plans = insert key plan store.plans }

abbrev pub plan_key_of : Plan → PlanKey
plan_key_of plan = record {
  incident_id = plan.incident_id;
  hash = plan.hash;
  target_uid = plan.target.uid;
}

unfoldable pub lookup_plan : Context → PlanKey → Method MemoryPlanStore Error Plan
lookup_plan ctx key = do
  check ctx 0
  fail_on (validate_plan_key key)
  check ctx 1
  found ← reads (plan_of key)
  some_or found plan_not_found

abbrev publish_at : Plan → Option Plan → Method MemoryPlanStore Error Unit
publish_at plan (some existing) = if existing == plan then returns tt else fails plan_conflict
publish_at plan none = writes (put_plan (plan_key_of plan) plan)

module _ (sha : Sha256) where
  abbrev same_as : Plan → Result Error Plan → Option Error
  same_as plan (err e) = some e
  same_as plan (ok canonical) = if canonical != plan then some invalid_plan else none

  unfoldable pub validate_plan : Plan → Option Error
  validate_plan plan = same_as plan (new_plan sha (command_of plan))

  unfoldable pub publish : Context → Plan → Method MemoryPlanStore Error Unit
  publish ctx plan = do
    check ctx 0
    fail_on (validate_plan plan)
    check ctx 1
    existing ← reads (plan_of (plan_key_of plan))
    publish_at plan existing

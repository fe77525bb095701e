-- ===== src/Approval/Store.antt =====
-- internal/approval/store.go: `MemoryStore`, one approval for each key, granted once.
use sre_agent_gitops.Prelude.{
  Bool, Context, Eq, Option, String, [], arith, eq_iff, nat_eq, none, some, text_eq, true, ℕ, ◌&&◌,
  ◌==◌, ◌||◌, ◌↔◌, ◌≡◌, if◌then◌else◌,
}
use sre_agent_gitops.Prelude.Dict.{Dict, insert, lookup}
use sre_agent_gitops.Prelude.Method.{
  Method, fail_on, reads, returns, fails, some_or, writes, ◌>>=◌, ◌>>◌,
}
use sre_agent_gitops.Approval.{
  Approval, Error, approval_conflict, approval_not_found, context, invalid_approval_key,
  invalid_identity, validate_record,
}
use mathlib.Core.Option

pub record ApprovalKey : Type 0 where
  pub incident_id : String
  pub plan_hash : String
  pub target_uid : String

unfoldable pub approval_key_eqb : ApprovalKey → ApprovalKey → Bool
approval_key_eqb a b =
    a.incident_id == b.incident_id && a.plan_hash == b.plan_hash && a.target_uid == b.target_uid

pub approval_key_eqb_iff : (a b : ApprovalKey) → (approval_key_eqb a b ≡ true) ↔ (a ≡ b)
unfolding approval_key_eqb
approval_key_eqb_iff a b = ground (
  arith,
  eq_iff a.incident_id b.incident_id,
  eq_iff a.plan_hash b.plan_hash,
  eq_iff a.target_uid b.target_uid,
)

instance abbrev pub approval_key_eq : Eq ApprovalKey
approval_key_eq = record { eqb = approval_key_eqb; eqb_iff = approval_key_eqb_iff }

unfoldable pub validate_approval_key : ApprovalKey → Option Error
validate_approval_key key =
    if invalid_identity key.incident_id
      || invalid_identity key.plan_hash
      || invalid_identity key.target_uid
    then some invalid_approval_key
    else none

-- `approvalsEqual`
unfoldable pub approvals_equal : Approval → Approval → Bool
approvals_equal left right =
    left.incident_id == right.incident_id
    && left.plan_hash == right.plan_hash
    && left.target_uid == right.target_uid
    && left.approved_by == right.approved_by
    && left.approved_at == right.approved_at
    && left.expires_at == right.expires_at

pub approvals_equal_iff : (a b : Approval) → (approvals_equal a b ≡ true) ↔ (a ≡ b)
unfolding approvals_equal
approvals_equal_iff a b = ground (
  arith,
  eq_iff a.incident_id b.incident_id,
  eq_iff a.plan_hash b.plan_hash,
  eq_iff a.target_uid b.target_uid,
  eq_iff a.approved_by b.approved_by,
)

pub record MemoryStore : Type 0 where
  pub approvals : Dict ApprovalKey Approval

abbrev pub new_memory_store : MemoryStore
new_memory_store = record { approvals = [] }

abbrev check : Context → ℕ → Method MemoryStore Error Unit
check ctx k = fail_on (Option.map context (ctx k))

abbrev pub approval_of : ApprovalKey → MemoryStore → Option Approval
approval_of key store = lookup key store.approvals

abbrev pub put_approval : ApprovalKey → Approval → MemoryStore → MemoryStore
put_approval key granted store = record { approvals = insert key granted store.approvals }

abbrev pub key_of : Approval → ApprovalKey
key_of granted = record {
  incident_id = granted.incident_id;
  plan_hash = granted.plan_hash;
  target_uid = granted.target_uid;
}

abbrev grant_at : Approval → Option Approval → Method MemoryStore Error Unit
grant_at granted (some existing) =
    if approvals_equal existing granted then returns tt else fails approval_conflict
grant_at granted none = writes (put_approval (key_of granted) granted)

unfoldable pub grant : Context → Approval → Method MemoryStore Error Unit
grant ctx granted = do
  check ctx 0
  fail_on (validate_record granted)
  check ctx 1
  existing ← reads (approval_of (key_of granted))
  grant_at granted existing

unfoldable pub lookup_approval : Context → ApprovalKey → Method MemoryStore Error Approval
lookup_approval ctx key = do
  check ctx 0
  fail_on (validate_approval_key key)
  check ctx 1
  found ← reads (approval_of key)
  some_or found approval_not_found

-- ===== src/Approval/Granting.antt =====
-- internal/approval/store.go: approvals over runs of grants.
use sre_agent_gitops.Prelude.{
  Context, IsLive, List, Option-cases, [], ◌∷◌, ◌≡◌, arith, none, some, inl, inr,
}
use sre_agent_gitops.Prelude.Dict.{lookup-insert}
use sre_agent_gitops.Prelude.Method.{final, ok, result}
use sre_agent_gitops.Approval.{Approval, validate_record}
use sre_agent_gitops.Approval.Store.{
  ApprovalKey, MemoryStore, approval_key_eq, approval_key_eqb_iff, approval_of, approvals_equal_iff,
  grant, key_of, lookup_approval, validate_approval_key,
}
use mathlib.Core.Path.{}

-- What a grant that succeeds leaves: the approval stands at its key.
granted_there :
    (ctx : Context) (a : Approval) (s : MemoryStore)
    → result (grant ctx a) s ≡ ok tt
    → (validate_approval_key (key_of a) ≡ none)
      × (approval_of (key_of a) (final (grant ctx a) s) ≡ some a)
unfolding grant validate_record validate_approval_key
granted_there ctx a s h = elim (Option-cases (approval_of (key_of a) s)) [
  | inl e ↦ (
    ground arith,
    ground (
      arith,
      lookup-insert (key_of a) (key_of a) a s.approvals,
      approval_key_eqb_iff (key_of a) (key_of a),
    ),
  )
  | inr (b, e) ↦ (ground arith, ground (arith, approvals_equal_iff b a))
]

grant_keeps :
    (ctx : Context) (a b : Approval) (k : ApprovalKey) (s : MemoryStore)
    → approval_of k s ≡ some b
    → approval_of k (final (grant ctx a) s) ≡ some b
unfolding grant
grant_keeps ctx a b k s h = elim (Option-cases (approval_of (key_of a) s)) [
  | inl e ↦
      ground (arith, lookup-insert (key_of a) k a s.approvals, approval_key_eqb_iff (key_of a) k)
  | inr (c, e) ↦ ground arith
]

unfoldable pub grants : List (Context × Approval) → MemoryStore → MemoryStore
grants [] s = s
grants ((ctx, a) ∷ calls) s = grants calls (final (grant ctx a) s)

grants_keep :
    (calls : List (Context × Approval)) (b : Approval) (k : ApprovalKey) (s : MemoryStore)
    → approval_of k s ≡ some b
    → approval_of k (grants calls s) ≡ some b
unfolding grants
grants_keep [] b k s h = h
grants_keep ((ctx, a) ∷ calls) b k s h =
    grants_keep calls b k (final (grant ctx a) s) (grant_keeps ctx a b k s h)

found :
    (ctx : Context) (k : ApprovalKey) (a : Approval) (s : MemoryStore)
    → IsLive ctx
    → validate_approval_key k ≡ none
    → approval_of k s ≡ some a
    → lookup_approval ctx k s ≡ (ok a, s)
unfolding lookup_approval
found ctx k a s l v h = ground (arith, l 0, l 1)

-- An approval that is granted stays: after a `Grant` that succeeds and whatever grants come then, also
-- for the same key, a `Lookup` of its key that is not cancelled returns this very approval.
pub grant-lookup_approval :
    (ctx ctx' : Context) (a : Approval) (calls : List (Context × Approval)) (s : MemoryStore)
    → IsLive ctx'
    → result (grant ctx a) s ≡ ok tt
    → lookup_approval ctx' (key_of a) (grants calls (final (grant ctx a) s))
      ≡ (ok a, grants calls (final (grant ctx a) s))
grant-lookup_approval ctx ctx' a calls s l h =
    let (v, e) = granted_there ctx a s h in
    found ctx' (key_of a) a (grants calls (final (grant ctx a) s)) l v
      (grants_keep calls a (key_of a) (final (grant ctx a) s) e)

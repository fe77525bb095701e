-- ===== src/Approval/Publishing.antt =====
-- internal/approval/plan_store.go: what the plans in the store are.
use sre_agent_gitops.Prelude.{
  Context, List, Option, Option-cases, Sha256, [], ◌∷◌, ◌≡◌, arith, none, some, inl, inr,
}
use sre_agent_gitops.Prelude.Dict.{lookup-insert}
use sre_agent_gitops.Prelude.Method.{final, ok, result}
use sre_agent_gitops.Approval.{Plan, plan_eqb_iff}
use sre_agent_gitops.Approval.PlanStore.{
  PlanKey, MemoryPlanStore, plan_key_eq, plan_key_eqb_iff, plan_of, publish, plan_key_of,
  validate_plan,
}
use mathlib.Core.Path.{}

module _ (sha : Sha256) where
  -- At a key there is no plan, or a canonical one of that key.
  abbrev pub CanonicalAt : PlanKey → Option Plan → Type 0
  CanonicalAt k none = Unit {0}
  CanonicalAt k (some p) = (plan_key_of p ≡ k) × (validate_plan sha p ≡ none)

  abbrev pub AllCanonical : MemoryPlanStore → Type 0
  AllCanonical s = (k : PlanKey) → CanonicalAt k (plan_of k s)

  publish-AllCanonical :
      (ctx : Context) (p : Plan) (s : MemoryPlanStore)
      → AllCanonical s
      → AllCanonical (final (publish sha ctx p) s)
  unfolding publish
  publish-AllCanonical ctx p s h k = elim (Option-cases (plan_of (plan_key_of p) s)) [
    | inl e ↦
        ground (
          arith,
          h k,
          lookup-insert (plan_key_of p) k p s.plans,
          plan_key_eqb_iff (plan_key_of p) k,
        )
    | inr (q, e) ↦ ground (arith, h k)
  ]

  unfoldable pub publishes : List (Context × Plan) → MemoryPlanStore → MemoryPlanStore
  publishes [] s = s
  publishes ((ctx, p) ∷ calls) s = publishes calls (final (publish sha ctx p) s)

  -- Every plan in the store is canonical: runs of `Publish`, whatever they return, keep every stored
  -- plan at its own key and one that `ValidatePlan` accepts.
  pub publishes-AllCanonical :
      (calls : List (Context × Plan)) (s : MemoryPlanStore)
      → AllCanonical s
      → AllCanonical (publishes calls s)
  unfolding publishes
  publishes-AllCanonical [] s h = h
  publishes-AllCanonical ((ctx, p) ∷ calls) s h =
      publishes-AllCanonical calls (final (publish sha ctx p) s) (publish-AllCanonical ctx p s h)

  published_there :
      (ctx : Context) (p : Plan) (s : MemoryPlanStore)
      → result (publish sha ctx p) s ≡ ok tt
      → plan_of (plan_key_of p) (final (publish sha ctx p) s) ≡ some p
  unfolding publish
  published_there ctx p s h = elim (Option-cases (plan_of (plan_key_of p) s)) [
    | inl e ↦ ground (
      arith,
      lookup-insert (plan_key_of p) (plan_key_of p) p s.plans,
      plan_key_eqb_iff (plan_key_of p) (plan_key_of p),
    )
    | inr (q, e) ↦ ground (arith, plan_eqb_iff q p)
  ]

-- ===== src/Incident/Changes.antt =====
-- internal/incident: how the methods of the registry may change it, whatever they return.
use sre_agent_gitops.Incident.Fence.{as_resolved, resolve_fence, resolve_locked}
use sre_agent_gitops.Incident.Passing.{Passes, fence_cases}
use sre_agent_gitops.Prelude.{
  Context, Option-cases, Sha256, arith, false, inl, inr, next_u64, none, some, text_eq, true, ◌&&◌,
  ◌≡◌,
}
use sre_agent_gitops.Prelude.Dict.{insert, lookup}
use sre_agent_gitops.Prelude.Method.{final}
use sre_agent_gitops.Incident.{
  Claim, ClaimCommand, Incident, Observation, ResolveCommand, TransitionCommand, verifying,
}
use sre_agent_gitops.Incident.Rules.{
  advanced, idempotency_key, idempotency_key_for, is_held_by_other, is_leased, is_valid_transition,
  new_claim, new_incident, transitioned,
}
use sre_agent_gitops.Incident.Registry.{
  Registry, claim, claim_of, incident_of, observe, put_claim, put_incident, retire, transition,
}

-- the registry with a new incident
abbrev pub admitted : {S : Type 0} → Incident → Registry S → Registry S
admitted x r = record r {
  active_by_key = insert x.idempotency_key x.id r.active_by_key;
  incidents_by_id = insert x.id x r.incidents_by_id;
  next_sequence = next_u64 r.next_sequence;
}

module _ {S : Type 0} where
  pub claim_change :
      (P : Registry S → Type 0) (ctx : Context) (c : ClaimCommand) (r : Registry S)
      → P r
      → ((x : Incident)
          → incident_of c.incident_id r ≡ some x
          → x.version ≡ c.expected_version
          → (is_held_by_other c.holder_id (claim_of x.id r) && is_leased c.now (claim_of x.id r))
            ≡ false
          → P (put_claim (new_claim (advanced x) c.holder_id c.now c.lease_duration) c.now r))
      → P (final (claim ctx c) r)
  unfolding claim
  claim_change P ctx c r same new = elim (Option-cases (incident_of c.incident_id r)) [
    | inl e ↦ ground arith
    | inr (x, e) ↦ ground (arith, new x e)
  ]

  pub transition_change :
      (P : Registry S → Type 0) (ctx : Context) (c : TransitionCommand) (r : Registry S)
      → P r
      → ((x : Incident)
          → incident_of c.incident_id r ≡ some x
          → x.version ≡ c.expected_version
          → is_valid_transition x.state c.to ≡ true
          → P (retire (transitioned x c) (put_incident (transitioned x c) r)))
      → P (final (transition ctx c) r)
  unfolding transition
  transition_change P ctx c r same new = elim (Option-cases (incident_of c.incident_id r)) [
    | inl e ↦ ground arith
    | inr (x, e) ↦ ground (arith, new x e)
  ]

  pub observe_change :
      (sha : Sha256) (P : Registry S → Type 0) (ctx : Context) (o : Observation) (r : Registry S)
      → P r
      → (lookup (idempotency_key_for sha o) r.active_by_key ≡ none
          → P (
              admitted (new_incident sha (idempotency_key_for sha o) (next_u64 r.next_sequence)) r))
      → P (final (observe sha ctx o) r)
  unfolding observe idempotency_key
  observe_change sha P ctx o r same new =
      elim (Option-cases (lookup (idempotency_key_for sha o) r.active_by_key)) [
        | inl e ↦ ground (arith, new e)
        | inr (x, e) ↦ ground arith
      ]

module _ {S : Type 0} where
  pub resolve_locked_change :
      (P : Registry S → Type 0) (ctx : Context) (c : ResolveCommand) (r : Registry S)
      → P r
      → ((x : Incident) (y : Claim)
          → Passes (resolve_fence c) x y r
          → x.state ≡ verifying
          → P (
              retire
                (as_resolved x c.verification_id)
                (put_incident (as_resolved x c.verification_id) r)))
      → P (final (resolve_locked ctx c) r)
  unfolding resolve_locked
  resolve_locked_change P ctx c r same new = elim (fence_cases (resolve_fence c) r) [
    | inl (e, h) ↦ ground arith
    | inr (x, y, p, h) ↦ ground (arith, new x y p)
  ]

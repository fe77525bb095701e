-- ===== src/Incident/Observing.antt =====
-- internal/incident: `Observe`, repeated, and after `Resolve`.
use sre_agent_gitops.Incident.Fence.{resolve}
use sre_agent_gitops.Incident.Resolution.{resolve_inv}
use mathlib.Core.Path.{subst}
use sre_agent_gitops.Incident.Steps.{next_id}
use sre_agent_gitops.Incident.Invariant.{ActiveAt, IncidentAt, IsSound, LiveAt}
use sre_agent_gitops.Prelude.{
  Bool, Context, IsLive, Option-cases, Sha256, String, arith, eq_iff, false, inl, inr, next_u64,
  none, refl, some, text_eq, true, ◌≡◌, ◌≢◌,
}
use sre_agent_gitops.Prelude.Dict.{Dict, insert, lookup, lookup-delete, lookup-insert}
use sre_agent_gitops.Prelude.Method.{final, ok, result}
use sre_agent_gitops.Incident.{Incident, Observation, ResolveCommand, resolved}
use sre_agent_gitops.Incident.Rules.{idempotency_key, idempotency_key_for, new_incident, or_zero}
use sre_agent_gitops.Incident.Registry.{Registry, incident_of, observe}
use sre_agent_gitops.Incident.Changes.{admitted}

lookup-insert_self :
    {V : Type 0} (key : String) (new : V) (entries : Dict String V)
    → lookup key (insert key new entries) ≡ some new
lookup-insert_self key new entries =
    ground (arith, eq_iff key key, lookup-insert key key new entries)

module _ {S : Type 0} (sha : Sha256) where
  -- An observation whose key is active finds the active incident.
  observe_known :
      (ctx : Context) (o : Observation) (r : Registry S) (key id : String) (x : Incident)
      → IsLive ctx
      → idempotency_key sha o ≡ ok key
      → lookup key r.active_by_key ≡ some id
      → incident_of id r ≡ some x
      → observe sha ctx o r ≡ (ok (x, false), r)
  unfolding observe
  observe_known ctx o r key id x l k a f = ground (arith, l 0)

  observe_ok :
      (ctx : Context) (o : Observation) (r : Registry S) (x : Incident) (created : Bool)
      → result (observe sha ctx o) r ≡ ok (x, created)
      → idempotency_key sha o ≡ ok (idempotency_key_for sha o)
  unfolding observe idempotency_key
  observe_ok ctx o r x b e = ground arith

  observe_found :
      (ctx : Context) (o : Observation) (r : Registry S) (x : Incident) (created : Bool)
      (id : String)
      → result (observe sha ctx o) r ≡ ok (x, created)
      → lookup (idempotency_key_for sha o) r.active_by_key ≡ some id
      → (final (observe sha ctx o) r ≡ r) × (x ≡ or_zero (incident_of id r))
  unfolding observe idempotency_key
  observe_found ctx o r x b id e a = (ground arith, ground arith)

  observe_new :
      (ctx : Context) (o : Observation) (r : Registry S) (x : Incident) (created : Bool)
      → result (observe sha ctx o) r ≡ ok (x, created)
      → lookup (idempotency_key_for sha o) r.active_by_key ≡ none
      → (final (observe sha ctx o) r ≡ admitted x r)
        × (x ≡ new_incident sha (idempotency_key_for sha o) (next_u64 r.next_sequence))
  unfolding observe idempotency_key
  observe_new ctx o r x b e a = (ground arith, ground arith)

  active_open :
      (r : Registry S) (key id : String)
      → IsSound r
      → lookup key r.active_by_key ≡ some id
      → (x : Incident) × (incident_of id r ≡ some x)
        × (x.idempotency_key ≡ key)
        × (x.state ≢ resolved)
  active_open r key id h a = elim (Option-cases (incident_of id r)) [
    | inl e ↦ absurd (subst (LiveAt key) e (subst (ActiveAt r key) a (h.active key)))
    | inr (x, e) ↦
        let p = subst (LiveAt key) e (subst (ActiveAt r key) a (h.active key)) in (x, e, p.0, p.1)
  ]

  -- Observing the same trouble again at once, if not cancelled, gives the same incident, creates
  -- none, and changes nothing.
  pub observe-observe :
      (ctx ctx' : Context) (o : Observation) (r : Registry S) (x : Incident) (created : Bool)
      → IsSound r
      → IsLive ctx'
      → result (observe sha ctx o) r ≡ ok (x, created)
      → observe sha ctx' o (final (observe sha ctx o) r)
        ≡ (ok (x, false), final (observe sha ctx o) r)
  observe-observe ctx ctx' o r x b h l e =
      elim (Option-cases (lookup (idempotency_key_for sha o) r.active_by_key)) [
        | inl n ↦
            let (t, same) = observe_new ctx o r x b e n in
            rw t (
              observe_known ctx' o (admitted x r) (idempotency_key_for sha o) x.id x l
                (observe_ok ctx o r x b e)
                (rw same (
                  lookup-insert_self (idempotency_key_for sha o) (next_id sha o r) r.active_by_key))
                (lookup-insert_self x.id x r.incidents_by_id))
        | inr (id, n) ↦
            let (t, same) = observe_found ctx o r x b id e n in
            let (y, f, k, d) = active_open r (idempotency_key_for sha o) id h n in
            rw t (
              observe_known ctx' o r (idempotency_key_for sha o) id x l (observe_ok ctx o r x b e) n
                (rw (same, f) refl))
      ]

  -- An observation that succeeds gives an incident of its key that is not resolved.
  pub observe_open :
      (ctx : Context) (o : Observation) (r : Registry S) (x : Incident) (created : Bool)
      → IsSound r
      → result (observe sha ctx o) r ≡ ok (x, created)
      → (x.idempotency_key ≡ idempotency_key_for sha o)
        × (x.state ≢ resolved)
        × (incident_of x.id (final (observe sha ctx o) r) ≡ some x)
  observe_open ctx o r x b h e =
      elim (Option-cases (lookup (idempotency_key_for sha o) r.active_by_key)) [
        | inl n ↦
            let (t, same) = observe_new ctx o r x b e n in
            (rw same refl, rw same (λ d. cc d), rw t (lookup-insert_self x.id x r.incidents_by_id))
        | inr (id, n) ↦
            let (t, same) = observe_found ctx o r x b id e n in
            let (y, f, k, d) = active_open r (idempotency_key_for sha o) id h n in
            let is_y : x ≡ y = rw (same, f) refl in
            let i = (subst (IncidentAt r id) f (h.incidents id)).0 in
            (rw is_y k, rw is_y d, rw (t, is_y, i) f)
      ]

  -- Once an incident is resolved, the same trouble makes a new one: an observation of its key that is
  -- not cancelled creates the incident of the next sequence number, DETECTED at version 1.
  pub resolve-observe :
      (ctx ctx' : Context) (c : ResolveCommand) (o : Observation) (r : Registry S) (y : Incident)
      → IsLive ctx'
      → result (resolve ctx c) r ≡ ok y
      → idempotency_key sha o ≡ ok y.idempotency_key
      → result (observe sha ctx' o) (final (resolve ctx c) r)
        ≡ ok (new_incident sha y.idempotency_key (next_u64 r.next_sequence), true)
  unfolding observe
  resolve-observe ctx ctx' c o r y l h k = rw (resolve_inv ctx c r y h).written (
      ground (
        arith,
        l 0,
        lookup-delete y.idempotency_key y.idempotency_key r.active_by_key,
        eq_iff y.idempotency_key y.idempotency_key,
      ))

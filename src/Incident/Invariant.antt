-- ===== src/Incident/Invariant.antt =====
-- internal/incident: how the maps of the registry fit one another.
use sre_agent_gitops.Incident.Rules.{advanced}
use sre_agent_gitops.Incident.Steps.{
  Change, Edge, Moves, admits, await, claims, close, diagnose, dismiss, moves, recover, resume,
  rewrites, stores, verify,
}
use sre_agent_gitops.Incident.Changes.{admitted}
use mathlib.Core.Path.{subst}
use sre_agent_gitops.Prelude.{
  Bool-cases, Option, Option-cases, String, arith, eq_iff, inl, inr, none, refl, some, text_eq,
  ◌==◌, ◌↔◌, ◌≡◌, ◌≢◌,
}
use sre_agent_gitops.Prelude.Dict.{delete, lookup, lookup-delete, lookup-insert}
use sre_agent_gitops.Incident.{Incident, State, detected, resolved, state_eq, state_eqb_iff}
use sre_agent_gitops.Incident.Registry.{Registry, incident_of, put_claim, put_incident, retire}
use sre_agent_gitops.Incident.Calls.{with_store}

-- The active incident of a key: an incident of that key that is not resolved.
abbrev pub LiveAt : String → Option Incident → Type 0
LiveAt key none = ⊥
LiveAt key (some x) = (x.idempotency_key ≡ key) × (x.state ≢ resolved)

-- An edge is not taken from a resolved incident.
pub edge_open : (a b : State) → Edge a b → a ≢ resolved
edge_open a b diagnose = λ e. cc e
edge_open a b dismiss = λ e. cc e
edge_open a b await = λ e. cc e
edge_open a b verify = λ e. cc e
edge_open a b close = λ e. cc e
edge_open a b resume = λ e. cc e
edge_open a b recover = λ e. cc e

module _ {S : Type 0} where
  abbrev pub IncidentAt : Registry S → String → Option Incident → Type 0
  IncidentAt r id none = Unit {0}
  IncidentAt r id (some x) =
      (x.id ≡ id) × (x.state ≢ resolved → lookup x.idempotency_key r.active_by_key ≡ some id)

  abbrev pub ActiveAt : Registry S → String → Option String → Type 0
  ActiveAt r key none = Unit {0}
  ActiveAt r key (some id) = LiveAt key (incident_of id r)

  -- Each incident stands at its identifier, and, unless resolved, is the active one of its key; the
  -- active incident of a key has that key and is not resolved.
  pub record IsSound (r : Registry S) : Type 0 where
    pub incidents : (id : String) → IncidentAt r id (incident_of id r)
    pub active : (key : String) → ActiveAt r key (lookup key r.active_by_key)

  -- A write of an incident that stays open, or that stays resolved.
  put-IsSound :
      (r : Registry S) (s : S) (x y : Incident)
      → IsSound r
      → incident_of y.id r ≡ some x
      → y.idempotency_key ≡ x.idempotency_key
      → (y.state ≡ resolved) ↔ (x.state ≡ resolved)
      → IsSound (put_incident y (with_store s r))
  put-IsSound r s x y h f k d = record {
    incidents = λ id.
        rw (lookup-insert y.id id y r.incidents_by_id)
          (ground (arith, eq_iff y.id id, h.incidents id, h.incidents y.id));
    active = λ key. elim (Option-cases (lookup key r.active_by_key)) [
      | inl n ↦ rw n tt
      | inr (id, e) ↦ rw e (
          rw (lookup-insert y.id id y r.incidents_by_id)
            (ground (arith, eq_iff y.id id, subst (ActiveAt r key) e (h.active key))))
    ];
  }

  -- the registry without the active entry of the incident's key
  abbrev removed : Incident → Registry S → Registry S
  removed y r = record r { active_by_key = delete y.idempotency_key r.active_by_key }

  retire_resolved : (y : Incident) (r : Registry S) → y.state ≡ resolved → retire y r ≡ removed y r
  retire_resolved y r d = ground arith

  retire_unresolved : (y : Incident) (r : Registry S) → y.state ≢ resolved → retire y r ≡ r
  retire_unresolved y r d = ground (arith, state_eqb_iff y.state resolved)

  -- A write of an open incident as resolved.
  retire-IsSound :
      (r : Registry S) (s : S) (x y : Incident)
      → IsSound r
      → incident_of y.id r ≡ some x
      → y.idempotency_key ≡ x.idempotency_key
      → y.state ≡ resolved
      → x.state ≢ resolved
      → IsSound (removed y (put_incident y (with_store s r)))
  retire-IsSound r s x y h f k d o = record {
    incidents = λ id.
        rw (lookup-insert y.id id y r.incidents_by_id) (elim (Option-cases (incident_of id r)) [
          | inl n ↦ ground (arith, eq_iff y.id id)
          | inr (z, e) ↦ rw e (
              ground (
                arith,
                lookup-delete y.idempotency_key z.idempotency_key r.active_by_key,
                eq_iff y.id id,
                eq_iff y.idempotency_key z.idempotency_key,
                subst (IncidentAt r id) e (h.incidents id),
                subst (IncidentAt r y.id) f (h.incidents y.id),
              ))
        ]);
    active = λ key.
        rw (lookup-delete y.idempotency_key key r.active_by_key)
          (elim (Option-cases (lookup key r.active_by_key)) [
            | inl n ↦ ground arith
            | inr (id, e) ↦ rw e (
                ground (
                  arith,
                  eq_iff y.idempotency_key key,
                  eq_iff y.id id,
                  lookup-insert y.id id y r.incidents_by_id,
                  subst (ActiveAt r key) e (h.active key),
                ))
          ]);
  }

  admit-IsSound :
      (r : Registry S) (x : Incident)
      → IsSound r
      → x.state ≡ detected
      → lookup x.idempotency_key r.active_by_key ≡ none
      → incident_of x.id r ≡ none
      → IsSound (admitted x r)
  admit-IsSound r x h d n f = record {
    incidents = λ id.
        rw (lookup-insert x.id id x r.incidents_by_id) (elim (Option-cases (incident_of id r)) [
          | inl m ↦ ground (
            arith,
            eq_iff x.id id,
            lookup-insert x.idempotency_key x.idempotency_key x.id r.active_by_key,
            eq_iff x.idempotency_key x.idempotency_key,
          )
          | inr (z, e) ↦ rw e (
              ground (
                arith,
                eq_iff x.id id,
                lookup-insert x.idempotency_key z.idempotency_key x.id r.active_by_key,
                eq_iff x.idempotency_key z.idempotency_key,
                subst (IncidentAt r id) e (h.incidents id),
              ))
        ]);
    active = λ key.
        rw (lookup-insert x.idempotency_key key x.id r.active_by_key)
          (elim (Option-cases (lookup key r.active_by_key)) [
            | inl m ↦ ground (
              arith,
              eq_iff x.idempotency_key key,
              lookup-insert x.id x.id x r.incidents_by_id,
              eq_iff x.id x.id,
            )
            | inr (id, e) ↦ ground (
              arith,
              eq_iff x.idempotency_key key,
              eq_iff x.id id,
              eq_iff x.id x.id,
              lookup-insert x.id x.id x r.incidents_by_id,
              lookup-insert x.id id x r.incidents_by_id,
              subst (ActiveAt r key) e (h.active key),
            )
          ]);
  }

  move-IsSound :
      (r : Registry S) (s : S) (x y : Incident)
      → IsSound r
      → incident_of y.id r ≡ some x
      → Moves x y
      → IsSound (retire y (put_incident y (with_store s r)))
  move-IsSound r s x y h f m = elim (Bool-cases (y.state == resolved)) [
    | inl done ↦
        let d = (state_eqb_iff y.state resolved).0 done in
        rw (retire_resolved y (put_incident y (with_store s r)) d)
          (retire-IsSound r s x y h f m.key d (edge_open x.state y.state m.edge))
    | inr open_still ↦
        let d : y.state ≢ resolved = ground (arith, state_eqb_iff y.state resolved) in
        rw (retire_unresolved y (put_incident y (with_store s r)) d) (
          put-IsSound r s x y h f m.key
            (λ e. absurd (d e), λ e. absurd (edge_open x.state y.state m.edge e)))
  ]

  -- the identifier under which an incident was found
  pub id_of :
      (r : Registry S) (id : String) (x : Incident)
      → IsSound r
      → incident_of id r ≡ some x
      → incident_of x.id r ≡ some x
  id_of r id x h f = ground (arith, subst (IncidentAt r id) f (h.incidents id))

  pub change-IsSound : (r t : Registry S) → Change r t → IsSound r → IsSound t
  change-IsSound r t (stores s e) h = rw e (record { incidents = h.incidents; active = h.active })
  change-IsSound r t (admits x d n f e) h = rw e (admit-IsSound r x h d n f)
  change-IsSound r t (claims s id x holder now lease f m e) h = rw e (
      unfold put_claim in
      let p = put-IsSound r s x (advanced x) h (id_of r id x h f) refl (λ q. q, λ q. q) in
      record { incidents = p.incidents; active = p.active })
  change-IsSound r t (moves s id x y f m e) h =
      rw e (move-IsSound r s x y h (rw m.id (id_of r id x h f)) m)
  change-IsSound r t (rewrites s id x f e) h =
      rw e (put-IsSound r s x x h (id_of r id x h f) refl (λ q. q, λ q. q))

-- ===== src/Incident/Evolution.antt =====
-- internal/incident: what may become of an incident.
use sre_agent_gitops.Prelude.{
  Bool-cases, Option, String, arith, eq_iff, inl, inr, none, refl, some, text_eq, ◌==◌, ◌≡◌,
}
use sre_agent_gitops.Prelude.Dict.{insert, lookup, lookup-insert}
use sre_agent_gitops.Incident.{Incident}
use sre_agent_gitops.Incident.Rules.{advanced}
use sre_agent_gitops.Incident.Registry.{Registry, incident_of, put_claim, put_incident, retire}
use sre_agent_gitops.Incident.Calls.{with_store}
use sre_agent_gitops.Incident.Steps.{Change, Moves, admits, claims, moves, rewrites, stores}
use mathlib.Core.Path.{subst}

-- An incident after a step: as it was, or under its next version in the same state (a claim), or
-- under its next version along an edge.
pub data Evolves (x y : Incident) : Type 0 where
  stays : y ≡ x → Evolves x y
  claimed : y ≡ advanced x → Evolves x y
  moved : Moves x y → Evolves x y

abbrev pub EvolvesTo : Incident → Option Incident → Type 0
EvolvesTo x none = ⊥
EvolvesTo x (some y) = Evolves x y

-- Each incident stands at its own identifier.
abbrev pub Keyed : {S : Type 0} → Registry S → Type 0
Keyed r = (id : String) (x : Incident) → incident_of id r ≡ some x → x.id ≡ id

module _ {S : Type 0} where
  incidents-retire :
      (y : Incident) (r : Registry S) → (retire y r).incidents_by_id ≡ r.incidents_by_id
  incidents-retire y r = ground arith

  -- a write of one incident
  put-EvolvesTo :
      (r : Registry S) (s : S) (id : String) (x y z : Incident)
      → Keyed r
      → incident_of id r ≡ some x
      → Evolves x y
      → y.id ≡ x.id
      → (j : String) → incident_of j r ≡ some z
      → EvolvesTo z (lookup j (insert y.id y r.incidents_by_id))
  put-EvolvesTo r s id x y z k e v same j h =
      rw (lookup-insert y.id j y r.incidents_by_id) (elim (Bool-cases (y.id == j)) [
        | inl here ↦ rw here (subst (λ a. Evolves a y) (ground (arith, k id x e, eq_iff y.id j)) v)
        | inr there ↦ rw (there, h) (stays refl)
      ])

  -- Every change leaves each incident as it was, or advances its version by one, in the same state
  -- or along an edge.
  pub change-EvolvesTo :
      (r t : Registry S) (id : String) (x : Incident)
      → Keyed r
      → Change r t
      → incident_of id r ≡ some x
      → EvolvesTo x (incident_of id t)
  change-EvolvesTo r t id x k (stores s e) h = rw (e, h) (stays refl)
  change-EvolvesTo r t id x k (admits y d n f e) h = rw e (
      rw (lookup-insert y.id id y r.incidents_by_id) (elim (Bool-cases (y.id == id)) [
        | inl here ↦ absurd (ground (arith, eq_iff y.id id))
        | inr there ↦ rw (there, h) (stays refl)
      ]))
  change-EvolvesTo r t id x k (claims s j y holder now lease f m e) h =
      rw e (unfold put_claim in put-EvolvesTo r s j y (advanced y) x k f (claimed refl) refl id h)
  change-EvolvesTo r t id x k (moves s j y z f m e) h = rw e (
      rw (incidents-retire z (put_incident z (with_store s r)))
        (put-EvolvesTo r s j y z x k f (moved m) m.id id h))
  change-EvolvesTo r t id x k (rewrites s j y f e) h =
      rw e (put-EvolvesTo r s j y y x k f (stays refl) refl id h)

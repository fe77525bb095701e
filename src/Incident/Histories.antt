-- ===== src/Incident/Histories.antt =====
-- internal/incident: sequences of calls, in any order.
use sre_agent_gitops.Prelude.{Option, Sha256, String, none, refl, some, ◌∙◌, ◌≡◌}
use sre_agent_gitops.Incident.{Incident, State, resolved}
use sre_agent_gitops.Incident.Registry.{Registry, incident_of}
use sre_agent_gitops.Incident.Steps.{Call, Edge, IsFresh, step, call-Change}
use sre_agent_gitops.Incident.Evolution.{
  Evolves, EvolvesTo, Keyed, change-EvolvesTo, claimed, moved, stays,
}
use sre_agent_gitops.Incident.Invariant.{IncidentAt, IsSound, change-IsSound, edge_open}
use mathlib.Core.Path.{subst}

-- What is reached by calls, the identifiers of new incidents being fresh.
pub data Reach {S : Type 0} (sha : Sha256) (r : Registry S) : Registry S → Type 0 where
  here : Reach sha r r
  next :
      {s t : Registry S} (call : Call)
      → Reach sha r s
      → IsFresh sha call s
      → t ≡ step sha call s
      → Reach sha r t

-- A way along edges.
pub data Way (a : State) : State → Type 0 where
  here : Way a a
  along : {b c : State} → Way a b → Edge b c → Way a c

-- The same incident, further on its way.
abbrev pub LivesOn : Incident → Option Incident → Type 0
LivesOn x none = ⊥
LivesOn x (some y) = (y.id ≡ x.id) × (y.idempotency_key ≡ x.idempotency_key) × Way x.state y.state

Evolves-LivesOn : (x y z : Incident) → LivesOn x (some y) → Evolves y z → LivesOn x (some z)
Evolves-LivesOn x y z h (stays e) = rw e h
Evolves-LivesOn x y z h (claimed e) = rw e h
Evolves-LivesOn x y z (i, k, w) (moved m) = (m.id ∙ i, m.key ∙ k, along w m.edge)

-- From a resolved incident no way leads on.
resolved-Way : (a b : State) → a ≡ resolved → Way a b → b ≡ resolved
resolved-Way a b e here = e
resolved-Way a b e (along {b = m} w d) = absurd (edge_open m b d (resolved-Way a m e w))

module _ {S : Type 0} (sha : Sha256) where
  -- From a registry whose maps agree, every sequence of calls leads to one whose maps agree: each
  -- incident stands at its identifier and is, unless resolved, the active one of its key, and the
  -- active incident of a key has that key and is not resolved.
  pub Reach-IsSound : (r t : Registry S) → Reach sha r t → IsSound r → IsSound t
  Reach-IsSound r t here h = h
  Reach-IsSound r t (next {s = s} call p f e) h =
      rw e (change-IsSound s (step sha call s) (call-Change sha call s f) (Reach-IsSound r s p h))

  pub IsSound-Keyed : (r : Registry S) → IsSound r → Keyed r
  IsSound-Keyed r h id x f = (subst (IncidentAt r id) f (h.incidents id)).0

  step-LivesOn :
      (x : Incident) (id : String) (call : Call) (s : Registry S)
      → IsFresh sha call s
      → Keyed s
      → LivesOn x (incident_of id s)
      → LivesOn x (incident_of id (step sha call s))
  step-LivesOn x id call s f k h = go (incident_of id s) refl h
    where
      evolve :
          (y : Incident) (o : Option Incident) → LivesOn x (some y) → EvolvesTo y o → LivesOn x o
      evolve y none l v = v
      evolve y (some z) l v = Evolves-LivesOn x y z l v

      go :
          (o : Option Incident)
          → incident_of id s ≡ o
          → LivesOn x o
          → LivesOn x (incident_of id (step sha call s))
      go none e l = absurd l
      go (some y) e l =
          evolve y (incident_of id (step sha call s)) l
            (change-EvolvesTo s (step sha call s) id y k (call-Change sha call s f) e)

  -- An incident is never lost: after every sequence of calls it is found under its identifier, with
  -- its key, in a state to which edges lead from the one it was in. The only edge out of VERIFYING
  -- leads to RESOLVED, and none leads out of that.
  pub Reach-LivesOn :
      (r t : Registry S) (id : String) (x : Incident)
      → Reach sha r t
      → IsSound r
      → incident_of id r ≡ some x
      → LivesOn x (incident_of id t)
  Reach-LivesOn r t id x here h f = rw f (refl, refl, here)
  Reach-LivesOn r t id x (next {s = s} call p fresh e) h f = rw e (
      step-LivesOn x id call s fresh (IsSound-Keyed s (Reach-IsSound r s p h))
        (Reach-LivesOn r s id x p h f))

  -- A resolved incident stays resolved.
  pub Reach-resolved :
      (r t : Registry S) (id : String) (x y : Incident)
      → Reach sha r t
      → IsSound r
      → incident_of id r ≡ some x
      → incident_of id t ≡ some y
      → x.state ≡ resolved
      → y.state ≡ resolved
  Reach-resolved r t id x y p h f g d =
      resolved-Way x.state y.state d (subst (LivesOn x) g (Reach-LivesOn r t id x p h f)).2

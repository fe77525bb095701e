-- ===== src/Scenarios/Soundness.antt =====
-- The registry of the scenarios is sound, and what follows for the calls that come next.
use sre_agent_gitops.Prelude.Text.{concat, join_nul, decimal}
use sre_agent_gitops.Incident.Rules.{incident_id_for, idempotency_key_for}
use sre_agent_gitops.Prelude.{
  none, refl, some, ◌≡◌, ◌==◌, Bool-cases, inl, inr, String, if◌then◌else◌, arith, eq_iff, text_eq,
  pos,
}
use sre_agent_gitops.Prelude.Dict.{lookup}
use sre_agent_gitops.Prelude.Method.{IsRefused}
use sre_agent_gitops.Incident.{ClaimCommand, ResolveCommand}
use sre_agent_gitops.Incident.Registry.{claim, claim_of, incident_of}
use sre_agent_gitops.Incident.Steps.{Call, Change, observes, resolves, step, call-Change}
use sre_agent_gitops.Incident.Invariant.{IsSound, IncidentAt, ActiveAt}
use sre_agent_gitops.Incident.Histories.{Reach, here, next, LivesOn, Reach-IsSound, Reach-LivesOn}
use sre_agent_gitops.Incident.Leases.{claim_leased, step-claim_of}
use sre_agent_gitops.Scenarios.{live, sha, held, incident, registry, recovered_store, observation}

abbrev pub other_claims : ClaimCommand
other_claims = record {
  incident_id = "inc-1";
  expected_version = 3;
  holder_id = "worker-2";
  now = 18;
  lease_duration = pos 10;
}

abbrev pub resolves_incident : ResolveCommand
resolves_incident = record {
  incident_id = "inc-1";
  expected_version = 3;
  verification_id = "ver-att-1";
  holder_id = "worker-1";
  now = 16;
  actor = "agent";
  reason_code = "recovered";
}

found_at :
    (id : String)
    → IncidentAt (registry recovered_store) id (if "inc-1" == id then some incident else none)
unfolding lookup
found_at id = elim (Bool-cases ("inc-1" == id)) [
  | inl h ↦ rw h (ground (arith, eq_iff "inc-1" id))
  | inr h ↦ rw h tt
]

active_at :
    (k : String)
    → ActiveAt (registry recovered_store) k (if "key-1" == k then some "inc-1" else none)
unfolding lookup
active_at k = elim (Bool-cases ("key-1" == k)) [
  | inl h ↦ rw h (ground (arith, eq_iff "key-1" k))
  | inr h ↦ rw h tt
]

pub registry-IsSound : IsSound (registry recovered_store)
unfolding lookup
registry-IsSound = record { incidents = found_at; active = active_at }

abbrev resolution : Call
resolution = resolves live resolves_incident

claim_leased_example : IsRefused (claim live other_claims) (registry recovered_store)
unfolding lookup
claim_leased_example =
    claim_leased live other_claims (registry recovered_store) held registry-IsSound refl
      (omega arith) (λ e. ground (arith, eq_iff "worker-1" "worker-2"))

step-claim_of_example :
    claim_of "inc-1" (step sha resolution (registry recovered_store)) ≡ some held
unfolding lookup
step-claim_of_example =
    step-claim_of sha resolution (registry recovered_store) "inc-1" held registry-IsSound tt refl

resolution-Reach :
    Reach sha (registry recovered_store) (step sha resolution (registry recovered_store))
resolution-Reach = next resolution here tt refl

Reach-IsSound_example : IsSound (step sha resolution (registry recovered_store))
Reach-IsSound_example =
    Reach-IsSound sha (registry recovered_store) (step sha resolution (registry recovered_store))
      resolution-Reach registry-IsSound

Reach-LivesOn_example :
    LivesOn incident (incident_of "inc-1" (step sha resolution (registry recovered_store)))
unfolding lookup
Reach-LivesOn_example =
    Reach-LivesOn sha (registry recovered_store) (step sha resolution (registry recovered_store))
      "inc-1" incident resolution-Reach registry-IsSound refl

call-Change_example :
    Change
      (registry recovered_store)
      (step sha (observes live observation) (registry recovered_store))
unfolding lookup incident_id_for concat join_nul idempotency_key_for decimal
call-Change_example = call-Change sha (observes live observation) (registry recovered_store) refl

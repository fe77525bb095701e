-- ===== src/Scenarios/Workers.antt =====
-- The worker over the registry of the scenarios, whose incident is being verified, with its evidence.
use sre_agent_gitops.Agent.Worker.{
  check_claiming, resolve_recovered, configuration, Surroundings, WorkerAgent, registry_worker,
  run_once, combine_errors,
}
use sre_agent_gitops.Incident.Scheduler.{
  validate_schedule, claimable, first_claimable, schedule_from,
  claim_recovered_verification_resolution,
}
use sre_agent_gitops.Incident.Registry.{put_claim, Registry}
use sre_agent_gitops.Incident.Fence.{
  is_audit_of, is_audited, validate_verification_fence, resolve_evidence, resolve_locked, resolve,
}
use sre_agent_gitops.Remediation.Verification.Store.{
  matching, list_by_status, recovery_of, require_recovered, MemoryVerificationStore,
}
use sre_agent_gitops.Prelude.Dict.{lookup, insert}
use sre_agent_gitops.Prelude.Text.{is_blank}
use sre_agent_gitops.Incident.{validate_resolve, Incident, resolved}
use sre_agent_gitops.Prelude.{[], ◌∷◌, none, some, pos, refl, true, false, ◌≡◌, i64_max, arith}
use Prim.Native.Nat.{◌*◌}
use sre_agent_gitops.Prelude.Method.{ok}
use sre_agent_gitops.Remediation.Verification.{recovered}
use sre_agent_gitops.Remediation.Verification.Evidence.{Holds, Recovers}
use sre_agent_gitops.Agent.Worker.Loop.{Rounds, drain, visit_failures, round}
use sre_agent_gitops.Agent.Worker.Backoff.{min, multiplier_for, backoff_delay, multiplier_after}
use sre_agent_gitops.Agent.Worker.Recovering.{run_once-OnEvidence}
use sre_agent_gitops.Agent.Worker.Waiting.{Items, reporting, round-waits}
use sre_agent_gitops.Scenarios.{digest, incident, live, recovered_store, registry, sha}
use sre_agent_gitops.Scenarios.Actions.{config}
use sre_agent_gitops.Scenarios.Soundness.{registry-IsSound}

abbrev agent : WorkerAgent (Registry MemoryVerificationStore)
agent = record {
  verification_worker = some registry_worker;
  has_clock = true;
  has_executor = true;
  config = config;
}

-- at 21, when the lease of the scenarios' claim is over
abbrev around : Surroundings
around = record {
  ctx = λ k. live;
  now = λ k. 21;
  verify = λ v. ok (record { status = recovered; evidence_code = "replicas ready" });
  deadline = λ v. none;
  ended = none;
}

abbrev given : Rounds
given = record {
  around = λ round item. around;
  ended = λ round. none;
  interrupted_wait = λ round. false;
}

-- the incident that the first item resolves
abbrev closed : Incident
closed = record incident { state = resolved; version = 5; resolution_verification_id = "ver-att-1" }

run_once-OnEvidence_example :
    Holds
      (Recovers "ver-att-1" "inc-1")
      (run_once agent around (registry recovered_store)).1.store.verifications
unfolding check_claiming resolve_recovered run_once validate_schedule claimable first_claimable
    schedule_from claim_recovered_verification_resolution put_claim is_audit_of is_audited
    validate_verification_fence resolve_evidence resolve_locked resolve matching list_by_status
    recovery_of require_recovered lookup insert is_blank validate_resolve
run_once-OnEvidence_example =
    run_once-OnEvidence digest sha agent around (registry recovered_store) closed refl
      registry-IsSound refl refl refl

-- An agent without a lifecycle fails at once; after two rounds it waits four times as long.
abbrev bare : WorkerAgent (Registry MemoryVerificationStore)
bare = record agent { verification_worker = none }

round-waits_example :
    let logged = configuration "verification worker lifecycle is not configured" ∷ [] in
    Items bare (λ item. around) 8 0 (registry recovered_store) logged (registry recovered_store)
    × (pos 3 ≡ pos (reporting 2 logged))
    × (pos 120 ≡ pos (min (30 * multiplier_for 3) i64_max))
unfolding round drain run_once combine_errors backoff_delay visit_failures multiplier_after
round-waits_example =
    round-waits bare (λ item. around) none 2 30 (registry recovered_store)
      (registry recovered_store)
      (configuration "verification worker lifecycle is not configured" ∷ []) (pos 3) (pos 120) refl
      (omega arith) (omega arith) refl

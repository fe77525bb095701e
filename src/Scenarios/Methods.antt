-- ===== src/Scenarios/Methods.antt =====
-- Methods that fail, observations, and the choice of a scheduler.
use sre_agent_gitops.Remediation.Verification.Store.{require_recovered, recovery_of}
use sre_agent_gitops.Prelude.Text.{is_blank}
use sre_agent_gitops.Prelude.{refl, some, true, false, [], ◌∷◌, ◌≡◌, next_u64, ◌≢◌, pos}
use sre_agent_gitops.Prelude.Dict.{lookup}
use sre_agent_gitops.Prelude.Method.{final, ok, result}
use sre_agent_gitops.Incident.{resolved, validate_resolve}
use sre_agent_gitops.Incident.Rules.{new_incident, idempotency_key_for, idempotency_key}
use sre_agent_gitops.Incident.Registry.{incident_of, observe}
use sre_agent_gitops.Incident.Fence.{
  resolve, as_resolved, validate_verification_fence, resolve_evidence, resolve_locked, is_audited,
  is_audit_of,
}
use sre_agent_gitops.Incident.Lifecycle.{
  BeginFencedVerificationCommand, CompleteFencedVerificationCommand, begin_fenced_verification,
  complete_fenced_verification, validate_begin_fenced, begin_locked, validate_complete_fenced,
  complete_locked,
}
use sre_agent_gitops.Incident.Scheduler.{
  ScheduleCommand, claim_pending_verification, claim_recovered_verification_resolution,
  first_claimable, validate_schedule,
}
use sre_agent_gitops.Incident.Scheduling.{FirstOf, first_claimable-FirstOf}
use sre_agent_gitops.Incident.Failures.{
  KeepsRegistry, begin_fails, complete_fails, claim_pending_fails, claim_recovered_fails,
}
use sre_agent_gitops.Incident.Observing.{observe-observe, observe_open, resolve-observe}
use sre_agent_gitops.Remediation.Verification.{
  pending, validate_begin, validate_subject, validate_complete,
}
use sre_agent_gitops.Scenarios.Soundness.{registry-IsSound, resolves_incident}
use sre_agent_gitops.Scenarios.{
  live, sha, incident, registry, observation, pending_store, pending_verification, recovered_store,
  recovered_verification, begins_verification, completes_verification,
}

-- commands that come with an outdated version
abbrev begins_late : BeginFencedVerificationCommand
begins_late = record {
  incident_id = "inc-1";
  expected_version = 2;
  holder_id = "worker-1";
  now = 16;
  reason_code = "done";
  verification = begins_verification;
}

abbrev completes_late : CompleteFencedVerificationCommand
completes_late = record {
  incident_id = "inc-1";
  expected_version = 2;
  holder_id = "worker-1";
  now = 16;
  verification = completes_verification;
}

-- a command without a holder
abbrev schedules_nobody : ScheduleCommand
schedules_nobody = record { holder_id = " "; now = 25; lease_duration = pos 10 }

begin_fails_example :
    KeepsRegistry
      (registry pending_store)
      (final (begin_fenced_verification (some live) begins_late) (registry pending_store))
unfolding begin_fenced_verification validate_begin_fenced is_blank validate_begin validate_subject
    begin_locked validate_verification_fence lookup
begin_fails_example = begin_fails (some live) begins_late (registry pending_store) refl

complete_fails_test :
    KeepsRegistry
      (registry pending_store)
      (final (complete_fenced_verification (some live) completes_late) (registry pending_store))
unfolding complete_fenced_verification validate_complete_fenced is_blank validate_complete
    complete_locked validate_verification_fence lookup
complete_fails_test = complete_fails (some live) completes_late (registry pending_store) refl

claim_pending_fails_test :
    KeepsRegistry
      (registry pending_store)
      (final (claim_pending_verification (some live) schedules_nobody) (registry pending_store))
unfolding claim_pending_verification validate_schedule is_blank
claim_pending_fails_test =
    claim_pending_fails (some live) schedules_nobody (registry pending_store) refl

claim_recovered_fails_test : KeepsRegistry (registry pending_store) (
    final
      (claim_recovered_verification_resolution (some live) schedules_nobody)
      (registry pending_store))
unfolding claim_recovered_verification_resolution validate_schedule is_blank
claim_recovered_fails_test =
    claim_recovered_fails (some live) schedules_nobody (registry pending_store) refl

observe-observe_example :
    observe sha live observation (final (observe sha live observation) (registry recovered_store))
    ≡ (ok (incident, false), final (observe sha live observation) (registry recovered_store))
unfolding observe idempotency_key is_blank lookup idempotency_key_for
observe-observe_example =
    observe-observe sha live live observation (registry recovered_store) incident false
      registry-IsSound (λ k. refl) refl

observe_open_example :
    (incident.idempotency_key ≡ idempotency_key_for sha observation)
    × (incident.state ≢ resolved)
    × (incident_of incident.id (final (observe sha live observation) (registry recovered_store))
        ≡ some incident)
unfolding observe idempotency_key is_blank lookup idempotency_key_for
observe_open_example =
    observe_open sha live observation (registry recovered_store) incident false registry-IsSound
      refl

resolve-observe_example :
    result
      (observe sha live observation)
      (final (resolve live resolves_incident) (registry recovered_store))
    ≡ ok (new_incident sha "key-1" (next_u64 1), true)
unfolding resolve resolve_evidence validate_resolve is_blank require_recovered recovery_of
    resolve_locked validate_verification_fence lookup is_audited is_audit_of idempotency_key
    idempotency_key_for
resolve-observe_example =
    resolve-observe sha live live resolves_incident observation (registry recovered_store)
      (as_resolved incident "ver-att-1") (λ k. refl) refl refl

first_claimable-FirstOf_example :
    let l = recovered_verification ∷ pending_verification ∷ [] in
    FirstOf pending
      (λ _. true)
      25
      (registry pending_store)
      l
      (first_claimable pending (λ _. true) 25 (registry pending_store) l)
first_claimable-FirstOf_example =
    first_claimable-FirstOf pending (λ _. true) 25 (registry pending_store)
      (recovered_verification ∷ pending_verification ∷ [])

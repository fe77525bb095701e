-- ===== src/Scenarios/Fences.antt =====
-- Claims, fences and resolutions of the incident of the scenarios.
use sre_agent_gitops.Remediation.Verification.Store.{
  list_by_status, matching, require_recovered, recovery_of,
}
use sre_agent_gitops.Prelude.Text.{is_blank}
use sre_agent_gitops.Prelude.{refl, some, ◌≡◌, ◌<◌, inl, arith, pos, next_u64}
use sre_agent_gitops.Prelude.Dict.{lookup}
use sre_agent_gitops.Prelude.Method.{err, final, ok}
use sre_agent_gitops.Incident.{
  Claim, ClaimCommand, Incident, verifying, resolved, no_binding, version_conflict, validate_claim,
  validate_resolve,
}
use sre_agent_gitops.Incident.Rules.{advanced, new_claim}
use sre_agent_gitops.Incident.Registry.{claim, claim_of, incident_of}
use sre_agent_gitops.Incident.Fence.{
  resolve, resolve_fence, as_resolved, validate_verification_fence, is_audited, is_audit_of,
  resolve_evidence, resolve_locked,
}
use sre_agent_gitops.Incident.Fencing.{
  fence_of, claim-fence, claim-fence_stale, claim_verification-fence, schedules_verifying,
}
use sre_agent_gitops.Incident.Scheduler.{
  ScheduleCommand, VerificationClaim, claim_pending_verification, validate_schedule, schedule_from,
  first_claimable, claimable,
}
use sre_agent_gitops.Incident.Passing.{Passes}
use sre_agent_gitops.Incident.Resolution.{resolve-Recovers, resolve_complete, with_resolved}
use sre_agent_gitops.Remediation.Verification.Evidence.{Holds, Recovers}
use sre_agent_gitops.Scenarios.Soundness.{registry-IsSound, resolves_incident}
use sre_agent_gitops.Scenarios.{
  live, digest, held, incident, registry, pending_store, pending_verification, recovered_store,
  recovered_verification,
}

-- The holder claims again.
abbrev claims_again : ClaimCommand
claims_again = record {
  incident_id = "inc-1";
  expected_version = 3;
  holder_id = "worker-1";
  now = 18;
  lease_duration = pos 10;
}

abbrev again : Claim
again = new_claim (advanced incident) "worker-1" 18 (pos 10)

claim-fence_example :
    validate_verification_fence
      (fence_of again 19)
      (final (claim live claims_again) (registry recovered_store))
    ≡ (ok again.incident, final (claim live claims_again) (registry recovered_store))
unfolding claim validate_claim is_blank lookup
claim-fence_example =
    claim-fence live claims_again (registry recovered_store) again 19 refl (omega arith)

claim-fence_stale_example :
    validate_verification_fence
      (fence_of held 16)
      (final (claim live claims_again) (registry recovered_store))
    ≡ (err version_conflict, final (claim live claims_again) (registry recovered_store))
unfolding claim validate_claim is_blank lookup
claim-fence_stale_example =
    claim-fence_stale live claims_again (registry recovered_store) again (fence_of held 16)
      registry-IsSound refl refl refl

-- A worker asks for work after the end of the lease.
abbrev schedules : ScheduleCommand
schedules = record { holder_id = "worker-2"; now = 25; lease_duration = pos 10 }

abbrev scheduled : VerificationClaim
scheduled = record {
  verification = pending_verification;
  claim = new_claim (advanced incident) "worker-2" 25 (pos 10);
}

claim_verification-fence_example :
    validate_verification_fence
      (fence_of scheduled.claim 30)
      (final (claim_pending_verification (some live) schedules) (registry pending_store))
    ≡ (
      ok scheduled.claim.incident,
      final (claim_pending_verification (some live) schedules) (registry pending_store),
    )
unfolding claim_pending_verification validate_schedule is_blank schedule_from list_by_status
    first_claimable matching claimable lookup
claim_verification-fence_example =
    claim_verification-fence schedules_verifying (some live) schedules (registry pending_store)
      scheduled 30 refl (omega arith)

resolve-Recovers_example :
    Holds (Recovers "ver-att-1" "inc-1") recovered_store.verifications
    × ((x : Incident) × (g : Claim) × (incident_of "inc-1" (registry recovered_store) ≡ some x)
        × (claim_of "inc-1" (registry recovered_store) ≡ some g)
        × (x.state ≡ verifying)
        × (x.version ≡ 3)
        × (g.holder_id ≡ "worker-1")
        × (16 < g.expires_at)
        × (as_resolved incident "ver-att-1" ≡ record x {
          state = resolved;
          version = next_u64 3;
          resolution_verification_id = "ver-att-1";
          approval_binding = no_binding;
        }))
unfolding resolve resolve_evidence validate_resolve is_blank require_recovered recovery_of
    resolve_locked validate_verification_fence lookup is_audited is_audit_of
resolve-Recovers_example =
    resolve-Recovers digest live resolves_incident (registry recovered_store)
      (as_resolved incident "ver-att-1") refl refl

held-Passes : Passes (resolve_fence resolves_incident) incident held (registry recovered_store)
unfolding lookup is_audited is_audit_of
held-Passes = record {
  found = refl;
  current = refl;
  claimed = refl;
  holder = refl;
  claimed_version = refl;
  audited = refl;
  in_time = omega arith;
}

evidence-Recovers : Recovers "ver-att-1" "inc-1" recovered_verification
evidence-Recovers = record { identified = refl; owned = refl; recovers = refl }

resolve_complete_example : resolve live resolves_incident (registry recovered_store) ≡ (
  ok (as_resolved incident "ver-att-1"),
  with_resolved (as_resolved incident "ver-att-1") (registry recovered_store),
)
unfolding validate_resolve is_blank
resolve_complete_example =
    resolve_complete digest live resolves_incident (registry recovered_store) incident held refl
      (λ k. refl) refl (inl evidence-Recovers) ((λ _. evidence-Recovers), tt) held-Passes refl

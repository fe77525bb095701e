-- ===== src/Incident/Fence.antt =====
-- internal/incident: the fence that a holder of a claim passes before it may touch a verification or
-- resolve the incident (verification_lifecycle.go), and `Resolve` (registry.go).
use sre_agent_gitops.Prelude.{
  Bool, Context, List, String, Time, [], before, false, if◌then◌else◌, inner, nat_eq, next_u64, not,
  text_eq, true, ℕ, ◌!=◌, ◌&&◌, ◌==◌, ◌∷◌,
}
use sre_agent_gitops.Prelude.Dict.{delete}
use sre_agent_gitops.Prelude.Method.{
  Method, Result, err, fail_if, fail_on, ok, reads, returns, some_or, writes, ◌>>=◌, ◌>>◌,
}
use sre_agent_gitops.Incident.{
  Claim, ClaimAuditEvent, Error, Incident, ResolveCommand, invalid_transition, no_binding,
  recovery_evidence_unavailable, resolved, state_eq, validate_resolve, verification_fence_conflict,
  verification_incident_not_found, verifying, version_conflict, wraps,
}
use sre_agent_gitops.Incident.Registry.{
  Registry, check, claim, claim_of, history_of, incident_of, put_incident,
}
use sre_agent_gitops.Remediation.Keys.{Error as RemediationError}

pub record VerificationFence : Type 0 where
  pub incident_id : String
  pub expected_version : ℕ  -- uint64
  pub holder_id : String
  pub now : Time

-- the test of the loop over the claim history
unfoldable pub is_audit_of : VerificationFence → Claim → ClaimAuditEvent → Bool
is_audit_of fence claim event =
    event.incident_id == fence.incident_id
    && event.incident_version == fence.expected_version
    && event.holder_id == fence.holder_id
    && event.expires_at == claim.expires_at

unfoldable pub is_audited : VerificationFence → Claim → List ClaimAuditEvent → Bool
is_audited fence claim [] = false
is_audited fence claim (event ∷ events) =
    let rest = is_audited fence claim events in if is_audit_of fence claim event then true else rest

-- What a method of the store answers, and how the error is wrapped.
abbrev pub answered :
    {S A : Type 0}
    → (RemediationError → Error)
    → Registry S
    → Result RemediationError A × S
    → Result Error A × Registry S
answered wrap r (ok a, store) = (ok a, record r { store = store })
answered wrap r (err e, store) = (err (wrap e), record r { store = store })

abbrev pub on_store :
    {S A : Type 0}
    → (RemediationError → Error)
    → Method S RemediationError A
    → Method (Registry S) Error A
on_store wrap m r = answered wrap r (m r.store)

abbrev pub resolve_fence : ResolveCommand → VerificationFence
resolve_fence command = record {
  incident_id = command.incident_id;
  expected_version = command.expected_version;
  holder_id = command.holder_id;
  now = command.now;
}

abbrev pub as_resolved : Incident → String → Incident
as_resolved current verification_id = record current {
  state = resolved;
  version = next_u64 current.version;
  resolution_verification_id = verification_id;
  approval_binding = no_binding;
}

module _ {S : Type 0} where
  unfoldable pub validate_verification_fence :
      VerificationFence → Method (Registry S) Error Incident
  validate_verification_fence fence = do
    found ← reads (incident_of fence.incident_id)
    current ← some_or found verification_incident_not_found
    fail_if (current.version != fence.expected_version) version_conflict
    claimed ← reads (claim_of fence.incident_id)
    claim ← some_or claimed (verification_fence_conflict "has no active claim")
    fail_if (claim.holder_id != fence.holder_id) (verification_fence_conflict "is held by")
    fail_if (claim.incident.version != fence.expected_version)
        (verification_fence_conflict "claim has version")
    history ← reads (history_of fence.incident_id)
    fail_if (not (is_audited fence claim history))
        (verification_fence_conflict "has no matching claim audit")
    fail_if (not (before fence.now claim.expires_at))
        (verification_fence_conflict "claim expired at")
    returns current

  -- `Resolve` before it takes the registry's lock. The store takes its own; other calls may come
  -- between this part and the next.
  unfoldable pub resolve_evidence : Context → ResolveCommand → Method (Registry S) Error Unit
  resolve_evidence ctx command = do
    check ctx 0
    fail_on (validate_resolve command)
    evidence ← reads (λ r. r.recovery_evidence_store)
    store ← some_or evidence recovery_evidence_unavailable
    on_store (wraps "validate recovery evidence")
        (store.require_recovered (inner ctx) command.verification_id command.incident_id)

  -- `Resolve` under the lock
  unfoldable pub resolve_locked : Context → ResolveCommand → Method (Registry S) Error Incident
  resolve_locked ctx command = do
    check ctx 1
    current ← validate_verification_fence (resolve_fence command)
    fail_if (current.state != verifying) (invalid_transition "")
    let next = as_resolved current command.verification_id
    writes (put_incident next)
    writes (λ r. record r { active_by_key = delete next.idempotency_key r.active_by_key })
    returns next

  unfoldable pub resolve : Context → ResolveCommand → Method (Registry S) Error Incident
  resolve ctx command = do resolve_evidence ctx command; resolve_locked ctx command

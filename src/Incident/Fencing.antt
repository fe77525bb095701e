-- ===== src/Incident/Fencing.antt =====
-- internal/incident: the fence of a claim, after the claim and after later ones.
use sre_agent_gitops.Prelude.{
  Context, List, Option, Option-cases, String, Time, [], ap, arith, eq_iff, inl, inr, next_u64,
  none, refl, some, sym, text_eq, true, ℕ, ◌++◌, ◌<◌, ◌∷◌, ◌≡◌, ◌≢◌,
}
use sre_agent_gitops.Prelude.Dict.{Dict, insert, lookup, lookup-insert}
use sre_agent_gitops.Prelude.Method.{err, final, ok, result, Method}
use sre_agent_gitops.Incident.{
  Claim, ClaimAuditEvent, ClaimCommand, Incident, version_conflict, Bool, Error,
}
use sre_agent_gitops.Incident.Rules.{advanced, audit_event, new_claim}
use sre_agent_gitops.Incident.Registry.{
  Registry, claim, history_of, incident_of, or_empty, put_claim,
}
use sre_agent_gitops.Incident.Fence.{
  VerificationFence, is_audit_of, is_audited, validate_verification_fence,
}
use sre_agent_gitops.Incident.Passing.{Passes, fence-passed}
use sre_agent_gitops.Incident.Scheduler.{
  ScheduleCommand, VerificationClaim, claim_pending_verification,
  claim_recovered_verification_resolution,
}
use sre_agent_gitops.Incident.Calls.{with_store}
use sre_agent_gitops.Incident.Scheduling.{Scheduled, claim_pending_inv, claim_recovered_inv}
use sre_agent_gitops.Incident.Invariant.{IncidentAt, IsSound}
use mathlib.Core.Path.{subst}
use sre_agent_gitops.Remediation.Verification.{VerificationStatus}

-- The fence of a claim, at a time.
abbrev pub fence_of : Claim → Time → VerificationFence
fence_of g now = record {
  incident_id = g.incident.id;
  expected_version = g.incident.version;
  holder_id = g.holder_id;
  now = now;
}

-- A new event is found at the end of the history.
is_audited-append :
    (f : VerificationFence) (g : Claim) (e : ClaimAuditEvent) (l : List ClaimAuditEvent)
    → is_audit_of f g e ≡ true
    → is_audited f g (l ++ e ∷ []) ≡ true
unfolding is_audited
is_audited-append f g e [] h = rw h
is_audited-append f g e (x ∷ l) h = ground (arith, is_audited-append f g e l h)

audits_itself :
    (g : Claim) (now granted : Time) → is_audit_of (fence_of g now) g (audit_event g granted) ≡ true
unfolding is_audit_of
audits_itself g now granted =
    ground (arith, eq_iff g.incident.id g.incident.id, eq_iff g.holder_id g.holder_id)

next_u64_ne : (v : ℕ) → v ≢ next_u64 v
next_u64_ne v = omega arith

-- the two schedulers
pub data Scheduler : Type 0 where
  schedules_verifying schedules_resolving : Scheduler

module _ {S : Type 0} where
  put_claim-Passes :
      (g : Claim) (now granted : Time) (r : Registry S)
      → now < g.expires_at
      → Passes (fence_of g now) g.incident g (put_claim g granted r)
  unfolding put_claim
  put_claim-Passes g now granted r l = record {
    found = self g.incident r.incidents_by_id;
    current = refl;
    claimed = self g r.claims_by_incident_id;
    holder = refl;
    claimed_version = refl;
    audited =
        subst (λ (h : List ClaimAuditEvent). is_audited (fence_of g now) g h ≡ true)
          (sym (
            ap or_empty (
              self (history_of g.incident.id r ++ audit_event g granted ∷ [])
                r.claim_history_by_incident_id)))
          (is_audited-append (fence_of g now) g (audit_event g granted) (history_of g.incident.id r)
            (audits_itself g now granted));
    in_time = l;
  }
    where
      self :
          {V : Type 0} (v : V) (m : Dict String V)
          → lookup g.incident.id (insert g.incident.id v m) ≡ some v
      self v m =
          ground (
            arith,
            lookup-insert g.incident.id g.incident.id v m,
            eq_iff g.incident.id g.incident.id,
          )

  claimed_final :
      (ctx : Context) (k : ClaimCommand) (r : Registry S) (g : Claim)
      → result (claim ctx k) r ≡ ok g
      → (x : Incident) × (incident_of k.incident_id r ≡ some x)
        × (x.version ≡ k.expected_version)
        × (g ≡ new_claim (advanced x) k.holder_id k.now k.lease_duration)
        × (final (claim ctx k) r ≡ put_claim g k.now r)
  unfolding claim
  claimed_final ctx k r g h = elim (Option-cases (incident_of k.incident_id r)) [
    | inl e ↦ absurd (ground arith)
    | inr (x, e) ↦ (x, e, ground arith, ground arith, ground arith)
  ]

  -- After a `Claim` that succeeds, until the lease ends, the fence of the claim is passed: with the
  -- version and the holder of the claim one gets the incident as claimed, and changes nothing.
  pub claim-fence :
      (ctx : Context) (k : ClaimCommand) (r : Registry S) (g : Claim) (now : Time)
      → result (claim ctx k) r ≡ ok g
      → now < g.expires_at
      → validate_verification_fence (fence_of g now) (final (claim ctx k) r)
        ≡ (ok g.incident, final (claim ctx k) r)
  claim-fence ctx k r g now h l =
      fence-passed (fence_of g now) g.incident g (final (claim ctx k) r)
        (rw ((claimed_final ctx k r g h).4) (put_claim-Passes g now k.now r l))

  -- A `Claim` that succeeds fences the earlier ones off: whoever then comes with the version at which
  -- it was made is refused with a version conflict, whatever the holder and the time.
  pub claim-fence_stale :
      (ctx : Context) (k : ClaimCommand) (r : Registry S) (g : Claim) (f : VerificationFence)
      → IsSound r
      → result (claim ctx k) r ≡ ok g
      → f.incident_id ≡ k.incident_id
      → f.expected_version ≡ k.expected_version
      → validate_verification_fence f (final (claim ctx k) r)
        ≡ (err version_conflict, final (claim ctx k) r)
  unfolding validate_verification_fence
  claim-fence_stale ctx k r g f s h i v =
      let (x, e, w, q, t) = claimed_final ctx k r g h in
      let keyed = (subst (IncidentAt r k.incident_id) e (s.incidents k.incident_id)).0 in
      rw t (
        unfold put_claim in
        ground (
          arith,
          lookup-insert g.incident.id f.incident_id g.incident r.incidents_by_id,
          eq_iff g.incident.id f.incident_id,
          next_u64_ne x.version,
        ))

  Scheduled-fence :
      (status : VerificationStatus) (eligible : Incident → Bool) (k : ScheduleCommand)
      (r t : Registry S) (out : VerificationClaim) (now : Time)
      → Scheduled status eligible k r t (some out)
      → now < out.claim.expires_at
      → validate_verification_fence (fence_of out.claim now) t ≡ (ok out.claim.incident, t)
  Scheduled-fence status eligible k r t out now (none, scan, (e, w)) l = absurd (ground arith)
  Scheduled-fence status eligible k r t out now (some (v, x), scan, (e, w)) l =
      fence-passed (fence_of out.claim now) out.claim.incident out.claim t (
        rw w (
          subst
            (λ (g : Claim).
              Passes (fence_of out.claim now) out.claim.incident out.claim
                (put_claim g k.now (with_store scan.after r)))
            (ground arith) (put_claim-Passes out.claim now k.now (with_store scan.after r) l)))

  abbrev pub claim_verification :
      Scheduler
      → Option Context
      → ScheduleCommand
      → Method (Registry S) Error (Option VerificationClaim)
  claim_verification schedules_verifying = claim_pending_verification
  claim_verification schedules_resolving = claim_recovered_verification_resolution

  -- A verification that either scheduler hands out, the one of those that are pending or the one of
  -- those that recovered, comes with a claim whose fence is passed until the lease ends.
  pub claim_verification-fence :
      (scheduler : Scheduler) (ctx : Option Context) (k : ScheduleCommand) (r : Registry S)
      (out : VerificationClaim) (now : Time)
      → result (claim_verification scheduler ctx k) r ≡ ok (some out)
      → now < out.claim.expires_at
      → validate_verification_fence
          (fence_of out.claim now)
          (final (claim_verification scheduler ctx k) r)
        ≡ (ok out.claim.incident, final (claim_verification scheduler ctx k) r)
  claim_verification-fence schedules_verifying ctx k r out now h l =
      Scheduled-fence _ _ k r _ out now (claim_pending_inv ctx k r (some out) h) l
  claim_verification-fence schedules_resolving ctx k r out now h l =
      Scheduled-fence _ _ k r _ out now (claim_recovered_inv ctx k r (some out) h) l

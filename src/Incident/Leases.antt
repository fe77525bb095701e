-- ===== src/Incident/Leases.antt =====
-- internal/incident: the leases of claims, against every method.
use sre_agent_gitops.Incident.Fence.{as_resolved}
use sre_agent_gitops.Incident.Lifecycle.{
  BeginFencedVerificationCommand, CompleteFencedVerificationCommand,
  FencedVerificationCompletionResult, FencedVerificationResult, begin_fenced_verification,
  complete_fenced_verification,
}
use sre_agent_gitops.Incident.Changes.{
  claim_change, observe_change, resolve_locked_change, transition_change,
}
use sre_agent_gitops.Incident.Failures.{
  KeepsRegistry, begin_fails, claim_pending_fails, claim_recovered_fails, complete_fails,
}
use mathlib.Core.Path.{subst}
use sre_agent_gitops.Prelude.{
  Bool, Context, Option, Option-cases, Sha256, String, Time, ap, arith, eq_iff, false, inl, inr,
  lt→ltb, none, refl, some, sym, true, ◌&&◌, ◌<◌, ◌≡◌, ◌≢◌,
}
use sre_agent_gitops.Prelude.Dict.{lookup-insert}
use sre_agent_gitops.Prelude.Method.{IsRefused, Result, err, final, ok, result}
use sre_agent_gitops.Incident.{Claim, ClaimCommand, Error, Incident}
use sre_agent_gitops.Incident.Rules.{advanced, is_held_by_other, is_leased, new_claim, transitioned}
use sre_agent_gitops.Incident.Registry.{
  Registry, claim, claim_of, incident_of, put_claim, put_incident, retire,
}
use sre_agent_gitops.Incident.Scheduler.{
  ScheduleCommand, VerificationClaim, claim_pending_verification,
  claim_recovered_verification_resolution, is_unresolved,
}
use sre_agent_gitops.Incident.Calls.{begin_inv, complete_inv, evidence_cases, with_store}
use sre_agent_gitops.Incident.Scheduling.{
  IsClaimable, Scheduled, claim_pending_inv, claim_recovered_inv, first_claimable-IsClaimable,
}
use sre_agent_gitops.Incident.Steps.{
  Call, asks_evidence, begins, claims_for, completes, observes, resolves, schedules_pending,
  schedules_recovered, step, transitions,
}
use sre_agent_gitops.Incident.Invariant.{IncidentAt, IsSound}
use sre_agent_gitops.Remediation.Verification.{VerificationStatus, pending, recovered}

module _ {S : Type 0} where
  -- `Claim` is refused, and changes nothing, while another holder's lease on the incident runs.
  pub claim_leased :
      (ctx : Context) (k : ClaimCommand) (r : Registry S) (c : Claim)
      → IsSound r
      → claim_of k.incident_id r ≡ some c
      → k.now < c.expires_at
      → c.holder_id ≢ k.holder_id
      → IsRefused (claim ctx k) r
  unfolding claim
  claim_leased ctx k r c h f l n = elim (Option-cases (incident_of k.incident_id r)) [
    | inl e ↦ ground arith
    | inr (x, e) ↦ ground (
      arith,
      subst (IncidentAt r k.incident_id) e (h.incidents k.incident_id),
      eq_iff c.holder_id k.holder_id,
    )
  ]

-- The call is not a claim by the holder, and if it is a claim of another or a scheduler's, its time is
-- before the end of the lease. Other calls have no part in leases.
abbrev pub IsWithin : Claim → Call → Type 0
IsWithin c (claims_for ctx k) = (k.now < c.expires_at) × (c.holder_id ≢ k.holder_id)
IsWithin c (schedules_pending ctx k) = k.now < c.expires_at
IsWithin c (schedules_recovered ctx k) = k.now < c.expires_at
IsWithin c _ = Unit {0}

module _ {S : Type 0} where
  -- The claim that the calls in question leave alone.
  abbrev Keeps : String → Claim → Registry S → Type 0
  Keeps id c t = claim_of id t ≡ some c

  put_claim-Keeps :
      (id : String) (c g : Claim) (now : Time) (r : Registry S)
      → g.incident.id ≢ id
      → Keeps id c r
      → Keeps id c (put_claim g now r)
  unfolding put_claim
  put_claim-Keeps id c g now r n h =
      rw (lookup-insert g.incident.id id g r.claims_by_incident_id)
        (ground (arith, eq_iff g.incident.id id))

  Scheduled-Keeps :
      (status : VerificationStatus) (eligible : Incident → Bool) (k : ScheduleCommand)
      (r t : Registry S) (out : Option VerificationClaim) (id : String) (c : Claim)
      → k.now < c.expires_at
      → Keeps id c r
      → Scheduled status eligible k r t out
      → Keeps id c t
  Scheduled-Keeps status eligible k r t out id c l h (none, scan, (e, w)) = rw w h
  Scheduled-Keeps status eligible k r t out id c l h (some (v, x), scan, (e, w)) = rw w (
      put_claim-Keeps id c (new_claim (advanced x) k.holder_id k.now k.lease_duration) k.now
        (with_store scan.after r) (λ same. cc (busy same, p.free)) h)
    where
      p : IsClaimable status eligible k.now (with_store scan.after r) v x
      p =
          first_claimable-IsClaimable status eligible k.now (with_store scan.after r) scan.listed v
            x scan.found_first

      busy : x.id ≡ id → is_leased k.now (claim_of x.id r) ≡ true
      busy same = rw (same, h) (lt→ltb k.now c.expires_at l)

  claim-Keeps :
      (ctx : Context) (k : ClaimCommand) (r : Registry S) (id : String) (c : Claim)
      → IsSound r
      → (k.now < c.expires_at) × (c.holder_id ≢ k.holder_id)
      → Keeps id c r
      → Keeps id c (final (claim ctx k) r)
  claim-Keeps ctx k r id c h (l, n) f = claim_change (Keeps id c) ctx k r f (λ x e v m.
      put_claim-Keeps id c (new_claim (advanced x) k.holder_id k.now k.lease_duration) k.now r
        (λ same. other x m same) f)
    where
      other :
          (x : Incident)
          → (is_held_by_other k.holder_id (claim_of x.id r) && is_leased k.now (claim_of x.id r))
            ≡ false
          → x.id ≡ id
          → ⊥
      other x m same =
          ground
            (arith, subst (λ a. claim_of a r ≡ some c) (sym same) f, eq_iff c.holder_id k.holder_id)

  failed-Keeps :
      (r t : Registry S) (id : String) (c : Claim) → KeepsRegistry r t → Keeps id c r → Keeps id c t
  failed-Keeps r t id c h f = rw h f

  pending-Keeps :
      (ctx : Option Context) (k : ScheduleCommand) (r : Registry S) (id : String) (c : Claim)
      → k.now < c.expires_at
      → Keeps id c r
      → Keeps id c (final (claim_pending_verification ctx k) r)
  pending-Keeps ctx k r id c l f = go (result (claim_pending_verification ctx k) r) refl
    where
      go :
          (o : Result Error (Option VerificationClaim))
          → result (claim_pending_verification ctx k) r ≡ o
          → Keeps id c (final (claim_pending_verification ctx k) r)
      go (err e) h =
          failed-Keeps r (final (claim_pending_verification ctx k) r) id c
            (claim_pending_fails ctx k r (rw h)) f
      go (ok out) h =
          Scheduled-Keeps pending (λ _. true) k r (final (claim_pending_verification ctx k) r) out
            id c l f (claim_pending_inv ctx k r out h)

  recovered-Keeps :
      (ctx : Option Context) (k : ScheduleCommand) (r : Registry S) (id : String) (c : Claim)
      → k.now < c.expires_at
      → Keeps id c r
      → Keeps id c (final (claim_recovered_verification_resolution ctx k) r)
  recovered-Keeps ctx k r id c l f =
      go (result (claim_recovered_verification_resolution ctx k) r) refl
    where
      go :
          (o : Result Error (Option VerificationClaim))
          → result (claim_recovered_verification_resolution ctx k) r ≡ o
          → Keeps id c (final (claim_recovered_verification_resolution ctx k) r)
      go (err e) h =
          failed-Keeps r (final (claim_recovered_verification_resolution ctx k) r) id c
            (claim_recovered_fails ctx k r (rw h)) f
      go (ok out) h =
          Scheduled-Keeps recovered is_unresolved k r
            (final (claim_recovered_verification_resolution ctx k) r) out id c l f
            (claim_recovered_inv ctx k r out h)

  stored-Keeps :
      (s : S) (r t : Registry S) (id : String) (c : Claim)
      → t ≡ with_store s r
      → Keeps id c r
      → Keeps id c t
  stored-Keeps s r t id c e h = rw e h

  begin-Keeps :
      (ctx : Option Context) (k : BeginFencedVerificationCommand) (r : Registry S) (id : String)
      (c : Claim)
      → Keeps id c r
      → Keeps id c (final (begin_fenced_verification ctx k) r)
  begin-Keeps ctx k r id c f = go (result (begin_fenced_verification ctx k) r) refl
    where
      go :
          (o : Result Error FencedVerificationResult)
          → result (begin_fenced_verification ctx k) r ≡ o
          → Keeps id c (final (begin_fenced_verification ctx k) r)
      go (err e) h =
          failed-Keeps r (final (begin_fenced_verification ctx k) r) id c
            (begin_fails ctx k r (rw h)) f
      go (ok out) h = rw (begin_inv ctx k r out h).written f

  complete-Keeps :
      (ctx : Option Context) (k : CompleteFencedVerificationCommand) (r : Registry S) (id : String)
      (c : Claim)
      → Keeps id c r
      → Keeps id c (final (complete_fenced_verification ctx k) r)
  complete-Keeps ctx k r id c f = go (result (complete_fenced_verification ctx k) r) refl
    where
      go :
          (o : Result Error FencedVerificationCompletionResult)
          → result (complete_fenced_verification ctx k) r ≡ o
          → Keeps id c (final (complete_fenced_verification ctx k) r)
      go (err e) h =
          failed-Keeps r (final (complete_fenced_verification ctx k) r) id c
            (complete_fails ctx k r (rw h)) f
      go (ok out) h = rw (complete_inv ctx k r out h).kept f

  retire-Keeps :
      (x y : Incident) (r : Registry S) (id : String) (c : Claim)
      → Keeps id c r
      → Keeps id c (retire x (put_incident y r))
  retire-Keeps x y r id c f = ground arith

module _ {S : Type 0} (sha : Sha256) where
  -- A claim stays while its lease runs: from a registry whose maps agree, a call, whatever it
  -- answers, leaves the claim of an incident as it is, if the call is neither a `Claim` by its holder
  -- nor one, or a scheduler's, whose time is at or after the end of the lease.
  pub step-claim_of :
      (call : Call) (r : Registry S) (id : String) (c : Claim)
      → IsSound r
      → IsWithin c call
      → claim_of id r ≡ some c
      → claim_of id (step sha call r) ≡ some c
  unfolding step
  step-claim_of (observes ctx o) r id c h w f =
      observe_change sha (λ t. claim_of id t ≡ some c) ctx o r f (λ n. f)
  step-claim_of (claims_for ctx k) r id c h w f = claim-Keeps ctx k r id c h w f
  step-claim_of (transitions ctx k) r id c h w f =
      transition_change (λ t. claim_of id t ≡ some c) ctx k r f
        (λ x e v d. retire-Keeps (transitioned x k) (transitioned x k) r id c f)
  step-claim_of (asks_evidence ctx k) r id c h w f = elim (evidence_cases ctx k r) [
    | inl (e, s, q) ↦ stored-Keeps s r (step sha (asks_evidence ctx k) r) id c (ap (λ o. o.1) q) f
    | inr (s, q, e) ↦ stored-Keeps s r (step sha (asks_evidence ctx k) r) id c (ap (λ o. o.1) e) f
  ]
  step-claim_of (resolves ctx k) r id c h w f =
      resolve_locked_change (λ t. claim_of id t ≡ some c) ctx k r f
        (λ x y p v.
          retire-Keeps (as_resolved x k.verification_id) (as_resolved x k.verification_id) r id c f)
  step-claim_of (begins ctx k) r id c h w f = begin-Keeps ctx k r id c f
  step-claim_of (completes ctx k) r id c h w f = complete-Keeps ctx k r id c f
  step-claim_of (schedules_pending ctx k) r id c h w f = pending-Keeps ctx k r id c w f
  step-claim_of (schedules_recovered ctx k) r id c h w f = recovered-Keeps ctx k r id c w f

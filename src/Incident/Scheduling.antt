-- ===== src/Incident/Scheduling.antt =====
-- internal/incident: what the schedulers find and write.
use sre_agent_gitops.Prelude.{
  Bool, Context, List, Option, Option-cases, String, Time, [], arith, false, inl, inner, inr, none,
  some, sym, true, ◌∷◌, ◌≡◌, ◌⊎◌,
}
use sre_agent_gitops.Prelude.Method.{Method, final, ok, result}
use sre_agent_gitops.Incident.{Incident, state_eqb_iff, verifying}
use sre_agent_gitops.Incident.Rules.{advanced, is_leased, new_claim}
use sre_agent_gitops.Incident.Registry.{Registry, claim_of, incident_of, put_claim}
use sre_agent_gitops.Incident.Scheduler.{
  ScheduleCommand, VerificationClaim, claim_pending_verification,
  claim_recovered_verification_resolution, claimable, first_claimable, is_unresolved,
  pending_source, recovered_source, schedule_from,
}
use sre_agent_gitops.Incident.Calls.{Answer-cases, with_store}
use mathlib.Core.Path.{subst}
use sre_agent_gitops.Remediation.Keys.{Error as RemediationError}
use sre_agent_gitops.Remediation.Verification.{
  Verification, VerificationStatus, pending, recovered, status_eqb_iff, verification_status_eq,
}

module _ {S : Type 0} where
  -- What the scheduler has had from the store, and what it has found on the list.
  pub record Scan (status : VerificationStatus) (eligible : Incident → Bool) (c : ScheduleCommand)
      (r : Registry S) (found : Option (Verification × Incident)) : Type 0 where
    pub list : Context → Method S RemediationError (List Verification)
    pub asked : Context
    pub listed : List Verification
    pub after : S
    pub answered : list asked r.store ≡ (ok listed, after)
    pub found_first : first_claimable status eligible c.now (with_store after r) listed ≡ found

  -- What follows from what was found: nothing, or a claim of the incident under its next version.
  abbrev pub Granted :
      ScheduleCommand
      → Registry S
      → Registry S
      → Option (Verification × Incident)
      → Option VerificationClaim
      → Type 0
  Granted c r t none out = (out ≡ none) × (t ≡ r)
  Granted c r t (some (v, x)) out =
      let granted = new_claim (advanced x) c.holder_id c.now c.lease_duration in
      (out ≡ some (record { verification = v; claim = granted })) × (t ≡ put_claim granted c.now r)

  abbrev pub Scheduled :
      VerificationStatus
      → (Incident → Bool)
      → ScheduleCommand
      → Registry S
      → Registry S
      → Option VerificationClaim
      → Type 0
  Scheduled status eligible c r t out =
      (found : Option (Verification × Incident)) × (scan : Scan status eligible c r found) × Granted
        c (with_store scan.after r) t found out

  schedule_from_inv :
      (status : VerificationStatus) (eligible : Incident → Bool) (text : String) (ctx : Context)
      (c : ScheduleCommand) (list : Context → Method S RemediationError (List Verification))
      (r : Registry S) (out : Option VerificationClaim)
      → result (schedule_from status eligible text ctx c list) r ≡ ok out
      → Scheduled status eligible c r (final (schedule_from status eligible text ctx c list) r) out
  unfolding schedule_from
  schedule_from_inv status eligible text ctx c list r out h =
      elim (Answer-cases (list (inner ctx) r.store)) [
        | inl (e, s, z) ↦ absurd (ground arith)
        | inr (l, s, z) ↦
            elim (Option-cases (first_claimable status eligible c.now (with_store s r) l)) [
              | inl m ↦ (
                none,
                record {
                  list = list;
                  asked = inner ctx;
                  listed = l;
                  after = s;
                  answered = z;
                  found_first = m;
                },
                (ground arith, ground arith),
              )
              | inr ((v, x), m) ↦ (
                some (v, x),
                record {
                  list = list;
                  asked = inner ctx;
                  listed = l;
                  after = s;
                  answered = z;
                  found_first = m;
                },
                (ground arith, ground arith),
              )
            ]
      ]

  pending_enters :
      (ctx : Context) (c : ScheduleCommand) (r : Registry S) (out : Option VerificationClaim)
      → result (claim_pending_verification (some ctx) c) r ≡ ok out
      → (list : Context → Method S RemediationError (List Verification))
        × (claim_pending_verification (some ctx) c r
            ≡ schedule_from pending (λ _. true) "list pending verifications" ctx c list r)
  unfolding claim_pending_verification
  pending_enters ctx c r out h =
      elim (Option-cases (pending_source r.verification_lifecycle_store)) [
        | inl n ↦ absurd (ground arith)
        | inr (list, w) ↦ (list, ground arith)
      ]

  -- `ClaimPendingVerification` that succeeds has had a list from the store, has found the first
  -- verification on it that may be claimed, or none, and has written the claim of its incident, or
  -- nothing.
  pub claim_pending_inv :
      (ctx : Option Context) (c : ScheduleCommand) (r : Registry S) (out : Option VerificationClaim)
      → result (claim_pending_verification ctx c) r ≡ ok out
      → Scheduled pending (λ _. true) c r (final (claim_pending_verification ctx c) r) out
  claim_pending_inv none c r out h = absurd (unfold claim_pending_verification in ground arith)
  claim_pending_inv (some ctx) c r out h =
      let (list, e) = pending_enters ctx c r out h in
      subst (λ o. Scheduled pending (λ _. true) c r o.1 out) (sym e)
        (schedule_from_inv pending (λ _. true) "list pending verifications" ctx c list r out
          (subst (λ o. o.0 ≡ ok out) e h))

  recovered_enters :
      (ctx : Context) (c : ScheduleCommand) (r : Registry S) (out : Option VerificationClaim)
      → result (claim_recovered_verification_resolution (some ctx) c) r ≡ ok out
      → (list : Context → Method S RemediationError (List Verification))
        × (claim_recovered_verification_resolution (some ctx) c r
            ≡ schedule_from recovered is_unresolved "list recovered verifications" ctx c list r)
  unfolding claim_recovered_verification_resolution
  recovered_enters ctx c r out h =
      elim (Option-cases (recovered_source r.verification_lifecycle_store)) [
        | inl n ↦ absurd (ground arith)
        | inr (list, w) ↦ (list, ground arith)
      ]

  -- The same of `ClaimRecoveredVerificationResolution`.
  pub claim_recovered_inv :
      (ctx : Option Context) (c : ScheduleCommand) (r : Registry S) (out : Option VerificationClaim)
      → result (claim_recovered_verification_resolution ctx c) r ≡ ok out
      → Scheduled recovered is_unresolved c r
          (final (claim_recovered_verification_resolution ctx c) r)
          out
  claim_recovered_inv none c r out h =
      absurd (unfold claim_recovered_verification_resolution in ground arith)
  claim_recovered_inv (some ctx) c r out h =
      let (list, e) = recovered_enters ctx c r out h in
      subst (λ o. Scheduled recovered is_unresolved c r o.1 out) (sym e)
        (schedule_from_inv recovered is_unresolved "list recovered verifications" ctx c list r out
          (subst (λ o. o.0 ≡ ok out) e h))

module _ {S : Type 0} where
  -- Why a verification lets its incident be claimed.
  pub record IsClaimable (status : VerificationStatus) (eligible : Incident → Bool) (now : Time)
      (r : Registry S) (v : Verification) (x : Incident) : Type 0 where
    pub has_status : v.status ≡ status
    pub found : incident_of v.action_key.incident_id r ≡ some x
    pub was_verifying : x.state ≡ verifying
    pub is_eligible : eligible x ≡ true
    pub free : is_leased now (claim_of x.id r) ≡ false

  pub claimable-IsClaimable :
      (status : VerificationStatus) (eligible : Incident → Bool) (now : Time) (r : Registry S)
      (v : Verification) (x : Incident)
      → claimable status eligible now r v ≡ some x
      → IsClaimable status eligible now r v x
  unfolding claimable
  claimable-IsClaimable status eligible now r v x h =
      ground (arith, status_eqb_iff v.status status, state_eqb_iff x.state verifying)

  IsClaimable-claimable :
      (status : VerificationStatus) (eligible : Incident → Bool) (now : Time) (r : Registry S)
      (v : Verification) (x : Incident)
      → IsClaimable status eligible now r v x
      → claimable status eligible now r v ≡ some x
  unfolding claimable
  IsClaimable-claimable status eligible now r v x p = ground (
    arith,
    p.has_status,
    p.found,
    p.was_verifying,
    p.is_eligible,
    p.free,
    status_eqb_iff v.status status,
    state_eqb_iff x.state verifying,
  )

  -- What a search of the list comes to: the first verification that lets an incident be claimed, with
  -- this incident, or nothing, if there is none.
  abbrev pub FirstOf :
      VerificationStatus
      → (Incident → Bool)
      → Time
      → Registry S
      → List Verification
      → Option (Verification × Incident)
      → Type 0
  FirstOf status eligible now r [] found = found ≡ none
  FirstOf status eligible now r (w ∷ ws) found =
      ((x : Incident) × IsClaimable status eligible now r w x × (found ≡ some (w, x)))
      ⊎ (((x : Incident) → ¬ IsClaimable status eligible now r w x)
          × FirstOf status eligible now r ws found)

  -- The loop of the schedulers finds the first verification on the list that lets its incident be
  -- claimed, which is to have the status asked for and an incident that is being verified, is
  -- eligible and has no running lease; it finds nothing only if no verification on the list does.
  pub first_claimable-FirstOf :
      (status : VerificationStatus) (eligible : Incident → Bool) (now : Time) (r : Registry S)
      (l : List Verification)
      → FirstOf status eligible now r l (first_claimable status eligible now r l)
  unfolding first_claimable
  first_claimable-FirstOf status eligible now r [] = λ i. none
  first_claimable-FirstOf status eligible now r (w ∷ ws) =
      elim (Option-cases (claimable status eligible now r w)) [
        | inl n ↦
            let skipped : first_claimable status eligible now r (w ∷ ws)
                ≡ first_claimable status eligible now r ws =
              ground arith in
            subst (FirstOf status eligible now r (w ∷ ws)) (sym skipped) (
              inr (
                (λ x p.
                    absurd (ground (arith, n, IsClaimable-claimable status eligible now r w x p))),
                first_claimable-FirstOf status eligible now r ws,
              ))
        | inr (x, e) ↦
            let taken : first_claimable status eligible now r (w ∷ ws) ≡ some (w, x) =
              ground arith in
            inl (x, claimable-IsClaimable status eligible now r w x e, taken)
      ]

  found-IsClaimable :
      (status : VerificationStatus) (eligible : Incident → Bool) (now : Time) (r : Registry S)
      (l : List Verification) (v : Verification) (x : Incident)
      → FirstOf status eligible now r l (some (v, x))
      → IsClaimable status eligible now r v x
  found-IsClaimable status eligible now r [] v x h = absurd (ground arith)
  found-IsClaimable status eligible now r (w ∷ ws) v x (inr (n, h)) =
      found-IsClaimable status eligible now r ws v x h
  found-IsClaimable status eligible now r (w ∷ ws) v x (inl (y, p, e)) =
      let same : w ≡ v = ground arith in
      let here : y ≡ x = ground arith in
      subst (λ u. IsClaimable status eligible now r u x) same
        (subst (λ u. IsClaimable status eligible now r w u) here p)

  pub first_claimable-IsClaimable :
      (status : VerificationStatus) (eligible : Incident → Bool) (now : Time) (r : Registry S)
      (l : List Verification) (v : Verification) (x : Incident)
      → first_claimable status eligible now r l ≡ some (v, x)
      → IsClaimable status eligible now r v x
  first_claimable-IsClaimable status eligible now r l v x h =
      found-IsClaimable status eligible now r l v x (
        subst (λ o. FirstOf status eligible now r l o) h
          (first_claimable-FirstOf status eligible now r l))

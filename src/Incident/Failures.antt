-- ===== src/Incident/Failures.antt =====
-- internal/incident: what the methods that use the store behind the registry leave when they fail.
use sre_agent_gitops.Prelude.{
  Bool, Context, List, Option, Option-cases, String, arith, inl, inner, inr, none, refl, some, true,
  ◌≡◌,
}
use sre_agent_gitops.Prelude.Method.{Method, final, is_error, result}
use sre_agent_gitops.Incident.{Incident}
use sre_agent_gitops.Incident.Stores.{VerificationLifecycleStore}
use sre_agent_gitops.Incident.Registry.{Registry}
use sre_agent_gitops.Incident.Passing.{fence_cases}
use sre_agent_gitops.Incident.Lifecycle.{
  BeginFencedVerificationCommand, CompleteFencedVerificationCommand, begin_fence,
  begin_fenced_verification, begin_locked, complete_fence, complete_fenced_verification,
  complete_locked, verifying_from,
}
use sre_agent_gitops.Incident.Scheduler.{
  ScheduleCommand, claim_pending_verification, claim_recovered_verification_resolution,
  first_claimable, is_unresolved, pending_source, recovered_source, schedule_from,
}
use sre_agent_gitops.Incident.Calls.{Answer-cases, with_store}
use sre_agent_gitops.Remediation.Keys.{Error as RemediationError}
use sre_agent_gitops.Remediation.Verification.{Verification, VerificationStatus, pending, recovered}

-- The registry is as it was, but for the state of the store behind it.
abbrev pub KeepsRegistry : {S : Type 0} → Registry S → Registry S → Type 0
KeepsRegistry r t = t ≡ with_store t.store r

module _ {S : Type 0} where
  begin_locked_fails :
      (ctx : Context) (c : BeginFencedVerificationCommand) (st : VerificationLifecycleStore S)
      (r : Registry S)
      → is_error (result (begin_locked ctx c st) r) ≡ true
      → KeepsRegistry r (final (begin_locked ctx c st) r)
  unfolding begin_locked
  begin_locked_fails ctx c st r h = elim (fence_cases (begin_fence c) r) [
    | inl (e, f) ↦ ground arith
    | inr (x, y, p, f) ↦ elim (Option-cases (verifying_from x.state x)) [
      | inl m ↦ ground arith
      | inr (next, m) ↦ elim (Answer-cases (st.begin (inner ctx) c.verification r.store)) [
        | inl (e, s, z) ↦ ground arith
        | inr (a, s, z) ↦ ground arith
      ]
    ]
  ]

  complete_locked_fails :
      (ctx : Context) (c : CompleteFencedVerificationCommand) (st : VerificationLifecycleStore S)
      (r : Registry S)
      → is_error (result (complete_locked ctx c st) r) ≡ true
      → KeepsRegistry r (final (complete_locked ctx c st) r)
  unfolding complete_locked
  complete_locked_fails ctx c st r h = elim (fence_cases (complete_fence c) r) [
    | inl (e, f) ↦ ground arith
    | inr (x, y, p, f) ↦ elim (Answer-cases (st.complete (inner ctx) c.verification r.store)) [
      | inl (e, s, z) ↦ ground arith
      | inr (a, s, z) ↦ ground arith
    ]
  ]

  schedule_from_fails :
      (status : VerificationStatus) (eligible : Incident → Bool) (text : String) (ctx : Context)
      (c : ScheduleCommand) (list : Context → Method S RemediationError (List Verification))
      (r : Registry S)
      → is_error (result (schedule_from status eligible text ctx c list) r) ≡ true
      → KeepsRegistry r (final (schedule_from status eligible text ctx c list) r)
  unfolding schedule_from
  schedule_from_fails status eligible text ctx c list r h =
      elim (Answer-cases (list (inner ctx) r.store)) [
        | inl (e, s, z) ↦ ground arith
        | inr (l, s, z) ↦
            elim (Option-cases (first_claimable status eligible c.now (with_store s r) l)) [
              | inl m ↦ ground arith
              | inr ((v, x), m) ↦ ground arith
            ]
      ]

  -- A `BeginFencedVerification` that fails, at whatever point, leaves incidents, claims and
  -- histories as they were: only the state of the store behind the registry may be another.
  pub begin_fails :
      (ctx : Option Context) (c : BeginFencedVerificationCommand) (r : Registry S)
      → is_error (result (begin_fenced_verification ctx c) r) ≡ true
      → KeepsRegistry r (final (begin_fenced_verification ctx c) r)
  unfolding begin_fenced_verification
  begin_fails none c r h = refl
  begin_fails (some ctx) c r h = elim (Option-cases r.verification_lifecycle_store) [
    | inl n ↦ ground arith
    | inr (st, w) ↦ ground (arith, begin_locked_fails ctx c st r)
  ]

  -- A `CompleteFencedVerification` that fails, at whatever point, leaves incidents, claims and
  -- histories as they were: only the state of the store behind the registry may be another.
  pub complete_fails :
      (ctx : Option Context) (c : CompleteFencedVerificationCommand) (r : Registry S)
      → is_error (result (complete_fenced_verification ctx c) r) ≡ true
      → KeepsRegistry r (final (complete_fenced_verification ctx c) r)
  unfolding complete_fenced_verification
  complete_fails none c r h = refl
  complete_fails (some ctx) c r h = elim (Option-cases r.verification_lifecycle_store) [
    | inl n ↦ ground arith
    | inr (st, w) ↦ ground (arith, complete_locked_fails ctx c st r)
  ]

  -- A `ClaimPendingVerification` that fails, at whatever point, leaves incidents, claims and
  -- histories as they were: only the state of the store behind the registry may be another.
  pub claim_pending_fails :
      (ctx : Option Context) (c : ScheduleCommand) (r : Registry S)
      → is_error (result (claim_pending_verification ctx c) r) ≡ true
      → KeepsRegistry r (final (claim_pending_verification ctx c) r)
  unfolding claim_pending_verification
  claim_pending_fails none c r h = refl
  claim_pending_fails (some ctx) c r h =
      elim (Option-cases (pending_source r.verification_lifecycle_store)) [
        | inl n ↦ ground arith
        | inr (list, w) ↦ ground (
          arith,
          schedule_from_fails pending (λ _. true) "list pending verifications" ctx c list r,
        )
      ]

  -- A `ClaimRecoveredVerificationResolution` that fails, at whatever point, leaves incidents, claims and
  -- histories as they were: only the state of the store behind the registry may be another.
  pub claim_recovered_fails :
      (ctx : Option Context) (c : ScheduleCommand) (r : Registry S)
      → is_error (result (claim_recovered_verification_resolution ctx c) r) ≡ true
      → KeepsRegistry r (final (claim_recovered_verification_resolution ctx c) r)
  unfolding claim_recovered_verification_resolution
  claim_recovered_fails none c r h = refl
  claim_recovered_fails (some ctx) c r h =
      elim (Option-cases (recovered_source r.verification_lifecycle_store)) [
        | inl n ↦ ground arith
        | inr (list, w) ↦ ground (
          arith,
          schedule_from_fails recovered is_unresolved "list recovered verifications" ctx c list r,
        )
      ]

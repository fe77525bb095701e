-- ===== src/Incident/Calls.antt =====
-- internal/incident: what the methods that call the store behind the registry do, call by call.
use sre_agent_gitops.Incident.Passing.{Passes, fence_cases}
use sre_agent_gitops.Incident.Lifecycle.{
  BeginFencedVerificationCommand, CompleteFencedVerificationCommand,
  FencedVerificationCompletionResult, FencedVerificationResult, begin_fence,
  begin_fenced_verification, begin_locked, complete_fence, complete_fenced_verification,
  complete_locked, verifying_from,
}
use mathlib.Core.Path.{subst}
use sre_agent_gitops.Prelude.{
  Context, ContextError, Option, Option-cases, arith, inl, inner, inr, none, refl, some, sym, ◌≡◌,
  ◌⊎◌,
}
use sre_agent_gitops.Prelude.Method.{Result, err, final, ok, result}
use sre_agent_gitops.Incident.{
  Claim, Error, Incident, ResolveCommand, context, recovery_evidence_unavailable, validate_resolve,
  verifying, wraps,
}
use sre_agent_gitops.Incident.Stores.{RecoveryEvidenceStore, VerificationLifecycleStore}
use sre_agent_gitops.Incident.Registry.{Registry, put_incident}
use sre_agent_gitops.Incident.Fence.{resolve_evidence}
use sre_agent_gitops.Remediation.Verification.{pending, status_eqb_iff, verification_status_eq}
use sre_agent_gitops.Remediation.Keys.{context, Error as RemediationError}

-- the registry over another state of the store behind it
abbrev pub with_store : {S : Type 0} → S → Registry S → Registry S
with_store store r = record r { store = store }

-- What a method of the store may answer.
abbrev pub Answer : {S A : Type 0} → Result RemediationError A × S → Type 0
Answer {S} {A} o =
    ((e : RemediationError) × (s : S) × (o ≡ (err e, s))) ⊎ ((a : A) × (s : S) × (o ≡ (ok a, s)))

pub Answer-cases : {S A : Type 0} (o : Result RemediationError A × S) → Answer o
Answer-cases (err e, s) = inl (e, s, refl)
Answer-cases (ok a, s) = inr (a, s, refl)

module _ {S : Type 0} where
  -- The store behind the registry has the evidence that a resolution asks for.
  pub record HasEvidence (ctx : Context) (c : ResolveCommand) (r : Registry S) (after : S)
      : Type 0 where
    pub evidence_store : RecoveryEvidenceStore S
    pub available : r.recovery_evidence_store ≡ some evidence_store
    pub valid : validate_resolve c ≡ none
    pub recovered :
        evidence_store.require_recovered (inner ctx) c.verification_id c.incident_id r.store
        ≡ (ok tt, after)

  abbrev pub EvidenceOutcome : Context → ResolveCommand → Registry S → Type 0
  EvidenceOutcome ctx c r =
      ((e : Error) × (s : S) × (resolve_evidence ctx c r ≡ (err e, with_store s r)))
      ⊎ ((s : S) × HasEvidence ctx c r s × (resolve_evidence ctx c r ≡ (ok tt, with_store s r)))

  pub evidence_cases :
      (ctx : Context) (c : ResolveCommand) (r : Registry S) → EvidenceOutcome ctx c r
  unfolding resolve_evidence
  evidence_cases ctx c r = go (ctx 0) refl (validate_resolve c) refl r.recovery_evidence_store refl
    where
      go :
          (x : Option ContextError)
          → ctx 0 ≡ x
          → (v : Option Error) → validate_resolve c ≡ v
          → (o : Option (RecoveryEvidenceStore S)) → r.recovery_evidence_store ≡ o
          → EvidenceOutcome ctx c r
      go (some e) p v q o w = inl (context e, r.store, ground arith)
      go none p (some e) q o w = inl (e, r.store, ground arith)
      go none p none q none w = inl (recovery_evidence_unavailable, r.store, ground arith)
      go none p none q (some st) w =
          elim (Answer-cases
            (st.require_recovered (inner ctx) c.verification_id c.incident_id r.store)) [
              | inl (e, s, z) ↦ inl (wraps "validate recovery evidence" e, s, ground arith)
              | inr (a, s, z) ↦ inr (
                s,
                record { evidence_store = st; available = w; valid = q; recovered = z },
                ground arith,
              )
            ]

module _ {S : Type 0} where
  -- What a call that begins a verification has found and done.
  pub record Begun (c : BeginFencedVerificationCommand) (r t : Registry S)
      (out : FencedVerificationResult) : Type 0 where
    pub current : Incident
    pub claim : Claim
    pub passed : Passes (begin_fence c) current claim r
    pub moved : verifying_from current.state current ≡ some out.incident
    pub lifecycle : VerificationLifecycleStore S
    pub available : r.verification_lifecycle_store ≡ some lifecycle
    pub asked : Context
    pub after : S
    pub begun :
        lifecycle.begin asked c.verification r.store ≡ (ok (out.verification, out.created), after)
    pub waiting : out.verification.status ≡ pending
    pub written : t ≡ put_incident out.incident (with_store after r)

  begin_locked_inv :
      (ctx : Context) (c : BeginFencedVerificationCommand) (st : VerificationLifecycleStore S)
      (r : Registry S) (out : FencedVerificationResult)
      → r.verification_lifecycle_store ≡ some st
      → result (begin_locked ctx c st) r ≡ ok out
      → Begun c r (final (begin_locked ctx c st) r) out
  unfolding begin_locked
  begin_locked_inv ctx c st r out w h = elim (fence_cases (begin_fence c) r) [
    | inl (e, f) ↦ absurd (ground arith)
    | inr (x, y, p, f) ↦ elim (Option-cases (verifying_from x.state x)) [
      | inl m ↦ absurd (ground arith)
      | inr (next, m) ↦ elim (Answer-cases (st.begin (inner ctx) c.verification r.store)) [
        | inl (e, s, z) ↦ absurd (ground arith)
        | inr (a, s, z) ↦ record {
          current = x;
          claim = y;
          passed = p;
          moved = ground arith;
          lifecycle = st;
          available = w;
          asked = inner ctx;
          after = s;
          begun = ground arith;
          waiting = ground (arith, status_eqb_iff a.0.status pending);
          written = ground arith;
        }
      ]
    ]
  ]

  begin_enters :
      (ctx : Context) (c : BeginFencedVerificationCommand) (r : Registry S)
      (out : FencedVerificationResult)
      → result (begin_fenced_verification (some ctx) c) r ≡ ok out
      → (st : VerificationLifecycleStore S) × (r.verification_lifecycle_store ≡ some st)
        × (begin_fenced_verification (some ctx) c r ≡ begin_locked ctx c st r)
  unfolding begin_fenced_verification
  begin_enters ctx c r out h = elim (Option-cases r.verification_lifecycle_store) [
    | inl n ↦ absurd (ground arith)
    | inr (st, w) ↦ (st, w, ground arith)
  ]

  -- A call that begins a verification has passed the fence, has found the incident diagnosed,
  -- waiting for approval or verifying, and has had a pending verification from the store. Then alone
  -- it writes: the incident is verifying, with its version advanced if it was not so before.
  pub begin_inv :
      (ctx : Option Context) (c : BeginFencedVerificationCommand) (r : Registry S)
      (out : FencedVerificationResult)
      → result (begin_fenced_verification ctx c) r ≡ ok out
      → Begun c r (final (begin_fenced_verification ctx c) r) out
  begin_inv none c r out h = absurd (unfold begin_fenced_verification in ground arith)
  begin_inv (some ctx) c r out h =
      let (st, w, e) = begin_enters ctx c r out h in
      subst (λ o. Begun c r o.1 out) (sym e)
        (begin_locked_inv ctx c st r out w (subst (λ o. o.0 ≡ ok out) e h))

  -- What a call that completes a verification has found and done.
  pub record Completed (c : CompleteFencedVerificationCommand) (r t : Registry S)
      (out : FencedVerificationCompletionResult) : Type 0 where
    pub claim : Claim
    pub passed : Passes (complete_fence c) out.incident claim r
    pub was_verifying : out.incident.state ≡ verifying
    pub lifecycle : VerificationLifecycleStore S
    pub available : r.verification_lifecycle_store ≡ some lifecycle
    pub asked : Context
    pub after : S
    pub completed : lifecycle.complete asked c.verification r.store ≡ (ok out.verification, after)
    pub kept : t ≡ with_store after r

  complete_locked_inv :
      (ctx : Context) (c : CompleteFencedVerificationCommand) (st : VerificationLifecycleStore S)
      (r : Registry S) (out : FencedVerificationCompletionResult)
      → r.verification_lifecycle_store ≡ some st
      → result (complete_locked ctx c st) r ≡ ok out
      → Completed c r (final (complete_locked ctx c st) r) out
  unfolding complete_locked
  complete_locked_inv ctx c st r out w h = elim (fence_cases (complete_fence c) r) [
    | inl (e, f) ↦ absurd (ground arith)
    | inr (x, y, p, f) ↦ elim (Answer-cases (st.complete (inner ctx) c.verification r.store)) [
      | inl (e, s, z) ↦ absurd (ground arith)
      | inr (a, s, z) ↦ record {
        claim = y;
        passed = ground arith;
        was_verifying = ground arith;
        lifecycle = st;
        available = w;
        asked = inner ctx;
        after = s;
        completed = ground arith;
        kept = ground arith;
      }
    ]
  ]

  complete_enters :
      (ctx : Context) (c : CompleteFencedVerificationCommand) (r : Registry S)
      (out : FencedVerificationCompletionResult)
      → result (complete_fenced_verification (some ctx) c) r ≡ ok out
      → (st : VerificationLifecycleStore S) × (r.verification_lifecycle_store ≡ some st)
        × (complete_fenced_verification (some ctx) c r ≡ complete_locked ctx c st r)
  unfolding complete_fenced_verification
  complete_enters ctx c r out h = elim (Option-cases r.verification_lifecycle_store) [
    | inl n ↦ absurd (ground arith)
    | inr (st, w) ↦ (st, w, ground arith)
  ]

  -- A call that completes a verification has passed the fence, has found the incident verifying, and
  -- has had the store complete it; it leaves the registry as it was, but for the store's own state.
  pub complete_inv :
      (ctx : Option Context) (c : CompleteFencedVerificationCommand) (r : Registry S)
      (out : FencedVerificationCompletionResult)
      → result (complete_fenced_verification ctx c) r ≡ ok out
      → Completed c r (final (complete_fenced_verification ctx c) r) out
  complete_inv none c r out h = absurd (unfold complete_fenced_verification in ground arith)
  complete_inv (some ctx) c r out h =
      let (st, w, e) = complete_enters ctx c r out h in
      subst (λ o. Completed c r o.1 out) (sym e)
        (complete_locked_inv ctx c st r out w (subst (λ o. o.0 ≡ ok out) e h))

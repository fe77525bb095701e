-- ===== src/Incident/Resolution.antt =====
-- internal/incident over internal/remediation's `MemoryVerificationStore`: when `Resolve` succeeds.
use mathlib.Core.Path.{subst}
use sre_agent_gitops.Prelude.{
  Context, IsLive, String, ap, arith, false, inl, inner, inr, is_blank, next_u64, none, some, sym,
  text_eq, ◌+◌, ◌<◌, ◌∙◌, ◌≡◌,
}
use sre_agent_gitops.Prelude.Dict.{delete, insert}
use sre_agent_gitops.Prelude.Method.{final, ok, result}
use sre_agent_gitops.Incident.{
  Claim, Incident, ResolveCommand, no_binding, resolved, validate_resolve, verifying,
}
use sre_agent_gitops.Incident.Stores.{RecoveryEvidenceStore, VerificationLifecycleStore}
use sre_agent_gitops.Incident.Registry.{Registry, claim_of, incident_of}
use sre_agent_gitops.Incident.Fence.{
  VerificationFence, as_resolved, resolve, resolve_evidence, resolve_fence, resolve_locked,
}
use sre_agent_gitops.Incident.Passing.{Passes, fence-passed, fence_cases}
use sre_agent_gitops.Remediation.Verification.Evidence.{
  Every, Holds, Recovers, Undisputed, require_recovered_complete, require_recovered_sound,
}
use sre_agent_gitops.Incident.Calls.{HasEvidence, evidence_cases, with_store}
use sre_agent_gitops.Remediation.Verification.Store.{
  MemoryVerificationStore, begin, complete, list_pending, list_recovered, require_recovered,
}

-- `MemoryVerificationStore` as the store behind the registry
abbrev pub memory_lifecycle : (String → String) → VerificationLifecycleStore MemoryVerificationStore
memory_lifecycle digest = record {
  begin = begin digest;
  complete = complete;
  evidence = record { require_recovered = require_recovered };
  list_pending = some (λ ctx. list_pending (some ctx));
  list_recovered = some (λ ctx. list_recovered (some ctx));
}

-- What the write of a resolution leaves.
abbrev pub with_resolved : {S : Type 0} → Incident → Registry S → Registry S
with_resolved y r = record r {
  incidents_by_id = insert y.id y r.incidents_by_id;
  active_by_key = delete y.idempotency_key r.active_by_key;
}

module _ {S : Type 0} where
  -- What a resolution has found and done.
  pub record Resolved (ctx : Context) (c : ResolveCommand) (r t : Registry S) (y : Incident)
      : Type 0 where
    pub current : Incident
    pub claim : Claim
    pub after : S
    pub evidence : HasEvidence ctx c r after
    pub passed : Passes (resolve_fence c) current claim r
    pub was_verifying : current.state ≡ verifying
    pub moved : y ≡ as_resolved current c.verification_id
    pub written : t ≡ with_resolved y (with_store after r)

  locked_inv :
      (ctx : Context) (c : ResolveCommand) (r : Registry S) (y : Incident)
      → result (resolve_locked ctx c) r ≡ ok y
      → (x : Incident) × (g : Claim) × Passes (resolve_fence c) x g r
        × (x.state ≡ verifying)
        × (y ≡ as_resolved x c.verification_id)
        × (final (resolve_locked ctx c) r ≡ with_resolved y r)
  unfolding resolve_locked
  locked_inv ctx c r y h = elim (fence_cases (resolve_fence c) r) [
    | inl (e, f) ↦ absurd (ground arith)
    | inr (x, g, p, f) ↦ (x, g, p, ground arith, ground arith, ground arith)
  ]

  through_store :
      (f : VerificationFence) (x : Incident) (g : Claim) (s : S) (r : Registry S)
      → Passes f x g (with_store s r)
      → Passes f x g r
  through_store f x g s r p = record {
    found = p.found;
    current = p.current;
    claimed = p.claimed;
    holder = p.holder;
    claimed_version = p.claimed_version;
    audited = p.audited;
    in_time = p.in_time;
  }

  pub resolve_inv :
      (ctx : Context) (c : ResolveCommand) (r : Registry S) (y : Incident)
      → result (resolve ctx c) r ≡ ok y
      → Resolved ctx c r (final (resolve ctx c) r) y
  unfolding resolve
  resolve_inv ctx c r y h = elim (evidence_cases ctx c r) [
    | inl (e, s, f) ↦ absurd (ground arith)
    | inr (s, w, f) ↦
        let (x, g, p, v, m, t) = locked_inv ctx c (with_store s r) y (ground arith) in
        record {
          current = x;
          claim = g;
          after = s;
          evidence = w;
          passed = through_store (resolve_fence c) x g s r p;
          was_verifying = v;
          moved = m;
          written = ground arith;
        }
  ]

valid_ids :
    (c : ResolveCommand)
    → validate_resolve c ≡ none
    → (is_blank c.verification_id ≡ false) × (is_blank c.incident_id ≡ false)
unfolding validate_resolve
valid_ids c h = ground arith

module _ (digest : String → String) where
  -- `Resolve` over the memory store succeeds only on evidence: a stored verification with the id of
  -- the command, of the incident of the command, has the status RECOVERED; the incident was
  -- VERIFYING at the version of the command, and the caller held its claim, unexpired. It returns the
  -- incident RESOLVED by that verification under the next version, without a binding.
  pub resolve-Recovers :
      (ctx : Context) (c : ResolveCommand) (r : Registry MemoryVerificationStore) (y : Incident)
      → r.recovery_evidence_store ≡ some (memory_lifecycle digest).evidence
      → result (resolve ctx c) r ≡ ok y
      → Holds (Recovers c.verification_id c.incident_id) r.store.verifications
        × ((x : Incident) × (g : Claim) × (incident_of c.incident_id r ≡ some x)
            × (claim_of c.incident_id r ≡ some g)
            × (x.state ≡ verifying)
            × (x.version ≡ c.expected_version)
            × (g.holder_id ≡ c.holder_id)
            × (c.now < g.expires_at)
            × (y ≡ record x {
              state = resolved;
              version = next_u64 c.expected_version;
              resolution_verification_id = c.verification_id;
              approval_binding = no_binding;
            }))
  resolve-Recovers ctx c r y a h =
      let q = resolve_inv ctx c r y h in
      let same : q.evidence.evidence_store ≡ (memory_lifecycle digest).evidence =
        cc (sym q.evidence.available ∙ a) in
      (
        require_recovered_sound (inner ctx) c.verification_id c.incident_id r.store (
            ap (λ o. o.0)
              (subst
                (λ (st : RecoveryEvidenceStore MemoryVerificationStore).
                  st.require_recovered (inner ctx) c.verification_id c.incident_id r.store
                  ≡ (ok tt, q.after))
                same q.evidence.recovered)),
        (
          q.current,
          q.claim,
          q.passed.found,
          q.passed.claimed,
          q.was_verifying,
          q.passed.current,
          q.passed.holder,
          q.passed.in_time,
          rw (← q.passed.current) q.moved,
        ),
      )

  -- And it does succeed: with the evidence stored and undisputed, for a caller that passes the fence
  -- while the incident is VERIFYING, if the command is valid and the context is not cancelled.
  pub resolve_complete :
      (ctx : Context) (c : ResolveCommand) (r : Registry MemoryVerificationStore) (x : Incident)
      (g : Claim)
      → r.recovery_evidence_store ≡ some (memory_lifecycle digest).evidence
      → IsLive ctx
      → validate_resolve c ≡ none
      → Holds (Recovers c.verification_id c.incident_id) r.store.verifications
      → Every (Undisputed c.verification_id c.incident_id) r.store.verifications
      → Passes (resolve_fence c) x g r
      → x.state ≡ verifying
      → resolve ctx c r
        ≡ (ok (as_resolved x c.verification_id), with_resolved (as_resolved x c.verification_id) r)
  unfolding resolve resolve_evidence resolve_locked
  resolve_complete ctx c r x g a l v h u p s = ground (
    arith,
    l 0,
    l 1,
    require_recovered_complete (inner ctx) c.verification_id c.incident_id r.store (λ k. l (k + 3))
        (valid_ids c v).0 (valid_ids c v).1 h u,
    fence-passed (resolve_fence c) x g r p,
  )

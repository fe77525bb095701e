-- ===== src/Agent/Worker/Ensuring.antt =====
-- agent_verification_worker.go: what an incident that is resolved rests on.
use mathlib.Core.Path.{subst}
use sre_agent_gitops.Prelude.{
  Context, Sha256, String, ap, refl, some, ◌≡◌, sym, arith, ◌∙◌, text_eq, inner,
}
use sre_agent_gitops.Prelude.Method.{
  Method, Result, err, final, ok, result, map_error, map_result, continue, ◌>>=◌,
}
use sre_agent_gitops.Incident.{Incident, ResolveCommand, resolved}
use sre_agent_gitops.Incident.Registry.{Registry, retire, put_incident, put_claim}
use sre_agent_gitops.Agent.Worker.Running.{Calls}
use sre_agent_gitops.Incident.Fence.{resolve}
use sre_agent_gitops.Incident.Invariant.{IsSound}
use sre_agent_gitops.Incident.Calls.{with_store}
use sre_agent_gitops.Incident.Resolution.{memory_lifecycle, resolve_inv, resolve-Recovers}
use sre_agent_gitops.Incident.Steps.{
  Change, call-Change, stores, admits, claims, moves, rewrites, step,
}
use sre_agent_gitops.Incident.Histories.{Reach, here, next, Reach-IsSound, IsSound-Keyed}
use sre_agent_gitops.Remediation.Verification.{verification_status_eq}
use sre_agent_gitops.Incident.Stores.{RecoveryEvidenceStore}
use sre_agent_gitops.Remediation.Verification.Evidence.{Holds, Recovers}
use sre_agent_gitops.Remediation.Verification.Store.{MemoryVerificationStore, require_recovered}

module _ {S : Type 0} (sha : Sha256) where
  retire_evidence :
      (y : Incident) (r : Registry S)
      → (retire y r).recovery_evidence_store ≡ r.recovery_evidence_store
  retire_evidence y r = ground arith

  change_evidence :
      (r t : Registry S) → Change r t → t.recovery_evidence_store ≡ r.recovery_evidence_store
  change_evidence r t (stores s e) = ap (λ (x : Registry S). x.recovery_evidence_store) e
  change_evidence r t (admits x d n f e) = ap (λ (x : Registry S). x.recovery_evidence_store) e
  change_evidence r t (claims s id x h n l f m e) =
      ap (λ (x : Registry S). x.recovery_evidence_store) e ∙ (unfold put_claim in refl)
  change_evidence r t (moves s id x y f m e) =
      ap (λ (x : Registry S). x.recovery_evidence_store) e
      ∙ retire_evidence y (put_incident y (with_store s r))
  change_evidence r t (rewrites s id x f e) = ap (λ (x : Registry S). x.recovery_evidence_store) e

  -- No call changes where the registry asks for evidence.
  pub Reach-evidence :
      (r t : Registry S) → Reach sha r t → t.recovery_evidence_store ≡ r.recovery_evidence_store
  Reach-evidence r t here = refl
  Reach-evidence r t (next {s = s} call p f e) =
      rw e (change_evidence s (step sha call s) (call-Change sha call s f) ∙ Reach-evidence r s p)

require_recovered_keeps :
    (ctx : Context) (id incident_id : String) (s : MemoryVerificationStore)
    → final (require_recovered ctx id incident_id) s ≡ s
unfolding require_recovered
require_recovered_keeps ctx id incident_id s = ground arith

module _ (digest : String → String) (sha : Sha256) where
  -- a sound registry that asks the memory store for evidence
  abbrev pub Wired : Registry MemoryVerificationStore → Type 0
  Wired r = IsSound r × (r.recovery_evidence_store ≡ some (memory_lifecycle digest).evidence)

  pub Reach-Wired : (r t : Registry MemoryVerificationStore) → Reach sha r t → Wired r → Wired t
  Reach-Wired r t p (h, e) = (Reach-IsSound sha r t p h, Reach-evidence sha r t p ∙ e)

  -- The incident, if resolved, is so by a stored verification of it that recovered.
  abbrev pub OnEvidence : Incident → Registry MemoryVerificationStore → Type 0
  OnEvidence x t =
      x.state ≡ resolved → Holds (Recovers x.resolution_verification_id x.id) t.store.verifications

  resolve_store :
      (ctx : Context) (c : ResolveCommand) (r : Registry MemoryVerificationStore) (y : Incident)
      → r.recovery_evidence_store ≡ some (memory_lifecycle digest).evidence
      → result (resolve ctx c) r ≡ ok y
      → (final (resolve ctx c) r).store ≡ r.store
  resolve_store ctx c r y a h =
      let q = resolve_inv ctx c r y h in
      let same : q.evidence.evidence_store ≡ (memory_lifecycle digest).evidence =
        cc (sym q.evidence.available ∙ a) in
      let answered : (require_recovered (inner ctx) c.verification_id c.incident_id r.store
          ≡ (ok tt, q.after)) =
        subst
          (λ (st : RecoveryEvidenceStore MemoryVerificationStore).
            st.require_recovered (inner ctx) c.verification_id c.incident_id r.store
            ≡ (ok tt, q.after))
          same q.evidence.recovered in
      ap (λ (s : Registry MemoryVerificationStore). s.store) q.written
      ∙ sym (ap (λ o. o.1) answered)
      ∙ require_recovered_keeps (inner ctx) c.verification_id c.incident_id r.store

  pub resolve-OnEvidence :
      (ctx : Context) (c : ResolveCommand) (r : Registry MemoryVerificationStore) (y : Incident)
      → Wired r
      → result (resolve ctx c) r ≡ ok y
      → OnEvidence y (final (resolve ctx c) r)
  resolve-OnEvidence ctx c r y (sound, wired) h s =
      let (holds, (x, g, f, gf, v, ver, holder, time, outcome)) =
        resolve-Recovers digest ctx c r y wired h in
      let same : y.resolution_verification_id ≡ c.verification_id =
        ap (λ (z : Incident). z.resolution_verification_id) outcome in
      let here : y.id ≡ c.incident_id =
        ap (λ (z : Incident). z.id) outcome ∙ IsSound-Keyed sha r sound c.incident_id x f in
      subst
        (λ (s : MemoryVerificationStore).
          Holds (Recovers y.resolution_verification_id y.id) s.verifications)
        (sym (resolve_store ctx c r y wired h)) (rw (same, here) holds)

  pub record Ensures {E A : Type 0} (m : Method (Registry MemoryVerificationStore) E A)
      (P : A → Registry MemoryVerificationStore → Type 0) : Type 0 where
    pub run :
        (r : Registry MemoryVerificationStore) (a : A)
        → Wired r
        → result m r ≡ ok a
        → P a (final m r)

  pub Ensures-bind :
      {E A B : Type 0} (m : Method (Registry MemoryVerificationStore) E A)
      (f : A → Method (Registry MemoryVerificationStore) E B)
      (Q : A → Registry MemoryVerificationStore → Type 0)
      (P : B → Registry MemoryVerificationStore → Type 0)
      → Calls sha m
      → Ensures m Q
      → ((a : A) (r : Registry MemoryVerificationStore) (b : B)
          → Wired r
          → Q a r
          → result (f a) r ≡ ok b
          → P b (final (f a) r))
      → Ensures (m >>= f) P
  Ensures-bind {E} {A} {B} m f Q P calls first second = record {
    run = λ r b w h.
        go r b (m r) (Reach-Wired r (final m r) (calls.run r r here) w) (λ a e. first.run r a w e)
          h;
  }
    where
      go :
          (r : Registry MemoryVerificationStore) (b : B)
          (o : Result E A × Registry MemoryVerificationStore)
          → Wired o.1
          → ((a : A) → o.0 ≡ ok a → Q a o.1)
          → (continue o f).0 ≡ ok b
          → P b (continue o f).1
      go r b (ok a, s) w q h = second a s b w (q a refl) h
      go r b (err e, s) w q h = absurd (ground arith)

  pub Ensures-map_error :
      {E F A : Type 0} (f : E → F) (m : Method (Registry MemoryVerificationStore) E A)
      (P : A → Registry MemoryVerificationStore → Type 0)
      → Ensures m P
      → Ensures (map_error f m) P
  Ensures-map_error {E} {F} {A} f m P h = record {
    run = λ r a w e. go (m r) a (λ b d. h.run r b w d) e;
  }
    where
      go :
          (o : Result E A × Registry MemoryVerificationStore) (a : A)
          → ((b : A) → o.0 ≡ ok b → P b o.1)
          → (map_result f o).0 ≡ ok a
          → P a (map_result f o).1
      go (ok b, s) a q e = q a (ground arith)
      go (err d, s) a q e = absurd (ground arith)

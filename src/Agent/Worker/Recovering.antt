-- ===== src/Agent/Worker/Recovering.antt =====
-- agent_verification_worker.go over the registry and the verifications in memory: on what the worker
-- resolves an incident.
use mathlib.Core.Path.{subst}
use sre_agent_gitops.Prelude.{
  Context, Option, none, refl, some, ◌≡◌, sym, arith, text_eq, Bool-cases, inl, inr, ◌!=◌, Sha256,
}
use sre_agent_gitops.Prelude.Method.{
  Method, Result, err, ok, result, map_error, fail_on, ◌>>=◌, ◌>>◌, returns,
}
use sre_agent_gitops.Incident.{Error, Incident, ResolveCommand, resolved, verifying}
use sre_agent_gitops.Incident.Registry.{Registry}
use sre_agent_gitops.Agent.Worker.Running.{
  Calls-map_error, Calls-claim_pending, Calls-claim_recovered, Calls-complete, Calls-lift,
  Calls-resolve, Calls-resolve_recovered,
}
use sre_agent_gitops.Agent.Worker.{
  Surroundings, WorkerAgent, WorkerError, resolve_claimed, resolve_recovered, settle,
  complete_claimed, execute_claimed, verify_pending, registry_worker, run_once, run_checked,
  verify_checked, after_recovered, check_claiming, ItemResult, beside, String,
}
use sre_agent_gitops.Incident.Fence.{resolve}
use sre_agent_gitops.Incident.Invariant.{IsSound}
use sre_agent_gitops.Incident.Calls.{complete_inv}
use sre_agent_gitops.Incident.Resolution.{memory_lifecycle}
use sre_agent_gitops.Incident.Histories.{here}
use sre_agent_gitops.Agent.Config.{AgentConfig}
use sre_agent_gitops.Incident.Scheduler.{VerificationClaim}
use sre_agent_gitops.Agent.Execution.{VerificationExecutionResult}
use sre_agent_gitops.Remediation.Verification.{recovered, verification_status_eq}
use sre_agent_gitops.Incident.Lifecycle.{
  FencedVerificationCompletionResult, CompleteFencedVerificationCommand,
  complete_fenced_verification,
}
use sre_agent_gitops.Remediation.Verification.Evidence.{Holds, Recovers}
use sre_agent_gitops.Remediation.Verification.Store.{MemoryVerificationStore}
use sre_agent_gitops.Agent.Worker.Ensuring.{
  Wired, Reach-Wired, OnEvidence, resolve-OnEvidence, Ensures, Ensures-bind, Ensures-map_error,
}

module _ (digest : String → String) (sha : Sha256) where
  abbrev EachOnEvidence : Option Incident → Registry MemoryVerificationStore → Type 0
  EachOnEvidence none t = Unit {0}
  EachOnEvidence (some x) t = OnEvidence digest sha x t

  module _ (config : AgentConfig) (around : Surroundings) where
    Ensures-resolve :
        (ctx : Context) (c : ResolveCommand)
        → Ensures digest sha (resolve ctx c) (OnEvidence digest sha)
    Ensures-resolve ctx c = record { run = λ r y w h. resolve-OnEvidence digest sha ctx c r y w h }

    same_result :
        (x y : Option Incident) (r : Registry MemoryVerificationStore)
        → EachOnEvidence x r
        → result (returns {E = WorkerError} x) r ≡ ok y
        → EachOnEvidence y r
    same_result x y r q h = subst (λ o. EachOnEvidence o r) (ground arith) q

    Ensures-returns :
        (x : Option Incident)
        → ((r : Registry MemoryVerificationStore) → EachOnEvidence x r)
        → Ensures digest sha (returns {E = WorkerError} x) EachOnEvidence
    Ensures-returns x q = record { run = λ r y w h. same_result x y r (q r) h }

    -- a resolution whose failure is the worker's
    Ensures-resolving :
        (f : Error → WorkerError) (ctx : Context) (c : ResolveCommand)
        → Ensures digest sha (map_error f (resolve ctx c) >>= λ x. returns (some x)) EachOnEvidence
    Ensures-resolving f ctx c =
        Ensures-bind digest sha (map_error f (resolve ctx c)) (λ x. returns (some x))
          (OnEvidence digest sha) EachOnEvidence
          (Calls-map_error sha f (resolve ctx c) (Calls-resolve sha ctx c))
          (Ensures-map_error digest sha f (resolve ctx c) (OnEvidence digest sha)
            (Ensures-resolve ctx c))
          (λ x r y w q h. same_result (some x) y r q h)

    Ensures-resolve_claimed :
        (o : Option VerificationClaim)
        → Ensures digest sha (resolve_claimed registry_worker config around o) EachOnEvidence
    Ensures-resolve_claimed none = Ensures-returns none (λ r. tt)
    Ensures-resolve_claimed (some work) = Ensures-resolving _ _ _

    Ensures-any :
        {E A : Type 0} (m : Method (Registry MemoryVerificationStore) E A)
        → Ensures digest sha m (λ a r. Unit {0})
    Ensures-any m = record { run = λ r a w h. tt }

    Ensures-resolve_recovered :
        Ensures digest sha (resolve_recovered registry_worker config around) EachOnEvidence
    unfolding resolve_recovered
    Ensures-resolve_recovered =
        Ensures-bind digest sha _ _ (λ a r. Unit {0}) EachOnEvidence
          (Calls-map_error sha _ _ (Calls-claim_recovered sha _ _)) (Ensures-any _)
          (λ o r y w q h. (Ensures-resolve_claimed o).run r y w h)

    Ensures-settle :
        (work : VerificationClaim) (completion : FencedVerificationCompletionResult)
        → completion.incident.state ≡ verifying
        → Ensures digest sha (settle registry_worker config around work completion) EachOnEvidence
    Ensures-settle work completion v =
        elim (Bool-cases (completion.verification.status != recovered)) [
          | inl e ↦ rw e (Ensures-returns (some completion.incident) (λ r s. absurd (ground arith)))
          | inr e ↦ rw e (Ensures-resolving _ _ _)
        ]

    Ensures-complete :
        (ctx : Option Context) (c : CompleteFencedVerificationCommand)
        → Ensures digest sha
            (complete_fenced_verification ctx c)
            (λ out r. out.incident.state ≡ verifying)
    Ensures-complete ctx c = record {
      run = λ r out w h. (complete_inv ctx c r out h).was_verifying;
    }

    Ensures-then :
        (e : Option WorkerError)
        (m : Method (Registry MemoryVerificationStore) WorkerError (Option Incident))
        → Ensures digest sha m EachOnEvidence
        → Ensures digest sha (fail_on e >> m) EachOnEvidence
    Ensures-then none m h = record { run = λ r a w e. h.run r a w e }
    Ensures-then (some e) m h = record { run = λ r a w d. absurd (ground arith) }

    Ensures-complete_claimed :
        (work : VerificationClaim) (answer : VerificationExecutionResult)
        → Ensures digest sha
            (complete_claimed registry_worker config around work answer)
            EachOnEvidence
    Ensures-complete_claimed work answer = Ensures-then _ _ (
        Ensures-bind digest sha _ _ (λ out r. out.incident.state ≡ verifying) EachOnEvidence
          (Calls-map_error sha _ _ (Calls-complete sha _ _))
          (Ensures-map_error digest sha _ _ (λ out r. out.incident.state ≡ verifying)
            (Ensures-complete _ _))
          (λ out r y w v h. (Ensures-settle work out v).run r y w h))

    Ensures-execute_claimed :
        (o : Option VerificationClaim)
        → Ensures digest sha (execute_claimed registry_worker config around o) EachOnEvidence
    Ensures-execute_claimed none = Ensures-returns none (λ r. tt)
    Ensures-execute_claimed (some work) = Ensures-then _ _ (
        Ensures-bind digest sha _ _ (λ a r. Unit {0}) EachOnEvidence
          (Calls-map_error sha _ _ (Calls-lift sha (around.verify work.verification)))
          (Ensures-any _) (λ answer r y w q h. (Ensures-complete_claimed work answer).run r y w h))

    Ensures-verify_pending :
        Ensures digest sha (verify_pending registry_worker config around) EachOnEvidence
    unfolding verify_pending
    Ensures-verify_pending =
        Ensures-bind digest sha _ _ (λ a r. Unit {0}) EachOnEvidence
          (Calls-map_error sha _ _ (Calls-claim_pending sha _ _)) (Ensures-any _)
          (λ o r y w q h. (Ensures-execute_claimed o).run r y w h)

  module _ (agent : WorkerAgent (Registry MemoryVerificationStore)) (around : Surroundings) where
    -- what an item returns, with what it leaves
    abbrev ItemOnEvidence : ItemResult × Registry MemoryVerificationStore → Type 0
    ItemOnEvidence out = EachOnEvidence out.0.worked out.1

    verify_checked-OnEvidence :
        (invalid errors : Option WorkerError) (r : Registry MemoryVerificationStore)
        → Wired digest sha r
        → ItemOnEvidence (verify_checked agent around registry_worker invalid errors r)
    verify_checked-OnEvidence (some e) none r w = tt
    verify_checked-OnEvidence (some e) (some d) r w = tt
    verify_checked-OnEvidence none errors r w =
        go (verify_pending registry_worker agent.config around r)
          (λ y h. (Ensures-verify_pending agent.config around).run r y w h)
      where
        go :
            (o : Result WorkerError (Option Incident) × Registry MemoryVerificationStore)
            → ((y : Option Incident) → o.0 ≡ ok y → EachOnEvidence y o.1)
            → EachOnEvidence (beside errors o.0).worked o.1
        go (ok y, s) q = q y refl
        go (err e, s) q = tt

    run_checked-OnEvidence :
        (invalid : Option WorkerError) (r : Registry MemoryVerificationStore)
        → Wired digest sha r
        → ItemOnEvidence (run_checked agent around (some registry_worker) invalid r)
    run_checked-OnEvidence (some e) r w = tt
    run_checked-OnEvidence none r w =
        go (resolve_recovered registry_worker agent.config around r)
          (Reach-Wired digest sha r _
            ((Calls-resolve_recovered sha agent.config around).run r r here) w)
          (λ y h. (Ensures-resolve_recovered agent.config around).run r y w h)
      where
        go :
            (o : Result WorkerError (Option Incident) × Registry MemoryVerificationStore)
            → Wired digest sha o.1
            → ((y : Option Incident) → o.0 ≡ ok y → EachOnEvidence y o.1)
            → ItemOnEvidence (after_recovered agent around registry_worker o)
        go (ok (some y), s) w q = q (some y) refl
        go (ok none, s) w q = verify_checked-OnEvidence _ none s w
        go (err e, s) w q = verify_checked-OnEvidence _ (some e) s w

    -- Over the registry and the verifications in memory, from a registry whose maps agree: an
    -- incident that an item of work returns resolved is resolved by a verification that is stored, is
    -- of this incident and has the status RECOVERED, whatever the executor answers and whatever else
    -- fails.
    pub run_once-OnEvidence :
        (r : Registry MemoryVerificationStore) (x : Incident)
        → agent.verification_worker ≡ some registry_worker
        → IsSound r
        → r.recovery_evidence_store ≡ some (memory_lifecycle digest).evidence
        → (run_once agent around r).0.worked ≡ some x
        → x.state ≡ resolved
        → Holds
            (Recovers x.resolution_verification_id x.id)
            (run_once agent around r).1.store.verifications
    run_once-OnEvidence r x wired sound evidence h =
        subst (λ o. EachOnEvidence o (run_once agent around r).1) h
          (unfold run_once in
            subst
              (λ o.
                ItemOnEvidence
                  (run_checked agent around o (check_claiming agent.has_clock agent.config) r))
              (sym wired)
              (run_checked-OnEvidence (check_claiming agent.has_clock agent.config) r
                (sound, evidence)))

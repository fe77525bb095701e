-- ===== src/Agent/Worker/Running.antt =====
-- agent_verification_worker.go over the registry in memory: methods of the worker that reach the registry
-- by its calls only.
use sre_agent_gitops.Prelude.{Context, Option, Sha256, none, refl, some, ◌≡◌}
use sre_agent_gitops.Agent.Worker.{
  resolve_claimed, lift, returns, Surroundings, registry_worker, resolve_recovered,
}
use sre_agent_gitops.Remediation.Verification.{verification_status_eq}
use sre_agent_gitops.Prelude.Method.{
  Method, Result, err, final, map_error, ok, ◌>>=◌, fail_on, map_result, continue, ◌>>◌,
}
use sre_agent_gitops.Incident.{ResolveCommand}
use sre_agent_gitops.Incident.Registry.{Registry}
use sre_agent_gitops.Incident.Fence.{resolve, resolve_evidence, resolve_locked}
use sre_agent_gitops.Incident.Lifecycle.{
  CompleteFencedVerificationCommand, complete_fenced_verification,
}
use sre_agent_gitops.Incident.Scheduler.{
  ScheduleCommand, VerificationClaim, claim_pending_verification,
  claim_recovered_verification_resolution,
}
use sre_agent_gitops.Incident.Steps.{
  IsFresh, Call, step, asks_evidence, resolves, completes, schedules_pending, schedules_recovered,
}
use sre_agent_gitops.Incident.Histories.{Reach, next}
use sre_agent_gitops.Agent.Config.{AgentConfig}

module _ {S : Type 0} (sha : Sha256) where
  -- what is done only by the registry's calls
  pub record Calls {E A : Type 0} (m : Method (Registry S) E A) : Type 0 where
    pub run : (r t : Registry S) → Reach sha r t → Reach sha r (final m t)

  pub Calls-bind :
      {E A B : Type 0} (m : Method (Registry S) E A) (f : A → Method (Registry S) E B)
      → Calls m
      → ((a : A) → Calls (f a))
      → Calls (m >>= f)
  Calls-bind {E} {A} m f h k = record { run = λ r t p. go r (m t) (h.run r t p) }
    where
      go :
          (r : Registry S) (o : Result E A × Registry S)
          → Reach sha r o.1
          → Reach sha r (continue o f).1
      go r (ok a, s) q = (k a).run r s q
      go r (err e, s) q = q

  pub Calls-map_error :
      {E F A : Type 0} (f : E → F) (m : Method (Registry S) E A) → Calls m → Calls (map_error f m)
  Calls-map_error {E} {F} {A} f m h = record { run = λ r t p. go r (m t) (h.run r t p) }
    where
      go :
          (r : Registry S) (o : Result E A × Registry S)
          → Reach sha r o.1
          → Reach sha r (map_result f o).1
      go r (ok a, s) q = q
      go r (err e, s) q = q

  pub Calls-lift : {E A : Type 0} (o : Result E A) → Calls (lift o)
  Calls-lift o = record { run = λ r t p. p }

  Calls-returns : {E A : Type 0} (a : A) → Calls {E = E} (returns a)
  Calls-returns a = record { run = λ r t p. p }

  pub Calls-then :
      {E A : Type 0} (e : Option E) (m : Method (Registry S) E A) → Calls m → Calls (fail_on e >> m)
  Calls-then none m h = record { run = λ r t p. h.run r t p }
  Calls-then (some e) m h = record { run = λ r t p. p }

  called :
      {E A : Type 0} (call : Call) (m : Method (Registry S) E A)
      → ((t : Registry S) → IsFresh sha call t)
      → ((t : Registry S) → final m t ≡ step sha call t)
      → Calls m
  called call m f e = record { run = λ r t p. next call p (f t) (e t) }

  pub Calls-resolve : (ctx : Context) (c : ResolveCommand) → Calls (resolve ctx c)
  unfolding resolve step
  Calls-resolve ctx c =
      Calls-bind (resolve_evidence ctx c) (λ _. resolve_locked ctx c)
        (called (asks_evidence ctx c) (resolve_evidence ctx c) (λ t. tt) (λ t. refl))
        (λ _. called (resolves ctx c) (resolve_locked ctx c) (λ t. tt) (λ t. refl))

  pub Calls-claim_pending :
      (ctx : Option Context) (c : ScheduleCommand) → Calls (claim_pending_verification ctx c)
  unfolding step
  Calls-claim_pending ctx c = called (schedules_pending ctx c) _ (λ t. tt) (λ t. refl)

  pub Calls-claim_recovered :
      (ctx : Option Context) (c : ScheduleCommand)
      → Calls (claim_recovered_verification_resolution ctx c)
  unfolding step
  Calls-claim_recovered ctx c = called (schedules_recovered ctx c) _ (λ t. tt) (λ t. refl)

  pub Calls-complete :
      (ctx : Option Context) (c : CompleteFencedVerificationCommand)
      → Calls (complete_fenced_verification ctx c)
  unfolding step
  Calls-complete ctx c = called (completes ctx c) _ (λ t. tt) (λ t. refl)

  module _ (config : AgentConfig) (around : Surroundings) where
    Calls-resolve_claimed :
        (o : Option VerificationClaim) → Calls (resolve_claimed registry_worker config around o)
    Calls-resolve_claimed none = Calls-returns none
    Calls-resolve_claimed (some work) =
        Calls-bind _ _ (Calls-map_error _ _ (Calls-resolve _ _)) (λ x. Calls-returns (some x))

    pub Calls-resolve_recovered : Calls (resolve_recovered registry_worker config around)
    unfolding resolve_recovered
    Calls-resolve_recovered =
        Calls-bind _ _ (Calls-map_error _ _ (Calls-claim_recovered _ _)) Calls-resolve_claimed

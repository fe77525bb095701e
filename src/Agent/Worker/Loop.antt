-- ===== src/Agent/Worker/Loop.antt =====
-- agent_verification_worker.go: the worker's loop, which drains a bounded number of items, reports
-- each failure and waits. Its time since the start of a round, which only the log has, is not modelled.
use sre_agent_gitops.Prelude.{
  ℤ, next_i64, Bool, ContextError, canceled, deadline_exceeded, Duration, List, Option, [], ◌++◌,
  ◌∷◌, false, int_leb, none, pos, some, true, zero, suc, ℕ, ◌+◌, ◌||◌,
}
use sre_agent_gitops.Incident.{Error, context, wraps}
use sre_agent_gitops.Remediation.Keys.{Error as RemediationError}
use sre_agent_gitops.Agent.Execution.{ExecutionError, interrupted}
use sre_agent_gitops.Agent.Worker.{
  Cause, of_incident, of_deadline, of_execution, of_result, WorkerError, configuration, failure,
  joined, combine_errors, WorkerAgent, Surroundings, run_once,
}
use sre_agent_gitops.Agent.Worker.Backoff.{backoff_delay}

-- Each error that is not joined from others, in order.
unfoldable pub visit_failures : WorkerError → List WorkerError
visit_failures (joined first second) = visit_failures first ++ visit_failures second
visit_failures e = e ∷ []

abbrev pub visit_all : Option WorkerError → List WorkerError
visit_all none = []
visit_all (some e) = visit_failures e

abbrev context_error_eqb : ContextError → ContextError → Bool
context_error_eqb canceled canceled = true
context_error_eqb deadline_exceeded deadline_exceeded = true
context_error_eqb _ _ = false

abbrev remediation_is_context : ContextError → RemediationError → Bool
remediation_is_context c (RemediationError.context e) = context_error_eqb c e
remediation_is_context c _ = false

abbrev incident_is_context : ContextError → Error → Bool
incident_is_context c (context e) = context_error_eqb c e
incident_is_context c (wraps text e) = remediation_is_context c e
incident_is_context c _ = false

abbrev execution_is_context : ContextError → ExecutionError → Bool
execution_is_context c (interrupted e) = context_error_eqb c e
execution_is_context c _ = false

abbrev cause_is_context : ContextError → Cause → Bool
cause_is_context c (of_incident text e) = incident_is_context c e
cause_is_context c (of_deadline text e) = context_error_eqb c e
cause_is_context c (of_execution text e) = execution_is_context c e
cause_is_context c (of_result text e) = false

-- `errors.Is(err, ctxErr)`
unfoldable pub is_context_error : ContextError → WorkerError → Bool
is_context_error c (configuration text) = false
is_context_error c (failure f) = cause_is_context c f.cause
is_context_error c (joined first second) = is_context_error c first || is_context_error c second

-- `err == nil || errors.Is(err, ctxErr)` once the context has ended
abbrev pub stops : Option ContextError → Option WorkerError → Bool
stops none e = false
stops (some c) none = true
stops (some c) (some e) = is_context_error c e

-- What the loop over the items comes to: the worker returns, or the errors of the items.
pub data Drained : Type 0 where
  stopped : Drained
  drained : Option WorkerError → Drained

-- `verificationWorkerMaxDrainItems`
abbrev pub max_drain_items : ℕ
max_drain_items = 8

-- What a round comes to: the worker returns, or it reports these errors, counts this many rounds in
-- a row with an error, and waits this long.
pub data Round : Type 0 where
  returned : Round
  waited : List WorkerError → ℤ → Duration → Round

module _ {R : Type 0} (agent : WorkerAgent R) where
  -- The loop over the items, of which so many may be left, the first of them numbered.
  unfoldable pub drain : ℕ → ℕ → (ℕ → Surroundings) → Option WorkerError → R → Drained × R
  drain zero item around errors r = (drained errors, r)
  drain (suc left) item around errors r =
      let out = run_once agent (around item) r in
      elim (stops (around item).ended out.0.error) [
        | true ↦ (stopped, out.1)
        | false ↦ elim out.0.worked [
          | none ↦ (drained (combine_errors errors out.0.error), out.1)
          | some _ ↦ drain left (item + 1) around (combine_errors errors out.0.error) out.1
        ]
      ]

  abbrev pub failures_after : ℤ → Option WorkerError → ℤ
  failures_after failures none = pos 0
  failures_after failures (some e) = next_i64 failures

  -- what follows the loop over the items
  abbrev pub settled : Option ContextError → ℤ → Drained × R → Round × R
  settled ended failures (stopped, r) = (returned, r)
  settled (some c) failures (drained errors, r) = (returned, r)
  settled none failures (drained errors, r) = (
    waited (visit_all errors) (failures_after failures errors)
        (backoff_delay agent.config.poll_interval (failures_after failures errors)),
    r,
  )

  -- The body of the loop, with what the context says behind the loop over the items.
  unfoldable pub round : (ℕ → Surroundings) → Option ContextError → ℤ → R → Round × R
  round around ended failures r = settled ended failures (drain max_drain_items 0 around none r)

-- What the rounds get from without: what each item of a round gets, what the context says behind the
-- items and whether the wait behind a round is broken off.
pub record Rounds : Type 0 where
  pub around : ℕ → ℕ → Surroundings
  pub ended : ℕ → Option ContextError
  pub interrupted_wait : ℕ → Bool

-- A round that was waited for, and what it left.
pub record Waited : Type 0 where
  pub logged : List WorkerError
  pub failures : ℤ
  pub delay : Duration

abbrev pub then_rest : Waited → Bool → {R : Type 0} → R → List Waited × R → List Waited × R
then_rest this true r rest = (this ∷ [], r)
then_rest this false r rest = (this ∷ rest.0, rest.1)

module _ {R : Type 0} (agent : WorkerAgent R) (given : Rounds) where
  -- The loop, for so many rounds at most, the first of them numbered: what each of them waits.
  unfoldable pub rounds : ℕ → ℕ → ℤ → R → List Waited × R
  rounds zero number failures r = ([], r)
  rounds (suc left) number failures r =
      let out = round agent (given.around number) (given.ended number) failures r in
      elim out.0 [
        | returned ↦ ([], out.1)
        | waited logged after delay ↦
            let rest = rounds left (number + 1) after out.1 in
            then_rest (record { logged = logged; failures = after; delay = delay })
              (given.interrupted_wait number) out.1 rest
      ]

  abbrev pub run_started : Option ContextError → Bool → ℕ → R → List Waited × R
  run_started (some c) invalid left r = ([], r)
  run_started none true left r = ([], r)
  run_started none false left r = rounds left 0 (pos 0) r

  -- `runVerificationWorker` for so many rounds at most, with what the context says at the start.
  unfoldable pub run_worker : Option ContextError → ℕ → R → List Waited × R
  run_worker started left r =
      run_started started (int_leb agent.config.poll_interval (pos 0)) left r

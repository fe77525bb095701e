-- ===== src/Agent/Action/Safety.antt =====
-- The agent's actions: what each part of them may change.
use sre_agent_gitops.Prelude.{
  Bool, Bool-cases, Context, Sha256, String, Time, arith, false, inl, inr, true, ◌≡◌, ℕ, ◌!=◌,
  eq_iff, text_eq, nat_eq, ltb, ◌==◌, ◌&&◌,
}
use sre_agent_gitops.Prelude.Method.{Result, final, ok, result}
use sre_agent_gitops.Incident.{Claim, Incident, state_eq}
use sre_agent_gitops.Remediation.Keys.{action_key, action_key_eq, ExecutionKey}
use sre_agent_gitops.Remediation.Attempt.{
  ActionAttempt, started, status_eq, CompleteActionAttemptCommand, RecoverActionAttemptCommand,
  BeginActionAttemptCommand,
}
use sre_agent_gitops.Remediation.Attempt.Store.{
  MemoryActionAttemptStore, complete, recover, new_attempt, completed, recovered, begin,
}
use sre_agent_gitops.Remediation.Attempt.Steps.{
  Call, Change, completes, recovers, begun, ended, given_up, step, step-Change, unchanged, begins,
}
use sre_agent_gitops.Remediation.Verification.{VerificationSubject, verification_status_eq}
use sre_agent_gitops.Approval.{Plan}
use sre_agent_gitops.Approval.PlanStore.{publish}
use sre_agent_gitops.Agent.Action.Attempting.{
  complete_action_attempt, existing_attempt, fence_action, publish_canonical_plan, give_up,
  skip_ended, begin_action_attempt, after_begin, execution_key,
}
use sre_agent_gitops.Agent.Action.{ActionAgent, Given, World, begin_verification, coded}
use sre_agent_gitops.Agent.Action.Extending.{
  Grows, Safe, Safe-bind, Safe-after, Safe-returns, Safe-fails, Safe-unless, Safe-on_plans,
  Safe-on_attempts, put-Grows, safe,
}

module _ (digest : String → String) where
  change-Grows : (s t : MemoryActionAttemptStore) → Change digest s t → Grows s t
  change-Grows s t (unchanged e) = rw e (λ k h. h)
  change-Grows s t (begun c v n e) = rw e (put-Grows (action_key c.key) (new_attempt digest c) s)
  change-Grows s t (ended c x f d e) = rw e (put-Grows (action_key c.key) (completed x c) s)
  change-Grows s t (given_up c x f d e) = rw e (put-Grows (action_key c.key) (recovered x c) s)

  -- No call of the attempt store loses an attempt.
  pub step-Grows : (call : Call) (s : MemoryActionAttemptStore) → Grows s (step digest call s)
  step-Grows call s = change-Grows s (step digest call s) (step-Change digest call s)

module _ (digest : String → String) where
  complete-Grows :
      (ctx : Context) (c : CompleteActionAttemptCommand) (s : MemoryActionAttemptStore)
      → Grows s (final (complete ctx c) s)
  unfolding step
  complete-Grows ctx c s = step-Grows digest (completes ctx c) s

  pub begin-Grows :
      (ctx : Context) (c : BeginActionAttemptCommand) (s : MemoryActionAttemptStore)
      → Grows s (final (begin digest ctx c) s)
  unfolding step
  begin-Grows ctx c s = step-Grows digest (begins ctx c) s

  recover-Grows :
      (ctx : Context) (c : RecoverActionAttemptCommand) (s : MemoryActionAttemptStore)
      → Grows s (final (recover ctx c) s)
  unfolding step
  recover-Grows ctx c s = step-Grows digest (recovers ctx c) s

module _ (agent : ActionAgent) where
  pub Safe-begin_verification :
      (ctx : Context) (started_at : Time) (current : Incident) (attempt : ActionAttempt)
      (expected : ℕ) (subject : VerificationSubject)
      → Safe (begin_verification agent ctx started_at current attempt expected subject)
  unfolding begin_verification
  Safe-begin_verification ctx started_at current attempt expected subject = search (safe) depth 14

module _ (agent : ActionAgent) (sha : Sha256) (given : Given) where
  Safe-publish : (plan : Plan) → Safe (publish_canonical_plan agent sha given plan)
  unfolding publish_canonical_plan
  Safe-publish plan =
      Safe-unless _ _ _ (
        Safe-on_plans (coded "publish canonical remediation plan") (publish sha (given.ctx 3) plan))

  pub Safe-fence_action :
      (current : Incident) (plan : Plan) → Safe (fence_action agent sha given current plan)
  unfolding fence_action
  Safe-fence_action current plan = search (safe, Safe-publish) depth 14

  -- A plan is attempted for its own incident only.
  pub fence_action-incident :
      (current : Incident) (plan : Plan) (w : World) (granted : Claim)
      → result (fence_action agent sha given current plan) w ≡ ok granted
      → plan.incident_id ≡ current.id
  unfolding fence_action
  fence_action-incident current plan w granted h =
      ground (arith, eq_iff plan.incident_id current.id)

  Safe-give_up :
      (current : Incident) (granted : Claim) (key : ExecutionKey) (subject : VerificationSubject)
      → Safe (give_up agent sha given current granted key subject)
  Safe-give_up current granted key subject =
      Safe-bind _ _
        (Safe-on_attempts (coded "ACTION_ATTEMPT_RECOVERY_FAILED") (recover _ _)
          (recover-Grows sha.hex12 _ _))
        (λ (out : ActionAttempt × Bool).
          Safe-after _ _ (Safe-begin_verification agent _ _ _ _ _ _)
            (Safe-fails "PREVIOUS_EXECUTOR_LOST"))

  Safe-skip_ended :
      (granted : Claim) (key : ExecutionKey) (subject : VerificationSubject)
      (attempt : ActionAttempt)
      → Safe (skip_ended agent sha given granted key subject attempt)
  Safe-skip_ended granted key subject attempt =
      Safe-bind _ _ (Safe-begin_verification agent _ _ _ _ _ _)
        (λ _. Safe-fails "DUPLICATE_ACTION_ATTEMPT")

  pub Safe-existing_attempt :
      (current : Incident) (granted : Claim) (key : ExecutionKey) (subject : VerificationSubject)
      (attempt : ActionAttempt)
      → Safe (existing_attempt agent sha given current granted key subject attempt)
  Safe-existing_attempt current granted key subject attempt =
      elim (Bool-cases
        (attempt.status == started && ltb attempt.key.fencing_token key.fencing_token)) [
          | inl e ↦ rw e (Safe-give_up current granted key subject)
          | inr e ↦ elim (Bool-cases (attempt.status != started)) [
            | inl d ↦ rw (e, d) (Safe-skip_ended granted key subject attempt)
            | inr d ↦ rw (e, d) (Safe-fails "DUPLICATE_ACTION_ATTEMPT")
          ]
        ]

  pub Safe-complete :
      (attempt : ActionAttempt) (outcome : Result String Unit)
      → Safe (complete_action_attempt agent sha given attempt outcome)
  unfolding complete_action_attempt
  Safe-complete attempt outcome = Safe-unless _ _ _ (
      Safe-on_attempts (coded "ACTION_ATTEMPT_RESULT_PERSIST_FAILED") (complete _ _)
        (complete-Grows sha.hex12 _ _))

  pub Safe-begin_action_attempt :
      (current : Incident) (plan : Plan) (subject : VerificationSubject)
      → Safe (begin_action_attempt agent sha given current plan subject)
  unfolding begin_action_attempt
  Safe-begin_action_attempt current plan subject =
      Safe-bind _ _ (Safe-fence_action current plan) (λ granted.
        Safe-bind _ _
          (Safe-on_attempts (coded "ACTION_ATTEMPT_BEGIN_FAILED") (begin sha.hex12 _ _)
            (begin-Grows sha.hex12 _ _))
          (λ begun. after granted begun))
    where
      after :
          (granted : Claim) (begun : ActionAttempt × Bool)
          → Safe (
              after_begin agent sha given current granted
                (execution_key current plan granted)
                subject
                begun)
      after granted (x, true) = Safe-returns x
      after granted (x, false) = Safe-existing_attempt current granted _ subject x

-- ===== src/Agent/Action/Interleaving.antt =====
-- waiting_approval.go and agent_action_attempt.go, in parts: a resumption of an incident that may be
-- interrupted between its parts, each of which calls the attempt store or Kubernetes at most once.
use sre_agent_gitops.Prelude.{Bool, String, Time, Sha256, ℕ, zero, suc}
use sre_agent_gitops.Prelude.Method.{Result, err, final, ok}
use sre_agent_gitops.Incident.{Claim, Incident}
use sre_agent_gitops.Remediation.Attempt.{ActionAttempt, BeginActionAttemptCommand}
use sre_agent_gitops.Remediation.Attempt.Store.{begin}
use sre_agent_gitops.Approval.{Plan}
use sre_agent_gitops.Agent.Evidence.{PodEvidence, subject_for_pod}
use sre_agent_gitops.Agent.Memory.{RemediationSnapshot, action_attempted, record_state}
use sre_agent_gitops.Agent.Action.Resuming.{authorize, execute_approved_plan, report}
use sre_agent_gitops.Agent.Action.{ActionAgent, Given, World, coded, on_attempts, on_memory}
use sre_agent_gitops.Agent.Action.Attempting.{after_begin, execution_key, fence_action}

-- A call of `resumeWaitingApproval`: by which agent, with what it gets from without, and for what.
pub record Resumption : Type 0 where
  pub agent : ActionAgent
  pub given : Given
  pub id : String
  pub current : Incident
  pub evidence : PodEvidence
  pub state : RemediationSnapshot
  pub target : String
  pub now : Time

-- How far a call has got, with what it has in its hands: before anything, with a plan that the checks
-- accepted, with the attempt recorded in the action memory, with a claim, with the answer of `Begin`,
-- with an attempt to carry out, with the outcome of the deletion, and at its end.
pub data Thread : Type 0 where
  entered : Resumption → Thread
  authorized recorded : Resumption → Plan → Thread
  fenced : Resumption → Plan → Claim → Thread
  begun : Resumption → Plan → Claim → ActionAttempt × Bool → Thread
  attempted : Resumption → Plan → ActionAttempt → Thread
  executed : Resumption → Plan → ActionAttempt → Result String Unit → Thread
  finished : Thread

-- A part that fails ends the call.
abbrev pub pass : {A : Type 0} → Result String A × World → (A → Thread) → Thread × World
pass (ok a, w) next = (next a, w)
pass (err e, w) next = (finished, w)

module _ (sha : Sha256) where
  abbrev pub begin_command : Resumption → Plan → Claim → BeginActionAttemptCommand
  begin_command x plan granted = record {
    key = execution_key x.current plan granted;
    started_at = x.given.now 5;
  }

  abbrev pub enter : Resumption → World → Result String Plan × World
  enter x w = authorize x.agent sha x.given x.current x.evidence x.state x.now w

  abbrev pub remember : Resumption → World → Result String Unit × World
  remember x w =
      on_memory (coded "REMEDIATION_STATE_RECORD_FAILED")
        (record_state (record {
          kind = action_attempted;
          incident_id = x.id;
          target_key = x.target;
          occurred_at = x.now;
        }))
        w

  abbrev pub begin_attempt :
      Resumption → Plan → Claim → World → Result String (ActionAttempt × Bool) × World
  begin_attempt x plan granted w =
      on_attempts (coded "ACTION_ATTEMPT_BEGIN_FAILED")
        (begin sha.hex12 (x.given.ctx 5) (begin_command x plan granted)) w

  abbrev pub take :
      Resumption → Plan → Claim → ActionAttempt × Bool → World → Result String ActionAttempt × World
  take x plan granted answer w =
      after_begin x.agent sha x.given x.current granted (execution_key x.current plan granted)
        (subject_for_pod x.evidence) answer w

  -- The next part of a call.
  unfoldable pub advance : Thread → World → Thread × World
  advance (entered x) w = pass (enter x w) (authorized x)
  advance (authorized x plan) w = pass (remember x w) (λ _. recorded x plan)
  advance (recorded x plan) w =
      pass (fence_action x.agent sha x.given x.current plan w) (fenced x plan)
  advance (fenced x plan granted) w = pass (begin_attempt x plan granted w) (begun x plan granted)
  advance (begun x plan granted answer) w = pass (take x plan granted answer w) (attempted x plan)
  advance (attempted x plan attempt) w =
      let out = execute_approved_plan x.agent sha x.given plan w in
      (executed x plan attempt out.0, out.1)
  advance (executed x plan attempt outcome) w = (
    finished,
    final (report x.agent sha x.given x.current (subject_for_pod x.evidence) attempt outcome) w,
  )
  advance finished w = (finished, w)

  -- A call that nothing interrupts, so many parts of it.
  unfoldable pub advance_alone : ℕ → Thread × World → World
  advance_alone zero o = o.1
  advance_alone (suc parts) o = advance_alone parts (advance o.0 o.1)

-- ===== src/Agent/Action/Once.antt =====
-- The agent's actions: nothing is deleted twice under one attempt.
use sre_agent_gitops.Prelude.{
  Sha256, String, Time, ap, arith, inl, inr, none, refl, ◌∙◌, ◌≡◌, ◌≢◌, ◌⊎◌, ◌∷◌, text_eq,
}
use sre_agent_gitops.Prelude.Method.{Method, Result, continue, err, final, ok, result, ◌>>=◌}
use sre_agent_gitops.Incident.{Incident}
use sre_agent_gitops.Remediation.Attempt.{ActionAttempt}
use sre_agent_gitops.Remediation.Attempt.Store.{attempt_of}
use sre_agent_gitops.Remediation.Verification.{VerificationSubject}
use sre_agent_gitops.Approval.{Plan}
use sre_agent_gitops.Agent.Evidence.{PodEvidence, subject_for_pod}
use sre_agent_gitops.Agent.Memory.{RemediationSnapshot, action_attempted, record_state}
use sre_agent_gitops.Agent.Action.Extending.{
  safe, Safe-lift, Safe-on_memory, Extends, Extends_trans, Grows, Safe,
}
use sre_agent_gitops.Agent.Action.Safety.{
  Safe-complete, Safe-begin_verification, Safe-begin_action_attempt,
}
use sre_agent_gitops.Agent.Action.Resuming.{
  report, recover_plan, approval_granted, found_approval, act, authorize, execute_approved_plan,
  proceed, resume_waiting_approval,
}
use sre_agent_gitops.Agent.Action.{on_memory, coded, ActionAgent, Given, World}
use sre_agent_gitops.Agent.Action.Attempting.{begin_action_attempt}
use sre_agent_gitops.Agent.Action.Beginning.{Begins, begin_Begins, plan_action_key}

-- What carrying out a plan's attempt may change: it deletes the plan's target, or nothing.
pub record Carries (plan : Plan) (w t : World) : Type 0 where
  pub deletions : (t.deletions ≡ w.deletions) ⊎ (t.deletions ≡ plan ∷ w.deletions)
  pub grows : Grows w.attempts t.attempts

-- A deletion of a plan's target: the plan had no attempt before, and has one after.
pub record Deletes (plan : Plan) (w t : World) : Type 0 where
  pub deletions : t.deletions ≡ plan ∷ w.deletions
  pub grows : Grows w.attempts t.attempts
  pub fresh : attempt_of (plan_action_key plan) w.attempts ≡ none
  pub taken : attempt_of (plan_action_key plan) t.attempts ≢ none

module _ (agent : ActionAgent) (sha : Sha256) (given : Given) where
  pub execute_Carries :
      (plan : Plan) (w : World)
      → Carries plan w (final (execute_approved_plan agent sha given plan) w)
  unfolding execute_approved_plan
  execute_Carries plan w = record { deletions = executed; grows = λ k e. ground (arith, kept) }
    where
      kept : (final (execute_approved_plan agent sha given plan) w).attempts ≡ w.attempts
      kept = ground arith

      executed :
          ((final (execute_approved_plan agent sha given plan) w).deletions ≡ w.deletions)
          ⊎ ((final (execute_approved_plan agent sha given plan) w).deletions ≡ plan ∷ w.deletions)
      executed = ground arith

  pub Safe-report :
      (current : Incident) (subject : VerificationSubject) (attempt : ActionAttempt)
      (outcome : Result String Unit)
      → Safe (report agent sha given current subject attempt outcome)
  Safe-report current subject attempt outcome =
      search (safe, Safe-complete, Safe-begin_verification, Safe-lift) depth 8

  act-Carries :
      (current : Incident) (plan : Plan) (subject : VerificationSubject) (attempt : ActionAttempt)
      (w : World)
      → Carries plan w (final (act agent sha given current plan subject attempt) w)
  act-Carries current plan subject attempt w =
      let out = execute_approved_plan agent sha given plan w in
      let first = execute_Carries plan w in
      let rest = (Safe-report current subject attempt out.0).run out.1 in
      record {
        deletions = elim first.deletions [
          | inl e ↦ inl (rest.deletions ∙ e)
          | inr e ↦ inr (rest.deletions ∙ e)
        ];
        grows = λ k e. first.grows k (rest.attempts k e);
      }

  abbrev Effect : Plan → World → World → Type 0
  Effect plan w t = Extends w t ⊎ Deletes plan w t

  Safe-recover_plan :
      (current : Incident) (evidence : PodEvidence)
      → Safe (recover_plan agent sha given current evidence)
  unfolding recover_plan
  Safe-recover_plan current evidence = search (safe) depth 8

  Safe-found : (plan : Plan) → Safe (found_approval agent sha given plan)
  Safe-found plan = record { run = λ w. record { deletions = refl; attempts = λ k e. e } }

  Safe-approval_granted :
      (plan : Plan) (now : Time) → Safe (approval_granted agent sha given plan now)
  unfolding approval_granted
  Safe-approval_granted plan now = search (safe, Safe-found) depth 8

  attempted_Effect :
      (current : Incident) (plan : Plan) (subject : VerificationSubject) (w : World)
      → Effect plan w (
          final
            (begin_action_attempt agent sha given current plan subject
              >>= act agent sha given current plan subject)
            w)
  attempted_Effect current plan subject w =
      go (begin_action_attempt agent sha given current plan subject w)
        ((Safe-begin_action_attempt agent sha given current plan subject).run w)
        (begin_Begins agent sha given current plan subject w)
    where
      go :
          (o : Result String ActionAttempt × World)
          → Extends w o.1
          → ((a : ActionAttempt) → o.0 ≡ ok a → Begins plan w o.1)
          → Effect plan w (continue o (act agent sha given current plan subject)).1
      go (err e, t) x b = inl x
      go (ok a, t) x b =
          let begun = b a refl in
          let c = act-Carries current plan subject a t in
          elim c.deletions [
            | inl e ↦ inl (record {
              deletions = e ∙ x.deletions;
              attempts = λ k d. x.attempts k (c.grows k d);
            })
            | inr e ↦ inr (record {
              deletions = e ∙ ap (λ l. plan ∷ l) x.deletions;
              grows = λ k d. x.attempts k (c.grows k d);
              fresh = begun.fresh;
              taken = λ d. begun.taken (c.grows (plan_action_key plan) d);
            })
          ]

  Effect-after : (plan : Plan) (u v w : World) → Extends u v → Effect plan v w → Effect plan u w
  Effect-after plan u v w x (inl e) = inl (Extends_trans u v w x e)
  Effect-after plan u v w x (inr d) = inr (record {
    deletions = d.deletions ∙ ap (λ l. plan ∷ l) x.deletions;
    grows = λ k e. x.attempts k (d.grows k e);
    fresh = x.attempts (plan_action_key plan) d.fresh;
    taken = d.taken;
  })

  proceed-Effect :
      (id : String) (current : Incident) (evidence : PodEvidence) (target : String) (now : Time)
      (plan : Plan) (w : World)
      → Effect plan w (final (proceed agent sha given id current evidence target now plan) w)
  proceed-Effect id current evidence target now plan w = go (recorded w) (safe_record.run w)
    where
      recorded : Method World String Unit
      recorded = on_memory (coded "REMEDIATION_STATE_RECORD_FAILED") (
          record_state (record {
            kind = action_attempted;
            incident_id = id;
            target_key = target;
            occurred_at = now;
          }))

      safe_record : Safe recorded
      safe_record = Safe-on_memory (coded "REMEDIATION_STATE_RECORD_FAILED") (record_state _)

      go :
          (o : Result String Unit × World)
          → Extends w o.1
          → Effect plan w
              (continue o (λ _.
                begin_action_attempt agent sha given current plan (subject_for_pod evidence)
                >>= act agent sha given current plan (subject_for_pod evidence))).1
      go (err e, t) x = inl x
      go (ok a, t) x =
          Effect-after plan w t _ x (attempted_Effect current plan (subject_for_pod evidence) t)

  pub Safe-authorize :
      (current : Incident) (evidence : PodEvidence) (state : RemediationSnapshot) (now : Time)
      → Safe (authorize agent sha given current evidence state now)
  unfolding authorize
  Safe-authorize current evidence state now =
      search (safe, Safe-recover_plan, Safe-approval_granted) depth 12

  -- Taking up an incident that waits for approval deletes nothing, or the target of one plan: the one
  -- that the checks accepted, which had no attempt before and has one after. No attempt is lost.
  pub resume_cases :
      (id : String) (current : Incident) (evidence : PodEvidence) (state : RemediationSnapshot)
      (target : String) (now : Time) (w : World)
      → let t =
          final (resume_waiting_approval agent sha given id current evidence state target now) w in
        Extends w t
        ⊎ ((plan : Plan) × (result (authorize agent sha given current evidence state now) w
              ≡ ok plan)
            × Deletes plan w t)
  unfolding resume_waiting_approval
  resume_cases id current evidence state target now w =
      go (authorize agent sha given current evidence state now w) refl
        ((Safe-authorize current evidence state now).run w)
    where
      go :
          (o : Result String Plan × World)
          → authorize agent sha given current evidence state now w ≡ o
          → Extends w o.1
          → let t = (continue o (proceed agent sha given id current evidence target now)).1 in
            Extends w t
            ⊎ ((plan : Plan) × (result (authorize agent sha given current evidence state now) w
                  ≡ ok plan)
                × Deletes plan w t)
      go (err e, t) p x = inl x
      go (ok plan, t) p x =
          elim (Effect-after plan w t _ x (proceed-Effect id current evidence target now plan t)) [
            | inl e ↦ inl e
            | inr d ↦ inr (plan, ap (λ o. o.0) p, d)
          ]

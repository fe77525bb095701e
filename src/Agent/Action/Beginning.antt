-- ===== src/Agent/Action/Beginning.antt =====
-- agent_action_attempt.go: an attempt that the agent is given to carry out is a new one.
use sre_agent_gitops.Prelude.{
  Bool, Bool-cases, Context, Option-cases, Sha256, String, ap, arith, false, inl, inr, none, refl,
  some, sym, true, ◌∙◌, ◌≡◌, ◌≢◌, ◌!=◌, ◌==◌, ◌&&◌, ltb, text_eq,
}
use sre_agent_gitops.Prelude.Method.{
  Method, Result, continue, err, fails, final, ok, result, ◌>>=◌, ◌>>◌,
}
use sre_agent_gitops.Incident.{Claim, Incident}
use sre_agent_gitops.Remediation.Keys.{
  ActionKey, ExecutionKey, action_key, action_key_eqb_iff, Error as RemediationError,
}
use sre_agent_gitops.Remediation.Attempt.{
  ActionAttempt, BeginActionAttemptCommand, started, status_eq,
}
use sre_agent_gitops.Remediation.Attempt.Store.{
  MemoryActionAttemptStore, attempt_of, begin, put, new_attempt,
}
use sre_agent_gitops.Remediation.Attempt.Steps.{lookup-put}
use sre_agent_gitops.Remediation.Verification.{VerificationSubject}
use sre_agent_gitops.Approval.{Plan}
use sre_agent_gitops.Agent.Action.Extending.{put-Grows, Extends, Grows}
use sre_agent_gitops.Agent.Action.Safety.{Safe-fence_action, fence_action-incident}
use mathlib.Core.Path.{subst}
use sre_agent_gitops.Agent.Action.{coded, placed, ActionAgent, Given, World}
use sre_agent_gitops.Agent.Action.Attempting.{
  after_begin, begin_action_attempt, begin_fenced, existing_attempt, execution_key, fence_action,
  give_up, skip_ended,
}

pub begin_created :
    (digest : String → String) (ctx : Context) (c : BeginActionAttemptCommand)
    (s t : MemoryActionAttemptStore) (a : ActionAttempt)
    → begin digest ctx c s ≡ (ok (a, true), t)
    → (attempt_of (action_key c.key) s ≡ none)
      × (t ≡ put (action_key c.key) (new_attempt digest c) s)
unfolding begin
begin_created digest ctx c s t a h = elim (Option-cases (attempt_of (action_key c.key) s)) [
  | inl e ↦ (e, ground arith)
  | inr (x, e) ↦ absurd (ground arith)
]

pub put_found :
    (k : ActionKey) (a : ActionAttempt) (s : MemoryActionAttemptStore)
    → attempt_of k (put k a s) ≡ some a
put_found k a s = ground (arith, lookup-put k k a s, action_key_eqb_iff k k)

-- what returns nothing
pub record Never {A : Type 0} (m : Method World String A) : Type 0 where
  pub run : (w : World) (a : A) → ¬ (result m w ≡ ok a)

Never-fails : {A : Type 0} (e : String) → Never {A = A} (fails e)
Never-fails e = record { run = λ w a h. absurd (ground arith) }

Never-bind :
    {A B : Type 0} (m : Method World String A) (f : A → Method World String B)
    → ((a : A) → Never (f a))
    → Never (m >>= f)
Never-bind {A} {B} m f never = record { run = λ w b. go (m w) b }
  where
    go : (o : Result String A × World) (b : B) → ¬ ((continue o f).0 ≡ ok b)
    go (ok a, t) b h = (never a).run t b h
    go (err d, t) b h = absurd (ground arith)

Never-after :
    {A B : Type 0} (m : Method World String A) (n : Method World String B)
    → Never n
    → Never (m >> n)
Never-after {A} {B} m n never = record { run = λ w b. go (m w) b }
  where
    go : (o : Result String A × World) (b : B) → ¬ ((continue o (λ _. n)).0 ≡ ok b)
    go (ok a, t) b h = never.run t b h
    go (err d, t) b h = absurd (ground arith)

-- the key under which a plan is attempted
abbrev pub plan_action_key : Plan → ActionKey
plan_action_key plan = record {
  incident_id = plan.incident_id;
  plan_hash = plan.hash;
  target_uid = plan.target.uid;
}

-- An attempt begun for a plan: there was none under the plan's key, and there is one.
pub record Begins (plan : Plan) (w t : World) : Type 0 where
  pub deletions : t.deletions ≡ w.deletions
  pub grows : Grows w.attempts t.attempts
  pub fresh : attempt_of (plan_action_key plan) w.attempts ≡ none
  pub taken : attempt_of (plan_action_key plan) t.attempts ≢ none

module _ (agent : ActionAgent) (sha : Sha256) (given : Given) where
  Never-give_up :
      (current : Incident) (granted : Claim) (key : ExecutionKey) (subject : VerificationSubject)
      → Never (give_up agent sha given current granted key subject)
  Never-give_up current granted key subject = search (Never-bind, Never-after, Never-fails) depth 6

  Never-skip_ended :
      (granted : Claim) (key : ExecutionKey) (subject : VerificationSubject)
      (attempt : ActionAttempt)
      → Never (skip_ended agent sha given granted key subject attempt)
  Never-skip_ended granted key subject attempt =
      Never-after _ _ (Never-fails "DUPLICATE_ACTION_ATTEMPT")

  pub Never-existing_attempt :
      (current : Incident) (granted : Claim) (key : ExecutionKey) (subject : VerificationSubject)
      (attempt : ActionAttempt)
      → Never (existing_attempt agent sha given current granted key subject attempt)
  Never-existing_attempt current granted key subject attempt =
      elim (Bool-cases
        (attempt.status == started && ltb attempt.key.fencing_token key.fencing_token)) [
          | inl e ↦ rw e (Never-give_up current granted key subject)
          | inr e ↦ elim (Bool-cases (attempt.status != started)) [
            | inl d ↦ rw (e, d) (Never-skip_ended granted key subject attempt)
            | inr d ↦ rw (e, d) (Never-fails "DUPLICATE_ACTION_ATTEMPT")
          ]
        ]

  begin_fenced-Begins :
      (current : Incident) (plan : Plan) (subject : VerificationSubject) (granted : Claim)
      (w : World) (a : ActionAttempt)
      → plan.incident_id ≡ current.id
      → result (begin_fenced agent sha given current plan subject granted) w ≡ ok a
      → Begins plan w (final (begin_fenced agent sha given current plan subject granted) w)
  begin_fenced-Begins current plan subject granted w a same h = go _ refl h
    where
      command : BeginActionAttemptCommand
      command = record { key = execution_key current plan granted; started_at = given.now 5 }

      missing :
          (x : ActionAttempt) (before after : MemoryActionAttemptStore)
          → action_key command.key ≡ plan_action_key plan
          → after ≡ put (action_key command.key) x before
          → ¬ (attempt_of (plan_action_key plan) after ≡ none)
      missing x before after here written e =
          absurd (
            ground
              (arith, put_found (plan_action_key plan) x before, ap (λ k. put k x before) here))

      go :
          (o : Result RemediationError (ActionAttempt × Bool) × MemoryActionAttemptStore)
          → begin sha.hex12 (given.ctx 5) command w.attempts ≡ o
          → (continue
              (placed (λ s v. record v { attempts = s }) (coded "ACTION_ATTEMPT_BEGIN_FAILED") w o)
              (after_begin agent sha given current granted
                (execution_key current plan granted)
                subject)).0
            ≡ ok a
          → Begins plan w
              (continue
                (placed
                  (λ s v. record v { attempts = s })
                  (coded "ACTION_ATTEMPT_BEGIN_FAILED")
                  w
                  o)
                (after_begin agent sha given current granted
                  (execution_key current plan granted)
                  subject)).1
      go (err e, s) p q = absurd (ground arith)
      go (ok (x, false), s) p q = absurd (
          (Never-existing_attempt current granted (execution_key current plan granted) subject
              x).run
            (record w { attempts = s }) a q)
      go (ok (x, true), s) p q =
          let (free, written) = begin_created sha.hex12 (given.ctx 5) command w.attempts s x p in
          let here : action_key command.key ≡ plan_action_key plan = cc same in
          record {
            deletions = refl;
            grows =
                subst (Grows w.attempts) (sym written)
                  (put-Grows (action_key command.key) (new_attempt sha.hex12 command) w.attempts);
            fresh = subst (λ k. attempt_of k w.attempts ≡ none) here free;
            taken = λ e. missing (new_attempt sha.hex12 command) w.attempts s here written e;
          }

  pub begin_Begins :
      (current : Incident) (plan : Plan) (subject : VerificationSubject) (w : World)
      (a : ActionAttempt)
      → result (begin_action_attempt agent sha given current plan subject) w ≡ ok a
      → Begins plan w (final (begin_action_attempt agent sha given current plan subject) w)
  unfolding begin_action_attempt
  begin_Begins current plan subject w a h =
      go _ refl ((Safe-fence_action agent sha given current plan).run w) h
    where
      go :
          (o : Result String Claim × World)
          → fence_action agent sha given current plan w ≡ o
          → Extends w o.1
          → (continue o (begin_fenced agent sha given current plan subject)).0 ≡ ok a
          → Begins plan w (continue o (begin_fenced agent sha given current plan subject)).1
      go (err e, t) p x q = absurd (ground arith)
      go (ok granted, t) p x q =
          let b =
            begin_fenced-Begins current plan subject granted t a
              (fence_action-incident agent sha given current plan w granted (ap (λ o. o.0) p)) q in
          record {
            deletions = b.deletions ∙ x.deletions;
            grows = λ k e. x.attempts k (b.grows k e);
            fresh = x.attempts (plan_action_key plan) b.fresh;
            taken = b.taken;
          }

-- ===== src/Agent/Action/Weighing.antt =====
-- The agent's actions: what one part of a call does to the deletions that were made and may be made.
use sre_agent_gitops.Prelude.{
  Bool-cases, List, Sha256, String, [], ap, arith, if◌then◌else◌, inl, inr, none, ◌+◌, ◌==◌, ◌∷◌,
  ◌≡◌, ◌≢◌, ◌⊎◌, ◌≤◌, ℕ, true, false, Bool, refl, ◌∙◌,
}
use sre_agent_gitops.Prelude.Method.{Result, err, ok}
use mathlib.Core.Path.{subst}
use sre_agent_gitops.Incident.{Claim}
use sre_agent_gitops.Remediation.Keys.{
  ActionKey, Error as RemediationError, action_key, action_key_eq, action_key_eqb_iff,
}
use sre_agent_gitops.Remediation.Attempt.{ActionAttempt}
use sre_agent_gitops.Remediation.Attempt.Store.{
  MemoryActionAttemptStore, attempt_of, begin, new_attempt, put,
}
use sre_agent_gitops.Approval.{Plan}
use sre_agent_gitops.Agent.Evidence.{subject_for_pod}
use sre_agent_gitops.Agent.Memory.{record_state}
use sre_agent_gitops.Agent.Action.{World, coded, placed}
use sre_agent_gitops.Agent.Action.Attempting.{execution_key}
use sre_agent_gitops.Agent.Action.Extending.{Extends, Extends_refl, Grows, Safe-on_memory}
use sre_agent_gitops.Agent.Action.Safety.{
  Safe-existing_attempt, Safe-fence_action, fence_action-incident, begin-Grows,
}
use sre_agent_gitops.Agent.Action.Beginning.{
  Never-existing_attempt, begin_created, plan_action_key, put_found,
}
use sre_agent_gitops.Agent.Action.Once.{Safe-authorize, Safe-report, execute_Carries}
use sre_agent_gitops.Agent.Action.Interleaving.{
  Resumption, Thread, advance, attempted, authorized, begin_attempt, begin_command, begun, entered,
  executed, fenced, finished, pass, recorded, take,
}

-- how many of the deletions were of plans under a key
unfoldable pub deletions_of : ActionKey → List Plan → ℕ
deletions_of k [] = 0
deletions_of k (plan ∷ plans) =
    let rest = deletions_of k plans in if plan_action_key plan == k then rest + 1 else rest

-- One deletion at most under each key, and none where there is no attempt.
abbrev pub DeletesOnce : World → Type 0
DeletesOnce w =
    (k : ActionKey)
    → (deletions_of k w.deletions ≤ 1)
      × (attempt_of k w.attempts ≡ none → deletions_of k w.deletions ≡ 0)

abbrev one_if : Bool → ℕ
one_if true = 1
one_if false = 0

-- whether a call may still delete under a key: it has in its hands an attempt that is its own
abbrev pub may_delete : ActionKey → Thread → ℕ
may_delete k (begun x plan granted (a, true)) = one_if (plan_action_key plan == k)
may_delete k (attempted x plan a) = one_if (plan_action_key plan == k)
may_delete k _ = 0

abbrev pub may_delete_all : ActionKey → List Thread → ℕ
may_delete_all k [] = 0
may_delete_all k (thread ∷ threads) = may_delete k thread + may_delete_all k threads

-- A call that is about to begin an attempt does so for its own incident.
abbrev pub IsOwn : Thread → Type 0
IsOwn (fenced x plan granted) = plan.incident_id ≡ x.current.id
IsOwn _ = Unit {0}

abbrev pub AllOwn : List Thread → Type 0
AllOwn [] = Unit {0}
AllOwn (thread ∷ threads) = IsOwn thread × AllOwn threads

-- What a part of a call may change of the deletions that were made and those that still may be: no more
-- of them under the key, or one more where there was no attempt and now is one.
abbrev pub Weighs : ActionKey → World → ℕ → World → ℕ → Type 0
Weighs k w n v m =
    (deletions_of k v.deletions + m ≤ deletions_of k w.deletions + n)
    ⊎ ((attempt_of k w.attempts ≡ none)
        × (attempt_of k v.attempts ≢ none)
        × (deletions_of k v.deletions + m ≡ deletions_of k w.deletions + n + 1))

pub record Advances (w : World) (thread : Thread) (o : Thread × World) : Type 0 where
  pub own : IsOwn o.0
  pub grows : Grows w.attempts o.1.attempts
  pub weighs : (k : ActionKey) → Weighs k w (may_delete k thread) o.1 (may_delete k o.0)

-- A part that deletes nothing and hands nothing on to be deleted.
pass-Advances :
    {A : Type 0} (w : World) (thread : Thread) (o : Result String A × World) (next : A → Thread)
    → Extends w o.1
    → ((a : A) → o.0 ≡ ok a → IsOwn (next a))
    → ((a : A) (k : ActionKey) → o.0 ≡ ok a → may_delete k (next a) ≤ may_delete k thread)
    → Advances w thread (pass o next)
pass-Advances w thread (ok a, v) next x own less = record {
  own = own a refl;
  grows = x.attempts;
  weighs = λ k. inl (ground (arith, x.deletions, less a k refl));
}
pass-Advances w thread (err e, v) next x own less = record {
  own = tt;
  grows = x.attempts;
  weighs = λ k. inl (ground (arith, x.deletions));
}

module _ (sha : Sha256) where
  fenced-Advances :
      (x : Resumption) (plan : Plan) (granted : Claim) (w : World)
      → plan.incident_id ≡ x.current.id
      → Advances w
          (fenced x plan granted)
          (pass (begin_attempt sha x plan granted w) (begun x plan granted))
  fenced-Advances x plan granted w same =
      go (begin sha.hex12 (x.given.ctx 5) (begin_command sha x plan granted) w.attempts) refl
        (begin-Grows sha.hex12 (x.given.ctx 5) (begin_command sha x plan granted) w.attempts)
    where
      key : ActionKey
      key = plan_action_key plan

      here : action_key (execution_key x.current plan granted) ≡ key
      here = cc same

      go :
          (o : Result RemediationError (ActionAttempt × Bool) × MemoryActionAttemptStore)
          → begin sha.hex12 (x.given.ctx 5) (begin_command sha x plan granted) w.attempts ≡ o
          → Grows w.attempts o.1
          → Advances w (fenced x plan granted) (
              pass
                (placed
                  (λ s v. record v { attempts = s })
                  (coded "ACTION_ATTEMPT_BEGIN_FAILED")
                  w
                  o)
                (begun x plan granted))
      go (err e, s) p g = record { own = tt; grows = g; weighs = λ k. inl (omega arith) }
      go (ok (a, false), s) p g = record { own = tt; grows = g; weighs = λ k. inl (omega arith) }
      go (ok (a, true), s) p g =
          let (free, written) =
            begin_created sha.hex12 (x.given.ctx 5) (begin_command sha x plan granted) w.attempts s
              a p in
          let fresh : attempt_of key w.attempts ≡ none =
            subst (λ k. attempt_of k w.attempts ≡ none) here free in
          let stored : s
              ≡ put key (new_attempt sha.hex12 (begin_command sha x plan granted)) w.attempts =
            written
            ∙ ap (λ k. put k (new_attempt sha.hex12 (begin_command sha x plan granted)) w.attempts)
                here in
          let taken : attempt_of key s ≢ none = λ e. absurd (
            ground (
              arith,
              stored,
              e,
              put_found key (new_attempt sha.hex12 (begin_command sha x plan granted)) w.attempts,
            )) in
          record {
            own = tt;
            grows = g;
            weighs = λ k. elim (Bool-cases (key == k)) [
              | inl e ↦
                  let at : key ≡ k = (action_key_eqb_iff key k).0 e in
                  rw e (
                    inr (
                      subst (λ j. attempt_of j w.attempts ≡ none) at fresh,
                      subst (λ j. attempt_of j s ≢ none) at taken,
                      omega arith,
                    ))
              | inr e ↦ rw e (inl (omega arith))
            ];
          }

  attempted-Advances :
      (x : Resumption) (plan : Plan) (a : ActionAttempt) (w : World)
      → Advances w (attempted x plan a) (advance sha (attempted x plan a) w)
  unfolding advance deletions_of
  attempted-Advances x plan a w =
      let c = execute_Carries x.agent sha x.given plan w in
      record {
        own = tt;
        grows = c.grows;
        weighs = λ k. elim c.deletions [
          | inl e ↦ inl (rw e (omega arith))
          | inr e ↦ inl (rw e (ground arith))
        ];
      }

  begun-Advances :
      (x : Resumption) (plan : Plan) (granted : Claim) (answer : ActionAttempt × Bool) (w : World)
      → Advances w (begun x plan granted answer) (advance sha (begun x plan granted answer) w)
  unfolding advance
  begun-Advances x plan granted (a, true) w =
      pass-Advances w (begun x plan granted (a, true)) (ok a, w) (attempted x plan) (Extends_refl w)
        (λ b e. tt) (λ b k e. omega arith)
  begun-Advances x plan granted (a, false) w =
      let subject = subject_for_pod x.evidence in
      let key = execution_key x.current plan granted in
      pass-Advances w (begun x plan granted (a, false)) (take sha x plan granted (a, false) w)
        (attempted x plan)
        ((Safe-existing_attempt x.agent sha x.given x.current granted key subject a).run w)
        (λ b e. tt)
        (λ b k e.
          absurd (
            (Never-existing_attempt x.agent sha x.given x.current granted key subject a).run w b e))

  pub advance-Advances :
      (thread : Thread) (w : World) → IsOwn thread → Advances w thread (advance sha thread w)
  unfolding advance
  advance-Advances (entered x) w h =
      pass-Advances w (entered x) _ (authorized x)
        ((Safe-authorize x.agent sha x.given x.current x.evidence x.state x.now).run w) (λ a e. tt)
        (λ a k e. omega arith)
  advance-Advances (authorized x plan) w h =
      pass-Advances w (authorized x plan) _ (λ _. recorded x plan)
        ((Safe-on_memory (coded "REMEDIATION_STATE_RECORD_FAILED") (record_state _)).run w)
        (λ a e. tt) (λ a k e. omega arith)
  advance-Advances (recorded x plan) w h =
      pass-Advances w (recorded x plan) _ (fenced x plan)
        ((Safe-fence_action x.agent sha x.given x.current plan).run w)
        (λ a e. fence_action-incident x.agent sha x.given x.current plan w a e)
        (λ a k e. omega arith)
  advance-Advances (fenced x plan granted) w h = fenced-Advances x plan granted w h
  advance-Advances (begun x plan granted answer) w h = begun-Advances x plan granted answer w
  advance-Advances (attempted x plan a) w h = attempted-Advances x plan a w
  advance-Advances (executed x plan a outcome) w h =
      let s =
        (Safe-report x.agent sha x.given x.current (subject_for_pod x.evidence) a outcome).run w in
      record { own = tt; grows = s.attempts; weighs = λ k. inl (ground (arith, s.deletions)) }
  advance-Advances finished w h = record {
    own = tt;
    grows = λ k e. e;
    weighs = λ k. inl (omega arith);
  }

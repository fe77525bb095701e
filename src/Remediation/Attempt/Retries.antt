-- ===== src/Remediation/Attempt/Retries.antt =====
-- internal/remediation/action_attempt_store.go: methods that are called again.
use sre_agent_gitops.Prelude.{
  Bool, Context, IsLive, Option-cases, String, arith, eq_iff, false, inl, inr, none, true, ◌≡◌,
}
use sre_agent_gitops.Prelude.Dict.{lookup-insert}
use sre_agent_gitops.Prelude.Method.{final, ok, result}
use sre_agent_gitops.Remediation.Keys.{action_key, action_key_eq, action_key_eqb_iff}
use sre_agent_gitops.Remediation.Attempt.{
  ActionAttempt, BeginActionAttemptCommand, CompleteActionAttemptCommand,
  RecoverActionAttemptCommand, status_eqb_iff, validate_begin,
}
use sre_agent_gitops.Remediation.Attempt.Store.{
  MemoryActionAttemptStore, attempt_of, begin, complete, completed, completion_matches, new_attempt,
  recover, recovered, recovery_matches,
}

module _ (digest : String → String) where
  -- Once a `Begin` has returned an attempt, every later `Begin` for the same incident, plan and
  -- target that is valid and not cancelled returns that attempt, not created, and changes nothing.
  pub begin_attempt_again :
      (ctx ctx' : Context) (c c' : BeginActionAttemptCommand) (s : MemoryActionAttemptStore)
      (a : ActionAttempt) (created : Bool)
      → action_key c'.key ≡ action_key c.key
      → validate_begin c' ≡ none
      → IsLive ctx'
      → result (begin digest ctx c) s ≡ ok (a, created)
      → begin digest ctx' c' (final (begin digest ctx c) s)
        ≡ (ok (a, false), final (begin digest ctx c) s)
  unfolding begin
  begin_attempt_again ctx ctx' c c' s a created k v l h = ground (
    arith,
    l 0,
    l 1,
    lookup-insert (action_key c.key) (action_key c.key) (new_attempt digest c) s.attempts,
    action_key_eqb_iff (action_key c.key) (action_key c.key),
  )

completed_matches :
    (current : ActionAttempt) (c : CompleteActionAttemptCommand)
    → current.key.fencing_token ≡ c.key.fencing_token
    → completion_matches (completed current c) c ≡ true
unfolding completion_matches
completed_matches current c h =
    ground (arith, status_eqb_iff c.to c.to, eq_iff c.error_code c.error_code)

-- A `Complete` that has succeeded may be sent again: the same command, not cancelled, returns the
-- same attempt and changes nothing.
pub complete_attempt_again :
    (ctx ctx' : Context) (c : CompleteActionAttemptCommand) (s : MemoryActionAttemptStore)
    (a : ActionAttempt)
    → IsLive ctx'
    → result (complete ctx c) s ≡ ok a
    → complete ctx' c (final (complete ctx c) s) ≡ (ok a, final (complete ctx c) s)
unfolding complete
complete_attempt_again ctx ctx' c s a l h = elim (Option-cases (attempt_of (action_key c.key) s)) [
  | inl e ↦ ground arith
  | inr (x, e) ↦ ground (
    arith,
    l 0,
    l 1,
    completed_matches x c,
    lookup-insert (action_key c.key) (action_key c.key) (completed x c) s.attempts,
    action_key_eqb_iff (action_key c.key) (action_key c.key),
  )
]

recovered_matches :
    (current : ActionAttempt) (c : RecoverActionAttemptCommand)
    → recovery_matches (recovered current c) c ≡ true
unfolding recovery_matches
recovered_matches current c = ground (arith, eq_iff c.reason_code c.reason_code)

-- A `Recover` that has succeeded may be sent again: the same command, not cancelled, returns the
-- same attempt, as not changed by it, and changes nothing.
pub recover_attempt_again :
    (ctx ctx' : Context) (c : RecoverActionAttemptCommand) (s : MemoryActionAttemptStore)
    (a : ActionAttempt) (changed : Bool)
    → IsLive ctx'
    → result (recover ctx c) s ≡ ok (a, changed)
    → recover ctx' c (final (recover ctx c) s) ≡ (ok (a, false), final (recover ctx c) s)
unfolding recover
recover_attempt_again ctx ctx' c s a changed l h =
    elim (Option-cases (attempt_of (action_key c.key) s)) [
      | inl e ↦ ground arith
      | inr (x, e) ↦ ground (
        arith,
        l 0,
        l 1,
        recovered_matches x c,
        lookup-insert (action_key c.key) (action_key c.key) (recovered x c) s.attempts,
        action_key_eqb_iff (action_key c.key) (action_key c.key),
      )
    ]

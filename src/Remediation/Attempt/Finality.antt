-- ===== src/Remediation/Attempt/Finality.antt =====
-- internal/remediation/action_attempt_store.go: attempts over runs of calls, and after `Recover`.
use sre_agent_gitops.Prelude.{
  Bool, Context, List, Option, Option-cases, String, [], arith, inl, inr, none, refl, some, ◌∷◌,
  ◌≡◌, ◌≢◌,
}
use sre_agent_gitops.Prelude.Dict.{lookup-insert}
use sre_agent_gitops.Prelude.Method.{IsRefused, final, ok, result}
use sre_agent_gitops.Remediation.Keys.{ActionKey, action_key, action_key_eq, action_key_eqb_iff}
use sre_agent_gitops.Remediation.Attempt.{
  ActionAttempt, CompleteActionAttemptCommand, RecoverActionAttemptCommand, started, unknown,
  validate_recover,
}
use sre_agent_gitops.Remediation.Attempt.Store.{
  MemoryActionAttemptStore, attempt_of, complete, completed, completion_matches, new_attempt,
  recover, recovered, recovery_matches,
}
use sre_agent_gitops.Remediation.Attempt.Steps.{
  Call, Change, begun, ended, given_up, lookup-put, run, step, step-Change, unchanged,
}

-- The same attempt, whatever has become of it.
pub record SameAttempt (a b : ActionAttempt) : Type 0 where
  pub id : b.id ≡ a.id
  pub key : b.key ≡ a.key
  pub started_at : b.started_at ≡ a.started_at

abbrev pub Continues : ActionAttempt → Option ActionAttempt → Type 0
Continues a none = ⊥
Continues a (some b) = SameAttempt a b × (a.status ≢ started → b ≡ a)

module _ (digest : String → String) where
  change-Continues :
      (s t : MemoryActionAttemptStore) (k : ActionKey) (a : ActionAttempt)
      → Change digest s t
      → Continues a (attempt_of k s)
      → Continues a (attempt_of k t)
  change-Continues s t k a (unchanged e) h = rw e h
  change-Continues s t k a (begun c v n e) h = rw e (
      rw (lookup-put (action_key c.key) k (new_attempt digest c) s)
        (ground (arith, action_key_eqb_iff (action_key c.key) k)))
  change-Continues s t k a (ended c x f d e) h = rw e (
      rw (lookup-put (action_key c.key) k (completed x c) s)
        (ground (arith, action_key_eqb_iff (action_key c.key) k)))
  change-Continues s t k a (given_up c x f d e) h = rw e (
      rw (lookup-put (action_key c.key) k (recovered x c) s)
        (ground (arith, action_key_eqb_iff (action_key c.key) k)))

  -- Once an action has an attempt, every run of calls leaves it with that attempt: the id, the
  -- owner's key and the start are kept for good, and an attempt that has ended is kept whole.
  pub attempts-Continues :
      (calls : List Call) (s : MemoryActionAttemptStore) (k : ActionKey) (a : ActionAttempt)
      → attempt_of k s ≡ some a
      → Continues a (attempt_of k (run digest calls s))
  unfolding run
  attempts-Continues calls s k a h =
      go calls s (rw h (record { id = refl; key = refl; started_at = refl }, λ _. refl))
    where
      go :
          (calls : List Call) (s : MemoryActionAttemptStore)
          → Continues a (attempt_of k s)
          → Continues a (attempt_of k (run digest calls s))
      go [] s h = h
      go (c ∷ cs) s h =
          go cs (step digest c s)
            (change-Continues s (step digest c s) k a (step-Change digest c s) h)

-- An attempt that the holder of a larger token has given up.
abbrev IsGivenUp : Option ActionAttempt → Type 0
IsGivenUp none = ⊥
IsGivenUp (some a) = (a.status ≡ unknown) × (a.recovered_by_fencing_token ≢ 0)

positive_token :
    (c : RecoverActionAttemptCommand) → validate_recover c ≡ none → c.key.fencing_token ≢ 0
unfolding validate_recover
positive_token c h = ground arith

recover-IsGivenUp :
    (ctx : Context) (c : RecoverActionAttemptCommand) (s : MemoryActionAttemptStore)
    (a : ActionAttempt) (changed : Bool)
    → result (recover ctx c) s ≡ ok (a, changed)
    → IsGivenUp (attempt_of (action_key c.key) (final (recover ctx c) s))
unfolding recover recovery_matches
recover-IsGivenUp ctx c s a changed h = elim (Option-cases (attempt_of (action_key c.key) s)) [
  | inl e ↦ ground arith
  | inr (x, e) ↦ ground (
    arith,
    positive_token c,
    lookup-insert (action_key c.key) (action_key c.key) (recovered x c) s.attempts,
    action_key_eqb_iff (action_key c.key) (action_key c.key),
  )
]

complete_given_up :
    (ctx : Context) (c : CompleteActionAttemptCommand) (s : MemoryActionAttemptStore)
    → IsGivenUp (attempt_of (action_key c.key) s)
    → IsRefused (complete ctx c) s
unfolding complete completion_matches
complete_given_up ctx c s h = elim (Option-cases (attempt_of (action_key c.key) s)) [
  | inl e ↦ ground arith
  | inr (x, e) ↦ ground arith
]

-- When `Recover` has succeeded, the owner that it fenced off is refused: a `Complete` that follows
-- for the same incident, plan and target returns an error and changes nothing, whatever its token
-- and its outcome.
pub recover-complete :
    (ctx ctx' : Context) (c : RecoverActionAttemptCommand) (c' : CompleteActionAttemptCommand)
    (s : MemoryActionAttemptStore) (a : ActionAttempt) (changed : Bool)
    → action_key c'.key ≡ action_key c.key
    → result (recover ctx c) s ≡ ok (a, changed)
    → IsRefused (complete ctx' c') (final (recover ctx c) s)
recover-complete ctx ctx' c c' s a changed k h =
    complete_given_up ctx' c' (final (recover ctx c) s)
      (rw k (recover-IsGivenUp ctx c s a changed h))

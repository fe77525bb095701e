-- ===== src/Remediation/Verification/Retries.antt =====
-- internal/remediation/verification_store.go: methods that are called again.
use sre_agent_gitops.Prelude.{
  Bool, Context, IsLive, Option-cases, String, ap, arith, eq_iff, false, if◌then◌else◌, inl, inr,
  int_eqb_iff, next_i64, none, some, true, ◌==◌, ◌≡◌,
}
use sre_agent_gitops.Prelude.Dict.{lookup-insert}
use sre_agent_gitops.Prelude.Method.{err, final, ok, result}
use sre_agent_gitops.Remediation.Keys.{
  action_key, action_key_eq, action_key_eqb_iff, verification_subject_conflict,
}
use sre_agent_gitops.Remediation.Verification.{
  BeginVerificationCommand, CompleteVerificationCommand, Verification, status_eqb_iff, subject_eq,
  subject_eqb_iff, validate_begin,
}
use sre_agent_gitops.Remediation.Verification.Store.{
  MemoryVerificationStore, begin, complete, completed, completion_matches, new_pending,
  verification_of,
}

module _ (digest : String → String) where
  begin_found :
      (ctx : Context) (c : BeginVerificationCommand) (s : MemoryVerificationStore)
      (v : Verification)
      → validate_begin c ≡ none
      → IsLive ctx
      → verification_of (action_key c.action_attempt.key) s ≡ some v
      → begin digest ctx c s
        ≡ ((if v.subject == c.subject then ok (v, false) else err verification_subject_conflict), s)
  unfolding begin
  begin_found ctx c s v valid l h = ground (arith, l 0, l 1)

  begin_leaves :
      (ctx : Context) (c : BeginVerificationCommand) (s : MemoryVerificationStore)
      (v : Verification) (created : Bool)
      → result (begin digest ctx c) s ≡ ok (v, created)
      → (v.subject ≡ c.subject)
        × (verification_of (action_key c.action_attempt.key) (final (begin digest ctx c) s)
            ≡ some v)
  unfolding begin
  begin_leaves ctx c s v created h = ground (
    arith,
    lookup-insert (action_key c.action_attempt.key) (action_key c.action_attempt.key)
        (new_pending digest c) s.verifications,
    action_key_eqb_iff (action_key c.action_attempt.key) (action_key c.action_attempt.key),
    subject_eqb_iff v.subject c.subject,
  )

  -- Once a `Begin` has returned a verification, it is of the subject asked for, and a later `Begin`
  -- for the same action that is valid and not cancelled returns it again, not created, if it names
  -- the same subject, and a subject conflict if it names another; it changes nothing either way.
  pub begin_verification_again :
      (ctx ctx' : Context) (c c' : BeginVerificationCommand) (s : MemoryVerificationStore)
      (v : Verification) (created : Bool)
      → action_key c'.action_attempt.key ≡ action_key c.action_attempt.key
      → validate_begin c' ≡ none
      → IsLive ctx'
      → result (begin digest ctx c) s ≡ ok (v, created)
      → (v.subject ≡ c.subject)
        × (begin digest ctx' c' (final (begin digest ctx c) s) ≡ (
          (if v.subject == c'.subject then ok (v, false) else err verification_subject_conflict),
          final (begin digest ctx c) s,
        ))
  begin_verification_again ctx ctx' c c' s v created k valid l h =
      let (same, found) = begin_leaves ctx c s v created h in
      (same, begin_found ctx' c' (final (begin digest ctx c) s) v valid l (rw k found))

completed_matches :
    (current : Verification) (c : CompleteVerificationCommand)
    → current.version ≡ c.expected_version
    → completion_matches (completed current c) c ≡ true
unfolding completion_matches
completed_matches current c h = ground (
  arith,
  status_eqb_iff c.to c.to,
  eq_iff c.evidence_code c.evidence_code,
  int_eqb_iff (next_i64 current.version) (next_i64 c.expected_version),
  ap next_i64 h,
)

-- A `Complete` that has succeeded may be sent again: the same command, not cancelled, returns the
-- same verification and changes nothing.
pub complete_verification_again :
    (ctx ctx' : Context) (c : CompleteVerificationCommand) (s : MemoryVerificationStore)
    (v : Verification)
    → IsLive ctx'
    → result (complete ctx c) s ≡ ok v
    → complete ctx' c (final (complete ctx c) s) ≡ (ok v, final (complete ctx c) s)
unfolding complete
complete_verification_again ctx ctx' c s v l h =
    elim (Option-cases (verification_of c.action_key s)) [
      | inl e ↦ ground arith
      | inr (x, e) ↦ ground (
        arith,
        l 0,
        l 1,
        completed_matches x c,
        int_eqb_iff x.version c.expected_version,
        lookup-insert c.action_key c.action_key (completed x c) s.verifications,
        action_key_eqb_iff c.action_key c.action_key,
      )
    ]

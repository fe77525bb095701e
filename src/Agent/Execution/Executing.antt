-- ===== src/Agent/Execution/Executing.antt =====
-- agent_verification.go: a verification executed and completed without a fence, over the memory store.
use mathlib.Core.Option.{some, none}
use sre_agent_gitops.Prelude.{
  Bool, Context, ContextError, Option, String, Time, not, ◌!=◌, refl, eq_iff, text_eq, Bool-cases,
  Option-cases, inl, inr, false, true, arith, ◌≡◌, ◌⊎◌, ◌∙◌,
}
use sre_agent_gitops.Prelude.Method.{
  Method, Result, fail_if, fail_on, lift, map_error, ◌>>=◌, ◌>>◌, final, result, err, ok,
}
use sre_agent_gitops.Remediation.Verification.{
  CompleteVerificationCommand, Verification, pending, validate_complete, verification_status_eq,
  status_eqb_iff,
}
use sre_agent_gitops.Remediation.Verification.Store.{
  put, verification_of, completed, completion_matches, MemoryVerificationStore, complete,
}
use sre_agent_gitops.Remediation.Keys.{action_key_eqb_iff}
use sre_agent_gitops.Remediation.Verification.Steps.{lookup-put}
use sre_agent_gitops.Agent.Execution.{ExecutionError, VerificationExecutionResult, validate_result}
use mathlib.Core.Option

-- What the execution gets from without: the store's context, the time at the end, what the executor
-- answers and what its own context says when it is back.
pub record Executed : Type 0 where
  pub ctx : Context
  pub finished_at : Time
  pub answer : Verification → Result ExecutionError VerificationExecutionResult
  pub deadline : Option ContextError

abbrev pub completion_of :
    Verification → VerificationExecutionResult → Time → CompleteVerificationCommand
completion_of verification answer finished_at = record {
  action_key = verification.action_key;
  expected_version = verification.version;
  to = answer.status;
  finished_at = finished_at;
  evidence_code = answer.evidence_code;
}

abbrev coded : {E : Type 0} → String → E → String
coded code e = code

-- what follows the execution
abbrev pub complete_executed :
    Executed
    → Verification
    → VerificationExecutionResult
    → Method MemoryVerificationStore String Verification
complete_executed given verification answer = do
  fail_on (Option.map (λ _. "VERIFICATION_EXECUTION_FAILED") given.deadline)
  fail_on (Option.map (λ _. "VERIFICATION_RESULT_INVALID") (validate_result answer))
  fail_on (
      Option.map (λ _. "VERIFICATION_RESULT_INVALID")
        (validate_complete (completion_of verification answer given.finished_at)))
  map_error (coded "VERIFICATION_COMPLETE_FAILED")
      (complete given.ctx (completion_of verification answer given.finished_at))

-- `executeVerification`; an error is the code that it is logged with.
unfoldable pub execute_verification :
    Bool → Bool → Executed → Verification → Method MemoryVerificationStore String Verification
execute_verification has_executor has_store given verification = do
  fail_if (verification.status != pending) "VERIFICATION_NOT_PENDING"
  fail_if (not has_executor) "VERIFICATION_EXECUTOR_UNAVAILABLE"
  fail_if (not has_store) "VERIFICATION_STORE_UNAVAILABLE"
  answer ← map_error (coded "VERIFICATION_EXECUTION_FAILED") (lift (given.answer verification))
  complete_executed given verification answer

matches_fields :
    (x : Verification) (c : CompleteVerificationCommand)
    → completion_matches x c ≡ true
    → (x.status ≡ c.to) × (x.evidence_code ≡ c.evidence_code)
unfolding completion_matches
matches_fields x c h =
    ground (arith, status_eqb_iff x.status c.to, eq_iff x.evidence_code c.evidence_code)

-- the store's two ways to complete
complete_ways :
    (ctx : Context) (c : CompleteVerificationCommand) (s : MemoryVerificationStore)
    (x v : Verification)
    → verification_of c.action_key s ≡ some x
    → result (complete ctx c) s ≡ ok v
    → ((completion_matches x c ≡ true) × (v ≡ x) × (final (complete ctx c) s ≡ s))
      ⊎ ((v ≡ completed x c) × (final (complete ctx c) s ≡ put c.action_key (completed x c) s))
unfolding complete
complete_ways ctx c s x v e h = elim (Bool-cases (completion_matches x c)) [
  | inl m ↦ inl (m, ground arith, ground arith)
  | inr m ↦ inr (ground arith, ground arith)
]

complete_stored :
    (ctx : Context) (c : CompleteVerificationCommand) (s : MemoryVerificationStore)
    (v : Verification)
    → result (complete ctx c) s ≡ ok v
    → (v.status ≡ c.to)
      × (v.evidence_code ≡ c.evidence_code)
      × (verification_of c.action_key (final (complete ctx c) s) ≡ some v)
complete_stored ctx c s v h = elim (Option-cases (verification_of c.action_key s)) [
  | inl e ↦ absurd (unfold complete in ground arith)
  | inr (x, e) ↦ elim (complete_ways ctx c s x v e h) [
    | inl (m, same, kept) ↦
        let (status, evidence) = matches_fields x c m in
        (rw same status, rw same evidence, rw (kept, same) e)
    | inr (same, written) ↦ (
      rw same refl,
      rw same refl,
      rw (written, same)
          (lookup-put c.action_key c.action_key (completed x c) s
            ∙ rw ((action_key_eqb_iff c.action_key c.action_key).1 refl) refl),
    )
  ]
]

completed_inv :
    (given : Executed) (v c : Verification) (answer : VerificationExecutionResult)
    (s : MemoryVerificationStore)
    → result (complete_executed given v answer) s ≡ ok c
    → (given.deadline ≡ none)
      × (validate_result answer ≡ none)
      × (complete_executed given v answer s
          ≡ map_error
              (coded "VERIFICATION_COMPLETE_FAILED")
              (complete given.ctx (completion_of v answer given.finished_at))
              s)
completed_inv given v c answer s h = elim (Option-cases given.deadline) [
  | inr (e, d) ↦ absurd (ground arith)
  | inl d ↦ elim (Option-cases (validate_result answer)) [
    | inr (e, q) ↦ absurd (ground arith)
    | inl q ↦ elim (Option-cases (validate_complete (completion_of v answer given.finished_at))) [
      | inr (e, p) ↦ absurd (ground arith)
      | inl p ↦ (d, q, rw (d, q, p) refl)
    ]
  ]
]

-- What a successful execution has found and stored.
pub record Stored (given : Executed) (v c : Verification) (t : MemoryVerificationStore)
    : Type 0 where
  pub answer : VerificationExecutionResult
  pub answered : given.answer v ≡ ok answer
  pub in_time : given.deadline ≡ none
  pub valid : validate_result answer ≡ none
  pub status : c.status ≡ answer.status
  pub evidence_code : c.evidence_code ≡ answer.evidence_code
  pub stored : verification_of v.action_key t ≡ some c

executed_Stored :
    (given : Executed) (v c : Verification) (s : MemoryVerificationStore)
    (answer : VerificationExecutionResult)
    → given.answer v ≡ ok answer
    → result (complete_executed given v answer) s ≡ ok c
    → Stored given v c (final (complete_executed given v answer) s)
executed_Stored given v c s answer a h =
    let (d, q, same) = completed_inv given v c answer s h in
    let done : result (complete given.ctx (completion_of v answer given.finished_at)) s ≡ ok c =
      ground (arith, same) in
    let (status, evidence, stored) =
      complete_stored given.ctx (completion_of v answer given.finished_at) s c done in
    record {
      answer = answer;
      answered = a;
      in_time = d;
      valid = q;
      status = status;
      evidence_code = evidence;
      stored = ground (arith, stored, same);
    }

-- An execution that succeeds was of a pending verification, had a valid answer from the executor
-- before the time ran out, and has stored that answer's status and evidence, which are what it
-- returns.
pub execute_verification-Stored :
    (has_executor has_store : Bool) (given : Executed) (v c : Verification)
    (s : MemoryVerificationStore)
    → result (execute_verification has_executor has_store given v) s ≡ ok c
    → (v.status ≡ pending)
      × Stored given v c (final (execute_verification has_executor has_store given v) s)
unfolding execute_verification
execute_verification-Stored false has_store given v c s h = absurd (ground arith)
execute_verification-Stored true false given v c s h = absurd (ground arith)
execute_verification-Stored true true given v c s h = elim (Bool-cases (v.status != pending)) [
  | inl e ↦ absurd (ground arith)
  | inr e ↦
      (ground (arith, status_eqb_iff v.status pending), rw e (go (given.answer v) refl (rw e at h)))
]
  where
    go :
        (o : Result ExecutionError VerificationExecutionResult)
        → given.answer v ≡ o
        → result
            (map_error (coded "VERIFICATION_EXECUTION_FAILED") (lift o)
              >>= complete_executed given v)
            s
          ≡ ok c
        → Stored given v c (
            final
              (map_error (coded "VERIFICATION_EXECUTION_FAILED") (lift o)
                >>= complete_executed given v)
              s)
    go (err x) p q = absurd (ground arith)
    go (ok answer) p q = executed_Stored given v c s answer p q

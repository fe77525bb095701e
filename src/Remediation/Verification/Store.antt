-- ===== src/Remediation/Verification/Store.antt =====
-- internal/remediation/verification_store.go: the methods of `MemoryVerificationStore`. Go ranges
-- over a map in any order; here the order is that of the entries. The copies that the methods return
-- are values, so `cloneVerification` has no counterpart.
use mathlib.Core.Option
use sre_agent_gitops.Prelude.{
  Bool, Context, List, Option, String, Time, [], before, concat, false, if◌then◌else◌, int_eq,
  is_blank, nat_eq, next_i64, none, pos, some, text_eq, true, ℕ, ◌!=◌, ◌&&◌, ◌==◌, ◌||◌, ◌∷◌,
}
use sre_agent_gitops.Prelude.Dict.{Dict, insert, lookup}
use sre_agent_gitops.Prelude.Method.{
  Method, Result, err, fail_if, fail_on, fails, lift, ok, reads, returns, some_or, writes, ◌>>=◌,
  ◌>>◌,
}
use sre_agent_gitops.Remediation.Keys.{
  ActionKey, Error, action_key, action_key_eq, context, invalid_verification,
  invalid_verification_transition, verification_not_found, verification_not_recovered,
  verification_subject_conflict, verification_version_conflict,
}
use sre_agent_gitops.Remediation.Verification.{
  BeginVerificationCommand, CompleteVerificationCommand, Verification, VerificationStatus, bare,
  pending, recovered, subject_eq, validate_begin, validate_complete, verification_status_eq,
}

pub record MemoryVerificationStore : Type 0 where
  pub verifications : Dict ActionKey Verification

abbrev pub new_memory_verification_store : MemoryVerificationStore
new_memory_verification_store = record { verifications = [] }

abbrev check : Context → ℕ → Method MemoryVerificationStore Error Unit
check ctx k = fail_on (Option.map context (ctx k))

abbrev pub verification_of : ActionKey → MemoryVerificationStore → Option Verification
verification_of key store = lookup key store.verifications

abbrev pub put : ActionKey → Verification → MemoryVerificationStore → MemoryVerificationStore
put key verification store = record store {
  verifications = insert key verification store.verifications;
}

-- the loop of `listByStatus`
unfoldable pub matching : VerificationStatus → Dict ActionKey Verification → List Verification
matching status [] = []
matching status ((key, verification) ∷ entries) =
    let rest = matching status entries in
    if verification.status != status then rest else verification ∷ rest

unfoldable pub list_by_status :
    VerificationStatus → Option Context → Method MemoryVerificationStore Error (List Verification)
list_by_status status none = fails (invalid_verification "context is required")
list_by_status status (some ctx) = do
  check ctx 0
  check ctx 1
  reads (λ store. matching status store.verifications)

abbrev pub list_pending : Option Context → Method MemoryVerificationStore Error (List Verification)
list_pending ctx = list_by_status pending ctx

abbrev pub list_recovered :
    Option Context → Method MemoryVerificationStore Error (List Verification)
list_recovered ctx = list_by_status recovered ctx

-- the loop of `RequireRecovered`
unfoldable pub recovery_of : String → String → Dict ActionKey Verification → Option Error
recovery_of verification_id incident_id [] = some verification_not_found
recovery_of verification_id incident_id ((key, verification) ∷ entries) =
    let rest = recovery_of verification_id incident_id entries in
    if verification.id != verification_id
    then rest
    else if verification.action_key.incident_id != incident_id
    then some verification_not_found
    else if verification.status != recovered
    then some verification_not_recovered
    else none

unfoldable pub require_recovered :
    Context → String → String → Method MemoryVerificationStore Error Unit
require_recovered ctx verification_id incident_id = do
  check ctx 0
  fail_if (is_blank verification_id || is_blank incident_id) bare
  check ctx 1
  failure ← reads (λ store. recovery_of verification_id incident_id store.verifications)
  fail_on failure

-- `digest` gives the first 12 bytes of the SHA-256 of a text, in hexadecimal.
module _ (digest : String → String) where
  unfoldable pub verification_id_for : String → String
  verification_id_for action_attempt_id = concat ("ver-" ∷ digest action_attempt_id ∷ [])

  abbrev pub new_pending : BeginVerificationCommand → Verification
  new_pending command = record {
    id = verification_id_for command.action_attempt.id;
    action_attempt_id = command.action_attempt.id;
    action_key = action_key command.action_attempt.key;
    status = pending;
    subject = command.subject;
    version = pos 1;
    started_at = command.started_at;
    finished_at = none;
    evidence_code = "";
  }

  unfoldable pub new_verification : BeginVerificationCommand → Result Error Verification
  new_verification command = elim (validate_begin command) [
    | some e ↦ err e
    | none ↦ ok (new_pending command)
  ]

  abbrev begin_at :
      BeginVerificationCommand
      → Verification
      → Option Verification
      → Method MemoryVerificationStore Error (Verification × Bool)
  begin_at command verification (some existing) = do
    fail_if (existing.subject != command.subject) verification_subject_conflict
    returns (existing, false)
  begin_at command verification none = do
    writes (put verification.action_key verification)
    returns (verification, true)

  unfoldable pub begin :
      Context
      → BeginVerificationCommand
      → Method MemoryVerificationStore Error (Verification × Bool)
  unfolding new_verification
  begin ctx command = do
    check ctx 0
    verification ← lift (new_verification command)
    check ctx 1
    existing ← reads (verification_of verification.action_key)
    begin_at command verification existing

-- `current.FinishedAt != nil && current.FinishedAt.Equal(at)`
abbrev finished_exactly : Option Time → Time → Bool
finished_exactly none at = false
finished_exactly (some t) at = t == at

unfoldable pub completion_matches : Verification → CompleteVerificationCommand → Bool
completion_matches current command =
    current.status == command.to
    && current.version == next_i64 command.expected_version
    && finished_exactly current.finished_at command.finished_at
    && current.evidence_code == command.evidence_code

abbrev pub completed : Verification → CompleteVerificationCommand → Verification
completed current command = record current {
  status = command.to;
  version = next_i64 current.version;
  finished_at = some command.finished_at;
  evidence_code = command.evidence_code;
}

-- what `Complete` does once it has found the verification
abbrev complete_at :
    CompleteVerificationCommand → Verification → Method MemoryVerificationStore Error Verification
complete_at command current = if completion_matches current command then returns current else do
  fail_if (current.version != command.expected_version) verification_version_conflict
  fail_if (current.status != pending) invalid_verification_transition
  fail_if (before command.finished_at current.started_at)
      (invalid_verification "finish time precedes start time")
  writes (put command.action_key (completed current command))
  returns (completed current command)

unfoldable pub complete :
    Context → CompleteVerificationCommand → Method MemoryVerificationStore Error Verification
complete ctx command = do
  check ctx 0
  fail_on (validate_complete command)
  check ctx 1
  found ← reads (verification_of command.action_key)
  current ← some_or found verification_not_found
  complete_at command current

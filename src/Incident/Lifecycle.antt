-- ===== src/Incident/Lifecycle.antt =====
-- internal/incident/verification_lifecycle.go: a verification begun and completed by the holder of
-- the claim. Each method holds the registry's mutex while it calls the store. A nil registry, which
-- the methods refuse first, is not modelled.
use sre_agent_gitops.Prelude.{
  Bool, Context, Option, String, Time, if◌then◌else◌, inner, is_blank, is_zero_time, nat_eq,
  next_u64, none, some, text_eq, ℕ, ◌!=◌, ◌==◌,
}
use sre_agent_gitops.Prelude.Method.{
  Method, fail_if, fail_on, fails, first_error, reads, returns, some_or, writes, ◌>>=◌, ◌>>◌,
}
use sre_agent_gitops.Incident.{
  Error, Incident, State, diagnosed, invalid_fenced_verification, invalid_verification_command,
  invalid_verification_incident_state, state_eq, verification_lifecycle_unavailable, verifying,
  waiting_approval, wraps,
}
use sre_agent_gitops.Incident.Stores.{VerificationLifecycleStore}
use sre_agent_gitops.Incident.Registry.{Registry, check, put_incident}
use sre_agent_gitops.Incident.Fence.{VerificationFence, on_store, validate_verification_fence}
use mathlib.Core.Option
use sre_agent_gitops.Remediation.Verification.{
  BeginVerificationCommand, CompleteVerificationCommand, Verification, pending, validate_begin,
  validate_complete, verification_status_eq,
}

pub record BeginFencedVerificationCommand : Type 0 where
  pub incident_id : String
  pub expected_version : ℕ  -- uint64
  pub holder_id : String
  pub now : Time
  pub reason_code : String
  pub verification : BeginVerificationCommand

pub record CompleteFencedVerificationCommand : Type 0 where
  pub incident_id : String
  pub expected_version : ℕ  -- uint64
  pub holder_id : String
  pub now : Time
  pub verification : CompleteVerificationCommand

pub record FencedVerificationResult : Type 0 where
  pub incident : Incident
  pub verification : Verification
  pub created : Bool

pub record FencedVerificationCompletionResult : Type 0 where
  pub incident : Incident
  pub verification : Verification

abbrev pub begin_fence : BeginFencedVerificationCommand → VerificationFence
begin_fence command = record {
  incident_id = command.incident_id;
  expected_version = command.expected_version;
  holder_id = command.holder_id;
  now = command.now;
}

abbrev pub complete_fence : CompleteFencedVerificationCommand → VerificationFence
complete_fence command = record {
  incident_id = command.incident_id;
  expected_version = command.expected_version;
  holder_id = command.holder_id;
  now = command.now;
}

-- The checks that both commands begin with.
abbrev validate_fence : VerificationFence → Option Error
validate_fence fence =
    if is_blank fence.incident_id
    then some (invalid_fenced_verification "incident ID is required")
    else if fence.expected_version == 0
    then some (invalid_fenced_verification "expected incident version is required")
    else if is_blank fence.holder_id
    then some (invalid_fenced_verification "claim holder ID is required")
    else if is_zero_time fence.now
    then some (invalid_fenced_verification "current time is required")
    else none

unfoldable pub validate_begin_fenced : BeginFencedVerificationCommand → Option Error
validate_begin_fenced command = first_error (validate_fence (begin_fence command)) (
    if is_blank command.reason_code
    then some (invalid_fenced_verification "reason code is required")
    else first_error (Option.map invalid_verification_command (validate_begin command.verification))
        (if command.verification.action_attempt.key.incident_id != command.incident_id
          then some (invalid_fenced_verification "action attempt incident does not match")
          else none))

unfoldable pub validate_complete_fenced : CompleteFencedVerificationCommand → Option Error
validate_complete_fenced command = first_error (validate_fence (complete_fence command)) (
    first_error (Option.map invalid_verification_command (validate_complete command.verification)) (
      if command.verification.action_key.incident_id != command.incident_id
      then some (invalid_fenced_verification "verification incident does not match")
      else none))

-- `ctx == nil`
abbrev pub required : Option Context → Error → Option Error
required none e = some e
required (some ctx) e = none

-- the `switch current.State` of `BeginFencedVerification`
abbrev pub verifying_from : State → Incident → Option Incident
verifying_from diagnosed current =
    some (record current { state = verifying; version = next_u64 current.version })
verifying_from waiting_approval current =
    some (record current { state = verifying; version = next_u64 current.version })
verifying_from verifying current = some current
verifying_from _ current = none

module _ {S : Type 0} where
  unfoldable pub begin_locked :
      Context
      → BeginFencedVerificationCommand
      → VerificationLifecycleStore S
      → Method (Registry S) Error FencedVerificationResult
  begin_locked ctx command store = do
    current ← validate_verification_fence (begin_fence command)
    next ← some_or (verifying_from current.state current) invalid_verification_incident_state
    begun ←
        on_store (wraps "begin fenced verification") (store.begin (inner ctx) command.verification)
    fail_if (begun.0.status != pending) (invalid_fenced_verification "verification has status")
    writes (put_incident next)
    returns (record { incident = next; verification = begun.0; created = begun.1 })

  abbrev begin_with :
      Option Context
      → BeginFencedVerificationCommand
      → Method (Registry S) Error FencedVerificationResult
  begin_with none command = fails (invalid_fenced_verification "context is required")
  begin_with (some ctx) command = do
    fail_on (validate_begin_fenced command)
    check ctx 0
    check ctx 1
    lifecycle ← reads (λ r. r.verification_lifecycle_store)
    store ← some_or lifecycle verification_lifecycle_unavailable
    begin_locked ctx command store

  unfoldable pub begin_fenced_verification :
      Option Context
      → BeginFencedVerificationCommand
      → Method (Registry S) Error FencedVerificationResult
  begin_fenced_verification ctx command = begin_with ctx command

  unfoldable pub complete_locked :
      Context
      → CompleteFencedVerificationCommand
      → VerificationLifecycleStore S
      → Method (Registry S) Error FencedVerificationCompletionResult
  complete_locked ctx command store = do
    current ← validate_verification_fence (complete_fence command)
    fail_if (current.state != verifying) invalid_verification_incident_state
    verification ←
        on_store (wraps "complete fenced Verification")
          (store.complete (inner ctx) command.verification)
    returns (record { incident = current; verification = verification })

  abbrev complete_with :
      Option Context
      → CompleteFencedVerificationCommand
      → Method (Registry S) Error FencedVerificationCompletionResult
  complete_with none command = fails (invalid_fenced_verification "context is required")
  complete_with (some ctx) command = do
    fail_on (validate_complete_fenced command)
    check ctx 0
    check ctx 1
    lifecycle ← reads (λ r. r.verification_lifecycle_store)
    store ← some_or lifecycle verification_lifecycle_unavailable
    complete_locked ctx command store

  unfoldable pub complete_fenced_verification :
      Option Context
      → CompleteFencedVerificationCommand
      → Method (Registry S) Error FencedVerificationCompletionResult
  complete_fenced_verification ctx command = complete_with ctx command

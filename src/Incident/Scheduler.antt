-- ===== src/Incident/Scheduler.antt =====
-- internal/incident: the schedulers of the verification workers (verification_scheduler.go and
-- verification_resolution_scheduler.go). Each claims the incident of the first verification on the
-- store's list that may be claimed. A nil registry, which the methods refuse first, is not modelled.
use sre_agent_gitops.Prelude.{
  Bool, Context, Duration, List, Option, String, Time, [], if◌then◌else◌, inner, is_blank,
  is_positive, is_zero_time, none, not, some, text_eq, true, ◌!=◌, ◌==◌, ◌||◌, ◌∷◌,
}
use sre_agent_gitops.Prelude.Method.{
  Method, fail_on, fails, reads, returns, some_or, writes, ◌>>=◌, ◌>>◌,
}
use sre_agent_gitops.Incident.{
  Claim, Error, Incident, invalid_pending_verification_claim,
  invalid_recovered_verification_resolution_claim, pending_verification_scheduler_unavailable,
  recovered_verification_resolution_scheduler_unavailable, state_eq, verifying, wraps,
}
use sre_agent_gitops.Incident.Stores.{VerificationLifecycleStore}
use sre_agent_gitops.Incident.Rules.{advanced, is_leased, new_claim}
use sre_agent_gitops.Incident.Registry.{Registry, check, claim_of, incident_of, put_claim}
use sre_agent_gitops.Incident.Fence.{on_store}
use sre_agent_gitops.Remediation.Keys.{Error as RemediationError}
use sre_agent_gitops.Remediation.Verification.{
  Verification, VerificationStatus, pending, recovered, verification_status_eq,
}

-- `ClaimPendingVerificationCommand` and `ClaimRecoveredVerificationResolutionCommand`
pub record ScheduleCommand : Type 0 where
  pub holder_id : String
  pub now : Time
  pub lease_duration : Duration

-- `PendingVerificationClaim` and `RecoveredVerificationResolutionClaim`
pub record VerificationClaim : Type 0 where
  pub verification : Verification
  pub claim : Claim

-- Both commands are validated alike, under a sentinel each.
unfoldable pub validate_schedule : (String → Error) → ScheduleCommand → Option Error
validate_schedule invalid command =
    if is_blank command.holder_id
    then some (invalid "holder ID is required")
    else if is_zero_time command.now
    then some (invalid "current time is required")
    else if not (is_positive command.lease_duration)
    then some (invalid "lease duration must be greater than zero")
    else none

-- `current.ResolutionVerificationID == ""`
abbrev pub is_unresolved : Incident → Bool
is_unresolved current = current.resolution_verification_id == ""

module _ {S : Type 0} where
  -- the tests that skip an incident in the body of either loop
  abbrev claimable_incident :
      (Incident → Bool) → Time → Registry S → Option Incident → Option Incident
  claimable_incident eligible now r none = none
  claimable_incident eligible now r (some current) =
      if current.state != verifying || not (eligible current)
      then none
      else if is_leased now (claim_of current.id r)
      then none
      else some current

  -- the body of either loop
  unfoldable pub claimable :
      VerificationStatus → (Incident → Bool) → Time → Registry S → Verification → Option Incident
  claimable status eligible now r verification =
      if verification.status != status
      then none
      else claimable_incident eligible now r (incident_of verification.action_key.incident_id r)

  -- the loop: nothing is written before the round in which it returns
  unfoldable pub first_claimable :
      VerificationStatus
      → (Incident → Bool)
      → Time
      → Registry S
      → List Verification
      → Option (Verification × Incident)
  first_claimable status eligible now r [] = none
  first_claimable status eligible now r (verification ∷ rest) =
      let later = first_claimable status eligible now r rest in
      elim (claimable status eligible now r verification) [
        | none ↦ later
        | some current ↦ some (verification, current)
      ]

  -- what the loop does with what it found
  abbrev schedule_found :
      ScheduleCommand
      → Option (Verification × Incident)
      → Method (Registry S) Error (Option VerificationClaim)
  schedule_found command none = returns none
  schedule_found command (some (verification, current)) = do
    let granted = new_claim (advanced current) command.holder_id command.now command.lease_duration
    writes (put_claim granted command.now)
    returns (some (record { verification = verification; claim = granted }))

  unfoldable pub schedule_from :
      VerificationStatus
      → (Incident → Bool)
      → String
      → Context
      → ScheduleCommand
      → (Context → Method S RemediationError (List Verification))
      → Method (Registry S) Error (Option VerificationClaim)
  schedule_from status eligible text ctx command list = do
    listed ← on_store (wraps text) (list (inner ctx))
    check ctx 2
    found ← reads (λ r. first_claimable status eligible command.now r listed)
    schedule_found command found

  abbrev pub pending_source :
      Option (VerificationLifecycleStore S)
      → Option (Context → Method S RemediationError (List Verification))
  pending_source none = none
  pending_source (some store) = store.list_pending

  abbrev pub recovered_source :
      Option (VerificationLifecycleStore S)
      → Option (Context → Method S RemediationError (List Verification))
  recovered_source none = none
  recovered_source (some store) = store.list_recovered

  abbrev claim_pending_with :
      Option Context → ScheduleCommand → Method (Registry S) Error (Option VerificationClaim)
  claim_pending_with none command = fails (invalid_pending_verification_claim "context is required")
  claim_pending_with (some ctx) command = do
    fail_on (validate_schedule invalid_pending_verification_claim command)
    check ctx 0
    check ctx 1
    source ← reads (λ r. pending_source r.verification_lifecycle_store)
    list ← some_or source pending_verification_scheduler_unavailable
    schedule_from pending (λ _. true) "list pending verifications" ctx command list

  unfoldable pub claim_pending_verification :
      Option Context → ScheduleCommand → Method (Registry S) Error (Option VerificationClaim)
  claim_pending_verification ctx command = claim_pending_with ctx command

  abbrev claim_recovered_with :
      Option Context → ScheduleCommand → Method (Registry S) Error (Option VerificationClaim)
  claim_recovered_with none command =
      fails (invalid_recovered_verification_resolution_claim "context is required")
  claim_recovered_with (some ctx) command = do
    fail_on (validate_schedule invalid_recovered_verification_resolution_claim command)
    check ctx 0
    check ctx 1
    source ← reads (λ r. recovered_source r.verification_lifecycle_store)
    list ← some_or source recovered_verification_resolution_scheduler_unavailable
    schedule_from recovered is_unresolved "list recovered verifications" ctx command list

  unfoldable pub claim_recovered_verification_resolution :
      Option Context → ScheduleCommand → Method (Registry S) Error (Option VerificationClaim)
  claim_recovered_verification_resolution ctx command = claim_recovered_with ctx command

-- ===== src/Incident/Registry.antt =====
-- internal/incident/registry.go: the methods of `Registry` on incidents, claims and transitions. A
-- method holds the registry's mutex from its first look at the maps to its end, so it is one step.
use sre_agent_gitops.Incident.Rules.{
  advanced, audit_event, idempotency_key, is_held_by_other, is_leased, is_valid_transition,
  new_claim, new_incident, or_zero, transitioned,
}
use sre_agent_gitops.Prelude.{
  Bool, Context, List, Option, Sha256, String, Time, [], false, if◌then◌else◌, nat_eq, next_u64,
  none, not, some, text_eq, true, ℕ, ◌!=◌, ◌&&◌, ◌++◌, ◌==◌, ◌∷◌,
}
use sre_agent_gitops.Prelude.Dict.{Dict, delete, insert, lookup}
use sre_agent_gitops.Prelude.Method.{
  Method, fail_if, fail_on, lift, reads, returns, some_or, writes, ◌>>=◌, ◌>>◌,
}
use sre_agent_gitops.Incident.{
  Claim, ClaimAuditEvent, ClaimCommand, Error, Incident, Observation, TransitionCommand, context,
  invalid_transition, lease_held, not_found, resolved, state_eq, validate_claim,
  validate_transition, version_conflict,
}
use sre_agent_gitops.Incident.Stores.{RecoveryEvidenceStore, VerificationLifecycleStore}
use mathlib.Core.Option

-- `store` is the state of the store behind the interfaces.
pub record Registry (S : Type 0) : Type 0 where
  pub recovery_evidence_store : Option (RecoveryEvidenceStore S)
  pub verification_lifecycle_store : Option (VerificationLifecycleStore S)
  pub active_by_key : Dict String String
  pub incidents_by_id : Dict String Incident
  pub claims_by_incident_id : Dict String Claim
  pub claim_history_by_incident_id : Dict String (List ClaimAuditEvent)
  pub next_sequence : ℕ  -- uint64
  pub store : S

-- what a read of the map of histories yields
abbrev pub or_empty : Option (List ClaimAuditEvent) → List ClaimAuditEvent
or_empty none = []
or_empty (some history) = history

module _ {S : Type 0} where
  abbrev pub new_memory_registry : S → Registry S
  new_memory_registry store = record {
    recovery_evidence_store = none;
    verification_lifecycle_store = none;
    active_by_key = [];
    incidents_by_id = [];
    claims_by_incident_id = [];
    claim_history_by_incident_id = [];
    next_sequence = 0;
    store = store;
  }

  abbrev pub new_registry_with_recovery_evidence_store : RecoveryEvidenceStore S → S → Registry S
  new_registry_with_recovery_evidence_store evidence store =
      let registry = new_memory_registry store in
      record registry { recovery_evidence_store = some evidence }

  abbrev pub new_registry_with_verification_lifecycle_store :
      VerificationLifecycleStore S → S → Registry S
  new_registry_with_verification_lifecycle_store lifecycle store =
      let registry = new_memory_registry store in
      record registry {
        recovery_evidence_store = some lifecycle.evidence;
        verification_lifecycle_store = some lifecycle;
      }

  -- `ctx.Err()`, the `k`-th time
  abbrev pub check : Context → ℕ → Method (Registry S) Error Unit
  check ctx k = fail_on (Option.map context (ctx k))

  abbrev pub incident_of : String → Registry S → Option Incident
  incident_of id r = lookup id r.incidents_by_id

  abbrev pub claim_of : String → Registry S → Option Claim
  claim_of id r = lookup id r.claims_by_incident_id

  abbrev pub history_of : String → Registry S → List ClaimAuditEvent
  history_of id r = or_empty (lookup id r.claim_history_by_incident_id)

  abbrev pub put_incident : Incident → Registry S → Registry S
  put_incident incident r = record r {
    incidents_by_id = insert incident.id incident r.incidents_by_id;
  }

  -- What `Claim` and both schedulers write for an incident whose version they have advanced.
  unfoldable pub put_claim : Claim → Time → Registry S → Registry S
  put_claim claim now r = record r {
    incidents_by_id = insert claim.incident.id claim.incident r.incidents_by_id;
    claims_by_incident_id = insert claim.incident.id claim r.claims_by_incident_id;
    claim_history_by_incident_id =
        insert claim.incident.id (history_of claim.incident.id r ++ audit_event claim now ∷ [])
          r.claim_history_by_incident_id;
  }

  unfoldable pub claim : Context → ClaimCommand → Method (Registry S) Error Claim
  claim ctx command = do
    check ctx 0
    fail_on (validate_claim command)
    found ← reads (incident_of command.incident_id)
    incident ← some_or found not_found
    fail_if (incident.version != command.expected_version) version_conflict
    current_claim ← reads (claim_of incident.id)
    fail_if
        (is_held_by_other command.holder_id current_claim && is_leased command.now current_claim)
        lease_held
    let granted = new_claim (advanced incident) command.holder_id command.now command.lease_duration
    writes (put_claim granted command.now)
    returns granted

  unfoldable pub claim_history : Context → String → Method (Registry S) Error (List ClaimAuditEvent)
  claim_history ctx incident_id = do check ctx 0; reads (history_of incident_id)

  -- `delete(registry.activeByKey, ...)`, once the incident is resolved
  abbrev pub retire : Incident → Registry S → Registry S
  retire incident r =
      if incident.state == resolved
      then record r { active_by_key = delete incident.idempotency_key r.active_by_key }
      else r

  unfoldable pub transition : Context → TransitionCommand → Method (Registry S) Error Incident
  unfolding is_valid_transition
  transition ctx command = do
    check ctx 0
    fail_on (validate_transition command)
    found ← reads (incident_of command.incident_id)
    current ← some_or found not_found
    fail_if (current.version != command.expected_version) version_conflict
    fail_if (not (is_valid_transition current.state command.to)) (invalid_transition "")
    let next = transitioned current command
    writes (put_incident next)
    writes (retire next)
    returns next

-- `sha` is the SHA-256 function.
module _ {S : Type 0} (sha : Sha256) where
  -- A key that is active for an incident the registry does not hold reads as the zero incident.
  abbrev observe_key : String → Option String → Method (Registry S) Error (Incident × Bool)
  observe_key key (some incident_id) = do
    found ← reads (incident_of incident_id)
    returns (or_zero found, false)
  observe_key key none = do
    writes (λ r. record r { next_sequence = next_u64 r.next_sequence })
    sequence ← reads (λ r. r.next_sequence)
    let incident = new_incident sha key sequence
    writes (λ r. record r { active_by_key = insert key incident.id r.active_by_key })
    writes (put_incident incident)
    returns (incident, true)

  unfoldable pub observe : Context → Observation → Method (Registry S) Error (Incident × Bool)
  observe ctx observation = do
    check ctx 0
    key ← lift (idempotency_key sha observation)
    active ← reads (λ r. lookup key r.active_by_key)
    observe_key key active

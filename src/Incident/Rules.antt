-- ===== src/Incident/Rules.antt =====
-- internal/incident/registry.go: the records that the methods make, the tests that they apply, and the
-- identifiers, all of which look at no state.
use sre_agent_gitops.Prelude.{
  Bool, Duration, Option, Sha256, String, Time, [], add_duration, before, concat, false,
  if◌then◌else◌, is_blank, join_nul, next_u64, none, some, text_eq, ℕ, ◌!=◌, ◌&&◌, ◌==◌, ◌||◌, ◌∷◌,
}
use sre_agent_gitops.Prelude.Method.{Result, err, ok}
use sre_agent_gitops.Incident.{
  Claim, ClaimAuditEvent, Error, Incident, Observation, State, TransitionCommand, detected,
  diagnosed, invalid_observation, no_binding, other, resolved, state_eq, verifying,
  waiting_approval,
}
use sre_agent_gitops.Prelude.Text.{concat, decimal, is_blank, join_nul}

abbrev pub advanced : Incident → Incident
advanced incident = record incident { version = next_u64 incident.version }

abbrev pub new_claim : Incident → String → Time → Duration → Claim
new_claim incident holder_id now lease = record {
  incident = incident;
  holder_id = holder_id;
  expires_at = add_duration now lease;
}

abbrev pub audit_event : Claim → Time → ClaimAuditEvent
audit_event claim now = record {
  incident_id = claim.incident.id;
  incident_version = claim.incident.version;
  holder_id = claim.holder_id;
  acquired_at = now;
  expires_at = claim.expires_at;
}

-- `claimed && ... && now.Before(currentClaim.ExpiresAt)`
abbrev pub is_leased : Time → Option Claim → Bool
is_leased now none = false
is_leased now (some claim) = before now claim.expires_at

abbrev pub is_held_by_other : String → Option Claim → Bool
is_held_by_other holder_id none = false
is_held_by_other holder_id (some claim) = claim.holder_id != holder_id

unfoldable pub is_valid_transition : State → State → Bool
is_valid_transition from to =
    (from == detected && (to == diagnosed || to == resolved))
    || (from == diagnosed && (to == waiting_approval || to == verifying || to == resolved))
    || (from == waiting_approval && to == verifying)

abbrev pub transitioned : Incident → TransitionCommand → Incident
transitioned current command = record current {
  state = command.to;
  version = next_u64 current.version;
  approval_binding =
      if command.to == waiting_approval then command.approval_binding else current.approval_binding;
}

unfoldable pub idempotency_key_for : Sha256 → Observation → String
idempotency_key_for sha observation = sha.hex (
    join_nul (
      observation.source ∷ observation.cluster ∷ observation.alert_name ∷ observation.target.kind
      ∷ observation.target.namespace ∷ observation.target.name ∷ observation.target.uid ∷ []))

unfoldable pub idempotency_key : Sha256 → Observation → Result Error String
idempotency_key sha observation =
    if is_blank observation.target.uid
    then err (invalid_observation "target UID is required")
    else ok (idempotency_key_for sha observation)

unfoldable pub incident_id_for : Sha256 → String → ℕ → String
incident_id_for sha key sequence =
    concat ("inc-" ∷ sha.hex12 (join_nul (key ∷ decimal sequence ∷ [])) ∷ [])

abbrev pub new_incident : Sha256 → String → ℕ → Incident
new_incident sha key sequence = record {
  id = incident_id_for sha key sequence;
  state = detected;
  version = 1;
  approval_binding = no_binding;
  resolution_verification_id = "";
  idempotency_key = key;
}

-- `Incident{}`
abbrev pub zero_incident : Incident
zero_incident = record {
  id = "";
  state = other "";
  version = 0;
  approval_binding = no_binding;
  resolution_verification_id = "";
  idempotency_key = "";
}

-- what a read of the map of incidents yields
abbrev pub or_zero : Option Incident → Incident
or_zero none = zero_incident
or_zero (some incident) = incident

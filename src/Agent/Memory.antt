-- ===== src/Agent/Memory.antt =====
-- action_memory.go and the types of configmap_remediation_state.go that it uses: what the process
-- remembers of the incidents it has handled and the actions it has attempted. Each method holds the
-- mutex; the contexts that the methods get are not used.
pub mod Remembering
use sre_agent_gitops.Prelude.{
  Bool, Duration, List, Option, String, Time, [], before, false, if◌then◌else◌, is_positive,
  is_some, ltb, negsuc, none, pos, some, text_eq, suc, ℕ, ◌&&◌, ◌++◌, ◌+◌, ◌-◌, ◌∷◌,
}
use sre_agent_gitops.Prelude.Dict.{Dict, insert, lookup}
use sre_agent_gitops.Prelude.Method.{Method, fails, writes}

pub record RemediationSnapshot : Type 0 where
  pub duplicate : Bool
  pub in_cooldown : Bool
  pub attempts_in_window : ℕ

pub record RemediationStateQuery : Type 0 where
  pub incident_id : String
  pub target_key : String
  pub now : Time
  pub cooldown : Duration
  pub attempt_window : Duration

-- `other` is a text that none of the constants spells.
pub data RecordKind : Type 0 where
  incident_handled action_attempted : RecordKind
  other : String → RecordKind

pub record RemediationStateRecord : Type 0 where
  pub kind : RecordKind
  pub incident_id : String
  pub target_key : String
  pub occurred_at : Time

pub record RemediationMemory : Type 0 where
  pub handled_at : Dict String Time
  pub last_action_at : Dict String Time
  pub attempts_by_scope : Dict String (List Time)

abbrev pub new_remediation_memory : RemediationMemory
new_remediation_memory = record { handled_at = []; last_action_at = []; attempts_by_scope = [] }

-- `t.Add(-d)` for a positive `d`, of which the zero time is the earliest that is told apart
abbrev cutoff : Time → Duration → Time
cutoff now (pos n) = now - n
cutoff now (negsuc n) = now + suc n

-- the entries that are not before the cutoff
unfoldable pub retain : Time → Dict String Time → Dict String Time
retain from [] = []
retain from ((key, at) ∷ entries) =
    let later = retain from entries in if before at from then later else (key, at) ∷ later

unfoldable pub retain_times : Time → List Time → List Time
retain_times from [] = []
retain_times from (at ∷ times) =
    let later = retain_times from times in if before at from then later else at ∷ later

-- a scope whose attempts are all before the cutoff goes
abbrev pub cons_scope : String → List Time → Dict String (List Time) → Dict String (List Time)
cons_scope key [] later = later
cons_scope key (at ∷ times) later = (key, at ∷ times) ∷ later

unfoldable pub retain_scopes : Time → Dict String (List Time) → Dict String (List Time)
retain_scopes from [] = []
retain_scopes from ((key, times) ∷ entries) =
    let later = retain_scopes from entries in cons_scope key (retain_times from times) later

abbrev prune_attempts : Time → Duration → RemediationMemory → RemediationMemory
prune_attempts now window memory =
    if is_positive window
    then record memory {
      handled_at = retain (cutoff now window) memory.handled_at;
      attempts_by_scope = retain_scopes (cutoff now window) memory.attempts_by_scope;
    }
    else memory

abbrev prune_actions : Time → Duration → RemediationMemory → RemediationMemory
prune_actions now cooldown memory =
    if is_positive cooldown
    then record memory { last_action_at = retain (cutoff now cooldown) memory.last_action_at }
    else memory

unfoldable pub prune : Time → Duration → Duration → RemediationMemory → RemediationMemory
prune now cooldown window memory = prune_actions now cooldown (prune_attempts now window memory)

-- `now.Sub(at) < d`, for a positive `d`
abbrev pub is_within : Time → Duration → Option Time → Bool
is_within now cooldown none = false
is_within now (pos n) (some at) = ltb now (at + n)
is_within now (negsuc n) (some at) = ltb (now + suc n) at

abbrev pub count : Option (List Time) → ℕ
count none = 0
count (some []) = 0
count (some (at ∷ times)) = count (some times) + 1

abbrev snapshot_of : RemediationStateQuery → RemediationMemory → RemediationSnapshot
snapshot_of query memory = record {
  duplicate = is_some (lookup query.incident_id memory.handled_at);
  in_cooldown =
      is_positive query.cooldown
      && is_within query.now query.cooldown (lookup query.target_key memory.last_action_at);
  attempts_in_window = count (lookup query.target_key memory.attempts_by_scope);
}

-- `Snapshot`
unfoldable pub snapshot :
    RemediationStateQuery → RemediationMemory → RemediationSnapshot × RemediationMemory
snapshot query memory =
    let pruned = prune query.now query.cooldown query.attempt_window memory in
    (snapshot_of query pruned, pruned)

abbrev pub times_of : Option (List Time) → List Time
times_of none = []
times_of (some times) = times

unfoldable pub record_attempt : String → String → Time → RemediationMemory → RemediationMemory
record_attempt incident_id target_key now memory = record {
  handled_at = insert incident_id now memory.handled_at;
  last_action_at = insert target_key now memory.last_action_at;
  attempts_by_scope =
      insert target_key (times_of (lookup target_key memory.attempts_by_scope) ++ (now ∷ []))
        memory.attempts_by_scope;
}

unfoldable pub mark_incident : String → Time → RemediationMemory → RemediationMemory
mark_incident incident_id now memory = record memory {
  handled_at = insert incident_id now memory.handled_at;
}

-- `Record`, whose error names the kind
abbrev record_kind : RemediationStateRecord → RecordKind → Method RemediationMemory String Unit
record_kind entry incident_handled = writes (mark_incident entry.incident_id entry.occurred_at)
record_kind entry action_attempted =
    writes (record_attempt entry.incident_id entry.target_key entry.occurred_at)
record_kind entry (other text) = fails text

unfoldable pub record_state : RemediationStateRecord → Method RemediationMemory String Unit
record_state entry = record_kind entry entry.kind

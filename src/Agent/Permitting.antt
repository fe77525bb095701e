-- ===== src/Agent/Permitting.antt =====
-- decision.go and policy.go: what the tests on a decision and on a pod's past ask for.
use sre_agent_gitops.Prelude.{
  List, String, [], arith, eq_iff, false, int_leb, is_blank, none, pos, negsuc, text_eq, true, ◌<◌,
  ◌∷◌, ◌≡◌, ◌⊎◌, ◌↔◌, ◌||◌, ◌≢◌, ℕ, ℤ,
}
use sre_agent_gitops.Agent.Decision.{Decision, Floats, has_blank, validate_decision}
use sre_agent_gitops.Agent.Action.Resuming.{contains_string, reaches}

abbrev pub Listed : String → List String → Type 0
Listed candidate [] = ⊥
Listed candidate (value ∷ values) = (value ≡ candidate) ⊎ Listed candidate values

pub contains_string-Listed :
    (values : List String) (candidate : String)
    → (contains_string values candidate ≡ true) ↔ Listed candidate values
unfolding contains_string
contains_string-Listed [] candidate = ground arith
contains_string-Listed (value ∷ values) candidate =
    ground (arith, contains_string-Listed values candidate, eq_iff value candidate)

-- A maximum that is positive, and is not reached.
abbrev pub Below : ℕ → ℤ → Type 0
Below attempts (pos maximum) = attempts < maximum
Below attempts (negsuc n) = ⊥

pub reaches-Below :
    (attempts : ℕ) (maximum : ℤ)
    → ((int_leb maximum (pos 0) || reaches attempts maximum) ≡ false) ↔ Below attempts maximum
reaches-Below attempts (pos maximum) = ground arith
reaches-Below attempts (negsuc n) = ground arith

-- None of the texts is blank.
abbrev pub NoneBlank : List String → Type 0
NoneBlank [] = Unit {0}
NoneBlank (item ∷ items) = (is_blank item ≡ false) × NoneBlank items

has_blank-NoneBlank : (items : List String) → (has_blank items ≡ false) ↔ NoneBlank items
unfolding has_blank
has_blank-NoneBlank [] = ground arith
has_blank-NoneBlank (item ∷ items) = ground (arith, has_blank-NoneBlank items)

module _ (floats : Floats) where
  -- A decision to restart a pod that is well formed.
  pub record Restarts (d : Decision) : Type 0 where
    pub schema : d.schema_version ≡ "v1"
    pub incident_id : is_blank d.incident_id ≡ false
    pub action : d.action ≡ "RESTART_POD"
    pub cluster : is_blank d.target.cluster ≡ false
    pub namespace : is_blank d.target.namespace ≡ false
    pub kind : d.target.kind ≡ "Pod"
    pub name : is_blank d.target.name ≡ false
    pub uid : is_blank d.target.uid ≡ false
    pub reason : is_blank d.reason ≡ false
    pub has_evidence : d.evidence ≢ []
    pub evidence : NoneBlank d.evidence
    pub not_below_zero : floats.less d.confidence floats.zero ≡ false
    pub not_above_one : floats.less floats.one d.confidence ≡ false
    pub risk : (d.risk ≡ "low") ⊎ (d.risk ≡ "medium") ⊎ (d.risk ≡ "high")
    pub requires_approval : d.requires_approval ≡ true

  pub valid-Restarts :
      (d : Decision) → validate_decision floats d ≡ none → d.action ≡ "RESTART_POD" → Restarts d
  unfolding validate_decision
  valid-Restarts d h a = record {
    schema = ground (arith, eq_iff d.schema_version "v1");
    incident_id = ground arith;
    action = a;
    cluster = ground arith;
    namespace = ground arith;
    kind = ground (arith, eq_iff d.target.kind "Pod");
    name = ground arith;
    uid = ground arith;
    reason = ground arith;
    has_evidence = λ e. absurd (ground arith);
    evidence = ground (arith, has_blank-NoneBlank d.evidence);
    not_below_zero = ground arith;
    not_above_one = ground arith;
    risk = ground (arith, eq_iff d.risk "low", eq_iff d.risk "medium", eq_iff d.risk "high");
    requires_approval = ground (arith, eq_iff d.action "RESTART_POD");
  }

  pub Restarts-valid : (d : Decision) → Restarts d → validate_decision floats d ≡ none
  unfolding validate_decision
  Restarts-valid d h = ground (
    arith,
    eq_iff d.schema_version "v1",
    eq_iff d.action "RESTART_POD",
    eq_iff d.target.kind "Pod",
    has_blank-NoneBlank d.evidence,
    eq_iff d.risk "low",
    eq_iff d.risk "medium",
    eq_iff d.risk "high",
  )

-- ===== src/Remediation/Verification/Invariant.antt =====
-- internal/remediation/verification_store.go: the fields of a verification, status by status.
use sre_agent_gitops.Prelude.{
  List, Option, String, Time, [], arith, false, is_blank, none, pos, some, ◌<◌, ◌∷◌, ◌≡◌, ◌≤◌,
}
use sre_agent_gitops.Remediation.Keys.{ActionKey, action_key, action_key_eqb_iff}
use sre_agent_gitops.Remediation.Verification.{
  BeginVerificationCommand, CompleteVerificationCommand, Verification, VerificationStatus, other,
  pending, validate_begin, validate_complete,
}
use sre_agent_gitops.Remediation.Verification.Store.{
  MemoryVerificationStore, completed, new_pending, put, verification_of,
}
use sre_agent_gitops.Remediation.Verification.Steps.{
  Call, Change, Completes, begun, ended, lookup-put, run, step, step-Change, unchanged,
}

-- A verification ends no earlier than it started.
abbrev EndedAfter : Time → Option Time → Type 0
EndedAfter start none = ⊥
EndedAfter start (some t) = start ≤ t

-- An outcome has its time and its evidence.
abbrev Ended : Verification → Type 0
Ended v =
    (v.version ≡ pos 2) × EndedAfter v.started_at v.finished_at × (is_blank v.evidence_code ≡ false)

-- What the fields say, status by status.
abbrev Outcome : VerificationStatus → Verification → Type 0
Outcome pending v = (v.version ≡ pos 1) × (v.finished_at ≡ none) × (v.evidence_code ≡ "")
Outcome (other s) v = ⊥
Outcome _ v = Ended v

pub record IsSound (key : ActionKey) (v : Verification) : Type 0 where
  pub keyed : v.action_key ≡ key
  pub dated : 0 < v.started_at
  pub outcome : Outcome v.status v

-- At a key there is no verification, or a sound one.
abbrev pub SoundAt : ActionKey → Option Verification → Type 0
SoundAt k none = Unit {0}
SoundAt k (some v) = IsSound k v

abbrev pub AllSound : MemoryVerificationStore → Type 0
AllSound s = (k : ActionKey) → SoundAt k (verification_of k s)

put-AllSound :
    (k : ActionKey) (v : Verification) (s : MemoryVerificationStore)
    → IsSound k v
    → AllSound s
    → AllSound (put k v s)
put-AllSound k v s new h j = rw (lookup-put k j v s) (ground (arith, action_key_eqb_iff k j, h j))

completed-IsSound :
    (c : CompleteVerificationCommand) (x : Verification)
    → Completes c x
    → IsSound c.action_key x
    → IsSound c.action_key (completed x c)
unfolding validate_complete
completed-IsSound c x d h = ground arith

module _ (digest : String → String) where
  new-IsSound :
      (c : BeginVerificationCommand)
      → validate_begin c ≡ none
      → IsSound (action_key c.action_attempt.key) (new_pending digest c)
  unfolding validate_begin
  new-IsSound c v = ground arith

  change-AllSound : (s t : MemoryVerificationStore) → Change digest s t → AllSound s → AllSound t
  change-AllSound s t (unchanged e) h = rw e h
  change-AllSound s t (begun c v n e) h =
      rw e (
        put-AllSound (action_key c.action_attempt.key) (new_pending digest c) s (new-IsSound c v) h)
  change-AllSound s t (ended c x f d e) h = rw e (
      put-AllSound c.action_key (completed x c) s
        (completed-IsSound c x d (rw f at (h c.action_key))) h)

  -- Every run of calls keeps the verifications sound: each stands at its own key and has a start. A
  -- pending one has version 1, no end and no evidence; any other is recovered, not recovered or
  -- inconclusive, with version 2, an end no earlier than its start, and evidence that is not blank.
  pub verifications-AllSound :
      (calls : List Call) (s : MemoryVerificationStore) → AllSound s → AllSound (run digest calls s)
  unfolding run
  verifications-AllSound [] s h = h
  verifications-AllSound (c ∷ cs) s h =
      verifications-AllSound cs (step digest c s)
        (change-AllSound s (step digest c s) (step-Change digest c s) h)

-- ===== src/Remediation/Verification/Finality.antt =====
-- internal/remediation/verification_store.go: verifications over runs of calls.
use sre_agent_gitops.Prelude.{List, Option, String, [], arith, none, refl, some, ◌∷◌, ◌≡◌, ◌≢◌}
use sre_agent_gitops.Remediation.Keys.{ActionKey, action_key, action_key_eqb_iff}
use sre_agent_gitops.Remediation.Verification.{Verification, pending}
use sre_agent_gitops.Remediation.Verification.Store.{
  MemoryVerificationStore, completed, new_pending, verification_of,
}
use sre_agent_gitops.Remediation.Verification.Steps.{
  Call, Change, begun, ended, lookup-put, run, step, step-Change, unchanged,
}

-- The same verification, whatever its outcome.
pub record SameVerification (a b : Verification) : Type 0 where
  pub id : b.id ≡ a.id
  pub action_attempt_id : b.action_attempt_id ≡ a.action_attempt_id
  pub subject : b.subject ≡ a.subject
  pub started_at : b.started_at ≡ a.started_at

abbrev pub Continues : Verification → Option Verification → Type 0
Continues a none = ⊥
Continues a (some b) = SameVerification a b × (a.status ≢ pending → b ≡ a)

module _ (digest : String → String) where
  change-Continues :
      (s t : MemoryVerificationStore) (k : ActionKey) (a : Verification)
      → Change digest s t
      → Continues a (verification_of k s)
      → Continues a (verification_of k t)
  change-Continues s t k a (unchanged e) h = rw e h
  change-Continues s t k a (begun c v n e) h = rw e (
      rw (lookup-put (action_key c.action_attempt.key) k (new_pending digest c) s)
        (ground (arith, action_key_eqb_iff (action_key c.action_attempt.key) k)))
  change-Continues s t k a (ended c x f d e) h = rw e (
      rw (lookup-put c.action_key k (completed x c) s)
        (ground (arith, action_key_eqb_iff c.action_key k)))

  -- Once an action has a verification, every run of calls leaves it with that verification: the id,
  -- the attempt, the subject and the start are kept for good, and one with an outcome is kept whole.
  pub verifications-Continues :
      (calls : List Call) (s : MemoryVerificationStore) (k : ActionKey) (a : Verification)
      → verification_of k s ≡ some a
      → Continues a (verification_of k (run digest calls s))
  unfolding run
  verifications-Continues calls s k a h = go calls s (
      rw h (
        record { id = refl; action_attempt_id = refl; subject = refl; started_at = refl },
        λ _. refl,
      ))
    where
      go :
          (calls : List Call) (s : MemoryVerificationStore)
          → Continues a (verification_of k s)
          → Continues a (verification_of k (run digest calls s))
      go [] s h = h
      go (c ∷ cs) s h =
          go cs (step digest c s)
            (change-Continues s (step digest c s) k a (step-Change digest c s) h)

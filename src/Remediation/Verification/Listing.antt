-- ===== src/Remediation/Verification/Listing.antt =====
-- What the schedulers read: the verifications of one status.
use sre_agent_gitops.Prelude.{none, some, Context, List, [], arith, ◌↔◌, ◌∷◌, ◌≡◌, ◌⊎◌, Option}
use sre_agent_gitops.Prelude.Dict.{Dict}
use sre_agent_gitops.Prelude.Method.{final, ok, result}
use sre_agent_gitops.Remediation.Keys.{ActionKey}
use sre_agent_gitops.Remediation.Verification.{Verification, VerificationStatus, status_eqb_iff}
use sre_agent_gitops.Remediation.Verification.Store.{
  MemoryVerificationStore, list_by_status, matching,
}
use sre_agent_gitops.Remediation.Verification.Evidence.{Holds}

abbrev pub Listed : Verification → List Verification → Type 0
Listed v [] = ⊥
Listed v (w ∷ ws) = (w ≡ v) ⊎ Listed v ws

matching-Holds :
    (status : VerificationStatus) (v : Verification) (m : Dict ActionKey Verification)
    → Listed v (matching status m) ↔ Holds (λ w. (w ≡ v) × (w.status ≡ status)) m
unfolding matching
matching-Holds status v [] = (λ h. h, λ h. h)
matching-Holds status v ((k, w) ∷ m) =
    let ih = matching-Holds status v m in
    (
      λ h. ground (arith, ih.0, status_eqb_iff w.status status),
      λ h. ground (arith, ih.1, status_eqb_iff w.status status),
    )

-- A listing that succeeds changes nothing, and a verification is on it exactly if it is stored and
-- has the status asked for.
pub list_by_status_lem :
    (status : VerificationStatus) (ctx : Option Context) (s : MemoryVerificationStore)
    (listed : List Verification)
    → result (list_by_status status ctx) s ≡ ok listed
    → (final (list_by_status status ctx) s ≡ s)
      × ((v : Verification)
          → Listed v listed ↔ Holds (λ w. (w ≡ v) × (w.status ≡ status)) s.verifications)
unfolding list_by_status
list_by_status_lem status none s listed h = absurd (ground arith)
list_by_status_lem status (some ctx) s listed h =
    (ground arith, λ v. rw (← same) (matching-Holds status v s.verifications))
  where
    same : matching status s.verifications ≡ listed
    same = ground arith

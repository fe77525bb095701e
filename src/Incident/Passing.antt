-- ===== src/Incident/Passing.antt =====
-- internal/incident: who passes the fence.
use sre_agent_gitops.Prelude.{
  Option-cases, arith, eq_iff, inl, inr, refl, some, true, ◌<◌, ◌≡◌, ◌⊎◌,
}
use sre_agent_gitops.Prelude.Method.{Result, err, final, ok, result}
use sre_agent_gitops.Incident.{Claim, Error, Incident}
use sre_agent_gitops.Incident.Registry.{Registry, claim_of, history_of, incident_of}
use sre_agent_gitops.Incident.Fence.{VerificationFence, is_audited, validate_verification_fence}

-- The incident and the claim with which a fence is passed.
pub record Passes {S : Type 0} (f : VerificationFence) (x : Incident) (c : Claim) (r : Registry S)
    : Type 0 where
  pub found : incident_of f.incident_id r ≡ some x
  pub current : x.version ≡ f.expected_version
  pub claimed : claim_of f.incident_id r ≡ some c
  pub holder : c.holder_id ≡ f.holder_id
  pub claimed_version : c.incident.version ≡ f.expected_version
  pub audited : is_audited f c (history_of f.incident_id r) ≡ true
  pub in_time : f.now < c.expires_at

module _ {S : Type 0} where
  pub fence_changes_nothing :
      (f : VerificationFence) (r : Registry S) → final (validate_verification_fence f) r ≡ r
  unfolding validate_verification_fence
  fence_changes_nothing f r = ground arith

  pub fence-passed :
      (f : VerificationFence) (x : Incident) (c : Claim) (r : Registry S)
      → Passes f x c r
      → validate_verification_fence f r ≡ (ok x, r)
  unfolding validate_verification_fence
  fence-passed f x c r h = ground (arith, eq_iff c.holder_id f.holder_id)

  pub passed-fence :
      (f : VerificationFence) (x : Incident) (r : Registry S)
      → result (validate_verification_fence f) r ≡ ok x
      → (c : Claim) × Passes f x c r
  unfolding validate_verification_fence
  passed-fence f x r h = elim (Option-cases (claim_of f.incident_id r)) [
    | inl e ↦ absurd (ground arith)
    | inr (c, e) ↦ (c, ground (arith, eq_iff c.holder_id f.holder_id))
  ]

  -- A fence is passed, with the incident and a claim, or refused; nothing is changed either way.
  abbrev pub FenceOutcome : VerificationFence → Registry S → Type 0
  FenceOutcome f r =
      ((e : Error) × (validate_verification_fence f r ≡ (err e, r)))
      ⊎ ((x : Incident) × (c : Claim) × Passes f x c r
          × (validate_verification_fence f r ≡ (ok x, r)))

  pub fence_cases : (f : VerificationFence) (r : Registry S) → FenceOutcome f r
  fence_cases f r = go (result (validate_verification_fence f) r) refl
    where
      go :
          (o : Result Error Incident)
          → result (validate_verification_fence f) r ≡ o
          → FenceOutcome f r
      go (err e) h = inl (e, ground (arith, fence_changes_nothing f r))
      go (ok x) h = let (c, p) = passed-fence f x r h in inr (x, c, p, fence-passed f x c r p)

-- ===== src/Scenarios/Verifications.antt =====
-- Runs of the verification store.
use mathlib.Core.List.{Permᴰ}
use mathlib.Core.List.Permᴰ
use mathlib.Core.Path.{subst, sym}
use sre_agent_gitops.Prelude.Text.{is_blank}
use sre_agent_gitops.Prelude.{
  some, refl, true, false, [], ◌∷◌, ◌≡◌, ◌↔◌, List, if◌then◌else◌, ◌==◌, inl,
}
use sre_agent_gitops.Prelude.Dict.{lookup}
use sre_agent_gitops.Prelude.Method.{final, ok, err}
use sre_agent_gitops.Remediation.Keys.{verification_subject_conflict, action_key_eqb}
use sre_agent_gitops.Remediation.Verification.{
  Verification, subject_eq, recovered, validate_begin, validate_subject, validate_complete,
  subject_eqb,
}
use sre_agent_gitops.Remediation.Verification.Store.{
  MemoryVerificationStore, new_memory_verification_store, verification_of, begin, complete,
  new_pending, require_recovered, list_by_status, completion_matches, recovery_of, matching,
}
use sre_agent_gitops.Remediation.Verification.Steps.{Call, begins, completes, run, step}
use sre_agent_gitops.Remediation.Verification.Retries.{
  begin_verification_again, complete_verification_again,
}
use sre_agent_gitops.Remediation.Verification.Finality.{Continues, verifications-Continues}
use sre_agent_gitops.Remediation.Verification.Invariant.{AllSound, verifications-AllSound}
use sre_agent_gitops.Remediation.Verification.Evidence.{
  Holds, Recovers, require_recovered_sound, require_recovered_complete, require_recovered-run,
}
use sre_agent_gitops.Remediation.Verification.Listing.{Listed, list_by_status_lem}
use sre_agent_gitops.Scenarios.{
  live, digest, key, subject, begins_verification, completes_verification, pending_verification,
  recovered_verification, pending_store, recovered_store,
}

abbrev no_verifications : MemoryVerificationStore
no_verifications = new_memory_verification_store

no_verifications-AllSound : AllSound no_verifications
unfolding lookup
no_verifications-AllSound k = tt

begin_verification_again_example :
    ((new_pending digest begins_verification).subject ≡ subject)
    × (begin digest live begins_verification
          (final (begin digest live begins_verification) no_verifications)
        ≡ (
          (if (new_pending digest begins_verification).subject == subject
              then ok (new_pending digest begins_verification, false)
              else err verification_subject_conflict),
          final (begin digest live begins_verification) no_verifications,
        ))
unfolding begin lookup validate_begin is_blank validate_subject
begin_verification_again_example =
    begin_verification_again digest live live begins_verification begins_verification
      no_verifications (new_pending digest begins_verification) true refl refl (λ k. refl) refl

complete_verification_again_example :
    complete live completes_verification
      (final (complete live completes_verification) pending_store)
    ≡ (ok recovered_verification, final (complete live completes_verification) pending_store)
unfolding complete lookup validate_complete is_blank action_key_eqb completion_matches
complete_verification_again_example =
    complete_verification_again live live completes_verification pending_store
      recovered_verification (λ k. refl) refl

abbrev calls : List Call
calls = completes live completes_verification ∷ begins live begins_verification ∷ []

verifications-Continues_example :
    Continues pending_verification (verification_of key (run digest calls pending_store))
unfolding lookup action_key_eqb
verifications-Continues_example =
    verifications-Continues digest calls pending_store key pending_verification refl

verifications-AllSound_example :
    AllSound (run digest (begins live begins_verification ∷ calls) no_verifications)
verifications-AllSound_example =
    verifications-AllSound digest (begins live begins_verification ∷ calls) no_verifications
      no_verifications-AllSound

recovered_Recovers : Recovers "ver-att-1" "inc-1" recovered_verification
recovered_Recovers = record { identified = refl; owned = refl; recovers = refl }

require_recovered_sound_example : Holds (Recovers "ver-att-1" "inc-1") recovered_store.verifications
unfolding require_recovered is_blank recovery_of
require_recovered_sound_example =
    require_recovered_sound live "ver-att-1" "inc-1" recovered_store refl

require_recovered_complete_example :
    require_recovered live "ver-att-1" "inc-1" recovered_store ≡ (ok tt, recovered_store)
unfolding is_blank
require_recovered_complete_example =
    require_recovered_complete live "ver-att-1" "inc-1" recovered_store (λ k. refl) refl refl
      (inl recovered_Recovers) ((λ _. recovered_Recovers), tt)

recovered_store_again :
    (run digest calls recovered_store).verifications ≡ recovered_store.verifications
unfolding run step begin validate_begin is_blank validate_subject lookup complete validate_complete
    action_key_eqb completion_matches subject_eqb
recovered_store_again = refl

require_recovered-run_example :
    require_recovered live "ver-att-1" "inc-1" recovered_store ≡ (ok tt, recovered_store)
unfolding require_recovered is_blank recovery_of
require_recovered-run_example =
    require_recovered-run digest live live calls "ver-att-1" "inc-1" recovered_store recovered_store
      (λ k. refl) refl
      (subst (λ m. Permᴰ m recovered_store.verifications) (sym recovered_store_again)
        (Permᴰ.refl recovered_store.verifications))
      ((λ _. recovered_Recovers), tt)

list_by_status_lem_example :
    (final (list_by_status recovered (some live)) recovered_store ≡ recovered_store)
    × ((v : Verification)
        → Listed v (recovered_verification ∷ [])
          ↔ Holds (λ w. (w ≡ v) × (w.status ≡ recovered)) recovered_store.verifications)
unfolding list_by_status matching
list_by_status_lem_example =
    list_by_status_lem recovered (some live) recovered_store (recovered_verification ∷ []) refl

-- ===== src/Scenarios/Attempts.antt =====
-- Runs of the attempt store.
use sre_agent_gitops.Prelude.{refl, true, [], ◌∷◌, ◌≡◌, false, List}
use sre_agent_gitops.Prelude.Dict.{lookup}
use sre_agent_gitops.Prelude.Text.{is_blank}
use sre_agent_gitops.Prelude.Method.{IsRefused, final, ok}
use sre_agent_gitops.Remediation.Keys.{action_key_eqb}
use sre_agent_gitops.Remediation.Attempt.{validate_begin, validate_complete, validate_recover}
use sre_agent_gitops.Remediation.Attempt.Store.{
  MemoryActionAttemptStore, new_memory_action_attempt_store, attempt_of, begin, complete, recover,
  completed, recovered, new_attempt, completion_matches, recovery_matches,
}
use sre_agent_gitops.Remediation.Attempt.Steps.{Call, begins, completes, recovers, run}
use sre_agent_gitops.Remediation.Attempt.Retries.{
  begin_attempt_again, complete_attempt_again, recover_attempt_again,
}
use sre_agent_gitops.Remediation.Attempt.Finality.{Continues, attempts-Continues, recover-complete}
use sre_agent_gitops.Remediation.Attempt.Invariant.{AllSound, attempts-AllSound}
use sre_agent_gitops.Scenarios.{
  live, digest, key, begins_attempt, begins_attempt_later, completes_attempt, recovers_attempt,
}

abbrev no_attempts : MemoryActionAttemptStore
no_attempts = new_memory_action_attempt_store

abbrev begun : MemoryActionAttemptStore
begun = record { attempts = (key, new_attempt digest begins_attempt) ∷ [] }

no_attempts-AllSound : AllSound no_attempts
unfolding lookup
no_attempts-AllSound k = tt

begin_attempt_again_example :
    begin digest live begins_attempt_later (final (begin digest live begins_attempt) no_attempts)
    ≡ (
      ok (new_attempt digest begins_attempt, false),
      final (begin digest live begins_attempt) no_attempts,
    )
unfolding begin validate_begin is_blank lookup
begin_attempt_again_example =
    begin_attempt_again digest live live begins_attempt begins_attempt_later no_attempts
      (new_attempt digest begins_attempt) true refl refl (λ k. refl) refl

complete_attempt_again_test :
    complete live completes_attempt (final (complete live completes_attempt) begun) ≡ (
      ok (completed (new_attempt digest begins_attempt) completes_attempt),
      final (complete live completes_attempt) begun,
    )
unfolding complete lookup validate_complete is_blank action_key_eqb completion_matches
complete_attempt_again_test =
    complete_attempt_again live live completes_attempt begun
      (completed (new_attempt digest begins_attempt) completes_attempt) (λ k. refl) refl

recover_attempt_again_test :
    recover live recovers_attempt (final (recover live recovers_attempt) begun) ≡ (
      ok (recovered (new_attempt digest begins_attempt) recovers_attempt, false),
      final (recover live recovers_attempt) begun,
    )
unfolding recover lookup validate_recover is_blank action_key_eqb recovery_matches
recover_attempt_again_test =
    recover_attempt_again live live recovers_attempt begun
      (recovered (new_attempt digest begins_attempt) recovers_attempt) true (λ k. refl) refl

recover-complete_example :
    IsRefused (complete live completes_attempt) (final (recover live recovers_attempt) begun)
unfolding recover lookup validate_recover is_blank action_key_eqb recovery_matches
recover-complete_example =
    recover-complete live live recovers_attempt completes_attempt begun
      (recovered (new_attempt digest begins_attempt) recovers_attempt) true refl refl

abbrev calls : List Call
calls =
    completes live completes_attempt
    ∷ recovers live recovers_attempt
    ∷ begins live begins_attempt_later
    ∷ []

attempts-Continues_example :
    Continues (new_attempt digest begins_attempt) (attempt_of key (run digest calls begun))
unfolding lookup action_key_eqb
attempts-Continues_example =
    attempts-Continues digest calls begun key (new_attempt digest begins_attempt) refl

attempts-AllSound_example : AllSound (run digest (begins live begins_attempt ∷ calls) no_attempts)
attempts-AllSound_example =
    attempts-AllSound digest (begins live begins_attempt ∷ calls) no_attempts no_attempts-AllSound

-- ===== src/Scenarios/Approvals.antt =====
-- An approval of a plan.
use sre_agent_gitops.Prelude.Text.{is_blank, concat}
use sre_agent_gitops.Prelude.{none, refl, some, ◌↔◌, ◌≡◌, [], ◌∷◌}
use sre_agent_gitops.Approval.Accepting.{Accepts, validate-Accepts}
use sre_agent_gitops.Approval.{
  Approval, Plan, approval_expired, validate, new_plan, is_invalid_plan, invalid_identity, has_nul,
  plan_hash_for, validate_record,
}
use sre_agent_gitops.Approval.Store.{grant, key_of, lookup_approval, new_memory_store}
use sre_agent_gitops.Approval.PlanStore.{new_memory_plan_store}
use sre_agent_gitops.Approval.Granting.{grant-lookup_approval, grants}
use sre_agent_gitops.Approval.Publishing.{AllCanonical, publishes, publishes-AllCanonical}
use sre_agent_gitops.Approval.Binding.{validate_unique}
use sre_agent_gitops.Prelude.Dict.{lookup}
use sre_agent_gitops.Prelude.Method.{final, ok}
use sre_agent_gitops.Scenarios.{live, sha}

abbrev plan : Plan
plan = record {
  incident_id = "inc-1";
  action = "restart";
  target = record { cluster = "c"; namespace = "n"; kind = "Pod"; name = "web-1"; uid = "uid-1" };
  hash = "sha256:key-1";
}

abbrev granted : Approval
granted = record {
  incident_id = "inc-1";
  plan_hash = "sha256:key-1";
  target_uid = "uid-1";
  approved_by = "operator";
  approved_at = 10;
  expires_at = 20;
}

validate-Accepts_example : (validate sha granted plan 15 ≡ none) ↔ Accepts sha granted plan 15
validate-Accepts_example = validate-Accepts sha granted plan 15

accepted_run : validate sha granted plan 15 ≡ none
unfolding validate new_plan is_invalid_plan invalid_identity is_blank has_nul plan_hash_for concat
    validate_record
accepted_run = refl

later_run : validate sha granted plan 16 ≡ none
unfolding validate new_plan is_invalid_plan invalid_identity is_blank has_nul plan_hash_for concat
    validate_record
later_run = refl

expired_run : validate sha granted plan 20 ≡ some approval_expired
unfolding validate new_plan is_invalid_plan invalid_identity is_blank has_nul plan_hash_for concat
    validate_record
expired_run = refl

validate_unique_example : plan ≡ plan
validate_unique_example =
    validate_unique sha granted plan plan 15 16 (λ e. refl) accepted_run later_run

abbrev rival : Approval
rival = record granted { approved_by = "someone else" }

-- A grant stays, though another is tried for the same key.
grant-lookup_approval_example :
    lookup_approval live
      (key_of granted)
      (grants ((live, rival) ∷ []) (final (grant live granted) new_memory_store))
    ≡ (ok granted, grants ((live, rival) ∷ []) (final (grant live granted) new_memory_store))
unfolding grant validate_record invalid_identity is_blank has_nul lookup
grant-lookup_approval_example =
    grant-lookup_approval live live granted ((live, rival) ∷ []) new_memory_store (λ k. refl) refl

publishes-AllCanonical_example :
    AllCanonical sha (publishes sha ((live, plan) ∷ []) new_memory_plan_store)
unfolding lookup
publishes-AllCanonical_example =
    publishes-AllCanonical sha ((live, plan) ∷ []) new_memory_plan_store (λ k. tt)

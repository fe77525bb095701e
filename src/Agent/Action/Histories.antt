-- ===== src/Agent/Action/Histories.antt =====
-- The agent's actions: any interleaving of the parts of calls of `resumeWaitingApproval`, by whichever
-- agents over the same stores, among any other calls of the stores.
use sre_agent_gitops.Prelude.{
  List, Sha256, [], arith, inl, inr, none, suc, zero, ◌+◌, ◌∷◌, ◌≡◌, ◌≤◌, ℕ,
}
use sre_agent_gitops.Incident.Registry.{Registry}
use sre_agent_gitops.Remediation.Keys.{ActionKey}
use sre_agent_gitops.Remediation.Attempt.Store.{attempt_of}
use sre_agent_gitops.Remediation.Attempt.Steps.{Call, step}
use sre_agent_gitops.Remediation.Verification.Store.{MemoryVerificationStore}
use sre_agent_gitops.Approval.Store.{MemoryStore}
use sre_agent_gitops.Approval.PlanStore.{MemoryPlanStore}
use sre_agent_gitops.Agent.Memory.{RemediationMemory}
use sre_agent_gitops.Agent.Action.{World}
use sre_agent_gitops.Agent.Action.Extending.{Grows}
use sre_agent_gitops.Agent.Action.Safety.{step-Grows}
use sre_agent_gitops.Agent.Action.Interleaving.{Resumption, Thread, advance, entered}
use sre_agent_gitops.Agent.Action.Weighing.{
  AllOwn, DeletesOnce, Weighs, advance-Advances, deletions_of, may_delete, may_delete_all,
}

-- What may happen: an agent takes an incident up, whatever it believes of it; a call that was begun goes
-- on by a part; the attempt store is called; or the other stores become what they may.
pub data Event : Type 0 where
  takes_up : Resumption → Event
  goes_on : ℕ → Event
  calls_attempts : Call → Event
  changes_others :
      Registry MemoryVerificationStore → MemoryPlanStore → MemoryStore → RemediationMemory → Event

-- The stores, and the calls that have been begun.
pub record System : Type 0 where
  pub world : World
  pub threads : List Thread

-- All calls together made or may still make one deletion at most under each key, and none where there
-- is no attempt.
record Balanced (w : World) (threads : List Thread) : Type 0 where
  own : AllOwn threads
  once : (k : ActionKey) → deletions_of k w.deletions + may_delete_all k threads ≤ 1
  none_before :
      (k : ActionKey)
      → attempt_of k w.attempts ≡ none
      → deletions_of k w.deletions + may_delete_all k threads ≡ 0

module _ (sha : Sha256) where
  -- The call at this place of the list goes on by a part.
  unfoldable pub advance_at : ℕ → List Thread → World → List Thread × World
  advance_at place [] w = ([], w)
  advance_at zero (thread ∷ threads) w = let o = advance sha thread w in (o.0 ∷ threads, o.1)
  advance_at (suc place) (thread ∷ threads) w =
      let rest = advance_at place threads w in (thread ∷ rest.0, rest.1)

  unfoldable pub perform : Event → System → System
  perform (takes_up x) s = record s { threads = entered x ∷ s.threads }
  perform (goes_on place) s =
      let o = advance_at place s.threads s.world in record { world = o.1; threads = o.0 }
  perform (calls_attempts call) s = record s {
    world = record s.world { attempts = step sha.hex12 call s.world.attempts };
  }
  perform (changes_others incidents plans approvals memory) s = record s {
    world = record s.world {
      incidents = incidents;
      plans = plans;
      approvals = approvals;
      memory = memory;
    };
  }

  unfoldable pub perform_all : List Event → System → System
  perform_all [] s = s
  perform_all (event ∷ events) s = perform_all events (perform event s)

  record AdvancesAt (w : World) (threads : List Thread) (o : List Thread × World) : Type 0 where
    own : AllOwn o.0
    grows : Grows w.attempts o.1.attempts
    weighs : (k : ActionKey) → Weighs k w (may_delete_all k threads) o.1 (may_delete_all k o.0)

  -- What the other calls may delete is added on both sides.
  Weighs-added :
      (k : ActionKey) (w v : World) (n m rest : ℕ)
      → Weighs k w n v m
      → Weighs k w (n + rest) v (m + rest)
  Weighs-added k w v n m rest (inl l) = inl (omega arith)
  Weighs-added k w v n m rest (inr (free, taken, e)) = inr (free, taken, omega arith)

  Weighs-after :
      (k : ActionKey) (w v : World) (n m rest : ℕ)
      → Weighs k w n v m
      → Weighs k w (rest + n) v (rest + m)
  Weighs-after k w v n m rest (inl l) = inl (omega arith)
  Weighs-after k w v n m rest (inr (free, taken, e)) = inr (free, taken, omega arith)

  advance_at-AdvancesAt :
      (place : ℕ) (threads : List Thread) (w : World)
      → AllOwn threads
      → AdvancesAt w threads (advance_at place threads w)
  unfolding advance_at
  advance_at-AdvancesAt place [] w h = record {
    own = tt;
    grows = λ k e. e;
    weighs = λ k. inl (omega arith);
  }
  advance_at-AdvancesAt zero (thread ∷ threads) w h =
      let a = advance-Advances sha thread w h.0 in
      record {
        own = (a.own, h.1);
        grows = a.grows;
        weighs = λ k.
            Weighs-added k w (advance sha thread w).1 (may_delete k thread)
              (may_delete k (advance sha thread w).0) (may_delete_all k threads) (a.weighs k);
      }
  advance_at-AdvancesAt (suc place) (thread ∷ threads) w h =
      let a = advance_at-AdvancesAt place threads w h.1 in
      record {
        own = (h.0, a.own);
        grows = a.grows;
        weighs = λ k.
            Weighs-after k w (advance_at place threads w).1 (may_delete_all k threads)
              (may_delete_all k (advance_at place threads w).0) (may_delete k thread) (a.weighs k);
      }

  AdvancesAt-Balanced :
      (w : World) (threads : List Thread) (o : List Thread × World)
      → AdvancesAt w threads o
      → Balanced w threads
      → Balanced o.1 o.0
  AdvancesAt-Balanced w threads o a b = record {
    own = a.own;
    once = λ k. elim (a.weighs k) [
      | inl l ↦ ground (arith, b.once k)
      | inr (free, taken, e) ↦ ground (arith, b.none_before k free)
    ];
    none_before = λ k m. elim (a.weighs k) [
      | inl l ↦ ground (arith, b.none_before k (a.grows k m))
      | inr (free, taken, e) ↦ absurd (taken m)
    ];
  }

  perform-Balanced :
      (event : Event) (s : System)
      → Balanced s.world s.threads
      → Balanced (perform event s).world (perform event s).threads
  unfolding perform
  perform-Balanced (takes_up x) s b = record {
    own = (tt, b.own);
    once = λ k. ground (arith, b.once k);
    none_before = λ k e. ground (arith, b.none_before k e);
  }
  perform-Balanced (goes_on place) s b =
      AdvancesAt-Balanced s.world s.threads (advance_at place s.threads s.world)
        (advance_at-AdvancesAt place s.threads s.world b.own) b
  perform-Balanced (calls_attempts call) s b = record {
    own = b.own;
    once = b.once;
    none_before = λ k e. b.none_before k (step-Grows sha.hex12 call s.world.attempts k e);
  }
  perform-Balanced (changes_others incidents plans approvals memory) s b = record {
    own = b.own;
    once = b.once;
    none_before = b.none_before;
  }

  perform_all-Balanced :
      (events : List Event) (s : System)
      → Balanced s.world s.threads
      → Balanced (perform_all events s).world (perform_all events s).threads
  unfolding perform_all
  perform_all-Balanced [] s b = b
  perform_all-Balanced (event ∷ events) s b =
      perform_all-Balanced events (perform event s) (perform-Balanced event s b)

  -- Any number of agents over the same stores take incidents up, with whatever they believe of them, and
  -- their calls run at the same time, in any interleaving of their parts: the checks, the record in the
  -- action memory, the claim, `Begin`, what follows its answer, the deletion, and the report. Among them,
  -- the attempt store may be called and the other stores may change in any way. Then under one incident,
  -- plan hash and target, Kubernetes is asked at most once to delete a pod, and not at all without an
  -- attempt on record, if that held when no call was running.
  pub perform_all-DeletesOnce :
      (events : List Event) (w : World)
      → DeletesOnce w
      → DeletesOnce (perform_all events (record { world = w; threads = [] })).world
  perform_all-DeletesOnce events w h k =
      let b =
        perform_all-Balanced events (record { world = w; threads = [] })
          (record {
            own = tt;
            once = λ j. ground (arith, (h j).0);
            none_before = λ j e. ground (arith, (h j).1 e);
          }) in
      (ground (arith, b.once k), λ e. ground (arith, b.none_before k e))

-- ===== src/Agent/Action/Extending.antt =====
-- The agent's methods by what they leave of the attempts and of the deletions.
use sre_agent_gitops.Prelude.{
  Bool, Option, String, arith, false, none, refl, some, true, ◌∙◌, ◌≡◌, text_eq, nat_eq,
}
use sre_agent_gitops.Prelude.Method.{
  lift, Method, Result, continue, err, fail_if, fail_on, fails, final, map_error, map_result, ok,
  returns, ◌>>=◌, ◌>>◌,
}
use sre_agent_gitops.Incident.{state_eq}
use sre_agent_gitops.Incident.Registry.{Registry}
use sre_agent_gitops.Remediation.Keys.{ActionKey, action_key_eq}
use sre_agent_gitops.Remediation.Attempt.{ActionAttempt, status_eq}
use sre_agent_gitops.Remediation.Attempt.Store.{MemoryActionAttemptStore, attempt_of, put}
use sre_agent_gitops.Remediation.Attempt.Steps.{lookup-put}
use sre_agent_gitops.Remediation.Verification.{verification_status_eq}
use sre_agent_gitops.Remediation.Verification.Store.{MemoryVerificationStore}
use sre_agent_gitops.Approval.PlanStore.{MemoryPlanStore}
use sre_agent_gitops.Agent.Memory.{RemediationMemory}
use sre_agent_gitops.Agent.Action.{World, on_attempts, on_incidents, on_memory, on_plans, placed}

-- No attempt is lost.
abbrev pub Grows : MemoryActionAttemptStore → MemoryActionAttemptStore → Type 0
Grows s t = (k : ActionKey) → attempt_of k t ≡ none → attempt_of k s ≡ none

-- Nothing is deleted, and no attempt is lost.
pub record Extends (w t : World) : Type 0 where
  pub deletions : t.deletions ≡ w.deletions
  pub attempts : Grows w.attempts t.attempts

pub Extends_refl : (w : World) → Extends w w
Extends_refl w = record { deletions = refl; attempts = λ k e. e }

pub Extends_trans : (u v w : World) → Extends u v → Extends v w → Extends u w
Extends_trans u v w p q = record {
  deletions = q.deletions ∙ p.deletions;
  attempts = λ k e. p.attempts k (q.attempts k e);
}

pub record Safe {A : Type 0} (m : Method World String A) : Type 0 where
  pub run : (w : World) → Extends w (final m w)

pub Safe-bind :
    {A B : Type 0} (m : Method World String A) (f : A → Method World String B)
    → Safe m
    → ((a : A) → Safe (f a))
    → Safe (m >>= f)
Safe-bind {A} m f h k = record { run = λ w. go w (m w) (h.run w) }
  where
    go : (w : World) (o : Result String A × World) → Extends w o.1 → Extends w (continue o f).1
    go w (ok a, t) p = Extends_trans w t _ p ((k a).run t)
    go w (err e, t) p = p

pub Safe-after :
    {A B : Type 0} (m : Method World String A) (n : Method World String B)
    → Safe m
    → Safe n
    → Safe (m >> n)
Safe-after {A} m n h k = record { run = λ w. go w (m w) (h.run w) }
  where
    go :
        (w : World) (o : Result String A × World)
        → Extends w o.1
        → Extends w (continue o (λ _. n)).1
    go w (ok a, t) p = Extends_trans w t _ p (k.run t)
    go w (err e, t) p = p

pub Safe-map_error :
    {A : Type 0} (f : String → String) (m : Method World String A) → Safe m → Safe (map_error f m)
Safe-map_error {A} f m h = record { run = λ w. go w (m w) (h.run w) }
  where
    go : (w : World) (o : Result String A × World) → Extends w o.1 → Extends w (map_result f o).1
    go w (ok a, t) p = p
    go w (err e, t) p = p

pub Safe-returns : {A : Type 0} (a : A) → Safe (returns a)
Safe-returns a = record { run = Extends_refl }

pub Safe-fails : {A : Type 0} (e : String) → Safe {A = A} (fails e)
Safe-fails e = record { run = Extends_refl }

pub Safe-unless :
    {A : Type 0} (b : Bool) (e : String) (m : Method World String A)
    → Safe m
    → Safe (fail_if b e >> m)
Safe-unless true e m h = record { run = Extends_refl }
Safe-unless false e m h = record { run = λ w. h.run w }

pub Safe-on :
    {A : Type 0} (e : Option String) (m : Method World String A) → Safe m → Safe (fail_on e >> m)
Safe-on none m h = record { run = λ w. h.run w }
Safe-on (some e) m h = record { run = Extends_refl }

pub Safe-lift : {A : Type 0} (o : Result String A) → Safe (lift o)
Safe-lift o = record { run = Extends_refl }

pub Safe-fail_if : (b : Bool) (e : String) → Safe (fail_if b e)
Safe-fail_if true e = record { run = Extends_refl }
Safe-fail_if false e = record { run = Extends_refl }

pub Safe-fail_on : (e : Option String) → Safe (fail_on e)
Safe-fail_on none = record { run = Extends_refl }
Safe-fail_on (some e) = record { run = Extends_refl }

pub Safe-on_incidents :
    {E A : Type 0} (code : E → String) (m : Method (Registry MemoryVerificationStore) E A)
    → Safe (on_incidents code m)
Safe-on_incidents {E} {A} code m = record { run = λ w. go w (m w.incidents) }
  where
    go :
        (w : World) (o : Result E A × Registry MemoryVerificationStore)
        → Extends w (placed (λ s v. record v { incidents = s }) code w o).1
    go w (ok a, s) = record { deletions = refl; attempts = λ k e. e }
    go w (err e, s) = record { deletions = refl; attempts = λ k d. d }

pub Safe-on_plans :
    {E A : Type 0} (code : E → String) (m : Method MemoryPlanStore E A) → Safe (on_plans code m)
Safe-on_plans {E} {A} code m = record { run = λ w. go w (m w.plans) }
  where
    go :
        (w : World) (o : Result E A × MemoryPlanStore)
        → Extends w (placed (λ s v. record v { plans = s }) code w o).1
    go w (ok a, s) = record { deletions = refl; attempts = λ k e. e }
    go w (err e, s) = record { deletions = refl; attempts = λ k d. d }

pub Safe-on_memory :
    {E A : Type 0} (code : E → String) (m : Method RemediationMemory E A) → Safe (on_memory code m)
Safe-on_memory {E} {A} code m = record { run = λ w. go w (m w.memory) }
  where
    go :
        (w : World) (o : Result E A × RemediationMemory)
        → Extends w (placed (λ s v. record v { memory = s }) code w o).1
    go w (ok a, s) = record { deletions = refl; attempts = λ k e. e }
    go w (err e, s) = record { deletions = refl; attempts = λ k d. d }

pub Safe-on_attempts :
    {E A : Type 0} (code : E → String) (m : Method MemoryActionAttemptStore E A)
    → ((s : MemoryActionAttemptStore) → Grows s (final m s))
    → Safe (on_attempts code m)
Safe-on_attempts {E} {A} code m h = record { run = λ w. go w (m w.attempts) (h w.attempts) }
  where
    go :
        (w : World) (o : Result E A × MemoryActionAttemptStore)
        → Grows w.attempts o.1
        → Extends w (placed (λ s v. record v { attempts = s }) code w o).1
    go w (ok a, s) g = record { deletions = refl; attempts = g }
    go w (err e, s) g = record { deletions = refl; attempts = g }

pub put-Grows :
    (k : ActionKey) (a : ActionAttempt) (s : MemoryActionAttemptStore) → Grows s (put k a s)
put-Grows k a s j e = ground (arith, lookup-put k j a s)

pub ruleset safe = (
  Safe-unless, Safe-on, Safe-after, Safe-bind, Safe-map_error, Safe-on_incidents, Safe-on_plans,
  Safe-on_memory, Safe-returns, Safe-fails, Safe-fail_if, Safe-fail_on,
)

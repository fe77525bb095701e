-- ===== src/Agent/Worker/Waiting.antt =====
-- agent_verification_worker.go: what a round reports, and how long it waits.
use sre_agent_gitops.Prelude.{
  ℤ, zero, suc, sym, ap, ◌∙◌, ◌<◌, ◌⊎◌, ◌≢◌, inl, inr, Bool-cases, Option-cases, ContextError,
  Duration, List, Option, [], ◌++◌, ◌∷◌, none, some, pos, refl, ◌≡◌, ◌≤◌, ℕ, ◌+◌, i64_max, arith,
}
use Prim.Native.Nat.{◌*◌}
use mathlib.Core.List.{append-nil, append_assoc}
use mathlib.Core.Path.{subst}
use sre_agent_gitops.Agent.Worker.{
  run_once, WorkerError, combine_errors, WorkerAgent, Surroundings, configuration, failure, joined,
}
use sre_agent_gitops.Agent.Worker.Backoff.{backoff_delay_lem, min, multiplier_for}
use sre_agent_gitops.Agent.Worker.Loop.{
  stops, Drained, drain, drained, failures_after, max_drain_items, round, settled, stopped,
  visit_all, visit_failures, waited,
}

-- The failures of a round's errors, combined, are those of each, in order.
pub visit_all-combine_errors :
    (first second : Option WorkerError)
    → visit_all (combine_errors first second) ≡ visit_all first ++ visit_all second
unfolding combine_errors visit_failures
visit_all-combine_errors none second = refl
visit_all-combine_errors (some first) none = ground (arith, append-nil (visit_failures first))
visit_all-combine_errors (some first) (some second) = refl

-- the number of rounds in a row with something to report
abbrev pub reporting : ℕ → List WorkerError → ℕ
reporting failures [] = 0
reporting failures (e ∷ rest) = failures + 1

nonempty_append :
    (failures : ℕ) (s t : List WorkerError)
    → reporting failures s ≡ failures + 1
    → reporting failures (s ++ t) ≡ failures + 1
nonempty_append failures [] t h = absurd (omega arith)
nonempty_append failures (e ∷ s) t h = refl

reporting_some :
    (failures : ℕ) (e : WorkerError) → reporting failures (visit_failures e) ≡ failures + 1
unfolding visit_failures
reporting_some failures (configuration text) = refl
reporting_some failures (failure f) = refl
reporting_some failures (joined first second) =
    nonempty_append failures (visit_failures first) (visit_failures second)
      (reporting_some failures first)

failures_after-reporting :
    {R : Type 0} (agent : WorkerAgent R) (failures : ℕ) (errors : Option WorkerError)
    → failures < i64_max
    → failures_after agent (pos failures) errors ≡ pos (reporting failures (visit_all errors))
failures_after-reporting agent failures none h = refl
failures_after-reporting agent failures (some e) h = ground (arith, reporting_some failures e)

module _ {R : Type 0} (agent : WorkerAgent R) (around : ℕ → Surroundings) where
  -- Items of work, so many at most and the first of them numbered, are run one after another, up to the
  -- first that has had nothing to do; these are the failures of each of them, in order.
  abbrev pub Items : ℕ → ℕ → R → List WorkerError → R → Type 0
  Items zero item r failures t = (failures ≡ []) × (t ≡ r)
  Items (suc left) item r failures t =
      let out = run_once agent (around item) r in
      (later : List WorkerError) × (failures ≡ visit_all out.0.error ++ later)
      × (((out.0.worked ≡ none) × (later ≡ []) × (t ≡ out.1))
          ⊎ ((out.0.worked ≢ none) × Items left (item + 1) out.1 later t))

  drain-Items :
      (left item : ℕ) (errors es : Option WorkerError) (r t : R)
      → drain agent left item around errors r ≡ (drained es, t)
      → (later : List WorkerError) × (visit_all es ≡ visit_all errors ++ later)
        × Items left item r later t
  unfolding drain
  drain-Items zero item errors es r t h =
      ([], ground (arith, append-nil (visit_all errors)), (refl, ground arith))
  drain-Items (suc left) item errors es r t h =
      let out = run_once agent (around item) r in
      elim (Bool-cases (stops (around item).ended out.0.error)) [
        | inl e ↦ absurd (ground arith)
        | inr e ↦ elim (Option-cases out.0.worked) [
          | inl w ↦
              let ended : combine_errors errors out.0.error ≡ es = ground arith in
              (
                visit_all out.0.error,
                ap visit_all (sym ended) ∙ visit_all-combine_errors errors out.0.error,
                ([], sym (append-nil (visit_all out.0.error)), inl (w, refl, ground arith)),
              )
          | inr (x, w) ↦
              let rest : drain agent left (item + 1) around (combine_errors errors out.0.error)
                    out.1
                  ≡ (drained es, t) =
                ground arith in
              let (later, all, items) =
                drain-Items left (item + 1) (combine_errors errors out.0.error) es out.1 t rest in
              (
                visit_all out.0.error ++ later,
                all
                    ∙ ap (λ l. l ++ later) (visit_all-combine_errors errors out.0.error)
                    ∙ append_assoc (visit_all errors) (visit_all out.0.error) later,
                (later, refl, inr ((λ n. absurd (ground arith)), items)),
              )
        ]
      ]

  -- A round that is waited for has run items of work, eight at most, up to the first that has had
  -- nothing to do, and reports the failures of every one of them, in order. If there are none, it starts
  -- the count of failed rounds again and waits the poll interval; if there are, it counts one more, as
  -- long as the count is below the largest `int`, and waits the poll interval doubled for each failed
  -- round counted after the first, eight times as long at most and no longer than the largest duration.
  pub round-waits :
      (ended : Option ContextError) (failures n : ℕ) (r t : R) (logged : List WorkerError)
      (after : ℤ) (delay : Duration)
      → agent.config.poll_interval ≡ pos n
      → n ≤ i64_max
      → failures < i64_max
      → round agent around ended (pos failures) r ≡ (waited logged after delay, t)
      → Items 8 0 r logged t
        × (after ≡ pos (reporting failures logged))
        × (delay ≡ pos (min (n * multiplier_for (reporting failures logged)) i64_max))
  unfolding round
  round-waits ended failures n r t logged after delay p q small h =
      go ended (drain agent max_drain_items 0 around none r) refl h
    where
      go :
          (c : Option ContextError) (o : Drained × R)
          → drain agent max_drain_items 0 around none r ≡ o
          → settled agent c (pos failures) o ≡ (waited logged after delay, t)
          → Items 8 0 r logged t
            × (after ≡ pos (reporting failures logged))
            × (delay ≡ pos (min (n * multiplier_for (reporting failures logged)) i64_max))
      go c (stopped, s) d e = absurd (ground arith)
      go (some c) (drained errors, s) d e = absurd (ground arith)
      go none (drained errors, s) d e =
          let (later, all, items) = drain-Items 8 0 none errors r s d in
          let same : later ≡ logged = sym all ∙ ground arith in
          let there : s ≡ t = ground arith in
          let counted = failures_after-reporting agent failures errors small in
          (
            subst (λ l. Items 8 0 r l t) same (subst (Items 8 0 r later) there items),
            ground (arith, counted),
            ground (arith, counted, backoff_delay_lem n (reporting failures (visit_all errors)) q),
          )

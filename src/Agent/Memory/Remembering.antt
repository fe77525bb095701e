-- ===== src/Agent/Memory/Remembering.antt =====
-- action_memory.go: what an action that was recorded does to the snapshots after it.
use mathlib.Core.Path.{subst}
use sre_agent_gitops.Prelude.{
  Bool-cases, List, String, Time, [], ◌∷◌, ◌++◌, arith, before, eq_iff, false, inl, inr, refl, some,
  sym, text_eq, ◌+◌, ◌==◌, ◌≡◌, ℕ, true, lt→ltb, suc, ◌≤◌, ◌<◌, ◌-◌, pos,
}
use sre_agent_gitops.Prelude.Dict.{Dict, insert, lookup}
use sre_agent_gitops.Agent.Memory.{
  RemediationMemory, RemediationStateQuery, record_attempt, snapshot, times_of, prune, count,
  cons_scope, retain, retain_scopes, retain_times, snapshot, record_attempt, prune,
  RemediationStateQuery, RemediationMemory, pos, suc,
}

lookup-retain-insert :
    (from : Time) (key : String) (at : Time) (entries : Dict String Time)
    → before at from ≡ false
    → lookup key (retain from (insert key at entries)) ≡ some at
unfolding lookup retain insert
lookup-retain-insert from key at [] h = ground (arith, eq_iff key key)
lookup-retain-insert from key at ((entry, held) ∷ entries) h = elim (Bool-cases (entry == key)) [
  | inl e ↦ ground (arith, eq_iff key key)
  | inr e ↦ elim (Bool-cases (before held from)) [
    | inl b ↦ ground (arith, lookup-retain-insert from key at entries h)
    | inr b ↦ ground (arith, lookup-retain-insert from key at entries h)
  ]
]

retain_times-append :
    (from : Time) (times : List Time) (at : Time)
    → before at from ≡ false
    → count (some (retain_times from (times ++ (at ∷ []))))
      ≡ count (some (retain_times from times)) + 1
unfolding retain_times
retain_times-append from [] at h = ground arith
retain_times-append from (x ∷ times) at h = ground (arith, retain_times-append from times at h)

count_scope :
    (key : String) (times : List Time) (later : Dict String (List Time)) (n : ℕ)
    → count (some times) ≡ n + 1
    → count (lookup key (cons_scope key times later)) ≡ n + 1
unfolding lookup
count_scope key [] later n h = absurd (omega arith)
count_scope key (x ∷ times) later n h = ground (arith, eq_iff key key)

skip_scope :
    (entry key : String) (times : List Time) (later : Dict String (List Time))
    → (entry == key) ≡ false
    → lookup key (cons_scope entry times later) ≡ lookup key later
unfolding lookup
skip_scope entry key [] later h = refl
skip_scope entry key (x ∷ times) later h = rw h refl

count_retained :
    (from : Time) (key : String) (times : List Time) (n : ℕ) (entries : Dict String (List Time))
    → count (some (retain_times from times)) ≡ n + 1
    → count (lookup key (retain_scopes from (insert key times entries))) ≡ n + 1
unfolding retain_scopes insert
count_retained from key times n [] h = count_scope key (retain_times from times) [] n h
count_retained from key times n ((entry, held) ∷ entries) h = elim (Bool-cases (entry == key)) [
  | inl e ↦ rw e (count_scope key (retain_times from times) (retain_scopes from entries) n h)
  | inr e ↦ rw e (
      subst (λ o. count o ≡ n + 1)
        (sym (
          skip_scope entry key (retain_times from held)
            (retain_scopes from (insert key times entries)) e))
        (count_retained from key times n entries h))
]

-- A snapshot taken after an attempt was recorded, at that time or later, within the cooldown and
-- within the window, both positive: the incident is a duplicate, its target is in cooldown, and the
-- attempts in the window are those that were recorded before and are still in it, and this one.
pub record_attempt-snapshot :
    (q : RemediationStateQuery) (at : Time) (cooldown window : ℕ) (m : RemediationMemory)
    → q.cooldown ≡ pos (suc cooldown)
    → q.attempt_window ≡ pos (suc window)
    → at ≤ q.now
    → q.now < at + suc cooldown
    → q.now < at + suc window
    → (snapshot q (record_attempt q.incident_id q.target_key at m)).0 ≡ record {
      duplicate = true;
      in_cooldown = true;
      attempts_in_window =
          count (
            some (
              retain_times
                (q.now - suc window)
                (times_of (lookup q.target_key m.attempts_by_scope))))
          + 1;
    }
unfolding snapshot record_attempt prune
record_attempt-snapshot q at cooldown window m c w ordered cold recent =
    let handled : lookup q.incident_id
          (retain (q.now - suc window) (insert q.incident_id at m.handled_at))
        ≡ some at =
      lookup-retain-insert (q.now - suc window) q.incident_id at m.handled_at (ground arith) in
    let acted : lookup q.target_key
          (retain (q.now - suc cooldown) (insert q.target_key at m.last_action_at))
        ≡ some at =
      lookup-retain-insert (q.now - suc cooldown) q.target_key at m.last_action_at (ground arith) in
    let old : List Time = times_of (lookup q.target_key m.attempts_by_scope) in
    let attempts : count (
          lookup q.target_key (
            retain_scopes (q.now - suc window)
              (insert q.target_key (old ++ (at ∷ [])) m.attempts_by_scope)))
        ≡ count (some (retain_times (q.now - suc window) old)) + 1 =
      count_retained (q.now - suc window) q.target_key (old ++ (at ∷ []))
        (count (some (retain_times (q.now - suc window) old))) m.attempts_by_scope
        (retain_times-append (q.now - suc window) old at (ground arith)) in
    rw (c, w, handled, acted, attempts, lt→ltb q.now (at + suc cooldown) cold) refl

-- ===== src/Agent/Worker/Backoff.antt =====
-- agent_verification_worker.go: how long the worker waits after failures.
use sre_agent_gitops.Prelude.{
  ℤ, int_leb, ℕ, zero, suc, ◌-◌, ◌≤◌, ◌≡◌, Duration, pos, negsuc, arith, ltb, leb, if◌then◌else◌,
  i64_max, i64_of_bits, u64_mod, refl, false, Bool,
}
use Prim.Native.Nat.{◌*◌, ◌/◌, ◌%◌}

-- `verificationWorkerMaxBackoffMultiplier`
abbrev pub max_backoff_multiplier : ℕ
max_backoff_multiplier = 8

-- The loop: at most so many rounds are left.
unfoldable pub multiplier_after : ℕ → ℕ → ℕ
multiplier_after zero multiplier = multiplier
multiplier_after (suc rounds) multiplier =
    let rest = multiplier_after rounds (multiplier * 2) in
    if ltb multiplier max_backoff_multiplier then rest else multiplier

-- `baseDelay * time.Duration(multiplier)` in 64 bits, the multiplier being at least 1
abbrev times : Duration → ℕ → Duration
times (pos n) m = i64_of_bits (n * m % u64_mod)
times (negsuc n) m = i64_of_bits ((m * u64_mod - suc n * m) % u64_mod)

-- `baseDelay > maxDuration/time.Duration(multiplier)`
abbrev exceeds : Duration → ℕ → Bool
exceeds (pos n) m = ltb (i64_max / m) n
exceeds (negsuc n) m = false

-- the number of rounds that the loop may take, `consecutiveFailures - 1`, and 0 if there is none
abbrev later_failures : ℤ → ℕ
later_failures (pos failures) = failures - 1
later_failures (negsuc n) = 0

unfoldable pub backoff_delay : Duration → ℤ → Duration
backoff_delay base failures =
    if int_leb failures (pos 1)
    then base
    else let multiplier = multiplier_after (later_failures failures) 1 in
      if exceeds base multiplier then pos i64_max else times base multiplier

-- The multiplier that a number of failures comes to.
abbrev pub multiplier_for : ℕ → ℕ
multiplier_for failures =
    if leb failures 1 then 1 else if leb failures 2 then 2 else if leb failures 3 then 4 else 8

abbrev pub min : ℕ → ℕ → ℕ
min a b = if leb a b then a else b

multiplier_after_max : (rounds : ℕ) → multiplier_after rounds 8 ≡ 8
unfolding multiplier_after
multiplier_after_max zero = refl
multiplier_after_max (suc rounds) = refl

multiplier_after_lem : (rounds : ℕ) → multiplier_after rounds 1 ≡ multiplier_for (suc rounds)
unfolding multiplier_after
multiplier_after_lem zero = refl
multiplier_after_lem (suc zero) = refl
multiplier_after_lem (suc (suc zero)) = refl
multiplier_after_lem (suc (suc (suc rounds))) = ground (arith, multiplier_after_max rounds)

-- For a delay that an `int64` holds, the worker waits this delay, doubled for each consecutive failure
-- after the first, but at most eight times as long, and never longer than the largest duration: the
-- multiplication does not overflow.
pub backoff_delay_lem :
    (n failures : ℕ)
    → n ≤ i64_max
    → backoff_delay (pos n) (pos failures) ≡ pos (min (n * multiplier_for failures) i64_max)
unfolding backoff_delay
backoff_delay_lem n zero h = ground arith
backoff_delay_lem n (suc zero) h = ground arith
backoff_delay_lem n (suc (suc zero)) h = ground (arith, multiplier_after_lem 1)
backoff_delay_lem n (suc (suc (suc zero))) h = ground (arith, multiplier_after_lem 2)
backoff_delay_lem n (suc (suc (suc (suc k)))) h =
    ground (arith, multiplier_after_lem (suc (suc (suc k))))

-- The worker waits the base delay at least, and no longer after fewer failures.
pub backoff_delay_mono :
    (n k l : ℕ) → k ≤ l → min (n * multiplier_for k) i64_max ≤ min (n * multiplier_for l) i64_max
backoff_delay_mono n k l h = ground arith

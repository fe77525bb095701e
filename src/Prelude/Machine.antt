-- ===== src/Prelude/Machine.antt =====
-- Fixed-width integers, instants, durations, and the answers of a context.
use Prim.Native.Nat.{ℕ, zero, suc, ◌+◌, ◌-◌, ◌^◌, ◌%◌}
use Prim.Native.String.{String}
use mathlib.Core.Path.{◌≡◌}
use mathlib.Core.Logic.{◌↔◌}
use mathlib.Core.Bool.{Bool, true, false}
use mathlib.Core.Option.{Option, none}
use native.Mathlib.Omega.{arith}
use sre_agent_gitops.Prelude.Tests.{if◌then◌else◌, ltb, nat_eqb, leb}
use sre_agent_gitops.Prelude.Equality.{Eq}

abbrev pub u64_mod : ℕ
u64_mod = 2 ^ 64

-- `x++` on a `uint64`
abbrev pub next_u64 : ℕ → ℕ
next_u64 x = (x + 1) % u64_mod

-- `negsuc n` is -(n + 1).
pub data ℤ : Type 0 where
  pos : ℕ → ℤ
  negsuc : ℕ → ℤ

abbrev pub int_eqb : ℤ → ℤ → Bool
int_eqb (pos a) (pos b) = nat_eqb a b
int_eqb (negsuc a) (negsuc b) = nat_eqb a b
int_eqb _ _ = false

pub int_eqb_iff : (a b : ℤ) → (int_eqb a b ≡ true) ↔ (a ≡ b)
int_eqb_iff a b = ground arith

instance abbrev pub int_eq : Eq ℤ
int_eq = record { eqb = int_eqb; eqb_iff = int_eqb_iff }

abbrev pub i64_max : ℕ
i64_max = 2 ^ 63 - 1

-- `x++` on an `int64`
abbrev pub next_i64 : ℤ → ℤ
next_i64 (pos n) = if nat_eqb n i64_max then negsuc i64_max else pos (n + 1)
next_i64 (negsuc zero) = pos 0
next_i64 (negsuc (suc n)) = negsuc n

abbrev pub is_positive : ℤ → Bool
is_positive (pos zero) = false
is_positive (pos (suc n)) = true
is_positive (negsuc n) = false

abbrev pub int_leb : ℤ → ℤ → Bool
int_leb (pos a) (pos b) = leb a b
int_leb (pos a) (negsuc b) = false
int_leb (negsuc a) (pos b) = true
int_leb (negsuc a) (negsuc b) = leb b a

-- The `int64` with these 64 bits.
abbrev pub i64_of_bits : ℕ → ℤ
i64_of_bits n = if ltb n (2 ^ 63) then pos n else negsuc (u64_mod - 1 - n)

-- A `time.Time` is the number of nanoseconds since the zero time.
abbrev pub Time : Type 0
Time = ℕ

abbrev pub is_zero_time : Time → Bool
is_zero_time t = nat_eqb t 0

abbrev pub before : Time → Time → Bool
before a b = ltb a b

-- A `time.Duration` is a number of nanoseconds, of either sign.
abbrev pub Duration : Type 0
Duration = ℤ

-- `t.Add(d)`
abbrev pub add_duration : Time → Duration → Time
add_duration t (pos n) = t + n
add_duration t (negsuc n) = t - suc n

pub data ContextError : Type 0 where
  canceled deadline_exceeded : ContextError

-- What successive calls of `ctx.Err()` answer.
abbrev pub Context : Type 0
Context = ℕ → Option ContextError

-- The answers that the callee gets when a method that asks at most three times passes its context on.
-- No two answers are related, so it does not matter which of them a callee gets.
abbrev pub inner : Context → Context
inner ctx k = ctx (k + 3)

-- A context that is not cancelled.
abbrev pub IsLive : Context → Type 0
IsLive ctx = (k : ℕ) → ctx k ≡ none

-- SHA-256 of a text in hexadecimal: all of the digest, and its first 12 bytes.
pub record Sha256 : Type 0 where
  pub hex : String → String
  pub hex12 : String → String

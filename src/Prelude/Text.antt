-- ===== src/Prelude/Text.antt =====
-- `strings.TrimSpace`, as far as the program uses it: to ask whether a text is blank.
use Prim.Native.Nat.{ℕ, zero, suc, ◌/◌, ◌%◌, ◌<◌}
use native.Mathlib.Omega.{arith}
use Prim.Native.Char.{Char, code, nul}
use Prim.Native.String.{String, ◌++◌}
use mathlib.Core.List.{List, [], ◌∷◌}
use mathlib.Core.Path.{◌≡◌, refl}
use mathlib.Core.Bool.{Bool, true, false, ◌&&◌, ◌||◌}
use text.Mathlib.Text.{◌==◌}
use sre_agent_gitops.Prelude.Tests.{if◌then◌else◌, leb, ltb, nat_eqb}

-- `unicode.IsSpace`: the Latin-1 spaces, and the property White_Space above them.
abbrev is_space_code : ℕ → Bool
is_space_code c =
    (leb 9 c && leb c 13)
    || nat_eqb c 0x20
    || nat_eqb c 0x85
    || nat_eqb c 0xa0
    || nat_eqb c 0x1680
    || (leb 0x2000 c && leb c 0x200a)
    || nat_eqb c 0x2028
    || nat_eqb c 0x2029
    || nat_eqb c 0x202f
    || nat_eqb c 0x205f
    || nat_eqb c 0x3000

pub is_space : Char → Bool
is_space c = is_space_code (code c)

trim_left : String → String
unfolding is_space
trim_left String.[] = String.[]
trim_left (String.◌∷◌ c s) = let rest = trim_left s in if is_space c then rest else String.◌∷◌ c s

-- Drops `c` in front of what is left of the text behind it, if that is all space.
drop_if_last : Char → String → String
unfolding is_space
drop_if_last c String.[] = if is_space c then String.[] else String.◌∷◌ c String.[]
drop_if_last c (String.◌∷◌ d s) = String.◌∷◌ c (String.◌∷◌ d s)

trim_right : String → String
unfolding drop_if_last
trim_right String.[] = String.[]
trim_right (String.◌∷◌ c s) = drop_if_last c (trim_right s)

pub trim_space : String → String
unfolding trim_left trim_right
trim_space s = trim_right (trim_left s)

-- `strings.TrimSpace(s) == ""`
unfoldable pub is_blank : String → Bool
unfolding trim_space
is_blank s = trim_space s == ""

unfoldable pub concat : List String → String
concat [] = ""
concat (s ∷ ss) = s ++ concat ss

-- `strings.Join(parts, "\x00")`
unfoldable pub join_nul : List String → String
join_nul [] = ""
join_nul (s ∷ []) = s
join_nul (s ∷ t ∷ ss) = s ++ (String.◌∷◌ nul (join_nul (t ∷ ss)))

-- The last digit of a number.
abbrev digit : ℕ → String
digit n =
    let d = n % 10 in
    if nat_eqb d 0
    then "0"
    else if nat_eqb d 1
    then "1"
    else if nat_eqb d 2
    then "2"
    else if nat_eqb d 3
    then "3"
    else if nat_eqb d 4
    then "4"
    else if nat_eqb d 5
    then "5"
    else if nat_eqb d 6
    then "6"
    else if nat_eqb d 7
    then "7"
    else if nat_eqb d 8
    then "8"
    else "9"

digits_within : ℕ → ℕ → String
digits_within zero n = ""
digits_within (suc fuel) n =
    let front = digits_within fuel (n / 10) in if ltb n 10 then digit n else front ++ digit n

-- `%d` of an unsigned number. A number has fewer digits than one more than its value.
unfoldable pub decimal : ℕ → String
unfolding digits_within
decimal n = digits_within (suc n) n

-- More fuel than the number changes nothing, so `decimal` never runs out.
digits_within-enough : (f g n : ℕ) → n < f → n < g → digits_within f n ≡ digits_within g n
unfolding digits_within
digits_within-enough zero g n h k = absurd (omega arith)
digits_within-enough (suc f) zero n h k = absurd (omega arith)
digits_within-enough (suc f) (suc g) n h k = ground (arith, digits_within-enough f g (n / 10))

decimal_lem : (n : ℕ) → decimal n ≡ (if ltb n 10 then digit n else decimal (n / 10) ++ digit n)
unfolding decimal
decimal_lem n = ground (arith, digits_within-enough n (suc (n / 10)) (n / 10))

decimal_run : decimal 1204 ≡ "1204"
unfolding decimal
decimal_run = refl

blank_space : is_blank "   " ≡ true
unfolding is_blank
blank_space = refl

blank_word : is_blank " a " ≡ false
unfolding is_blank
blank_word = refl

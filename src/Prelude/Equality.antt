-- ===== src/Prelude/Equality.antt =====
-- Go's `==` on comparable types: a test that decides equality of values.
use Prim.Native.Nat.{ℕ}
use Prim.Native.String.{String}
use mathlib.Core.Path.{◌≡◌, refl}
use mathlib.Core.Logic.{◌↔◌}
use mathlib.Core.Bool.{Bool, true, not}
use text.Mathlib.Text.{◌==◌ as text_eqb}
use text.Mathlib.TextEquality.{eq_iff}
use sre_agent_gitops.Prelude.Tests.{nat_eqb, nat_eqb_iff}

pub record Eq {ℓ} (T : Type ℓ) : Type ℓ where
  pub eqb : T → T → Bool
  pub eqb_iff : (x y : T) → (eqb x y ≡ true) ↔ (x ≡ y)

instance abbrev pub nat_eq : Eq ℕ
nat_eq = record { eqb = nat_eqb; eqb_iff = nat_eqb_iff }

instance abbrev pub text_eq : Eq String
text_eq = record { eqb = text_eqb; eqb_iff = eq_iff }

module _ {ℓ} {T : Type ℓ} ⦃comparable : Eq T⦄ where
  infix 50 ◌!=◌ ◌==◌
  abbrev pub ◌==◌ : T → T → Bool
  x == y = comparable.eqb x y

  abbrev pub ◌!=◌ : T → T → Bool
  x != y = not (x == y)

  pub ==_refl : (x : T) → (x == x) ≡ true
  ==_refl x = (comparable.eqb_iff x x).1 refl

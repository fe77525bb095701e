-- ===== src/Prelude/Dict.antt =====
-- Go's maps, as lists of entries. The order of the list stands for an order of iteration.
use mathlib.Core.Path.{◌≡◌, refl}
use mathlib.Core.Option.{Option, none, some}
use mathlib.Core.List.{List, [], ◌∷◌}
use native.Mathlib.Omega.{arith}
use sre_agent_gitops.Prelude.Tests.{if◌then◌else◌}
use sre_agent_gitops.Prelude.Equality.{Eq, ◌==◌}

abbrev pub Dict {ℓ} : Type ℓ → Type ℓ → Type ℓ
Dict K V = List (K × V)

module _ {ℓ} {K V : Type ℓ} ⦃comparable : Eq K⦄ where
  -- `v, ok := m[key]`
  unfoldable pub lookup : K → Dict K V → Option V
  lookup key [] = none
  lookup key ((entry, held) ∷ entries) =
      let later = lookup key entries in if entry == key then some held else later

  -- `delete(m, key)`
  unfoldable pub delete : K → Dict K V → Dict K V
  delete key [] = []
  delete key ((entry, held) ∷ entries) =
      let later = delete key entries in if entry == key then later else (entry, held) ∷ later

  -- `m[key] = new`
  unfoldable pub insert : K → V → Dict K V → Dict K V
  insert key new [] = (key, new) ∷ []
  insert key new ((entry, held) ∷ entries) =
      let later = insert key new entries in
      if entry == key then (key, new) ∷ entries else (entry, held) ∷ later

  pub lookup-delete :
      (key sought : K) (entries : Dict K V)
      → lookup sought (delete key entries) ≡ (if key == sought then none else lookup sought entries)
  unfolding delete lookup
  lookup-delete key sought [] = ground arith
  lookup-delete key sought ((entry, held) ∷ entries) = ground (
    arith,
    lookup-delete key sought entries,
    comparable.eqb_iff entry key,
    comparable.eqb_iff entry sought,
    comparable.eqb_iff key sought,
  )

  pub lookup-insert :
      (key sought : K) (new : V) (entries : Dict K V)
      → lookup sought (insert key new entries)
        ≡ (if key == sought then some new else lookup sought entries)
  unfolding insert lookup
  lookup-insert key sought new [] = refl
  lookup-insert key sought new ((entry, held) ∷ entries) = ground (
    arith,
    lookup-insert key sought new entries,
    comparable.eqb_iff entry key,
    comparable.eqb_iff entry sought,
    comparable.eqb_iff key sought,
  )

pub ruleset dict_laws = (lookup-insert, lookup-delete)

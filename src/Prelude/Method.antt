-- ===== src/Prelude/Method.antt =====
-- Methods that may change an object and may fail. The object comes back beside the error too: what
-- was written before an early return stays written.
use mathlib.Core.Path.{◌≡◌}
use mathlib.Core.Bool.{Bool, true, false}
use mathlib.Core.Option.{Option, none, some}

pub data Result {ℓ} (E A : Type ℓ) : Type ℓ where
  ok : A → Result E A
  err : E → Result E A

abbrev pub Method {ℓ} : Type ℓ → Type ℓ → Type ℓ → Type ℓ
Method S E A = S → Result E A × S

module _ {ℓ} {S E A : Type ℓ} where
  abbrev pub returns : A → Method S E A
  returns a s = (ok a, s)

  abbrev pub fails : E → Method S E A
  fails e s = (err e, s)

  abbrev pub lift : Result E A → Method S E A
  lift r s = (r, s)

  -- a value, or the error that takes its place
  abbrev pub some_or : Option A → E → Method S E A
  some_or none e s = (err e, s)
  some_or (some a) e s = (ok a, s)

  abbrev pub reads : (S → A) → Method S E A
  reads f s = (ok (f s), s)

module _ {ℓ} {S E : Type ℓ} where
  abbrev pub writes : (S → S) → Method S E Unit
  writes f s = (ok tt, f s)

  -- `if bad { return e }`
  abbrev pub fail_if : Bool → E → Method S E Unit
  fail_if true e s = (err e, s)
  fail_if false e s = (ok tt, s)

  -- `if err := f(); err != nil { return err }`
  abbrev pub fail_on : Option E → Method S E Unit
  fail_on none s = (ok tt, s)
  fail_on (some e) s = (err e, s)

-- the first of two checks that fails
abbrev pub first_error {ℓ} : {E : Type ℓ} → Option E → Option E → Option E
first_error none next = next
first_error (some e) next = some e

-- the result of a state and a method at which both are known
abbrev pub result {ℓ} : {S E A : Type ℓ} → Method S E A → S → Result E A
result m s = (m s).0

abbrev pub final {ℓ} : {S E A : Type ℓ} → Method S E A → S → S
final m s = (m s).1

module _ {ℓ} {S E A B : Type ℓ} where
  abbrev pub continue : Result E A × S → (A → Method S E B) → Result E B × S
  continue (ok a, s) f = f a s
  continue (err e, s) f = (err e, s)

  infixl 10 ◌>>=◌ ◌>>◌
  abbrev pub ◌>>=◌ : Method S E A → (A → Method S E B) → Method S E B
  ◌>>=◌ m f s = continue (m s) f

  abbrev pub ◌>>◌ : Method S E A → Method S E B → Method S E B
  ◌>>◌ m n s = continue (m s) (λ _. n)

abbrev pub is_error {ℓ} : {E A : Type ℓ} → Result E A → Bool
is_error (ok a) = false
is_error (err e) = true

-- `fmt.Errorf` around an error
abbrev pub map_result {ℓ} : {S E F A : Type ℓ} → (E → F) → Result E A × S → Result F A × S
map_result f (ok a, s) = (ok a, s)
map_result f (err e, s) = (err (f e), s)

abbrev pub map_error {ℓ} : {S E F A : Type ℓ} → (E → F) → Method S E A → Method S F A
map_error f m s = map_result f (m s)

-- A call that is refused: it returns an error and leaves the object as it was.
abbrev pub IsRefused {ℓ} : {S E A : Type ℓ} → Method S E A → S → Type ℓ
IsRefused m s = (is_error (result m s) ≡ true) × (final m s ≡ s)

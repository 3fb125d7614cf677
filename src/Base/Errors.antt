-- ===== src/Base/Errors.antt =====
-- Go's `error`, by its text, and the result of a call that returns a value or an error.
use Prim.Native.String.{String}
use mathlib.Core.Path.{◌≡◌, refl}
use mathlib.Core.Logic.{◌⊎◌, inl, inr}
use mathlib.Core.Option.{Option, none, some}

-- An error is known by its text; `nil` is `none`.
abbrev pub Error : Type 0
Error = String

pub data Result {ℓ} (A : Type ℓ) : Type ℓ where
  ok : A → Result A
  err : Error → Result A

-- `if err := …; err != nil { return err }` before the rest of a function that returns an error.
abbrev pub or_else : Option Error → Option Error → Option Error
or_else (some e) k = some e
or_else none k = k

pub Result-cases {ℓ} :
    {A : Type ℓ} (r : Result A) → ((e : Error) × (r ≡ err e)) ⊎ ((a : A) × (r ≡ ok a))
Result-cases (err e) = inl (e, refl)
Result-cases (ok a) = inr (a, refl)

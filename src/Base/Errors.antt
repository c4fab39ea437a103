-- ===== src/Base/Errors.antt =====
-- Go's `error`. A method that returns only an `error` gives an `Option Error` beside the state it
-- leaves, and one that returns a value and an `error` gives a `Result`.
use Prim.Native.String.{String, ◌++◌}
use mathlib.Core.Path.{◌≡◌, refl}
use mathlib.Core.Logic.{◌⊎◌, inl, inr}
use mathlib.Core.Option.{Option, none, some}

-- `errors.New` and `fmt.Errorf`, the latter with its `%w` argument.
pub data Error : Type 0 where
  errorf : String → Error
  wrapf : String → Error → Error

pub data Result {ℓ} (A : Type ℓ) : Type ℓ where
  ok : A → Result A
  err : Error → Result A

infixl 5 ◌>>=◌
abbrev pub ◌>>=◌ {ℓ κ} : {A : Type ℓ} {B : Type κ} → Result A → (A → Result B) → Result B
ok a >>= f = f a
err e >>= f = err e

-- `multierror.Append`, a package outside the repository: it appends an error to a possibly nil
-- accumulated one, and its result is never nil.
abbrev pub Append : Type 0
Append = Option Error → Error → Error

-- `if err != nil { result = multierror.Append(result, err) }`
abbrev pub collect : Append → Option Error → Option Error → Option Error
collect append result none = result
collect append result (some e) = some (append result e)

-- `err.Error()`; every `%w` of the program stands behind a text and a colon.
unfoldable pub message : Error → String
message (errorf s) = s
message (wrapf s e) = s ++ ": " ++ message e

-- To split on an answer and keep the equation.
pub Result-cases {ℓ} :
    {A : Type ℓ} (r : Result A) → ((e : Error) × (r ≡ err e)) ⊎ ((a : A) × (r ≡ ok a))
Result-cases (ok a) = inr (a, refl)
Result-cases (err e) = inl (e, refl)

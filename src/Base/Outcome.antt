-- ===== src/Base/Outcome.antt =====
-- Failing code: an exception, a failed assertion, or a loop that ran out of its fuel, as a value.
use mathlib.Core.Bool.{Bool, true, false}

-- `assertion` is a failed `assert`; the next four are the standard exceptions that the code
-- throws; `undefined` is a signed sum or difference that C++ leaves undefined; `fuel` says that a
-- loop of the model was cut off.
pub data Error : Type 0 where
  assertion invalid_argument overflow_error out_of_range runtime_error undefined fuel : Error

pub data Result {ℓ} (Value : Type ℓ) : Type ℓ where
  err : Error → Result Value
  ok : Value → Result Value

-- What a call that returns nothing does when its test fails.
abbrev pub guard : (passed : Bool) (otherwise : Error) → Result (Unit {0})
guard false otherwise = err otherwise
guard true otherwise = ok tt

infixl 5 ◌>>=◌
abbrev pub ◌>>=◌ {ℓ κ} :
    {V : Type ℓ} {W : Type κ} (first : Result V) (next : V → Result W) → Result W
err thrown >>= next = err thrown
ok value >>= next = next value

infixl 5 ◌>>◌
abbrev pub ◌>>◌ {κ} : {W : Type κ} (first : Result (Unit {0})) (next : Result W) → Result W
first >> next = first >>= λ done. next

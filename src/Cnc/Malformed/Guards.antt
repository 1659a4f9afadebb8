-- ===== src/Cnc/Malformed/Guards.antt =====
-- What the cases of the dispatch share: their guards, and results that are no errors.
use caeron.Base.{
  ℕ, ◌^◌, ◌<◌, ◌≡◌, refl, Bool, true, false, if◌then◌else◌, Result, ok, lt→ltb, le→ltb, arith,
}
use native.Mathlib.Decide.{dec_lt}
use caeron.Word.{lt32}
use caeron.Word.Bounds.{lt32_lem}
use caeron.Buffer.{Buffer}
use caeron.Buffer.Laws.{Fits}
use caeron.Cnc.ClientCommandAdapter.{Outcome}

abbrev pub Succeeds : Result Outcome → Type 0
Succeeds r = (o : Outcome) × (r ≡ ok o)

pub if-Succeeds :
    (c : Bool) (r s : Result Outcome) → Succeeds r → Succeeds s → Succeeds (if c then r else s)
if-Succeeds true r s h k = h
if-Succeeds false r s h k = k

pub refused-Succeeds :
    (c : Bool) (o : Outcome) (s : Result Outcome)
    → (c ≡ false → Succeeds s)
    → Succeeds (if c then ok o else s)
refused-Succeeds true o s k = (o, refl)
refused-Succeeds false o s k = k refl

pub ok-Succeeds : (o : Outcome) → Succeeds (ok o)
ok-Succeeds o = (o, refl)

module _ (b : Buffer) (small : b.capacity < 2 ^ 31) where
  -- The guard of a case: behind it the message has the bytes of its fixed fields.
  pub long_enough :
      (n : ℕ) (o : Outcome) (body : Result Outcome)
      → n < 2 ^ 31
      → (Fits b 0 n → Succeeds body)
      → Succeeds (if lt32 b.capacity n then ok o else body)
  long_enough n o body tiny h = elim (dec_lt b.capacity n) [
    | yes short ↦ (o, rw (lt32_lem b.capacity n small tiny, lt→ltb b.capacity n short) refl)
    | no long ↦
        rw (lt32_lem b.capacity n small tiny, le→ltb b.capacity n (omega arith))
          (h (record { small = small; within = omega arith }))
  ]

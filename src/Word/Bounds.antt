-- ===== src/Word/Bounds.antt =====
-- What the functions of bit_util.h return on the values that the buffers pass to them.
use caeron.Base.{ℕ, ◌+◌, ◌-◌, ◌*◌, ◌/◌, ◌^◌, ◌≤◌, ◌<◌, ◌≡◌, ok, err, Error, false, ltb, ◌==◌, arith}
use caeron.Word.{add32, sub32, lt32, is_neg32, align}

-- The multiple of 32 that `align (n, FRAME_ALIGNMENT)` rounds up to.
abbrev pub aligned : ℕ → ℕ
aligned n = (n + 31) / 32 * 32

pub align_frame : (n : ℕ) → n ≤ 2 ^ 31 - 32 → align n 32 ≡ ok (aligned n)
unfolding align
align_frame n k = ground arith

pub align_int : (n : ℕ) → n ≤ 2 ^ 31 - 4 → align n 4 ≡ ok ((n + 3) / 4 * 4)
unfolding align
align_int n h = ground arith

pub align_overflow : (n : ℕ) → 2 ^ 31 - 32 < n → n < 2 ^ 31 → align n 32 ≡ err Error.overflow_error
unfolding align
align_overflow n h k = ground arith

-- On numbers that an i32 holds, the signed operations are those of ℕ.
pub lt32_lem : (a b : ℕ) → a < 2 ^ 31 → b < 2 ^ 31 → lt32 a b ≡ ltb a b
lt32_lem a b h k = ground arith

pub add32_lem : (a b : ℕ) → a + b < 2 ^ 32 → add32 a b ≡ a + b
add32_lem a b h = omega arith

pub sub32_lem : (a b : ℕ) → b ≤ a → a < 2 ^ 32 → sub32 a b ≡ a - b
sub32_lem a b h k = omega arith

pub is_neg32_lem : (a : ℕ) → a < 2 ^ 31 → is_neg32 a ≡ false
is_neg32_lem a h = ground arith

pub ne_zero : (a : ℕ) → 0 < a → (a == 0) ≡ false
ne_zero a h = ground arith

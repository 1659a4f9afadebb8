-- ===== src/Word.antt =====
-- The integers of caeron/common/types.h and the functions of caeron/common/bit_util.h.
-- An i32 or a u32 is its bit pattern, a number below 2 ^ 32; an i64 or a u64 one below 2 ^ 64.
-- Every sum, difference and negation is reduced by the width, so a signed overflow, undefined in
-- C++, is a wrap-around; not so in the `checked` operations, which then fail (Error.undefined).
pub mod Bounds
use caeron.Base.{
  ℕ, zero, suc, ◌+◌, ◌-◌, ◌*◌, ◌/◌, ◌%◌, ◌^◌, Bool, true, false, not, ◌&&◌, ltb, leb, ◌==◌,
  if◌then◌else◌, Result, ok, err, guard, Error, ◌>>=◌, ◌>>◌,
}

abbrev pub i32_mod : ℕ
i32_mod = 2 ^ 32

abbrev pub i64_mod : ℕ
i64_mod = 2 ^ 64

-- std::numeric_limits<i32>::max()
abbrev pub i32_max : ℕ
i32_max = 2 ^ 31 - 1

abbrev pub add32 : ℕ → ℕ → ℕ
add32 a b = (a + b) % i32_mod

abbrev pub sub32 : ℕ → ℕ → ℕ
sub32 a b = (a + i32_mod - b) % i32_mod

abbrev pub neg32 : ℕ → ℕ
neg32 a = (i32_mod - a) % i32_mod

abbrev pub add64 : ℕ → ℕ → ℕ
add64 a b = (a + b) % i64_mod

abbrev pub sub64 : ℕ → ℕ → ℕ
sub64 a b = (a + i64_mod - b) % i64_mod

-- The sign bit.
abbrev pub is_neg32 : ℕ → Bool
is_neg32 a = leb (2 ^ 31) a

abbrev pub is_neg64 : ℕ → Bool
is_neg64 a = leb (2 ^ 63) a

-- Signed `a < b`: the order of the patterns after adding 2 ^ 31.
abbrev pub lt32 : ℕ → ℕ → Bool
lt32 a b = ltb ((a + 2 ^ 31) % i32_mod) ((b + 2 ^ 31) % i32_mod)

abbrev pub lt64 : ℕ → ℕ → Bool
lt64 a b = ltb ((a + 2 ^ 63) % i64_mod) ((b + 2 ^ 63) % i64_mod)

-- static_cast<i64> of an i32, and static_cast<i32> of an i64.
abbrev pub sign_extend : ℕ → ℕ
sign_extend a = if is_neg32 a then a + (i64_mod - i32_mod) else a

abbrev pub low32 : ℕ → ℕ
low32 a = a % i32_mod

-- The signed difference is an i32, and the signed sum an i64: the patterns stand for signed numbers
-- shifted by 2 ^ 31 and 2 ^ 63.
abbrev pub is_i32_difference : ℕ → ℕ → Bool
is_i32_difference a b =
    let a' = (a + 2 ^ 31) % i32_mod in
    let b' = (b + 2 ^ 31) % i32_mod in leb b' (a' + 2 ^ 31) && ltb a' (b' + 2 ^ 31)

abbrev pub is_i64_sum : ℕ → ℕ → Bool
is_i64_sum a b =
    let sum = (a + 2 ^ 63) % i64_mod + (b + 2 ^ 63) % i64_mod in
    leb (2 ^ 63) sum && ltb sum (i64_mod + 2 ^ 63)

abbrev pub checked_sub32 : ℕ → ℕ → Result ℕ
checked_sub32 a b = if is_i32_difference a b then ok (sub32 a b) else err Error.undefined

abbrev pub checked_add64 : ℕ → ℕ → Result ℕ
checked_add64 a b = if is_i64_sum a b then ok (add64 a b) else err Error.undefined

abbrev pub cache_line_length : ℕ
cache_line_length = 64

abbrev pub size_of_int : ℕ
size_of_int = 4

abbrev pub size_of_long : ℕ
size_of_long = 8

-- std::has_single_bit of a u32, on a fuel of at least its number of bits.
pub has_single_bit : ℕ → ℕ → Bool
has_single_bit zero v = false
has_single_bit (suc f) v =
    let rest = has_single_bit f (v / 2) in
    if v == 1 then true else if v % 2 == 0 then rest else false

unfoldable pub is_power_of_two : ℕ → Bool
unfolding has_single_bit
is_power_of_two value = lt32 0 value && has_single_bit 33 value

-- `& ~(alignment - 1)` clears the low bits: for a power of two it rounds down to a multiple.
unfoldable pub align : ℕ → ℕ → Result ℕ
unfolding is_power_of_two
align value alignment = do
  guard (is_power_of_two alignment) Error.invalid_argument
  let sum = sub64 (add64 (sign_extend value) (sign_extend alignment)) 1
  let result = sum / alignment * alignment
  guard (not (lt64 i32_max result)) Error.overflow_error
  ok (low32 result)

-- std::bit_ceil of a positive u32: the least power of two that is no smaller.
unfoldable pub bit_ceil_from : ℕ → ℕ → ℕ → ℕ
bit_ceil_from zero p v = p
bit_ceil_from (suc f) p v = let rest = bit_ceil_from f (p * 2) v in if leb v p then p else rest

unfoldable pub bit_ceil : ℕ → ℕ
unfolding bit_ceil_from
bit_ceil v = bit_ceil_from 32 1 v

unfoldable pub next_power_of_two : ℕ → Result ℕ
unfolding bit_ceil
next_power_of_two value = do
  guard (lt32 0 value) Error.invalid_argument
  ok (low32 (bit_ceil value))

-- ===== src/Buffer.antt =====
-- caeron/concurrent/unsafe_buffer.h: a typed view over raw bytes. Every `assert` is a test that
-- fails with `Error.assertion`; memory orders are left out, since each access is one step.
pub mod Bytes
pub mod Laws
use caeron.Base.{
  ℕ, ◌+◌, ◌%◌, ◌^◌, ◌*◌, Bool, true, false, not, ◌&&◌, ◌==◌, if◌then◌else◌, Option, none, some,
  Result, ok, guard, Error, ◌>>=◌, ◌>>◌,
}
use caeron.Word.{add32, add64, lt32, is_neg32, sign_extend}
use caeron.Buffer.Bytes.{Memory, load, store, copy, fill}

-- `address` is that of `data_`; `bytes` is indexed from there.
pub record Buffer : Type 0 where
  pub address : ℕ
  pub capacity : ℕ
  pub bytes : Memory

-- offset >= 0 && offset + width <= capacity_
abbrev pub in_bounds : Buffer → ℕ → ℕ → Bool
in_bounds b offset width = not (is_neg32 offset) && not (lt32 b.capacity (add32 offset width))

abbrev pub is_aligned : Buffer → ℕ → ℕ → Bool
is_aligned b offset alignment = (b.address + offset) % alignment == 0

-- Plain accessors: memcpy of an integer.
abbrev pub get_plain : ℕ → Buffer → ℕ → Result ℕ
get_plain width b offset = do
  guard (in_bounds b offset width) Error.assertion
  ok (load width b.bytes offset)

abbrev pub put_plain : ℕ → Buffer → ℕ → ℕ → Result Buffer
put_plain width b offset value = do
  guard (in_bounds b offset width) Error.assertion
  ok (record b { bytes = store width b.bytes offset value })

unfoldable pub get_u8 : Buffer → ℕ → Result ℕ
get_u8 = get_plain 1

unfoldable pub put_u8 : Buffer → ℕ → ℕ → Result Buffer
put_u8 = put_plain 1

unfoldable pub get_i8 : Buffer → ℕ → Result ℕ
unfolding get_u8
get_i8 = get_u8

unfoldable pub put_i8 : Buffer → ℕ → ℕ → Result Buffer
unfolding put_u8
put_i8 = put_u8

unfoldable pub get_u16 : Buffer → ℕ → Result ℕ
get_u16 = get_plain 2

unfoldable pub put_u16 : Buffer → ℕ → ℕ → Result Buffer
put_u16 = put_plain 2

unfoldable pub get_i16 : Buffer → ℕ → Result ℕ
unfolding get_u16
get_i16 = get_u16

unfoldable pub put_i16 : Buffer → ℕ → ℕ → Result Buffer
unfolding put_u16
put_i16 = put_u16

unfoldable pub get_u32 : Buffer → ℕ → Result ℕ
get_u32 = get_plain 4

unfoldable pub put_u32 : Buffer → ℕ → ℕ → Result Buffer
put_u32 = put_plain 4

unfoldable pub get_i32 : Buffer → ℕ → Result ℕ
unfolding get_u32
get_i32 = get_u32

unfoldable pub put_i32 : Buffer → ℕ → ℕ → Result Buffer
unfolding put_u32
put_i32 = put_u32

unfoldable pub get_u64 : Buffer → ℕ → Result ℕ
get_u64 = get_plain 8

unfoldable pub put_u64 : Buffer → ℕ → ℕ → Result Buffer
put_u64 = put_plain 8

unfoldable pub get_i64 : Buffer → ℕ → Result ℕ
unfolding get_u64
get_i64 = get_u64

unfoldable pub put_i64 : Buffer → ℕ → ℕ → Result Buffer
unfolding put_u64
put_i64 = put_u64

-- Atomic accessors: the offset must also be aligned.
abbrev pub get_atomic : ℕ → Buffer → ℕ → Result ℕ
get_atomic width b offset = do
  guard (in_bounds b offset width) Error.assertion
  guard (is_aligned b offset width) Error.assertion
  ok (load width b.bytes offset)

abbrev pub put_atomic : ℕ → Buffer → ℕ → ℕ → Result Buffer
put_atomic width b offset value = do
  guard (in_bounds b offset width) Error.assertion
  guard (is_aligned b offset width) Error.assertion
  ok (record b { bytes = store width b.bytes offset value })

unfoldable pub get_i32_volatile : Buffer → ℕ → Result ℕ
get_i32_volatile = get_atomic 4

unfoldable pub put_i32_volatile : Buffer → ℕ → ℕ → Result Buffer
put_i32_volatile = put_atomic 4

unfoldable pub get_i64_volatile : Buffer → ℕ → Result ℕ
get_i64_volatile = get_atomic 8

unfoldable pub put_i64_volatile : Buffer → ℕ → ℕ → Result Buffer
put_i64_volatile = put_atomic 8

unfoldable pub get_i32_ordered : Buffer → ℕ → Result ℕ
get_i32_ordered = get_atomic 4

unfoldable pub put_i32_ordered : Buffer → ℕ → ℕ → Result Buffer
put_i32_ordered = put_atomic 4

unfoldable pub get_i64_ordered : Buffer → ℕ → Result ℕ
get_i64_ordered = get_atomic 8

unfoldable pub put_i64_ordered : Buffer → ℕ → ℕ → Result Buffer
put_i64_ordered = put_atomic 8

-- Whether the exchange took place, and the buffer after it.
abbrev pub compare_and_set : ℕ → Buffer → ℕ → ℕ → ℕ → Result (Bool × Buffer)
compare_and_set width b offset expected desired = do
  current ← get_atomic width b offset
  ok (
      if current == expected
      then (true, record b { bytes = store width b.bytes offset desired })
      else (false, b))

unfoldable pub compare_and_set_i32 : Buffer → ℕ → ℕ → ℕ → Result (Bool × Buffer)
compare_and_set_i32 = compare_and_set 4

unfoldable pub compare_and_set_i64 : Buffer → ℕ → ℕ → ℕ → Result (Bool × Buffer)
compare_and_set_i64 = compare_and_set 8

-- The value before the addition, and the buffer after it. (fetch_add wraps around.)
unfoldable pub get_and_add_i32 : Buffer → ℕ → ℕ → Result (ℕ × Buffer)
get_and_add_i32 b offset increment = do
  current ← get_atomic 4 b offset
  ok (current, record b { bytes = store 4 b.bytes offset (add32 current increment) })

unfoldable pub get_and_add_i64 : Buffer → ℕ → ℕ → Result (ℕ × Buffer)
get_and_add_i64 b offset increment = do
  current ← get_atomic 8 b offset
  ok (current, record b { bytes = store 8 b.bytes offset (add64 current increment) })

-- `length` bytes of `src` from `start` on. (The cast to size_t sign-extends the length.)
unfoldable pub put_bytes : Buffer → ℕ → Memory → ℕ → ℕ → Result Buffer
put_bytes b offset src start length = do
  guard (in_bounds b offset length) Error.assertion
  ok (record b { bytes = copy b.bytes offset src start (sign_extend length) })

unfoldable pub put_buffer_bytes : Buffer → ℕ → Buffer → ℕ → ℕ → Result Buffer
put_buffer_bytes b dst_offset src src_offset length = do
  guard (in_bounds b dst_offset length) Error.assertion
  guard (in_bounds src src_offset length) Error.assertion
  ok (record b { bytes = copy b.bytes dst_offset src.bytes src_offset (sign_extend length) })

-- The destination starts at index 0 of its own memory.
unfoldable pub get_bytes : Buffer → ℕ → Memory → ℕ → Result Memory
get_bytes b offset dst length = do
  guard (in_bounds b offset length) Error.assertion
  ok (copy dst 0 b.bytes offset (sign_extend length))

unfoldable pub set_memory : Buffer → ℕ → ℕ → ℕ → Result Buffer
set_memory b offset length value = do
  guard (in_bounds b offset length) Error.assertion
  ok (record b { bytes = fill b.bytes offset (sign_extend length) value })

-- `if (length > 0 && src != nullptr) put_bytes (offset, src, length)`; a null pointer is `none`.
unfoldable pub put_some_bytes : Buffer → ℕ → Option Memory → ℕ → Result Buffer
put_some_bytes b offset none length = ok b
put_some_bytes b offset (some src) length =
    if lt32 0 length then put_bytes b offset src 0 length else ok b

-- ===== src/LogBuffer/Descriptor.antt =====
-- caeron/logbuffer/log_buffer_descriptor.h: packed tails, positions, and the metadata of a log.
pub mod Position
pub mod Rotate
use caeron.Base.{
  ℕ, zero, suc, ◌+◌, ◌*◌, ◌/◌, ◌%◌, ◌^◌, Bool, true, false, ◌==◌, if◌then◌else◌, Result, ok, err,
  Error, ◌>>=◌,
}
use caeron.Word.{
  i32_mod, i64_mod, add32, sub32, checked_sub32, checked_add64, neg32, is_neg32, sign_extend, low32,
  size_of_long,
}
use caeron.Buffer.{
  Buffer, get_i32_ordered, get_i64_ordered, put_i64, put_bytes, compare_and_set_i32,
  compare_and_set_i64,
}
use caeron.Protocol.{data_header_length}

abbrev pub partition_count : ℕ
partition_count = 3

abbrev pub log_meta_data_length : ℕ
log_meta_data_length = 4096

abbrev pub tail_counter_offset : ℕ
tail_counter_offset = 0

abbrev pub active_term_count_offset : ℕ
active_term_count_offset = 24

abbrev pub default_frame_header_offset : ℕ
default_frame_header_offset = 320

-- (i64 (term_offset) << 32) | (i64 (term_id) & 0xFFFFFFFF): the halves share no bit.
unfoldable pub pack_tail : ℕ → ℕ → ℕ
pack_tail term_offset term_id =
    (sign_extend term_offset * i32_mod) % i64_mod + sign_extend term_id % i32_mod

unfoldable pub tail_term_id : ℕ → ℕ
tail_term_id tail = low32 tail

unfoldable pub tail_term_offset : ℕ → ℕ
tail_term_offset tail = low32 (tail / i32_mod)

-- The remainder of C++, which has the sign of the dividend.
abbrev pub rem32 : ℕ → ℕ → ℕ
rem32 a n = if is_neg32 a then neg32 (neg32 a % n) else a % n

-- The difference of the term ids is one of signed i32s.
unfoldable pub index_by_term : ℕ → ℕ → Result ℕ
index_by_term initial_term_id active_term_id = do
  term_count ← checked_sub32 active_term_id initial_term_id
  ok (rem32 term_count partition_count)

unfoldable pub index_by_term_count : ℕ → ℕ
index_by_term_count term_count = rem32 term_count partition_count

unfoldable pub compute_position : ℕ → ℕ → ℕ → ℕ → Result ℕ
compute_position active_term_id term_offset position_bits_to_shift initial_term_id = do
  difference ← checked_sub32 active_term_id initial_term_id
  let term_count = sign_extend difference
  checked_add64 ((term_count * 2 ^ position_bits_to_shift) % i64_mod) (sign_extend term_offset)

-- std::countr_zero of a u32 of `bits` bits.
pub countr_zero : ℕ → ℕ → ℕ
countr_zero zero v = 0
countr_zero (suc bits) v = let rest = countr_zero bits (v / 2) in if v % 2 == 1 then 0 else rest + 1

unfoldable pub position_bits_to_shift : ℕ → ℕ
unfolding countr_zero
position_bits_to_shift term_length = countr_zero 32 term_length

unfoldable pub active_term_count : Buffer → Result ℕ
unfolding get_i32_ordered
active_term_count metadata = get_i32_ordered metadata active_term_count_offset

-- The offset of a partition's tail counter, computed in size_t and cast back.
abbrev pub tail_place : ℕ → ℕ
tail_place partition_index =
    low32 (tail_counter_offset + size_of_long * sign_extend partition_index)

unfoldable pub raw_tail_volatile : Buffer → ℕ → Result ℕ
unfolding get_i64_ordered
raw_tail_volatile metadata partition_index = get_i64_ordered metadata (tail_place partition_index)

-- The buffer that is returned is the term buffer.
unfoldable pub apply_default_header : Buffer → Buffer → ℕ → Result Buffer
unfolding put_bytes
apply_default_header metadata term term_offset =
    put_bytes term term_offset metadata.bytes default_frame_header_offset data_header_length

-- The compare-and-set loop of rotate_log: whether the tail was updated. One round is enough where
-- no other thread writes between the load and the exchange, which is how a call is modelled.
unfoldable pub rotate_tail : ℕ → Buffer → ℕ → ℕ → ℕ → Result (Bool × Buffer)
rotate_tail zero metadata next_index expected_term_id next_term_id = err Error.fuel
rotate_tail (suc fuel) metadata next_index expected_term_id next_term_id = do
  raw_tail ← raw_tail_volatile metadata next_index
  let rest = rotate_tail fuel metadata next_index expected_term_id next_term_id
  let attempt : Result (Bool × Buffer) = do
    (exchanged, metadata') ←
        compare_and_set_i64 metadata (tail_place next_index) raw_tail (pack_tail 0 next_term_id)
    (if exchanged then ok (true, metadata') else rest)
  (if expected_term_id == tail_term_id raw_tail then attempt else ok (false, metadata))

unfoldable pub rotate_log : Buffer → ℕ → ℕ → Result (Bool × Buffer)
unfolding rotate_tail
rotate_log metadata term_count term_id = do
  let next_term_id = add32 term_id 1
  let next_term_count = add32 term_count 1
  let next_index = index_by_term_count next_term_count
  let expected_term_id = sub32 next_term_id partition_count
  (updated, metadata') ← rotate_tail 1 metadata next_index expected_term_id next_term_id
  (if updated
      then compare_and_set_i32 metadata' active_term_count_offset term_count next_term_count
      else ok (false, metadata'))

unfoldable pub initialise_tail_with_term_id : Buffer → ℕ → ℕ → Result Buffer
unfolding put_i64
initialise_tail_with_term_id metadata partition_index term_id =
    put_i64 metadata (tail_place partition_index) (pack_tail 0 term_id)

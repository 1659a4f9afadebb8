-- ===== src/Concurrent/Counters.antt =====
-- caeron/concurrent/counters_manager.h, atomic_counter.h and position.h: counters in shared memory.
-- A pointer to bytes that may be null is an `Option` of a memory. Capacities are not negative.
pub mod Slots
pub mod Values
pub mod Fill
pub mod Allocate
pub mod Release
use caeron.Base.{
  ℕ, zero, suc, ◌+◌, ◌-◌, ◌*◌, ◌/◌, ◌%◌, ◌^◌, Bool, true, false, not, ◌&&◌, ◌||◌, ◌==◌,
  if◌then◌else◌, Option, none, some, List, [], ◌∷◌, Result, ok, err, Error, guard, ◌>>=◌, ◌>>◌,
}
use caeron.Word.{i32_mod, add32, checked_add64, is_neg32, lt32}
use caeron.Buffer.{
  Buffer, get_i32, put_i32, put_i64, put_some_bytes, get_bytes, get_i32_volatile, get_i32_ordered,
  put_i32_ordered, get_i64_volatile, put_i64_volatile, get_i64_ordered, put_i64_ordered,
  get_and_add_i64, compare_and_set_i32, compare_and_set_i64,
}
use caeron.Buffer.Bytes.{Memory}

abbrev pub mul32 : ℕ → ℕ → ℕ
mul32 a b = (a * b) % i32_mod

abbrev pub not_free : ℕ
not_free = 2 ^ 32 - 1

pub record CountersManager : Type 0 where
  pub metadata : Buffer
  pub values : Buffer
  pub metadata_slot_size : ℕ
  pub max_counter_id : ℕ

unfoldable pub create : Buffer → Buffer → ℕ → Result CountersManager
create metadata values metadata_slot_size = do
  guard (not (lt32 metadata_slot_size 12)) Error.invalid_argument
  let max_counter_id = values.capacity / 8
  guard (max_counter_id == metadata.capacity / metadata_slot_size) Error.invalid_argument
  ok (record {
    metadata = metadata;
    values = values;
    metadata_slot_size = metadata_slot_size;
    max_counter_id = max_counter_id;
  })

unfoldable pub counter_offset : ℕ → ℕ
counter_offset counter_id = mul32 counter_id 8

unfoldable pub slot_offset : CountersManager → ℕ → ℕ
slot_offset m counter_id = mul32 counter_id m.metadata_slot_size

unfoldable pub validate_counter_id : CountersManager → ℕ → Result (Unit {0})
validate_counter_id m counter_id =
    guard (not (is_neg32 counter_id || not (lt32 counter_id m.max_counter_id))) Error.out_of_range

-- The loop of find_free_counter_id, with `left` slots to go: the slot that was marked NOT_FREE, if
-- there is one (the source returns -1 if not), and the metadata.
unfoldable pub find_free_counter_id : ℕ → ℕ → ℕ → Buffer → Result (Option ℕ × Buffer)
unfolding get_i32_volatile compare_and_set_i32
find_free_counter_id zero size i metadata = ok (none, metadata)
find_free_counter_id (suc left) size i metadata = do
  existing ← get_i32_volatile metadata (mul32 i size)
  let rest = find_free_counter_id left size (i + 1)
  let mark : Result (Option ℕ × Buffer) = do
    (marked, metadata') ← compare_and_set_i32 metadata (mul32 i size) 0 not_free
    (if marked then ok (some i, metadata') else rest metadata')
  (if existing == 0 then mark else rest metadata)

-- What allocate writes once it has marked a slot.
unfoldable pub fill_slot :
    CountersManager → ℕ → ℕ → Option Memory → ℕ → Option Memory → ℕ → Result CountersManager
unfolding put_some_bytes slot_offset counter_offset
fill_slot m counter_id type_id key key_length label label_length = do
  let slot = slot_offset m counter_id
  metadata ← put_i32 m.metadata (add32 slot 4) key_length
  metadata ← put_some_bytes metadata (add32 slot 12) key key_length
  metadata ← put_i32 metadata (add32 slot 8) label_length
  metadata ← put_some_bytes metadata (add32 (add32 slot 12) key_length) label label_length
  values ← put_i64 m.values (counter_offset counter_id) 0
  metadata ← put_i32_ordered metadata slot type_id
  ok (record m { metadata = metadata; values = values })

unfoldable pub allocate :
    CountersManager → ℕ → Option Memory → ℕ → Option Memory → ℕ → Result (ℕ × CountersManager)
unfolding find_free_counter_id fill_slot
allocate m type_id key key_length label label_length = do
  guard (not (type_id == 0 || type_id == not_free)) Error.invalid_argument
  guard (not (is_neg32 key_length || is_neg32 label_length)) Error.invalid_argument
  guard (not (lt32 m.metadata_slot_size (add32 (add32 12 key_length) label_length)))
      Error.invalid_argument
  (found, metadata) ← find_free_counter_id m.max_counter_id m.metadata_slot_size 0 m.metadata
  elim found [
    | none ↦ err Error.runtime_error
    | some counter_id ↦ do
      m' ←
          fill_slot (record m { metadata = metadata }) counter_id type_id key key_length label
            label_length
      ok (counter_id, m')
  ]

unfoldable pub free : CountersManager → ℕ → Result CountersManager
unfolding validate_counter_id slot_offset counter_offset
free m counter_id = do
  validate_counter_id m counter_id
  metadata ← put_i32_ordered m.metadata (slot_offset m counter_id) 0
  values ← put_i64_volatile m.values (counter_offset counter_id) 0
  ok (record m { metadata = metadata; values = values })

unfoldable pub get_counter_value : CountersManager → ℕ → Result ℕ
unfolding validate_counter_id counter_offset
get_counter_value m counter_id = do
  validate_counter_id m counter_id
  get_i64_volatile m.values (counter_offset counter_id)

unfoldable pub set_counter_value : CountersManager → ℕ → ℕ → Result CountersManager
unfolding validate_counter_id counter_offset
set_counter_value m counter_id value = do
  validate_counter_id m counter_id
  values ← put_i64_volatile m.values (counter_offset counter_id) value
  ok (record m { values = values })

unfoldable pub get_type_id : CountersManager → ℕ → Result ℕ
unfolding validate_counter_id slot_offset
get_type_id m counter_id = do
  validate_counter_id m counter_id
  get_i32_ordered m.metadata (slot_offset m counter_id)

-- The copy of a key or a label to the caller's bytes, of which there are `dst_length`.
unfoldable pub copy_out : Buffer → ℕ → ℕ → Option Memory → ℕ → Result (Option Memory)
copy_out b offset length none dst_length = ok none
copy_out b offset length (some dst) dst_length =
    let copy_len = if lt32 dst_length length then dst_length else length in
    let copied : Result (Option Memory) = do dst' ← get_bytes b offset dst copy_len; ok (some dst')
    in if lt32 0 copy_len then copied else ok (some dst)

-- The length that is returned, and the caller's bytes.
unfoldable pub get_key : CountersManager → ℕ → Option Memory → ℕ → Result (ℕ × Option Memory)
unfolding validate_counter_id slot_offset copy_out
get_key m counter_id dst dst_length = do
  validate_counter_id m counter_id
  let slot = slot_offset m counter_id
  key_length ← get_i32 m.metadata (add32 slot 4)
  dst' ← copy_out m.metadata (add32 slot 12) key_length dst dst_length
  ok (key_length, dst')

unfoldable pub get_label : CountersManager → ℕ → Option Memory → ℕ → Result (ℕ × Option Memory)
unfolding validate_counter_id slot_offset copy_out
get_label m counter_id dst dst_length = do
  validate_counter_id m counter_id
  let slot = slot_offset m counter_id
  key_length ← get_i32 m.metadata (add32 slot 4)
  label_length ← get_i32 m.metadata (add32 slot 8)
  dst' ← copy_out m.metadata (add32 (add32 slot 12) key_length) label_length dst dst_length
  ok (label_length, dst')

-- The loop of forEach, with `left` slots to go: the calls of the handler.
unfoldable pub for_each_loop : ℕ → CountersManager → ℕ → Result (List (ℕ × ℕ))
unfolding slot_offset
for_each_loop zero m i = ok []
for_each_loop (suc left) m i = do
  type_id ← get_i32_ordered m.metadata (slot_offset m i)
  calls ← for_each_loop left m (i + 1)
  ok (if lt32 0 type_id then (i, type_id) ∷ calls else calls)

unfoldable pub for_each : CountersManager → Result (List (ℕ × ℕ))
unfolding for_each_loop
for_each m = for_each_loop m.max_counter_id m 0

-- The two classes that wrap one slot of the values, AtomicCounter and UnsafeBufferPosition: the
-- counter's id, and the operations that are more than an access of the buffer.
unfoldable pub atomic_counter : ℕ → Buffer → Result ℕ
unfolding counter_offset
atomic_counter counter_id values = do
  let offset = counter_offset counter_id
  guard (not (is_neg32 offset) && not (lt32 values.capacity (add32 offset 8))) Error.assertion
  ok offset

unfoldable pub get_and_increment : Buffer → ℕ → Result (ℕ × Buffer)
get_and_increment values offset = get_and_add_i64 values offset 1

-- The atomic addition wraps around; the sum that is returned is one of signed i64s.
unfoldable pub increment_ordered : Buffer → ℕ → ℕ → Result (ℕ × Buffer)
increment_ordered values offset increment = do
  (previous, values') ← get_and_add_i64 values offset increment
  sum ← checked_add64 previous increment
  ok (sum, values')

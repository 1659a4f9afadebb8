-- ===== src/Concurrent/Counters/Values.antt =====
-- The values of the counters are independent of one another.
use caeron.Base.{ℕ, ◌*◌, ◌%◌, ◌^◌, ◌≤◌, ◌<◌, ◌≡◌, ◌≢◌, true, ok, arith}
use caeron.Word.{add64, is_i64_sum}
use caeron.Buffer.{Buffer, get_i64_volatile, put_i64_volatile, get_and_add_i64}
use caeron.Buffer.Bytes.{load, store, load-store_self, load-store_elsewhere}
use caeron.Buffer.Laws.{Fits, get_atomic_lem, put_atomic_lem}
use caeron.Concurrent.Counters.{
  CountersManager, counter_offset, validate_counter_id, get_counter_value, set_counter_value,
  atomic_counter, increment_ordered,
}

-- The values buffer has room for all the counters, at an aligned address.
pub record HasValues (m : CountersManager) : Type 0 where
  pub placed : m.values.address % 8 ≡ 0
  pub small : m.values.capacity < 2 ^ 31
  pub room : 8 * m.max_counter_id ≤ m.values.capacity

abbrev pub value_at : CountersManager → ℕ → ℕ
value_at m i = load 8 m.values.bytes (8 * i)

module _ (m : CountersManager) (i : ℕ) (valid : HasValues m) (known : i < m.max_counter_id) where
  pub validate_counter_id_lem : validate_counter_id m i ≡ ok tt
  unfolding validate_counter_id
  validate_counter_id_lem = ground (arith, valid.small, valid.room)

  pub counter_offset_lem : counter_offset i ≡ 8 * i
  unfolding counter_offset
  counter_offset_lem = omega (arith, valid.small, valid.room)

  pub slot-Fits : Fits m.values (8 * i) 8
  slot-Fits = record { small = valid.small; within = omega (arith, valid.room) }

  pub get_counter_value_lem : get_counter_value m i ≡ ok (value_at m i)
  unfolding get_counter_value get_i64_volatile
  get_counter_value_lem = rw (
    validate_counter_id_lem,
    counter_offset_lem,
    get_atomic_lem 8 m.values (8 * i) slot-Fits (omega (arith, valid.placed)),
  )

  with_value : ℕ → CountersManager
  with_value v = record m { values = record m.values { bytes = store 8 m.values.bytes (8 * i) v } }

  set_counter_value_lem : (v : ℕ) → set_counter_value m i v ≡ ok (with_value v)
  unfolding set_counter_value put_i64_volatile with_value
  set_counter_value_lem v = rw (
    validate_counter_id_lem,
    counter_offset_lem,
    put_atomic_lem 8 m.values (8 * i) v slot-Fits (omega (arith, valid.placed)),
  )

with_value-HasValues :
    (m : CountersManager) (i v : ℕ) (valid : HasValues m) (known : i < m.max_counter_id)
    → HasValues (with_value m i valid known v)
unfolding with_value
with_value-HasValues m i v valid known = record {
  placed = valid.placed;
  small = valid.small;
  room = valid.room;
}

-- Setting the value of a counter succeeds; the counter then has this value, and every other
-- counter the value that it had.
pub set_counter_value-get_counter_value :
    (m : CountersManager) (i j v : ℕ)
    → HasValues m
    → i < m.max_counter_id
    → j < m.max_counter_id
    → i ≢ j
    → v < 2 ^ 64
    → (m' : CountersManager) × (set_counter_value m i v ≡ ok m')
      × (get_counter_value m' i ≡ ok v)
      × (get_counter_value m' j ≡ get_counter_value m j)
unfolding with_value
set_counter_value-get_counter_value m i j v valid known other ne small =
    let m' = with_value m i valid known v in
    let valid' = with_value-HasValues m i v valid known in
    (
      m',
      set_counter_value_lem m i valid known v,
      rw (get_counter_value_lem m' i valid' known)
          (rw (load-store_self 8 m.values.bytes (8 * i) v small)),
      rw (get_counter_value_lem m' j valid' other, get_counter_value_lem m j valid other)
          (rw (load-store_elsewhere 8 8 m.values.bytes (8 * j) (8 * i) v (omega arith))),
    )

-- An increment of a counter through AtomicCounter, of a value and by a number whose signed sum is
-- an i64: it returns the sum, and this is the value that the manager of the counters then reports;
-- every other counter keeps its value.
pub increment_ordered-get_counter_value :
    (m : CountersManager) (i j increment : ℕ)
    → HasValues m
    → i < m.max_counter_id
    → j < m.max_counter_id
    → i ≢ j
    → is_i64_sum (value_at m i) increment ≡ true
    → (offset v : ℕ) × (values : Buffer) × (atomic_counter i m.values ≡ ok offset)
      × (get_counter_value m i ≡ ok v)
      × (increment_ordered m.values offset increment ≡ ok (add64 v increment, values))
      × (get_counter_value (record m { values = values }) i ≡ ok (add64 v increment))
      × (get_counter_value (record m { values = values }) j ≡ get_counter_value m j)
unfolding atomic_counter increment_ordered get_and_add_i64 with_value
increment_ordered-get_counter_value m i j increment valid known other ne in_range =
    let v = value_at m i in
    let s = add64 v increment in
    let valid' = with_value-HasValues m i s valid known in
    (
      8 * i,
      v,
      record m.values { bytes = store 8 m.values.bytes (8 * i) s },
      rw (counter_offset_lem m i valid known) (ground (arith, valid.small, valid.room)),
      get_counter_value_lem m i valid known,
      rw (
        get_atomic_lem 8 m.values (8 * i) (slot-Fits m i valid known) (omega (arith, valid.placed)),
        in_range,
      ),
      rw (get_counter_value_lem (with_value m i valid known s) i valid' known)
          (rw (load-store_self 8 m.values.bytes (8 * i) s (omega arith))),
      rw
          (
            get_counter_value_lem (with_value m i valid known s) j valid' other,
            get_counter_value_lem m j valid other,
          )
          (rw (load-store_elsewhere 8 8 m.values.bytes (8 * j) (8 * i) s (omega arith))),
    )

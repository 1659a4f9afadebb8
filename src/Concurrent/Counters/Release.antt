-- ===== src/Concurrent/Counters/Release.antt =====
-- Freeing a counter.
use caeron.Base.{ℕ, ◌*◌, ◌<◌, ◌≡◌, ◌≢◌, refl, ok, arith, ◌∙◌}
use caeron.Buffer.{put_i32_ordered, put_i64_volatile}
use caeron.Buffer.Bytes.{Apart, store, load-store_self, load-store_elsewhere}
use caeron.Buffer.Laws.{put_atomic_lem}
use caeron.Concurrent.Counters.{CountersManager, slot_offset, free, get_type_id, get_counter_value}
use caeron.Concurrent.Counters.Values.{
  validate_counter_id_lem, counter_offset_lem, get_counter_value_lem, slot-Fits,
}
use caeron.Concurrent.Counters.Slots.{type_id_at, slots-Apart, offset_lem, type-Fits, type-aligned}
use caeron.Concurrent.Counters.Fill.{IsManager, get_type_id_lem}

abbrev freed : CountersManager → ℕ → CountersManager
freed m k = record m {
  metadata = record m.metadata { bytes = store 4 m.metadata.bytes (k * m.metadata_slot_size) 0 };
  values = record m.values { bytes = store 8 m.values.bytes (8 * k) 0 };
}

freed-IsManager : (m : CountersManager) (k : ℕ) → IsManager m → IsManager (freed m k)
freed-IsManager m k valid = record {
  slots = record {
    placed = valid.slots.placed;
    small = valid.slots.small;
    wide = valid.slots.wide;
    whole = valid.slots.whole;
    room = valid.slots.room;
  };
  values = record {
    placed = valid.values.placed;
    small = valid.values.small;
    room = valid.values.room;
  };
}

free_to :
    (m : CountersManager) (k : ℕ) → IsManager m → k < m.max_counter_id → free m k ≡ ok (freed m k)
unfolding free slot_offset put_i32_ordered put_i64_volatile
free_to m k valid known =
    let size = m.metadata_slot_size in
    let n = m.max_counter_id in
    rw (
      validate_counter_id_lem m k valid.values known,
      offset_lem m.metadata size n k valid.slots known,
      counter_offset_lem m k valid.values known,
      put_atomic_lem 4 m.metadata (k * size) 0 (type-Fits m.metadata size n k valid.slots known)
          (type-aligned m.metadata size n k valid.slots known),
      put_atomic_lem 8 m.values (8 * k) 0 (slot-Fits m k valid.values known)
          (omega (arith, valid.values.placed)),
    )

-- Freeing a counter of a well-formed manager succeeds and leaves the manager well-formed. The
-- counter's type is then 0, that of a free slot, and its value 0; every other counter has the type
-- and the value that it had.
pub free_lem :
    (m : CountersManager) (k j : ℕ)
    → IsManager m
    → k < m.max_counter_id
    → j < m.max_counter_id
    → j ≢ k
    → (m' : CountersManager) × (free m k ≡ ok m')
      × IsManager m'
      × (get_type_id m' k ≡ ok 0)
      × (get_counter_value m' k ≡ ok 0)
      × (get_type_id m' j ≡ get_type_id m j)
      × (get_counter_value m' j ≡ get_counter_value m j)
free_lem m k j valid known other ne =
    let m' = freed m k in
    let valid' = freed-IsManager m k valid in
    let size = m.metadata_slot_size in
    let apart : Apart (j * size) 4 (k * size) size =
      slots-Apart size j k 4 ne (omega (arith, valid.slots.wide)) in
    let same : type_id_at m'.metadata size j ≡ type_id_at m.metadata size j =
      load-store_elsewhere 4 4 m.metadata.bytes (j * size) (k * size) 0
        (omega (arith, apart, valid.slots.wide)) in
    (
      m',
      free_to m k valid known,
      valid',
      get_type_id_lem m' k valid' known
          ∙ rw (load-store_self 4 m.metadata.bytes (k * size) 0 (omega arith)) refl,
      get_counter_value_lem m' k valid'.values known
          ∙ rw (load-store_self 8 m.values.bytes (8 * k) 0 (omega arith)) refl,
      rw (get_type_id_lem m' j valid' other, get_type_id_lem m j valid other, same) refl,
      rw
          (
            get_counter_value_lem m' j valid'.values other,
            get_counter_value_lem m j valid.values other,
          )
          (rw (load-store_elsewhere 8 8 m.values.bytes (8 * j) (8 * k) 0 (omega arith)) refl),
    )

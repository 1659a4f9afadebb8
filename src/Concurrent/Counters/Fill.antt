-- ===== src/Concurrent/Counters/Fill.antt =====
-- What fill_slot leaves in the slot that it writes, and in the others.
use caeron.Base.{
  ℕ, ◌+◌, ◌*◌, ◌^◌, ◌≤◌, ◌<◌, ◌≡◌, inl, inr, refl, Option, none, some, Bool-cases, ok, arith, ◌∙◌,
}
use caeron.Word.{lt32, add32}
use caeron.Buffer.{put_some_bytes, Buffer, get_i32_ordered}
use caeron.Buffer.Bytes.{
  Memory, Apart, load, store, load-store_self, load-store_elsewhere, load-copy_elsewhere,
}
use caeron.Buffer.Laws.{
  Fits, get_atomic_lem, put_i32_lem, put_i64_lem, put_bytes_lem, put_i32_ordered_lem,
}
use caeron.Concurrent.Counters.{CountersManager, slot_offset, fill_slot, get_type_id}
use caeron.Concurrent.Counters.Values.{
  HasValues, validate_counter_id_lem, counter_offset_lem, slot-Fits,
}
use caeron.Concurrent.Counters.Slots.{
  HasSlots, type_id_at, inside, offset_lem, type-Fits, type-aligned,
}

-- `b'` is `b` but for bytes of the `n` from `o` on.
record Kept (b : Buffer) (o n : ℕ) (b' : Buffer) : Type 0 where
  address_kept : b'.address ≡ b.address
  capacity_kept : b'.capacity ≡ b.capacity
  loads_kept : (r : ℕ) → Apart r 4 o n → load 4 b'.bytes r ≡ load 4 b.bytes r

put_some_bytes-Kept :
    (b : Buffer) (o : ℕ) (source : Option Memory) (n : ℕ)
    → Fits b o n
    → (b' : Buffer) × (put_some_bytes b o source n ≡ ok b') × Kept b o n b'
unfolding put_some_bytes
put_some_bytes-Kept b o none n fits =
    (b, refl, record { address_kept = refl; capacity_kept = refl; loads_kept = λ r h. refl })
put_some_bytes-Kept b o (some bytes) n fits = elim (Bool-cases (lt32 0 n)) [
  | inl nonempty ↦ (
    _,
    rw nonempty (put_bytes_lem b o bytes 0 n fits),
    record {
      address_kept = refl;
      capacity_kept = refl;
      loads_kept = λ r h. load-copy_elsewhere 4 b.bytes bytes o 0 n r h;
    },
  )
  | inr nothing ↦ (
    b,
    rw nothing,
    record { address_kept = refl; capacity_kept = refl; loads_kept = λ r h. refl },
  )
]

-- The manager's two buffers fit together.
pub record IsManager (m : CountersManager) : Type 0 where
  pub slots : HasSlots m.metadata m.metadata_slot_size m.max_counter_id
  pub values : HasValues m

-- The slot of counter `k` in `m'` holds `type_id`, every other slot the type that it has in `b`.
pub record Filled (m : CountersManager) (k type_id : ℕ) (m' : CountersManager) : Type 0 where
  pub size_kept : m'.metadata_slot_size ≡ m.metadata_slot_size
  pub count_kept : m'.max_counter_id ≡ m.max_counter_id
  pub address_kept : m'.metadata.address ≡ m.metadata.address
  pub capacity_kept : m'.metadata.capacity ≡ m.metadata.capacity
  pub values_are : m'.values ≡ record m.values { bytes = store 8 m.values.bytes (8 * k) 0 }
  pub has_type : type_id_at m'.metadata m.metadata_slot_size k ≡ type_id
  pub others_kept :
      (r : ℕ)
      → Apart r 4 (k * m.metadata_slot_size) m.metadata_slot_size
      → load 4 m'.metadata.bytes r ≡ load 4 m.metadata.bytes r

pub fill_slot-Filled :
    (m : CountersManager) (k type_id : ℕ) (key : Option Memory) (kl : ℕ) (label : Option Memory)
    (ll : ℕ)
    → IsManager m
    → k < m.max_counter_id
    → type_id < 2 ^ 32
    → 12 + kl + ll ≤ m.metadata_slot_size
    → (m' : CountersManager) × (fill_slot m k type_id key kl label ll ≡ ok m')
      × Filled m k type_id m'
unfolding fill_slot slot_offset
fill_slot-Filled m k type_id key kl label ll valid known small fits =
    let b0 = m.metadata in
    let size = m.metadata_slot_size in
    let o = k * size in
    let room : o + size ≤ b0.capacity = inside b0 size m.max_counter_id k valid.slots known in
    let tiny : b0.capacity < 2 ^ 31 = valid.slots.small in
    let b1 : Buffer = record b0 { bytes = store 4 b0.bytes (o + 4) kl } in
    let (b2, e2, kept2) =
      put_some_bytes-Kept b1 (o + 12) key kl (record { small = tiny; within = omega arith }) in
    let b3 : Buffer = record b2 { bytes = store 4 b2.bytes (o + 8) ll } in
    let (b4, e4, kept4) = put_some_bytes-Kept b3 (o + 12 + kl) label ll (record {
      small = omega (arith, kept2.capacity_kept);
      within = omega (arith, kept2.capacity_kept);
    }) in
    let b5 : Buffer = record b4 { bytes = store 4 b4.bytes o type_id } in
    let v : Buffer = record m.values { bytes = store 8 m.values.bytes (8 * k) 0 } in
    let m' : CountersManager = record m { metadata = b5; values = v } in
    let p4 : add32 o 4 ≡ o + 4 = omega (arith, valid.slots.wide) in
    let p8 : add32 o 8 ≡ o + 8 = omega (arith, valid.slots.wide) in
    let p12 : add32 o 12 ≡ o + 12 = omega (arith, valid.slots.wide) in
    let pk : add32 (o + 12) kl ≡ o + 12 + kl = omega arith in
    (
      m',
      rw (
        offset_lem b0 size m.max_counter_id k valid.slots known,
        p4,
        p8,
        p12,
        pk,
        counter_offset_lem m k valid.values known,
        put_i32_lem b0 (o + 4) kl
            (record { small = tiny; within = omega (arith, valid.slots.wide) }),
        e2,
        put_i32_lem b2 (o + 8) ll (record {
          small = omega (arith, kept2.capacity_kept);
          within = omega (arith, kept2.capacity_kept, valid.slots.wide);
        }),
        e4,
        put_i64_lem m.values (8 * k) 0 (slot-Fits m k valid.values known),
        put_i32_ordered_lem b4 o type_id
            (record {
              small = omega (arith, kept2.capacity_kept, kept4.capacity_kept);
              within = omega (arith, kept2.capacity_kept, kept4.capacity_kept, valid.slots.wide);
            })
            (omega (
              arith,
              kept2.address_kept,
              kept4.address_kept,
              type-aligned b0 size m.max_counter_id k valid.slots known,
            )),
      ),
      record {
        size_kept = refl;
        count_kept = refl;
        address_kept = kept4.address_kept ∙ kept2.address_kept;
        capacity_kept = kept4.capacity_kept ∙ kept2.capacity_kept;
        values_are = refl;
        has_type = load-store_self 4 b4.bytes o type_id small;
        others_kept = λ r apart.
            load-store_elsewhere 4 4 b4.bytes r o type_id (omega (arith, valid.slots.wide))
            ∙ kept4.loads_kept r (omega arith)
            ∙ load-store_elsewhere 4 4 b2.bytes r (o + 8) ll (omega (arith, valid.slots.wide))
            ∙ kept2.loads_kept r (omega arith)
            ∙ load-store_elsewhere 4 4 b0.bytes r (o + 4) kl (omega (arith, valid.slots.wide));
      },
    )

pub get_type_id_lem :
    (m : CountersManager) (i : ℕ)
    → IsManager m
    → i < m.max_counter_id
    → get_type_id m i ≡ ok (type_id_at m.metadata m.metadata_slot_size i)
unfolding get_type_id slot_offset get_i32_ordered
get_type_id_lem m i valid known = rw (
  validate_counter_id_lem m i valid.values known,
  offset_lem m.metadata m.metadata_slot_size m.max_counter_id i valid.slots known,
  get_atomic_lem 4 m.metadata (i * m.metadata_slot_size)
      (type-Fits m.metadata m.metadata_slot_size m.max_counter_id i valid.slots known)
      (type-aligned m.metadata m.metadata_slot_size m.max_counter_id i valid.slots known),
)

pub Filled-IsManager :
    (m : CountersManager) (k type_id : ℕ) (m' : CountersManager)
    → IsManager m
    → Filled m k type_id m'
    → IsManager m'
Filled-IsManager m k type_id m' valid f = record {
  slots = record {
    placed = rw f.address_kept valid.slots.placed;
    small = rw f.capacity_kept valid.slots.small;
    wide = rw f.size_kept valid.slots.wide;
    whole = rw f.size_kept valid.slots.whole;
    room = rw (f.size_kept, f.count_kept, f.capacity_kept) valid.slots.room;
  };
  values = record {
    placed = rw f.values_are valid.values.placed;
    small = rw f.values_are valid.values.small;
    room = rw (f.values_are, f.count_kept) valid.values.room;
  };
}

abbrev pub with_metadata : CountersManager → Buffer → CountersManager
with_metadata m b = record m { metadata = b }

pub marked-IsManager :
    (m : CountersManager) (bytes : Memory)
    → IsManager m
    → IsManager (with_metadata m (record m.metadata { bytes = bytes }))
marked-IsManager m bytes valid = record {
  slots = record {
    placed = valid.slots.placed;
    small = valid.slots.small;
    wide = valid.slots.wide;
    whole = valid.slots.whole;
    room = valid.slots.room;
  };
  values = record {
    placed = valid.values.placed;
    small = valid.values.small;
    room = valid.values.room;
  };
}

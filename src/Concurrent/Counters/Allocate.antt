-- ===== src/Concurrent/Counters/Allocate.antt =====
-- The first free slot is the one that allocate takes.
use caeron.Base.{
  ℕ, ◌+◌, ◌*◌, ◌^◌, ◌≤◌, ◌<◌, ◌≡◌, ◌≢◌, true, false, ◌||◌, ◌==◌, refl, Option, none, some, ok, err,
  Error, arith, ◌∙◌,
}
use caeron.Word.{lt32, is_neg32, add32}
use caeron.Buffer.{Buffer}
use caeron.Buffer.Bytes.{Memory, Apart, load-store_self, load-store_elsewhere}
use caeron.Concurrent.Counters.{
  CountersManager, not_free, find_free_counter_id, fill_slot, allocate, get_type_id,
  get_counter_value,
}
use caeron.Concurrent.Counters.Values.{get_counter_value_lem}
use caeron.Concurrent.Counters.Slots.{
  type_id_at, all_taken, slots-Apart, inside, marked, find_none, find_first,
}
use caeron.Concurrent.Counters.Fill.{
  IsManager, fill_slot-Filled, get_type_id_lem, Filled-IsManager, with_metadata, marked-IsManager,
}

-- The arguments that allocate accepts.
pub record IsRequest (size type_id kl ll : ℕ) : Type 0 where
  pub is_i32 : type_id < 2 ^ 32
  pub not_zero : type_id ≢ 0
  pub not_marked : type_id ≢ not_free
  pub fits : 12 + kl + ll ≤ size

allocate-found :
    (m : CountersManager) (type_id : ℕ) (key : Option Memory) (kl : ℕ) (label : Option Memory)
    (ll : ℕ) (k : ℕ) (b : Buffer) (m' : CountersManager)
    → m.metadata_slot_size < 2 ^ 31
    → IsRequest m.metadata_slot_size type_id kl ll
    → find_free_counter_id m.max_counter_id m.metadata_slot_size 0 m.metadata ≡ ok (some k, b)
    → fill_slot (with_metadata m b) k type_id key kl label ll ≡ ok m'
    → allocate m type_id key kl label ll ≡ ok (k, m')
unfolding allocate
allocate-found m type_id key kl label ll k b m' small r found filled =
    let named : (type_id == 0 || type_id == not_free) ≡ false =
      ground (arith, r.not_zero, r.not_marked) in
    let lengths : (is_neg32 kl || is_neg32 ll) ≡ false = ground (arith, r.fits) in
    let fits : lt32 m.metadata_slot_size (add32 (add32 12 kl) ll) ≡ false =
      ground (arith, r.fits) in
    rw (named, lengths, fits, found, filled)

allocate-none :
    (m : CountersManager) (type_id : ℕ) (key : Option Memory) (kl : ℕ) (label : Option Memory)
    (ll : ℕ) (b : Buffer)
    → m.metadata_slot_size < 2 ^ 31
    → IsRequest m.metadata_slot_size type_id kl ll
    → find_free_counter_id m.max_counter_id m.metadata_slot_size 0 m.metadata ≡ ok (none, b)
    → allocate m type_id key kl label ll ≡ err Error.runtime_error
unfolding allocate
allocate-none m type_id key kl label ll b small r found =
    let named : (type_id == 0 || type_id == not_free) ≡ false =
      ground (arith, r.not_zero, r.not_marked) in
    let lengths : (is_neg32 kl || is_neg32 ll) ≡ false = ground (arith, r.fits) in
    let fits : lt32 m.metadata_slot_size (add32 (add32 12 kl) ll) ≡ false =
      ground (arith, r.fits) in
    rw (named, lengths, fits, found)

-- Where every slot is taken, allocate reports that there is no free one.
pub allocate_full :
    (m : CountersManager) (type_id : ℕ) (key : Option Memory) (kl : ℕ) (label : Option Memory)
    (ll : ℕ)
    → IsManager m
    → m.metadata_slot_size < 2 ^ 31
    → IsRequest m.metadata_slot_size type_id kl ll
    → all_taken m.metadata m.metadata_slot_size m.max_counter_id ≡ true
    → allocate m type_id key kl label ll ≡ err Error.runtime_error
allocate_full m type_id key kl label ll valid small r taken =
    allocate-none m type_id key kl label ll m.metadata small r (
      find_none m.max_counter_id m.metadata m.metadata_slot_size m.max_counter_id 0 valid.slots
        (omega arith) taken)

-- Where slot `k` is free and those below it are taken, allocate succeeds and returns k. The
-- counter then has the given type and the value 0, and every other counter the type and the value
-- that it had; the manager is still well-formed.
pub allocate_first :
    (m : CountersManager) (type_id : ℕ) (key : Option Memory) (kl : ℕ) (label : Option Memory)
    (ll : ℕ) (k j : ℕ)
    → IsManager m
    → IsRequest m.metadata_slot_size type_id kl ll
    → k < m.max_counter_id
    → j < m.max_counter_id
    → j ≢ k
    → all_taken m.metadata m.metadata_slot_size k ≡ true
    → type_id_at m.metadata m.metadata_slot_size k ≡ 0
    → (m' : CountersManager) × (allocate m type_id key kl label ll ≡ ok (k, m'))
      × IsManager m'
      × (get_type_id m' k ≡ ok type_id)
      × (get_counter_value m' k ≡ ok 0)
      × (get_type_id m' j ≡ get_type_id m j)
      × (get_counter_value m' j ≡ get_counter_value m j)
allocate_first m type_id key kl label ll k j valid r known other ne taken vacant =
    let size = m.metadata_slot_size in
    let b = marked m.metadata size m.max_counter_id k valid.slots known in
    let m0 = with_metadata m b in
    let valid0 = marked-IsManager m b.bytes valid in
    let (m', e, f) = fill_slot-Filled m0 k type_id key kl label ll valid0 known r.is_i32 r.fits in
    let valid' = Filled-IsManager m0 k type_id m' valid0 f in
    let known' : k < m'.max_counter_id = rw f.count_kept known in
    let other' : j < m'.max_counter_id = rw f.count_kept other in
    let apart : Apart (j * size) 4 (k * size) size =
      slots-Apart size j k 4 ne (omega (arith, valid.slots.wide)) in
    let same : type_id_at m'.metadata size j ≡ type_id_at m.metadata size j =
      f.others_kept (j * size) apart
      ∙ load-store_elsewhere 4 4 m.metadata.bytes (j * size) (k * size) not_free
          (omega (arith, apart, valid.slots.wide)) in
    (
      m',
      allocate-found m type_id key kl label ll k b m'
          (omega
            (arith, inside m.metadata size m.max_counter_id k valid.slots known, valid.slots.small))
          r
          (find_first m.max_counter_id m.metadata size m.max_counter_id 0 k valid.slots known
            (omega arith) (omega arith) taken vacant)
          e,
      valid',
      get_type_id_lem m' k valid' known' ∙ rw f.size_kept (rw f.has_type refl),
      get_counter_value_lem m' k valid'.values known'
          ∙ rw f.values_are (rw (load-store_self 8 m.values.bytes (8 * k) 0 (omega arith)) refl),
      rw (get_type_id_lem m' j valid' other', get_type_id_lem m j valid other, f.size_kept, same)
          refl,
      rw
          (
            get_counter_value_lem m' j valid'.values other',
            get_counter_value_lem m j valid.values other,
          )
          (rw f.values_are
            (rw (load-store_elsewhere 8 8 m.values.bytes (8 * j) (8 * k) 0 (omega arith)) refl)),
    )

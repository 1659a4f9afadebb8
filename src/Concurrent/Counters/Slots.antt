-- ===== src/Concurrent/Counters/Slots.antt =====
-- Allocation takes the first free slot of the metadata.
use caeron.Base.{
  ℕ, zero, suc, ◌+◌, ◌*◌, ◌/◌, ◌%◌, ◌^◌, ◌≤◌, ◌<◌, ◌≡◌, ◌≢◌, inl, inr, Bool, true, false, not, ◌&&◌,
  ◌==◌, refl, none, some, if◌then◌else◌, Bool-cases, ok, arith, ◌∙◌, sym, ap,
}
use native.Mathlib.Nat.{suc-mul, mul-le-mul_right, mul_assoc}
use native.Mathlib.Decide.{dec_lt, ℕ_discrete}
use caeron.Buffer.{Buffer, get_i32_volatile, compare_and_set_i32}
use caeron.Buffer.Bytes.{Apart, load, store}
use caeron.Buffer.Laws.{Fits, get_atomic_lem}
use caeron.Concurrent.Counters.{find_free_counter_id, not_free, mul32}

-- The metadata has room for `n` slots of `size` bytes, at an aligned address.
pub record HasSlots (b : Buffer) (size n : ℕ) : Type 0 where
  pub placed : b.address % 8 ≡ 0
  pub small : b.capacity < 2 ^ 31
  pub wide : 12 ≤ size
  pub whole : size % 4 ≡ 0
  pub room : n * size ≤ b.capacity

abbrev pub type_id_at : Buffer → ℕ → ℕ → ℕ
type_id_at b size i = load 4 b.bytes (i * size)

-- The slots below `n` are all taken.
unfoldable pub all_taken : Buffer → ℕ → ℕ → Bool
all_taken b size zero = true
all_taken b size (suc n) = not (type_id_at b size n == 0) && all_taken b size n

all_taken_at :
    (b : Buffer) (size n k : ℕ) → all_taken b size n ≡ true → k < n → type_id_at b size k ≢ 0
unfolding all_taken
all_taken_at b size zero k h lt = absurd (omega arith)
all_taken_at b size (suc n) k h lt = elim (ℕ_discrete k n) [
  | yes e ↦ rw e (ground arith)
  | no ne ↦ ground (arith, all_taken_at b size n k)
]

-- The slots of two counters do not meet.
slots_ordered : (size i j : ℕ) → i < j → i * size + size ≤ j * size
slots_ordered size i j h = rw (suc-mul i size) at (mul-le-mul_right {m = suc i} {n = j} size h)

pub slots-Apart : (size i j w : ℕ) → i ≢ j → w ≤ size → Apart (i * size) w (j * size) size
slots-Apart size i j w ne h = elim (dec_lt i j) [
  | yes before ↦ omega (arith, slots_ordered size i j before)
  | no behind ↦ omega (arith, slots_ordered size j i (omega arith))
]

whole_slots : (size i : ℕ) → size % 4 ≡ 0 → (i * size) % 4 ≡ 0
whole_slots size i h =
    let e : size ≡ size / 4 * 4 = omega arith in
    let assoc : i * (size / 4 * 4) ≡ i * (size / 4) * 4 = sym (mul_assoc i (size / 4) 4) in
    let place : i * size ≡ i * (size / 4) * 4 = ap (λ (x : ℕ). i * x) e ∙ assoc in
    rw place (omega arith)

module _ (b : Buffer) (size n i : ℕ) (valid : HasSlots b size n) (known : i < n) where
  pub inside : i * size + size ≤ b.capacity
  inside = omega (arith, slots_ordered size i n known, valid.room)

  pub offset_lem : mul32 i size ≡ i * size
  offset_lem = omega (arith, inside, valid.small)

  pub type-Fits : Fits b (i * size) 4
  type-Fits = record { small = valid.small; within = omega (arith, inside, valid.wide) }

  pub type-aligned : (b.address + i * size) % 4 ≡ 0
  type-aligned = omega (arith, valid.placed, whole_slots size i valid.whole)

  abbrev pub marked : Buffer
  marked = record b { bytes = store 4 b.bytes (i * size) not_free }

  round :
      (left : ℕ)
      → find_free_counter_id (suc left) size i b ≡ (
          if type_id_at b size i == 0
          then ok (some i, marked)
          else find_free_counter_id left size (i + 1) b)
  unfolding find_free_counter_id get_i32_volatile compare_and_set_i32
  round left = elim (Bool-cases (type_id_at b size i == 0)) [
    | inl vacant ↦ rw (offset_lem, get_atomic_lem 4 b (i * size) type-Fits type-aligned, vacant)
    | inr there ↦ rw (offset_lem, get_atomic_lem 4 b (i * size) type-Fits type-aligned, there)
  ]

pub find_none :
    (left : ℕ) (b : Buffer) (size n i : ℕ)
    → HasSlots b size n
    → i + left ≡ n
    → all_taken b size n ≡ true
    → find_free_counter_id left size i b ≡ ok (none, b)
unfolding find_free_counter_id
find_none zero b size n i valid e taken = refl
find_none (suc left) b size n i valid e taken =
    let there : (type_id_at b size i == 0) ≡ false =
      ground (arith, all_taken_at b size n i taken (omega arith)) in
    round b size n i valid (omega arith) left
    ∙ rw there (find_none left b size n (i + 1) valid (omega arith) taken)

pub find_first :
    (left : ℕ) (b : Buffer) (size n i k : ℕ) (valid : HasSlots b size n) (known : k < n)
    → i + left ≡ n
    → i ≤ k
    → all_taken b size k ≡ true
    → type_id_at b size k ≡ 0
    → find_free_counter_id left size i b ≡ ok (some k, marked b size n k valid known)
find_first zero b size n i k valid known e behind taken vacant = absurd (omega arith)
find_first (suc left) b size n i k valid known e behind taken vacant = elim (ℕ_discrete i k) [
  | yes here ↦ rw here (round b size n k valid known left ∙ rw vacant refl)
  | no further ↦
      let there : (type_id_at b size i == 0) ≡ false =
        ground (arith, all_taken_at b size k i taken (omega arith)) in
      round b size n i valid (omega arith) left
      ∙ rw there
          (find_first left b size n (i + 1) k valid known (omega arith) (omega arith) taken vacant)
]

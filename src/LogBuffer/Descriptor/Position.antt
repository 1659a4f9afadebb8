-- ===== src/LogBuffer/Descriptor/Position.antt =====
-- Packed tails and stream positions.
use caeron.Base.{ℕ, zero, suc, ◌+◌, ◌*◌, ◌/◌, ◌%◌, ◌^◌, ◌≤◌, ◌<◌, ◌≡◌, refl, ok, arith}
use native.Mathlib.Nat.{pow-suc, pow-le-pow_right}
use caeron.Word.{add32, checked_sub32}
use caeron.LogBuffer.Descriptor.{
  pack_tail, tail_term_id, tail_term_offset, index_by_term, index_by_term_count, compute_position,
  countr_zero, position_bits_to_shift,
}

-- A packed tail gives back its term offset and its term id, whatever their signs.
pub pack_tail_lem :
    (term_offset term_id : ℕ)
    → term_offset < 2 ^ 32
    → term_id < 2 ^ 32
    → (tail_term_offset (pack_tail term_offset term_id) ≡ term_offset)
      × (tail_term_id (pack_tail term_offset term_id) ≡ term_id)
unfolding pack_tail tail_term_id tail_term_offset
pack_tail_lem o t h k = ground arith

countr_zero-pow : (k m : ℕ) → k < m → countr_zero m (2 ^ k) ≡ k
unfolding countr_zero
countr_zero-pow zero zero h = absurd (omega arith)
countr_zero-pow zero (suc m) h = refl
countr_zero-pow (suc k) zero h = absurd (omega arith)
countr_zero-pow (suc k) (suc m) h =
    let half : 2 ^ suc k / 2 ≡ 2 ^ k = omega (arith, pow-suc 2 k) in
    ground (arith, half, pow-suc 2 k, countr_zero-pow k m (omega arith))

pub position_bits_to_shift_lem : (k : ℕ) → k < 32 → position_bits_to_shift (2 ^ k) ≡ k
unfolding position_bits_to_shift
position_bits_to_shift_lem k h = countr_zero-pow k 32 h

pow_bound : (k : ℕ) → k < 31 → 2 ^ k ≤ 2 ^ 30
pow_bound k h = pow-le-pow_right (omega arith) {i = k} {j = 30} (omega arith)

split_position : (n d o : ℕ) → o < d → ((n * d + o) / d ≡ n) × ((n * d + o) % d ≡ o)
split_position n d o h = grind arith

product_bound : (n d o : ℕ) → n < 2 ^ 31 → d ≤ 2 ^ 30 → o < d → n * d + o < 2 ^ 63
product_bound n d o h k p = grind arith

-- The term ids of the n-th term and of the initial one differ by `n`.
term_count_lem :
    (initial n : ℕ)
    → initial < 2 ^ 32
    → n < 2 ^ 31
    → (initial + 2 ^ 31) % 2 ^ 32 + n < 2 ^ 32
    → checked_sub32 (add32 initial n) initial ≡ ok n
term_count_lem initial n h p small = ground arith

position_lem :
    (initial n o k : ℕ)
    → checked_sub32 (add32 initial n) initial ≡ ok n
    → n < 2 ^ 31
    → n * 2 ^ k + o < 2 ^ 63
    → o < 2 ^ 30
    → compute_position (add32 initial n) o k initial ≡ ok (n * 2 ^ k + o)
unfolding compute_position
position_lem initial n o k count p q r = rw count (ground arith)

-- For a term length that is a power of two, the position of an offset in the n-th term from the
-- initial one, where no term id up to this one passes the largest i32, is computed without an
-- overflow. It is n term lengths and the offset, so the term count and the offset are read off it by
-- the shift and the mask; the partition of the term is n modulo 3.
pub compute_position_lem :
    (initial n offset k : ℕ)
    → initial < 2 ^ 32
    → n < 2 ^ 31
    → (initial + 2 ^ 31) % 2 ^ 32 + n < 2 ^ 32
    → k < 31
    → offset < 2 ^ k
    → (position : ℕ) × (compute_position
          (add32 initial n)
          offset
          (position_bits_to_shift (2 ^ k))
          initial
        ≡ ok position)
      × (position ≡ n * 2 ^ k + offset)
      × (position / 2 ^ k ≡ n)
      × (position % 2 ^ k ≡ offset)
      × (index_by_term initial (add32 initial n) ≡ ok (n % 3))
      × (index_by_term_count n ≡ n % 3)
unfolding index_by_term index_by_term_count
compute_position_lem initial n o k h p small q r =
    let bound : n * 2 ^ k + o < 2 ^ 63 = product_bound n (2 ^ k) o p (pow_bound k q) r in
    let count = term_count_lem initial n h p small in
    let (quotient, remainder) = split_position n (2 ^ k) o r in
    (
      n * 2 ^ k + o,
      rw (position_bits_to_shift_lem k (omega arith))
          (position_lem initial n o k count p bound (omega (arith, pow_bound k q))),
      refl,
      quotient,
      remainder,
      rw count (ground arith),
      ground arith,
    )

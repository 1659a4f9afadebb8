-- ===== src/Tests/Logs.antt =====
-- Tails, positions and rotation at concrete values.
use caeron.Base.{ℕ, err, Error, ◌+◌, ◌-◌, ◌*◌, ◌/◌, ◌%◌, ◌^◌, ◌≡◌, refl, arith, ok}
use caeron.Buffer.{Buffer}
use caeron.Word.{add32}
use caeron.LogBuffer.Descriptor.{
  pack_tail, tail_term_id, tail_term_offset, index_by_term, index_by_term_count, compute_position,
  position_bits_to_shift,
}
use caeron.LogBuffer.Descriptor.Position.{pack_tail_lem, compute_position_lem}

pack_tail_lem_example :
    (tail_term_offset (pack_tail 64 (2 ^ 32 - 3)) ≡ 64)
    × (tail_term_id (pack_tail 64 (2 ^ 32 - 3)) ≡ 2 ^ 32 - 3)
pack_tail_lem_example = pack_tail_lem 64 (2 ^ 32 - 3) (omega arith) (omega arith)

-- Five terms behind the term id -2.
compute_position_lem_example :
    (position : ℕ) × (compute_position
        (add32 (2 ^ 32 - 2) 5)
        64
        (position_bits_to_shift (2 ^ 16))
        (2 ^ 32 - 2)
      ≡ ok position)
    × (position ≡ 5 * 2 ^ 16 + 64)
    × (position / 2 ^ 16 ≡ 5)
    × (position % 2 ^ 16 ≡ 64)
    × (index_by_term (2 ^ 32 - 2) (add32 (2 ^ 32 - 2) 5) ≡ ok (5 % 3))
    × (index_by_term_count 5 ≡ 5 % 3)
compute_position_lem_example =
    compute_position_lem (2 ^ 32 - 2) 5 64 16 (omega arith) (omega arith) (omega arith)
      (omega arith) (omega arith)

-- The term id behind the largest i32 is the smallest: their difference is no i32.
wrapped_term_test : compute_position (2 ^ 31) 64 16 (2 ^ 31 - 1) ≡ err Error.undefined
unfolding compute_position
wrapped_term_test = refl

-- ===== src/LogBuffer/Descriptor/Rotate.antt =====
-- Rotating a log to its next partition.
use caeron.Base.{ℕ, ◌+◌, ◌*◌, ◌%◌, ◌^◌, ◌≤◌, ◌<◌, ◌≡◌, ok, arith}
use caeron.Word.{add32}
use caeron.Buffer.{Buffer, get_atomic}
use caeron.Buffer.Bytes.{load, store}
use caeron.Buffer.Laws.{get_atomic_lem}
use caeron.LogBuffer.Descriptor.{pack_tail, tail_place, raw_tail_volatile, active_term_count}

-- A metadata buffer: at an aligned address, with room for the metadata section.
pub record IsMetadata (m : Buffer) : Type 0 where
  pub placed : m.address % 8 ≡ 0
  pub small : m.capacity < 2 ^ 31
  pub room : 4096 ≤ m.capacity

-- The tail counter of a partition, and the active term count, as the bytes say.
abbrev pub tail_at : Buffer → ℕ → ℕ
tail_at m i = load 8 m.bytes (8 * i)

abbrev pub count_at : Buffer → ℕ
count_at m = load 4 m.bytes 24

module _ (m : Buffer) (valid : IsMetadata m) where
  pub raw_tail_volatile_lem : (i : ℕ) → i < 3 → raw_tail_volatile m i ≡ ok (tail_at m i)
  unfolding raw_tail_volatile
  raw_tail_volatile_lem i h =
      let e : tail_place i ≡ 8 * i = ground arith in
      rw e (
        get_atomic_lem 8 m (8 * i)
          (record { small = valid.small; within = omega (arith, valid.room) })
          (omega (arith, valid.placed)))

  active_at : get_atomic 4 m 24 ≡ ok (count_at m)
  active_at =
      get_atomic_lem 4 m 24 (record { small = valid.small; within = omega (arith, valid.room) })
        (omega (arith, valid.placed))

  pub active_term_count_lem : active_term_count m ≡ ok (count_at m)
  unfolding active_term_count
  active_term_count_lem = active_at

-- The metadata after the tail of partition `i` was set to the start of term `id`.
abbrev with_tail : Buffer → ℕ → ℕ → Buffer
with_tail m i id = record m { bytes = store 8 m.bytes (8 * i) (pack_tail 0 id) }

-- The metadata after a rotation that succeeds.
abbrev rotated : Buffer → ℕ → ℕ → ℕ → Buffer
rotated m i id count = record m {
  bytes = store 4 (store 8 m.bytes (8 * i) (pack_tail 0 id)) 24 count;
}

-- What a rotation from term `term_id`, the one numbered `count`, leaves in the metadata.
pub record Rotated (m : Buffer) (count term_id : ℕ) (m' : Buffer) : Type 0 where
  pub next_tail : tail_at m' ((count + 1) % 3) ≡ pack_tail 0 (add32 term_id 1)
  pub next_count : count_at m' ≡ count + 1
  pub current_tail : tail_at m' (count % 3) ≡ tail_at m (count % 3)
  pub previous_tail : tail_at m' ((count + 2) % 3) ≡ tail_at m ((count + 2) % 3)

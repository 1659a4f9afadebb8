-- ===== src/LogBuffer/Unblocker/Term.antt =====
-- What unblock does with a slot of a term, for each state that the slot can be in.
use caeron.Base.{
  ℕ, zero, suc, ◌+◌, ◌-◌, ◌*◌, ◌%◌, ◌^◌, ◌≤◌, ◌<◌, ◌≡◌, ◌≢◌, ◌⊎◌, inl, inr, true, ◌&&◌, ltb, leb,
  Bool-cases, if◌then◌else◌, ok, arith, ◌∙◌,
}
use caeron.Word.{neg32, is_neg32}
use caeron.Word.Bounds.{lt32_lem, sub32_lem, ne_zero}
use caeron.Buffer.{Buffer, compare_and_set_i32}
use caeron.Buffer.Bytes.{store, store_outside}
use caeron.Buffer.Laws.{get_atomic_lem}
use caeron.LogBuffer.Frame.{frame_length}
use caeron.LogBuffer.Frame.Term.{moved, IsTerm, IsSlot, length_at, frame_length_lem}
use caeron.LogBuffer.Gap.{write_padding_header}
use caeron.LogBuffer.Gap.Empty.{all_empty, zeroed_back_lem}
use caeron.LogBuffer.Gap.Padding.{Padded, write_padding_header-Padded}
use caeron.LogBuffer.Gap.Scan.{Run, empty_loop_lem}
use caeron.LogBuffer.Unblocker.{
  UnblockStatus, pad_out, unblock_partial, unblock_empty, unblock_term,
}

pad_out_lem :
    (metadata b b' : Buffer) (o n id : ℕ) (status : UnblockStatus)
    → write_padding_header metadata b o n id ≡ ok b'
    → pad_out metadata b o n id status ≡ ok (status, b')
unfolding pad_out
pad_out_lem metadata b b' o n id status e = rw e

-- A padding frame written over an exchanged length is one written over the old one.
Padded-exchange :
    (metadata b : Buffer) (o v n id : ℕ) (b' : Buffer)
    → Padded metadata (record b { bytes = store 4 b.bytes o v }) o n id b'
    → Padded metadata b o n id b'
Padded-exchange metadata b o v n id b' p = record {
  term_kept = p.term_kept;
  has_length = p.has_length;
  has_pad_type = p.has_pad_type;
  has_term_offset = p.has_term_offset;
  has_term_id = p.has_term_id;
  has_version_and_flags = p.has_version_and_flags;
  has_session_and_stream = p.has_session_and_stream;
  has_reserved_value = p.has_reserved_value;
  outside_kept = λ j. elim (Bool-cases (leb o j && ltb j (o + 32))) [
    | inl inside ↦ rw inside
    | inr outside ↦
        rw outside (rw outside at (p.outside_kept j) ∙ store_outside 4 b.bytes o v j (ground arith))
  ];
}

exchange :
    (b : Buffer) (o v : ℕ)
    → IsSlot b o
    → compare_and_set_i32 b o (length_at b o) v
      ≡ ok (true, record b { bytes = store 4 b.bytes o v })
unfolding compare_and_set_i32
exchange b o v s =
    rw
      (get_atomic_lem 4 b o
        (record { small = s.term.small; within = omega (arith, s.term.whole, s.on_slot, s.within) })
        (omega (arith, s.term.placed, s.on_slot)))
      (ground arith)

-- A slot whose frame is complete is left alone. A frame that is being written, with a negative
-- length, becomes a padding frame of that many bytes, and the status is UNBLOCKED.
pub unblock_term-frame :
    (metadata b : Buffer) (blocked_offset tail_offset term_id : ℕ)
    → IsSlot b blocked_offset
    → term_id < 2 ^ 32
    → length_at b blocked_offset ≢ 0
    → (b' : Buffer) × (unblock_term metadata b blocked_offset tail_offset term_id
        ≡ ok (
            if is_neg32 (length_at b blocked_offset)
            then (UnblockStatus.unblocked, b')
            else (UnblockStatus.no_action, b)))
      × Padded metadata b blocked_offset (neg32 (length_at b blocked_offset)) term_id b'
unfolding unblock_term unblock_partial
unblock_term-frame metadata b o tail id s small there =
    let n = neg32 (length_at b o) in
    let m = store 4 b.bytes o n in
    let (b', written, padded) =
      write_padding_header-Padded metadata (record b { bytes = m }) o n id (moved b m o s)
        (omega arith) small in
    (
      b',
      rw
          (
            frame_length_lem b o s,
            exchange b o n s,
            pad_out_lem metadata (record b { bytes = m }) b' o n id UnblockStatus.unblocked written,
          )
          (ground arith),
      Padded-exchange metadata b o n n id b' padded,
    )

-- What the forward scan decides about an empty slot: how far the padding reaches.
abbrev pub vacated : ℕ → ℕ → ℕ → ℕ
vacated o tail n = if ltb (o + 32 * n) tail then 32 * n else tail - o

abbrev pub vacated_status : ℕ → ℕ → ℕ → UnblockStatus
vacated_status o tail n =
    if ltb (o + 32 * n) tail then UnblockStatus.unblocked else UnblockStatus.unblocked_to_end

unblock_empty_lem :
    (metadata b b' : Buffer) (o tail id n : ℕ)
    → IsTerm b
    → o % 32 ≡ 0
    → o < tail
    → tail ≤ b.capacity
    → 0 < n
    → Run (suc b.capacity) b tail o n
    → write_padding_header metadata b o (vacated o tail n) id ≡ ok b'
    → unblock_empty metadata b o tail id ≡ ok (vacated_status o tail n, b')
unfolding unblock_empty
unblock_empty_lem metadata b b' o tail id n t s before inside some_slots run written =
    elim (Bool-cases (ltb (o + 32 * n) tail)) [
      | inl left ↦ rw (
        run.result,
        lt32_lem (o + 32 * n) tail (omega (arith, t.small, run.inside)) (omega (arith, t.small)),
        left,
        zeroed_back_lem (suc b.capacity) b (frame_length b) o n (λ p h. frame_length_lem b p h) t s
            run.inside (omega (arith, run.inside)),
        run.empty,
        sub32_lem (o + 32 * n) o (omega (arith, t.small, run.inside)) (omega arith),
        behind,
        ne_zero (32 * n) (omega arith),
        rw left at written,
      )
      | inr none_left ↦ rw (
        run.result,
        lt32_lem (o + 32 * n) tail (omega (arith, t.small, run.inside)) (omega (arith, t.small)),
        none_left,
        sub32_lem tail o (omega (arith, t.small)) (omega arith),
        ne_zero (tail - o) (omega arith),
        rw none_left at written,
      )
    ]
  where
    behind : o + 32 * n - o ≡ 32 * n
    behind = omega arith

unblock_term_of_empty :
    (metadata b : Buffer) (o tail id : ℕ)
    → IsSlot b o
    → length_at b o ≡ 0
    → unblock_term metadata b o tail id ≡ unblock_empty metadata b o tail id
unfolding unblock_term
unblock_term_of_empty metadata b o tail id s vacant = rw (frame_length_lem b o s, vacant)

-- A run that starts in front of the limit, at an empty slot, is not empty.
Run-positive :
    (fuel : ℕ) (b : Buffer) (limit o n : ℕ)
    → Run fuel b limit o n
    → o < limit
    → length_at b o ≡ 0
    → 0 < n
Run-positive fuel b limit o zero run before vacant =
    let e : o + 32 * 0 ≡ o = omega arith in
    elim (rw e at run.stop) [ inl h ↦ absurd (omega arith) | inr there ↦ absurd (there vacant) ]
Run-positive fuel b limit o (suc n) run before vacant = omega arith

-- An empty slot in front of the tail: behind it follow `n` empty slots in all, n at least one, up
-- to a slot that is not empty or the tail. It becomes a padding frame. If the empty slots end in
-- front of the tail the frame spans exactly them, and the status is UNBLOCKED; else it reaches
-- exactly to the tail, and the status is UNBLOCKED_TO_END.
pub unblock_term-empty :
    (metadata b : Buffer) (blocked_offset tail_offset term_id : ℕ)
    → IsSlot b blocked_offset
    → blocked_offset < tail_offset
    → tail_offset ≤ b.capacity
    → term_id < 2 ^ 32
    → length_at b blocked_offset ≡ 0
    → (n : ℕ) × (b' : Buffer) × (unblock_term metadata b blocked_offset tail_offset term_id
        ≡ ok (vacated_status blocked_offset tail_offset n, b'))
      × (all_empty b blocked_offset n ≡ true)
      × ((tail_offset ≤ blocked_offset + 32 * n) ⊎ (length_at b (blocked_offset + 32 * n) ≢ 0))
      × Padded metadata b blocked_offset (vacated blocked_offset tail_offset n) term_id b'
unblock_term-empty metadata b o tail id s before inside small vacant =
    let (n, run) =
      empty_loop_lem (suc b.capacity) b tail o s.term s.on_slot (omega arith) inside
        (omega arith) in
    let (b', written, padded) =
      write_padding_header-Padded metadata b o (vacated o tail n) id s
        (ground (arith, s.term.small, run.inside)) small in
    let filled =
      unblock_empty_lem metadata b b' o tail id n s.term s.on_slot before inside
        (Run-positive (suc b.capacity) b tail o n run before vacant) run written in
    (
      n,
      b',
      unblock_term_of_empty metadata b o tail id s vacant ∙ filled,
      run.empty,
      run.stop,
      padded,
    )

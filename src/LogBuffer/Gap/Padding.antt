-- ===== src/LogBuffer/Gap/Padding.antt =====
-- The frame that write_padding_header leaves, and try_fill_gap.
use caeron.Base.{
  ℕ, suc, ◌+◌, ◌*◌, ◌^◌, ◌≤◌, ◌<◌, ◌≡◌, ◌⊎◌, inl, inr, true, false, ◌&&◌, ltb, leb, Bool-cases,
  if◌then◌else◌, ok, arith, refl, ◌∙◌,
}
use caeron.Word.{add32}
use caeron.Buffer.{Buffer, get_i32_volatile}
use caeron.Buffer.Bytes.{
  Memory, SameOutside, load, store, copy, store_outside, load-store_self, load-store_elsewhere,
  load-copy_inside,
}
use caeron.Buffer.Laws.{get_atomic_lem, Fits-in_bounds}
use caeron.LogBuffer.Frame.Term.{
  moved, IsSlot, length_at, type_at, put_frame_type_lem, put_frame_term_offset_lem,
  put_frame_term_id_lem, put_frame_length_lem,
}
use caeron.LogBuffer.Descriptor.{apply_default_header}
use caeron.LogBuffer.Gap.{write_padding_header, try_fill_gap}
use caeron.LogBuffer.Gap.Empty.{all_empty, zeroed_back_lem}

-- `b'` is `b` with a padding frame in the slot at `o`: the fields that the code sets, the others
-- from the default header of the metadata, and nothing else changed.
pub record Padded (metadata b : Buffer) (o length term_id : ℕ) (b' : Buffer) : Type 0 where
  pub term_kept : (b'.address ≡ b.address) × (b'.capacity ≡ b.capacity)
  pub has_length : length_at b' o ≡ length
  pub has_pad_type : type_at b' o ≡ 0
  pub has_term_offset : load 4 b'.bytes (o + 8) ≡ o
  pub has_term_id : load 4 b'.bytes (o + 20) ≡ term_id
  pub has_version_and_flags : load 2 b'.bytes (o + 4) ≡ load 2 metadata.bytes 324
  pub has_session_and_stream : load 8 b'.bytes (o + 12) ≡ load 8 metadata.bytes 332
  pub has_reserved_value : load 8 b'.bytes (o + 24) ≡ load 8 metadata.bytes 344
  pub outside_kept : SameOutside o 32 b.bytes b'.bytes

abbrev padded_bytes : Memory → Memory → ℕ → ℕ → ℕ → Memory
padded_bytes d m o n id =
    store 4 (store 4 (store 4 (store 2 (copy m o d 320 32) (o + 6) 0) (o + 8) o) (o + 20) id) o n

apply_default_header_lem :
    (metadata b : Buffer) (o : ℕ)
    → IsSlot b o
    → apply_default_header metadata b o
      ≡ ok (record b { bytes = copy b.bytes o metadata.bytes 320 32 })
unfolding apply_default_header
apply_default_header_lem metadata b o s = rw (
    Fits-in_bounds b o 32
      (record { small = s.term.small; within = omega (arith, s.term.whole, s.on_slot, s.within) }))

write_padding_header_lem :
    (metadata b : Buffer) (o n id : ℕ)
    → IsSlot b o
    → write_padding_header metadata b o n id
      ≡ ok (record b { bytes = padded_bytes metadata.bytes b.bytes o n id })
unfolding write_padding_header
write_padding_header_lem metadata b o n id s =
    let m1 = copy b.bytes o metadata.bytes 320 32 in
    let m2 = store 2 m1 (o + 6) 0 in
    let m3 = store 4 m2 (o + 8) o in
    let m4 = store 4 m3 (o + 20) id in
    rw (
      apply_default_header_lem metadata b o s,
      put_frame_type_lem (record b { bytes = m1 }) o (moved b m1 o s) 0,
      put_frame_term_offset_lem (record b { bytes = m2 }) o (moved b m2 o s) o,
      put_frame_term_id_lem (record b { bytes = m3 }) o (moved b m3 o s) id,
      put_frame_length_lem (record b { bytes = m4 }) o (moved b m4 o s) n,
    )

padded_bytes-SameOutside :
    (d m : Memory) (o n id : ℕ) → SameOutside o 32 m (padded_bytes d m o n id)
padded_bytes-SameOutside d m o n id j =
    let m1 = copy m o d 320 32 in
    let m2 = store 2 m1 (o + 6) 0 in
    let m3 = store 4 m2 (o + 8) o in
    let m4 = store 4 m3 (o + 20) id in
    elim (Bool-cases (leb o j && ltb j (o + 32))) [
      | inl inside ↦ rw inside
      | inr outside ↦ rw (
        outside,
        store_outside 4 m4 o n j (ground arith),
        store_outside 4 m3 (o + 20) id j (ground arith),
        store_outside 4 m2 (o + 8) o j (ground arith),
        store_outside 2 m1 (o + 6) 0 j (ground arith),
        outside,
      )
    ]

padded_bytes-Padded :
    (metadata b : Buffer) (o n id : ℕ)
    → o < 2 ^ 32
    → n < 2 ^ 32
    → id < 2 ^ 32
    → Padded metadata b o n id (record b { bytes = padded_bytes metadata.bytes b.bytes o n id })
padded_bytes-Padded metadata b o n id small_o small_n small_id = record {
  term_kept = (refl, refl);
  has_length = load-store_self 4 m4 o n (omega arith);
  has_pad_type =
      over4 2 6 (omega arith)
      ∙ over3 2 6 (omega arith)
      ∙ over2 2 6 (omega arith)
      ∙ load-store_self 2 m1 (o + 6) 0 (omega arith);
  has_term_offset =
      over4 4 8 (omega arith)
      ∙ over3 4 8 (omega arith)
      ∙ load-store_self 4 m2 (o + 8) o (omega arith);
  has_term_id = over4 4 20 (omega arith) ∙ load-store_self 4 m3 (o + 20) id (omega arith);
  has_version_and_flags =
      over4 2 4 (omega arith)
      ∙ over3 2 4 (omega arith)
      ∙ over2 2 4 (omega arith)
      ∙ over1 2 4 (omega arith)
      ∙ default 2 4 (omega arith);
  has_session_and_stream =
      over4 8 12 (omega arith)
      ∙ over3 8 12 (omega arith)
      ∙ over2 8 12 (omega arith)
      ∙ over1 8 12 (omega arith)
      ∙ default 8 12 (omega arith);
  has_reserved_value =
      over4 8 24 (omega arith)
      ∙ over3 8 24 (omega arith)
      ∙ over2 8 24 (omega arith)
      ∙ over1 8 24 (omega arith)
      ∙ default 8 24 (omega arith);
  outside_kept = padded_bytes-SameOutside metadata.bytes b.bytes o n id;
}
  where
    m1 : Memory
    m1 = copy b.bytes o metadata.bytes 320 32

    m2 : Memory
    m2 = store 2 m1 (o + 6) 0

    m3 : Memory
    m3 = store 4 m2 (o + 8) o

    m4 : Memory
    m4 = store 4 m3 (o + 20) id

    over4 : (w k : ℕ) → 4 ≤ k → load w (store 4 m4 o n) (o + k) ≡ load w m4 (o + k)
    over4 w k h = load-store_elsewhere w 4 m4 (o + k) o n (omega arith)

    over3 : (w k : ℕ) → (k + w ≤ 20) ⊎ (24 ≤ k) → load w m4 (o + k) ≡ load w m3 (o + k)
    over3 w k h = load-store_elsewhere w 4 m3 (o + k) (o + 20) id (omega arith)

    over2 : (w k : ℕ) → (k + w ≤ 8) ⊎ (12 ≤ k) → load w m3 (o + k) ≡ load w m2 (o + k)
    over2 w k h = load-store_elsewhere w 4 m2 (o + k) (o + 8) o (omega arith)

    over1 : (w k : ℕ) → (k + w ≤ 6) ⊎ (8 ≤ k) → load w m2 (o + k) ≡ load w m1 (o + k)
    over1 w k h = load-store_elsewhere w 2 m1 (o + k) (o + 6) 0 (omega arith)

    default : (w k : ℕ) → k + w ≤ 32 → load w m1 (o + k) ≡ load w metadata.bytes (320 + k)
    default w k h = load-copy_inside w b.bytes metadata.bytes o 320 32 k h

-- What try_fill_gap and unblock rest on: the padding frame is written whenever its slot is in
-- the term.
pub write_padding_header-Padded :
    (metadata b : Buffer) (o n id : ℕ)
    → IsSlot b o
    → n < 2 ^ 32
    → id < 2 ^ 32
    → (b' : Buffer) × (write_padding_header metadata b o n id ≡ ok b') × Padded metadata b o n id b'
write_padding_header-Padded metadata b o n id s small_n small_id = (
  record b { bytes = padded_bytes metadata.bytes b.bytes o n id },
  write_padding_header_lem metadata b o n id s,
  padded_bytes-Padded metadata b o n id (omega (arith, s.within, s.term.small)) small_n small_id,
)

volatile-slot : (b : Buffer) (p : ℕ) → IsSlot b p → get_i32_volatile b p ≡ ok (length_at b p)
unfolding get_i32_volatile
volatile-slot b p s =
    get_atomic_lem 4 b p
      (record { small = s.term.small; within = omega (arith, s.term.whole, s.on_slot, s.within) })
      (omega (arith, s.term.placed, s.on_slot))

-- A gap of `n` slots, n at least one, inside the term: try_fill_gap succeeds. It changes nothing
-- and returns false if one of the slots is not empty; else it returns true, and leaves in the
-- first slot one padding frame that spans the gap.
pub try_fill_gap_lem :
    (metadata b : Buffer) (term_id gap_offset n : ℕ)
    → IsSlot b gap_offset
    → 0 < n
    → gap_offset + 32 * n ≤ b.capacity
    → term_id < 2 ^ 32
    → (b' : Buffer) × (try_fill_gap metadata b term_id gap_offset (32 * n)
        ≡ ok (if all_empty b gap_offset n then (true, b') else (false, b)))
      × Padded metadata b gap_offset (32 * n) term_id b'
unfolding try_fill_gap
try_fill_gap_lem metadata b id o n s pos fits small =
    let (b', written, padded) =
      write_padding_header-Padded metadata b o (32 * n) id s (omega (arith, s.term.small)) small in
    let e : add32 o (32 * n) ≡ o + 32 * n = omega (arith, s.term.small) in
    let walk =
      zeroed_back_lem (suc b.capacity) b (get_i32_volatile b) o n (volatile-slot b) s.term s.on_slot
        fits (omega arith) in
    (b', rw (e, walk, written) (ground arith), padded)

-- ===== src/LogBuffer/Frame/Term.antt =====
-- A term buffer as a sequence of frames, and what the accessors of a frame return there.
use caeron.Base.{ℕ, ◌+◌, ◌%◌, ◌^◌, ◌≤◌, ◌<◌, ◌≡◌, ◌⊎◌, Bool, ◌==◌, List, [], ◌∷◌, ok, arith}
use caeron.Word.{add32}
use caeron.Word.Bounds.{aligned}
use caeron.Buffer.{Buffer, get_i32, get_plain, put_plain}
use caeron.Buffer.Bytes.{Memory, load, store}
use caeron.Buffer.Laws.{Fits, get_plain_lem, put_plain_lem, get_atomic_lem, put_atomic_lem}
use caeron.Protocol.{hdr_type_pad}
use caeron.LogBuffer.Frame.{
  frame_length, frame_term_id, frame_session_id, is_padding_frame, put_frame_length, put_frame_type,
  put_frame_term_offset, put_frame_term_id,
}

-- A term is a whole number of frame slots, at an aligned address.
pub record IsTerm (b : Buffer) : Type 0 where
  pub placed : b.address % 8 ≡ 0
  pub small : b.capacity < 2 ^ 31
  pub whole : b.capacity % 32 ≡ 0

-- A place where a frame can start.
pub record IsSlot (b : Buffer) (offset : ℕ) : Type 0 where
  pub term : IsTerm b
  pub on_slot : offset % 32 ≡ 0
  pub within : offset < b.capacity

-- A slot stays one when the bytes of its term change.
pub moved : (b : Buffer) (m : Memory) (o : ℕ) → IsSlot b o → IsSlot (record b { bytes = m }) o
moved b m o s = record {
  term = record { placed = s.term.placed; small = s.term.small; whole = s.term.whole };
  on_slot = s.on_slot;
  within = s.within;
}

-- What the bytes of the slot say.
abbrev pub length_at : Buffer → ℕ → ℕ
length_at b o = load 4 b.bytes o

abbrev pub type_at : Buffer → ℕ → ℕ
type_at b o = load 2 b.bytes (o + 6)

slot-Fits : (b : Buffer) (o k w : ℕ) → IsSlot b o → k + w ≤ 32 → Fits b (o + k) w
slot-Fits b o k w s h = record {
  small = s.term.small;
  within = omega (arith, s.term.whole, s.on_slot, s.within);
}

slot_place : (b : Buffer) (o k : ℕ) → IsSlot b o → k < 32 → add32 o k ≡ o + k
slot_place b o k s h = omega (arith, s.term.small, s.term.whole, s.on_slot, s.within)

module _ (b : Buffer) (o : ℕ) (s : IsSlot b o) where
  zero_place : add32 o 0 ≡ o
  zero_place = omega (arith, s.term.small, s.within)

  zero-Fits : Fits b o 4
  zero-Fits = record {
    small = s.term.small;
    within = omega (arith, s.term.whole, s.on_slot, s.within);
  }

  zero-aligned : (b.address + o) % 4 ≡ 0
  zero-aligned = omega (arith, s.term.placed, s.on_slot)

  pub frame_length_lem : frame_length b o ≡ ok (length_at b o)
  unfolding frame_length
  frame_length_lem = rw zero_place (get_atomic_lem 4 b o zero-Fits zero-aligned)

  pub is_padding_frame_lem : is_padding_frame b o ≡ ok (type_at b o == hdr_type_pad)
  unfolding is_padding_frame
  is_padding_frame_lem = rw (
    slot_place b o 6 s (omega arith),
    get_plain_lem 2 b (o + 6) (slot-Fits b o 6 2 s (omega arith)),
  )

  -- A plain 4-byte field at offset `k` of the header.
  get_header_field : (k : ℕ) → k + 4 ≤ 32 → get_plain 4 b (add32 o k) ≡ ok (load 4 b.bytes (o + k))
  get_header_field k h =
      rw (slot_place b o k s (omega arith), get_plain_lem 4 b (o + k) (slot-Fits b o k 4 s h))

  put_header_field :
      (w k v : ℕ)
      → 0 < w
      → k + w ≤ 32
      → put_plain w b (add32 o k) v ≡ ok (record b { bytes = store w b.bytes (o + k) v })
  put_header_field w k v p h =
      rw (slot_place b o k s (omega arith), put_plain_lem w b (o + k) v (slot-Fits b o k w s h))

  pub frame_term_id_lem : frame_term_id b o ≡ ok (load 4 b.bytes (o + 20))
  unfolding frame_term_id
  frame_term_id_lem = get_header_field 20 (omega arith)

  pub frame_session_id_lem : frame_session_id b o ≡ ok (load 4 b.bytes (o + 12))
  unfolding frame_session_id
  frame_session_id_lem = get_header_field 12 (omega arith)

  pub stream_id_lem : get_i32 b (add32 o 16) ≡ ok (load 4 b.bytes (o + 16))
  unfolding get_i32
  stream_id_lem = get_header_field 16 (omega arith)

  pub put_frame_type_lem :
      (v : ℕ) → put_frame_type b o v ≡ ok (record b { bytes = store 2 b.bytes (o + 6) v })
  unfolding put_frame_type
  put_frame_type_lem v = put_header_field 2 6 v (omega arith) (omega arith)

  pub put_frame_term_offset_lem :
      (v : ℕ) → put_frame_term_offset b o v ≡ ok (record b { bytes = store 4 b.bytes (o + 8) v })
  unfolding put_frame_term_offset
  put_frame_term_offset_lem v = put_header_field 4 8 v (omega arith) (omega arith)

  pub put_frame_term_id_lem :
      (v : ℕ) → put_frame_term_id b o v ≡ ok (record b { bytes = store 4 b.bytes (o + 20) v })
  unfolding put_frame_term_id
  put_frame_term_id_lem v = put_header_field 4 20 v (omega arith) (omega arith)

  pub put_frame_length_lem :
      (v : ℕ) → put_frame_length b o v ≡ ok (record b { bytes = store 4 b.bytes o v })
  unfolding put_frame_length
  put_frame_length_lem v = rw zero_place (put_atomic_lem 4 b o v zero-Fits zero-aligned)

-- A published frame, as its length field and its type field say.
pub record Frame : Type 0 where
  pub length : ℕ
  pub type : ℕ

abbrev pub is_pad : Frame → Bool
is_pad f = f.type == hdr_type_pad

-- The slot at `o` holds the published frame `f`, which ends inside the term.
pub record Holds (b : Buffer) (o : ℕ) (f : Frame) : Type 0 where
  pub has_length : length_at b o ≡ f.length
  pub has_type : type_at b o ≡ f.type
  pub published : 0 < f.length
  pub fits : o + aligned f.length ≤ b.capacity

-- The frames `fs` stand one after the other from `o` on.
abbrev pub Frames : Buffer → ℕ → List Frame → Type 0
Frames b o [] = Unit
Frames b o (f ∷ fs) = Holds b o f × Frames b (o + aligned f.length) fs

-- The offset behind the frames.
unfoldable pub end_of : ℕ → List Frame → ℕ
end_of o [] = o
end_of o (f ∷ fs) = end_of (o + aligned f.length) fs

-- A reader stops at `o`: the term ends, or the slot is empty, or its frame is being written.
abbrev pub Stops : Buffer → ℕ → Type 0
Stops b o = (b.capacity ≤ o) ⊎ ((length_at b o ≡ 0) ⊎ (2 ^ 31 ≤ length_at b o))

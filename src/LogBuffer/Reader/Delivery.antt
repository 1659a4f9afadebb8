-- ===== src/LogBuffer/Reader/Delivery.antt =====
-- What a read delivers on a term that holds a sequence of frames.
use caeron.Base.{
  ℕ, zero, suc, ◌+◌, ◌-◌, ◌%◌, ◌^◌, ◌≤◌, ◌<◌, ◌≡◌, inl, inr, ◌==◌, ltb, lt→ltb, and-true,
  if◌then◌else◌, List, [], ◌∷◌, length, ok, arith, ◌>>=◌,
}
use native.Mathlib.Decide.{dec_lt}
use caeron.Word.Bounds.{aligned, align_frame, lt32_lem, add32_lem, is_neg32_lem, ne_zero}
use caeron.Buffer.{Buffer}
use caeron.Buffer.Bytes.{load}
use caeron.LogBuffer.Frame.Term.{
  IsTerm, IsSlot, Frame, is_pad, Holds, Frames, end_of, Stops, frame_length_lem,
  is_padding_frame_lem, frame_term_id_lem, frame_session_id_lem, stream_id_lem,
}
use caeron.LogBuffer.Scanner.{pack}
use caeron.LogBuffer.Reader.{Header, Outcome, read_loop, read}

-- The header of the fragment at `o`, as its bytes say.
abbrev pub header_at : Buffer → Header → ℕ → Header
header_at b header o = record header {
  offset = o;
  session_id = load 4 b.bytes (o + 12);
  stream_id = load 4 b.bytes (o + 16);
  term_id = load 4 b.bytes (o + 20);
}

-- The offsets of the first `n` data frames.
pub data_offsets : ℕ → ℕ → List Frame → List ℕ
data_offsets n o [] = []
data_offsets n o (f ∷ fs) =
    let skip = data_offsets n (o + aligned f.length) fs in
    let take = data_offsets (n - 1) (o + aligned f.length) fs in
    if n == 0 then [] else if is_pad f then skip else o ∷ take

-- Where a read of `n` data frames ends: behind the last of them, or behind all frames.
pub read_end : ℕ → ℕ → List Frame → ℕ
read_end n o [] = o
read_end n o (f ∷ fs) =
    let skip = read_end n (o + aligned f.length) fs in
    let take = read_end (n - 1) (o + aligned f.length) fs in
    if n == 0 then o else if is_pad f then skip else take

-- The headers that are delivered, each made from the one before.
pub headers : Buffer → Header → List ℕ → List Header
headers b h [] = []
headers b h (o ∷ os) = header_at b h o ∷ headers b (header_at b h o) os

pub last_header : Buffer → Header → List ℕ → Header
last_header b h [] = h
last_header b h (o ∷ os) = last_header b (header_at b h o) os

abbrev outcome_of : Buffer → ℕ → ℕ → ℕ → Header → List Frame → Outcome
outcome_of b n o count h fs = record {
  offset = read_end n o fs;
  fragments_read = count + length (data_offsets n o fs);
  header = last_header b h (data_offsets n o fs);
  calls = headers b h (data_offsets n o fs);
}

stopped :
    (fuel : ℕ) (b : Buffer) (limit o count : ℕ) (header : Header)
    → IsTerm b
    → o % 32 ≡ 0
    → o ≤ b.capacity
    → Stops b o
    → read_loop (suc fuel) b limit o count header
      ≡ ok (record { offset = o; fragments_read = count; header = header; calls = [] })
unfolding read_loop
stopped fuel b limit o count header t s small (inl h) = ground arith
stopped fuel b limit o count header t s small (inr h) = elim (dec_lt o b.capacity) [
  | yes within ↦
      ground (arith, frame_length_lem b o (record { term = t; on_slot = s; within = within }))
  | no beyond ↦ ground arith
]

-- One round at a frame, as a function of numbers.
round :
    (fuel : ℕ) (b : Buffer) (limit o count : ℕ) (header : Header) (x : Frame)
    → IsTerm b
    → o % 32 ≡ 0
    → limit < 2 ^ 31
    → count ≤ limit
    → Holds b o x
    → read_loop (suc fuel) b limit o count header ≡ (
        if ltb count limit
        then (if is_pad x
            then read_loop fuel b limit (o + aligned x.length) count header
            else (read_loop fuel b limit (o + aligned x.length) (count + 1) (header_at b header o)
                >>= λ rest. ok (record rest { calls = header_at b header o ∷ rest.calls })))
        else ok (record { offset = o; fragments_read = count; header = header; calls = [] }))
unfolding read_loop
round fuel b limit o count header x t s r c h = rw (
  lt32_lem o b.capacity (omega (arith, h.fits, h.published, t.small)) t.small,
  lt→ltb o b.capacity (omega (arith, h.fits, h.published)),
  lt32_lem count limit (omega arith) r,
  frame_length_lem b o slot,
  h.has_length,
  ne_zero x.length h.published,
  is_neg32_lem x.length (omega (arith, h.fits, t.small)),
  align_frame x.length (omega (arith, h.fits, t.small)),
  is_padding_frame_lem b o slot,
  h.has_type,
  frame_term_id_lem b o slot,
  frame_session_id_lem b o slot,
  stream_id_lem b o slot,
  add32_lem o (aligned x.length) (omega (arith, h.fits, t.small)),
  add32_lem count 1 (omega arith),
  and-true (ltb count limit),
)
  where
    slot : IsSlot b o
    slot = record { term = t; on_slot = s; within = omega (arith, h.fits, h.published) }

read_loop_lem :
    (fuel : ℕ) (b : Buffer) (limit n o count : ℕ) (header : Header) (fs : List Frame)
    → IsTerm b
    → o % 32 ≡ 0
    → o ≤ b.capacity
    → limit < 2 ^ 31
    → count + n ≡ limit
    → b.capacity < o + fuel
    → Frames b o fs
    → Stops b (end_of o fs)
    → read_loop fuel b limit o count header ≡ ok (outcome_of b n o count header fs)
unfolding data_offsets read_end headers last_header end_of
read_loop_lem zero b limit n o count header fs t s small r c f h e = absurd (omega arith)
read_loop_lem (suc fuel) b limit n o count header [] t s small r c f h e =
    ground (arith, stopped fuel b limit o count header t s small e)
read_loop_lem (suc fuel) b limit n o count header (x ∷ fs) t s small r c f (h, hs) e = ground (
  arith,
  round fuel b limit o count header x t s r (omega arith) h,
  h.published,
  read_loop_lem fuel b limit n (o + aligned x.length) count header fs t (omega arith) h.fits r c
      (omega (arith, h.published)) hs e,
  read_loop_lem fuel b limit (n - 1) (o + aligned x.length) (count + 1) (header_at b header o) fs t
      (omega arith) h.fits r,
)

-- On a term that holds the frames `fs` from `term_offset` on, behind which a reader stops, a read
-- succeeds. It hands the handler, in order, the first `fragments_limit` data frames and no padding
-- frame, each with the fields of its own bytes; it returns the offset behind the last frame that
-- it passed with the number of calls, and leaves the last of the headers.
pub read_lem :
    (b : Buffer) (term_offset fragments_limit : ℕ) (header : Header) (fs : List Frame)
    → IsTerm b
    → term_offset % 32 ≡ 0
    → term_offset ≤ b.capacity
    → fragments_limit < 2 ^ 31
    → Frames b term_offset fs
    → Stops b (end_of term_offset fs)
    → let os : List ℕ = data_offsets fragments_limit term_offset fs in
      read b term_offset fragments_limit header
      ≡ ok (
        pack (read_end fragments_limit term_offset fs) (length os),
        last_header b header os,
        headers b header os,
      )
unfolding read
read_lem b o limit header fs t s small r h e = ground (
  arith,
  read_loop_lem (suc b.capacity) b limit limit o 0 header fs t s small r (omega arith) (omega arith)
      h e,
)

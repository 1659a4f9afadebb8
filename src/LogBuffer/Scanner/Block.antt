-- ===== src/LogBuffer/Scanner/Block.antt =====
-- What TermBlockScanner::scan returns on a term that holds a sequence of frames.
use caeron.Base.{
  ℕ, zero, suc, ◌+◌, ◌%◌, ◌^◌, ◌≤◌, ◌<◌, ◌≡◌, inl, inr, ◌&&◌, not, ◌==◌, ltb, leb, lt→ltb,
  if◌then◌else◌, List, [], ◌∷◌, ok, arith,
}
use native.Mathlib.Decide.{dec_lt}
use caeron.Word.Bounds.{aligned, align_frame, lt32_lem, add32_lem, is_neg32_lem, ne_zero}
use caeron.Buffer.{Buffer}
use caeron.LogBuffer.Frame.Term.{
  IsTerm, IsSlot, Frame, is_pad, Holds, Frames, end_of, Stops, frame_length_lem,
  is_padding_frame_lem,
}
use caeron.LogBuffer.Scanner.{block_loop, scan}

-- The end of the leading data frames that end at or before `limit`.
pub block_end : ℕ → ℕ → List Frame → ℕ
block_end limit o [] = o
block_end limit o (f ∷ fs) =
    let rest = block_end limit (o + aligned f.length) fs in
    if not (is_pad f) && leb (o + aligned f.length) limit then rest else o

stopped :
    (fuel : ℕ) (b : Buffer) (start limit o : ℕ)
    → IsTerm b
    → o % 32 ≡ 0
    → o ≤ b.capacity
    → Stops b o
    → block_loop (suc fuel) b start limit o ≡ ok o
unfolding block_loop
stopped fuel b start limit o t s small (inl h) = ground arith
stopped fuel b start limit o t s small (inr h) = elim (dec_lt o b.capacity) [
  | yes within ↦
      ground (arith, frame_length_lem b o (record { term = t; on_slot = s; within = within }))
  | no beyond ↦ ground arith
]

-- One round at a frame, as a function of numbers.
round :
    (fuel : ℕ) (b : Buffer) (start limit o : ℕ) (x : Frame)
    → IsTerm b
    → o % 32 ≡ 0
    → limit < 2 ^ 31
    → Holds b o x
    → block_loop (suc fuel) b start limit o ≡ (
        if ltb o limit
        then (if is_pad x
            then (if o == start then ok (o + 32) else ok o)
            else if ltb limit (o + aligned x.length)
            then ok o
            else block_loop fuel b start limit (o + aligned x.length))
        else ok o)
unfolding block_loop
round fuel b start limit o x t s r h = rw (
  lt32_lem o b.capacity (omega (arith, h.fits, h.published, t.small)) t.small,
  lt→ltb o b.capacity (omega (arith, h.fits, h.published)),
  lt32_lem o limit (omega (arith, h.fits, h.published, t.small)) r,
  frame_length_lem b o slot,
  h.has_length,
  ne_zero x.length h.published,
  is_neg32_lem x.length (omega (arith, h.fits, t.small)),
  align_frame x.length (omega (arith, h.fits, t.small)),
  is_padding_frame_lem b o slot,
  h.has_type,
  add32_lem o (aligned x.length) (omega (arith, h.fits, t.small)),
  add32_lem o 32 (omega (arith, h.fits, t.small)),
  lt32_lem limit (o + aligned x.length) r (omega (arith, h.fits, t.small)),
)
  where
    slot : IsSlot b o
    slot = record { term = t; on_slot = s; within = omega (arith, h.fits, h.published) }

block_loop_lem :
    (fuel : ℕ) (b : Buffer) (start limit o : ℕ) (fs : List Frame)
    → IsTerm b
    → o % 32 ≡ 0
    → o ≤ b.capacity
    → start < o
    → limit < 2 ^ 31
    → b.capacity < o + fuel
    → Frames b o fs
    → Stops b (end_of o fs)
    → block_loop fuel b start limit o ≡ ok (block_end limit o fs)
unfolding block_end end_of
block_loop_lem zero b start limit o fs t s small p r f h e = absurd (omega arith)
block_loop_lem (suc fuel) b start limit o [] t s small p r f h e =
    ground (arith, stopped fuel b start limit o t s small e)
block_loop_lem (suc fuel) b start limit o (x ∷ fs) t s small p r f (h, hs) e = ground (
  arith,
  round fuel b start limit o x t s r h,
  h.published,
  block_loop_lem fuel b start limit (o + aligned x.length) fs t (omega arith) h.fits (omega arith),
)

-- The block that a scan from `o` takes: a padding frame at its very start counts with its header.
abbrev pub block : ℕ → ℕ → List Frame → ℕ
block limit o [] = o
block limit o (f ∷ fs) = if is_pad f && ltb o limit then o + 32 else block_end limit o (f ∷ fs)

-- On a term that holds the frames `fs` from `offset` on, behind which a reader stops, the block
-- scan succeeds and returns the end of the data frames that lead and end at or before
-- `limit_offset`; if a padding frame stands at `offset`, before the limit, it returns the end of
-- that frame's header.
pub scan_lem :
    (b : Buffer) (offset limit_offset : ℕ) (fs : List Frame)
    → IsTerm b
    → offset % 32 ≡ 0
    → offset ≤ b.capacity
    → limit_offset < 2 ^ 31
    → Frames b offset fs
    → Stops b (end_of offset fs)
    → scan b offset limit_offset ≡ ok (block limit_offset offset fs)
unfolding scan end_of block_end
scan_lem b o limit [] t s small r h e = stopped b.capacity b o limit o t s small e
scan_lem b o limit (x ∷ fs) t s small r (h, hs) e = ground (
  arith,
  round b.capacity b o limit o x t s r h,
  h.published,
  block_loop_lem b.capacity b o limit (o + aligned x.length) fs t (omega arith) h.fits
      (omega (arith, h.published)) r (omega (arith, h.published)) hs e,
)

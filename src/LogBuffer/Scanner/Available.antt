-- ===== src/LogBuffer/Scanner/Available.antt =====
-- What scan_for_availability returns on a term that holds a sequence of frames.
use caeron.Base.{
  ℕ, zero, suc, ◌+◌, ◌-◌, ◌%◌, ◌^◌, ◌≤◌, ◌<◌, ◌≡◌, ◌⊎◌, inl, inr, true, ◌&&◌, ◌==◌, ltb, ltb→lt,
  Bool-cases, lt→ltb, if◌then◌else◌, List, [], ◌∷◌, ok, arith,
}
use native.Mathlib.Decide.{dec_lt}
use native.Mathlib.Nat.{sub-zero}
use caeron.Word.{neg32, is_neg32}
use caeron.Word.Bounds.{aligned, align_frame, lt32_lem, add32_lem, sub32_lem, is_neg32_lem, ne_zero}
use caeron.Buffer.{Buffer}
use caeron.LogBuffer.Frame.Term.{
  IsTerm, IsSlot, Frame, is_pad, Holds, Frames, end_of, Stops, frame_length_lem,
  is_padding_frame_lem,
}
use caeron.LogBuffer.Scanner.{scan_loop, scan_for_availability, pack, high_half, low_half}

-- The bytes of the block that a frame claims: of a padding frame only the header is sent.
abbrev pub need : Frame → ℕ
need f = if is_pad f then 32 else aligned f.length

-- The bytes to send and the padding behind them: as many frames as fit the budget, up to and with
-- the first padding frame.
pub send : ℕ → List Frame → ℕ × ℕ
send budget [] = (0, 0)
send budget (f ∷ fs) =
    let rest = send (budget - aligned f.length) fs in
    if ltb budget (need f)
    then (0, 0)
    else if is_pad f
    then (32, aligned f.length - 32)
    else (aligned f.length + rest.0, rest.1)

-- What a first frame asks for that does not fit the budget, and 0 otherwise.
abbrev pub refused : ℕ → List Frame → ℕ
refused budget [] = 0
refused budget (f ∷ fs) = if ltb budget (need f) then need f else 0

abbrev pub scanned : ℕ → ℕ → List Frame → ℕ × ℕ
scanned available budget fs =
    if available == 0 && ltb 0 (refused budget fs)
    then (neg32 (refused budget fs), 0)
    else (available + (send budget fs).0, (send budget fs).1)

stopped :
    (fuel : ℕ) (b : Buffer) (max o available : ℕ)
    → IsTerm b
    → o % 32 ≡ 0
    → o ≤ b.capacity
    → Stops b o
    → scan_loop (suc fuel) b max o available ≡ ok (available, 0)
unfolding scan_loop
stopped fuel b max o available t s small (inl h) = ground arith
stopped fuel b max o available t s small (inr h) = elim (dec_lt o b.capacity) [
  | yes within ↦
      ground (arith, frame_length_lem b o (record { term = t; on_slot = s; within = within }))
  | no beyond ↦ ground arith
]

-- One round at a frame, as a function of numbers.
round :
    (fuel : ℕ) (b : Buffer) (max o available : ℕ) (x : Frame)
    → IsTerm b
    → o % 32 ≡ 0
    → available ≤ o
    → max < 2 ^ 31
    → Holds b o x
    → scan_loop (suc fuel) b max o available ≡ (
        if ltb max (available + need x)
        then ok ((if available == 0 then neg32 (need x) else available), 0)
        else if is_pad x
        then ok (available + 32, aligned x.length - 32)
        else scan_loop fuel b max (o + aligned x.length) (available + aligned x.length))
unfolding scan_loop
round fuel b max o available x t s p r h =
    rw
      (
        lt32_lem o b.capacity (omega (arith, h.fits, h.published, t.small)) t.small,
        lt→ltb o b.capacity (omega (arith, h.fits, h.published)),
        frame_length_lem b o slot,
        h.has_length,
        ne_zero x.length h.published,
        is_neg32_lem x.length (omega (arith, h.fits, t.small)),
        align_frame x.length (omega (arith, h.fits, t.small)),
        is_padding_frame_lem b o slot,
        h.has_type,
        add32_lem o (aligned x.length) (omega (arith, h.fits, t.small)),
        add32_lem available (aligned x.length) (omega (arith, h.fits, t.small)),
        add32_lem available 32 (omega (arith, h.fits, t.small)),
        lt32_lem max (available + aligned x.length) r (omega (arith, h.fits, t.small)),
        lt32_lem max (available + 32) r (omega (arith, h.fits, h.published, t.small)),
        sub32_lem (aligned x.length) 32 (omega (arith, h.published))
            (omega (arith, h.fits, t.small)),
      )
      (ground arith)
  where
    slot : IsSlot b o
    slot = record { term = t; on_slot = s; within = omega (arith, h.fits, h.published) }

scan_loop_lem :
    (fuel : ℕ) (b : Buffer) (max o available : ℕ) (fs : List Frame)
    → IsTerm b
    → o % 32 ≡ 0
    → o ≤ b.capacity
    → available ≤ o
    → available ≤ max
    → max < 2 ^ 31
    → b.capacity < o + fuel
    → Frames b o fs
    → Stops b (end_of o fs)
    → scan_loop fuel b max o available ≡ ok (scanned available (max - available) fs)
unfolding send end_of
scan_loop_lem zero b max o available fs t s small p q r f h e = absurd (omega arith)
scan_loop_lem (suc fuel) b max o available [] t s small p q r f h e =
    ground (arith, stopped fuel b max o available t s small e)
scan_loop_lem (suc fuel) b max o available (x ∷ fs) t s small p q r f (h, hs) e = ground (
  arith,
  round fuel b max o available x t s p r h,
  scan_loop_lem fuel b max (o + aligned x.length) (available + aligned x.length) fs t (omega arith)
      h.fits (omega arith),
)

send_bounds :
    (budget o : ℕ) (b : Buffer) (fs : List Frame)
    → o ≤ b.capacity
    → Frames b o fs
    → ((send budget fs).0 ≤ budget)
      × (o + (send budget fs).0 + (send budget fs).1 ≤ end_of o fs)
      × (end_of o fs ≤ b.capacity)
unfolding send end_of
send_bounds budget o b [] p h = omega arith
send_bounds budget o b (x ∷ fs) p (h, hs) = ground (
  arith,
  h.fits,
  h.published,
  send_bounds (budget - aligned x.length) (o + aligned x.length) b fs h.fits hs,
)

refused-le :
    (budget o : ℕ) (b : Buffer) (fs : List Frame) → Frames b o fs → refused budget fs ≤ b.capacity
refused-le budget o b [] h = omega arith
refused-le budget o b (x ∷ fs) (h, hs) = ground (arith, h.fits, h.published)

scanned_halves :
    (max o : ℕ) (b : Buffer) (fs : List Frame)
    → o ≤ b.capacity
    → Frames b o fs
    → IsTerm b
    → let r : ℕ = pack (scanned 0 max fs).1 (scanned 0 max fs).0 in
      ((low_half r ≤ max) × (o + low_half r + high_half r ≤ b.capacity))
      ⊎ ((is_neg32 (low_half r) ≡ true) × (high_half r ≡ 0))
scanned_halves max o b fs p h t = elim (Bool-cases (ltb 0 (refused max fs))) [
  | inl too_big ↦ inr (
    rw too_big
        (ground (arith, refused-le max o b fs h, t.small, ltb→lt 0 (refused max fs) too_big)),
    rw too_big (ground arith),
  )
  | inr room ↦ inl (
    rw room (ground (arith, send_bounds max o b fs p h, t.small)),
    rw room (ground (arith, send_bounds max o b fs p h, t.small)),
  )
]

-- A term that holds the frames `fs` from `offset` on, behind which a reader stops.
module _ (b : Buffer) (offset max_length : ℕ) (fs : List Frame) (term : IsTerm b)
    (on_slot : offset % 32 ≡ 0) (inside : offset ≤ b.capacity) (small : max_length < 2 ^ 31)
    (frames : Frames b offset fs) (stops : Stops b (end_of offset fs)) where
  -- On a term that holds the frames `fs` from `offset` on, behind which a reader stops,
  -- scan_for_availability succeeds. Its low half is the number of bytes of the frames that fit
  -- `max_length`, up to and with the header of the first padding frame, and its high half is the
  -- rest of that padding; if not even the first frame fits, its low half is minus what that
  -- frame needs.
  pub scan_for_availability_lem :
      scan_for_availability b offset max_length
      ≡ ok (pack (scanned 0 max_length fs).1 (scanned 0 max_length fs).0)
  unfolding scan_for_availability
  scan_for_availability_lem = rw (
    scan_loop_lem (suc b.capacity) b max_length offset 0 fs term on_slot inside (omega arith)
        (omega arith) small (omega arith) frames stops,
    sub-zero max_length,
  )

  -- On such a term scan_for_availability returns either a low half of at most `max_length` whose
  -- bytes, with the padding behind them, end inside the term, or a negative low half with no
  -- padding.
  pub scan_for_availability_bounds :
      (r : ℕ) × (scan_for_availability b offset max_length ≡ ok r)
      × (((low_half r ≤ max_length) × (offset + low_half r + high_half r ≤ b.capacity))
          ⊎ ((is_neg32 (low_half r) ≡ true) × (high_half r ≡ 0)))
  scan_for_availability_bounds = (
    pack (scanned 0 max_length fs).1 (scanned 0 max_length fs).0,
    scan_for_availability_lem,
    scanned_halves max_length offset b fs inside frames term,
  )

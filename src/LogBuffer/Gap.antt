-- ===== src/LogBuffer/Gap.antt =====
-- caeron/logbuffer/term_gap_scanner.h and term_gap_filler.h: finding and filling the gaps of a
-- term, and the backwards walk that term_unblocker.h makes too.
pub mod Empty
pub mod Padding
pub mod Scan
use caeron.Base.{
  ℕ, zero, suc, ◌+◌, ◌-◌, ◌/◌, Bool, true, false, not, ◌&&◌, ◌||◌, ◌==◌, if◌then◌else◌, Option,
  none, some, Result, ok, err, Error, ◌>>=◌,
}
use caeron.Word.{add32, sub32, is_neg32, lt32, align}
use caeron.Buffer.{Buffer, get_i32_volatile}
use caeron.Protocol.{hdr_type_pad, data_header_length}
use caeron.LogBuffer.Frame.{
  frame_alignment, frame_length, put_frame_type, put_frame_term_offset, put_frame_term_id,
  put_frame_length,
}
use caeron.LogBuffer.Descriptor.{rem32, apply_default_header}

-- The two loops of scan_for_gap: over the frames that are there, and over the empty slots.
unfoldable pub contiguous_loop : ℕ → Buffer → ℕ → ℕ → Result ℕ
contiguous_loop zero b limit_offset offset = err Error.fuel
contiguous_loop (suc fuel) b limit_offset offset =
    let body : Result ℕ = do
      frame_length ← frame_length b offset
      (if frame_length == 0 then ok offset else if is_neg32 frame_length then ok offset else do
        aligned_length ← align frame_length frame_alignment
        contiguous_loop fuel b limit_offset (add32 offset aligned_length))
    in if lt32 offset limit_offset then body else ok offset

unfoldable pub empty_loop : ℕ → Buffer → ℕ → ℕ → Result ℕ
empty_loop zero b limit_offset offset = err Error.fuel
empty_loop (suc fuel) b limit_offset offset =
    let body : Result ℕ = do
      frame_length ← frame_length b offset
      let rest = empty_loop fuel b limit_offset (add32 offset data_header_length)
      (if frame_length == 0 then rest else ok offset)
    in if lt32 offset limit_offset then body else ok offset

-- The call that is made of the handler.
pub record OnGap : Type 0 where
  pub term_id : ℕ
  pub offset : ℕ
  pub length : ℕ

-- The offset that is returned, and the call of `on_gap`, if one is made.
unfoldable pub scan_for_gap : Buffer → ℕ → ℕ → ℕ → Result (ℕ × Option OnGap)
unfolding contiguous_loop empty_loop
scan_for_gap b term_id term_offset limit_offset = do
  gap_begin ← contiguous_loop (suc b.capacity) b limit_offset term_offset
  let found : Result (ℕ × Option OnGap) = do
    offset ← empty_loop (suc b.capacity) b limit_offset gap_begin
    let gap_length = sub32 offset gap_begin
    let gap : OnGap = record { term_id = term_id; offset = gap_begin; length = gap_length }
    ok (offset, (if lt32 0 gap_length then some gap else none))
  (if lt32 gap_begin limit_offset then found else ok (gap_begin, none))

-- `while (offset >= from)`, backwards over the slots: whether all that it reads is zero.
unfoldable pub zeroed_back : ℕ → (ℕ → Result ℕ) → ℕ → ℕ → Result Bool
zeroed_back zero read from offset = err Error.fuel
zeroed_back (suc fuel) read from offset =
    let body : Result Bool = do
      length ← read offset
      let rest = zeroed_back fuel read from (sub32 offset frame_alignment)
      (if length == 0 then rest else ok false)
    in if lt32 offset from then ok true else body

-- The writes that make a padding frame of the slot at `offset`: in try_fill_gap, and
-- write_padding_header of term_unblocker.h.
unfoldable pub write_padding_header : Buffer → Buffer → ℕ → ℕ → ℕ → Result Buffer
unfolding apply_default_header put_frame_type put_frame_term_offset put_frame_term_id
    put_frame_length
write_padding_header metadata term offset padding_length term_id = do
  term ← apply_default_header metadata term offset
  term ← put_frame_type term offset hdr_type_pad
  term ← put_frame_term_offset term offset offset
  term ← put_frame_term_id term offset term_id
  put_frame_length term offset padding_length

-- Whether the gap was filled, and the term buffer.
unfoldable pub try_fill_gap : Buffer → Buffer → ℕ → ℕ → ℕ → Result (Bool × Buffer)
unfolding get_i32_volatile zeroed_back write_padding_header
try_fill_gap metadata term term_id gap_offset gap_length =
    let fill : Result (Bool × Buffer) = do
      empty ←
          zeroed_back (suc term.capacity) (get_i32_volatile term) gap_offset
            (sub32 (add32 gap_offset gap_length) frame_alignment)
      let filled : Result (Bool × Buffer) = do
        term' ← write_padding_header metadata term gap_offset gap_length term_id
        ok (true, term')
      (if empty then filled else ok (false, term))
    in if not (lt32 0 gap_length) || not (rem32 gap_length frame_alignment == 0)
      then ok (false, term)
      else fill

-- ===== src/LogBuffer/Scanner.antt =====
-- caeron/logbuffer/term_scanner.h and term_block_scanner.h: how much a sender can take at once.
-- The fuel of a loop is the number of bytes that it can still pass, plus one.
pub mod Available
pub mod Block
use caeron.Base.{
  ℕ, zero, suc, ◌+◌, ◌-◌, ◌*◌, ◌/◌, ◌%◌, ◌^◌, Bool, ◌&&◌, ◌==◌, if◌then◌else◌, Result, ok, err,
  Error, ◌>>=◌,
}
use caeron.Word.{i32_mod, i64_mod, add32, sub32, neg32, is_neg32, lt32, low32, align}
use caeron.Buffer.{Buffer}
use caeron.Protocol.{data_header_length}
use caeron.LogBuffer.Frame.{frame_alignment, frame_length, is_padding_frame}

-- (i64 (high) << 32) | (i64 (low) & 0xFFFFFFFF): the two halves share no bit.
abbrev pub pack : ℕ → ℕ → ℕ
pack high low = (high * i32_mod) % i64_mod + low % i32_mod

-- The two casts that take a packed result apart.
abbrev pub high_half : ℕ → ℕ
high_half packed = low32 (packed / i32_mod)

abbrev pub low_half : ℕ → ℕ
low_half packed = low32 packed

-- The loop of scan_for_availability: `available` and `padding` when it ends.
unfoldable pub scan_loop : ℕ → Buffer → ℕ → ℕ → ℕ → Result (ℕ × ℕ)
scan_loop zero b max_length offset available = err Error.fuel
scan_loop (suc fuel) b max_length offset available =
    let body : Result (ℕ × ℕ) = do
      frame_length ← frame_length b offset
      (if frame_length == 0
          then ok (available, 0)
          else if is_neg32 frame_length
          then ok (available, 0)
          else do
            aligned_length ← align frame_length frame_alignment
            padding ← is_padding_frame b offset
            let rest =
                scan_loop fuel b max_length (add32 offset aligned_length)
                  (add32 available aligned_length)
            (if padding
                then (if lt32 max_length (add32 available data_header_length)
                    then ok ((if available == 0 then neg32 data_header_length else available), 0)
                    else ok (
                      add32 available data_header_length,
                      sub32 aligned_length data_header_length,
                    ))
                else if lt32 max_length (add32 available aligned_length)
                then ok (
                  (if available == 0 then neg32 (add32 available aligned_length) else available),
                  0,
                )
                else rest))
    in if lt32 offset b.capacity then body else ok (available, 0)

unfoldable pub scan_for_availability : Buffer → ℕ → ℕ → Result ℕ
unfolding scan_loop
scan_for_availability b offset max_length = do
  (available, padding) ← scan_loop (suc b.capacity) b max_length offset 0
  ok (pack padding available)

-- The loop of TermBlockScanner::scan, which began at `term_offset`.
unfoldable pub block_loop : ℕ → Buffer → ℕ → ℕ → ℕ → Result ℕ
block_loop zero b term_offset limit_offset offset = err Error.fuel
block_loop (suc fuel) b term_offset limit_offset offset =
    let body : Result ℕ = do
      frame_length ← frame_length b offset
      (if frame_length == 0 then ok offset else if is_neg32 frame_length then ok offset else do
        aligned_length ← align frame_length frame_alignment
        padding ← is_padding_frame b offset
        let rest = block_loop fuel b term_offset limit_offset (add32 offset aligned_length)
        (if padding
            then (if offset == term_offset then ok (add32 offset data_header_length) else ok offset)
            else if lt32 limit_offset (add32 offset aligned_length)
            then ok offset
            else rest))
    in if lt32 offset b.capacity && lt32 offset limit_offset then body else ok offset

unfoldable pub scan : Buffer → ℕ → ℕ → Result ℕ
unfolding block_loop
scan b term_offset limit_offset = block_loop (suc b.capacity) b term_offset limit_offset term_offset

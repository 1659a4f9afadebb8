-- ===== src/LogBuffer/Unblocker.antt =====
-- caeron/logbuffer/term_unblocker.h and log_buffer_unblocker.h: turning the frame of a publisher
-- that is stuck into padding.
pub mod Term
use caeron.Base.{
  ℕ, suc, ◌+◌, ◌-◌, ◌/◌, ◌%◌, ◌^◌, Bool, true, false, ◌&&◌, ◌==◌, if◌then◌else◌, Result, ok, ◌>>=◌,
}
use caeron.Word.{add32, sub32, neg32, is_neg32, lt32, low32}
use caeron.Buffer.{Buffer, compare_and_set_i32}
use caeron.LogBuffer.Frame.{frame_alignment, frame_length}
use caeron.LogBuffer.Descriptor.{
  position_bits_to_shift, index_by_term_count, active_term_count, raw_tail_volatile, tail_term_id,
  tail_term_offset, rotate_log,
}
use caeron.LogBuffer.Gap.{empty_loop, zeroed_back, write_padding_header}

pub data UnblockStatus : Type 0 where
  no_action unblocked unblocked_to_end : UnblockStatus

-- Both writing branches: the padding header, and the status.
unfoldable pub pad_out :
    Buffer → Buffer → ℕ → ℕ → ℕ → UnblockStatus → Result (UnblockStatus × Buffer)
pad_out metadata term offset padding_length term_id status = do
  term' ← write_padding_header metadata term offset padding_length term_id
  ok (status, term')

-- Case 1, a frame that is being written: the exchange, and the padding header.
unfoldable pub unblock_partial : Buffer → Buffer → ℕ → ℕ → ℕ → Result (UnblockStatus × Buffer)
unfolding pad_out
unblock_partial metadata term blocked_offset frame_length term_id = do
  let abs_length = neg32 frame_length
  (exchanged, term') ← compare_and_set_i32 term blocked_offset frame_length abs_length
  (if exchanged
      then pad_out metadata term' blocked_offset abs_length term_id UnblockStatus.unblocked
      else ok (UnblockStatus.no_action, term'))

-- Case 2, an empty slot: the scan forwards is the loop over empty slots of the gap scanner.
unfoldable pub unblock_empty : Buffer → Buffer → ℕ → ℕ → ℕ → Result (UnblockStatus × Buffer)
unfolding pad_out empty_loop zeroed_back
unblock_empty metadata term blocked_offset tail_offset term_id = do
  current_offset ← empty_loop (suc term.capacity) term tail_offset blocked_offset
  let nothing : Result (UnblockStatus × Buffer) = ok (UnblockStatus.no_action, term)
  let found : Result (UnblockStatus × Buffer) = do
    zeroed ←
        zeroed_back (suc term.capacity) (frame_length term) blocked_offset
          (sub32 current_offset frame_alignment)
    let padding_length = sub32 current_offset blocked_offset
    (if zeroed
        then (if padding_length == 0
            then nothing
            else pad_out metadata term blocked_offset padding_length term_id
                UnblockStatus.unblocked)
        else nothing)
  let padding_length = sub32 tail_offset blocked_offset
  (if lt32 current_offset tail_offset
      then found
      else if padding_length == 0
      then nothing
      else pad_out metadata term blocked_offset padding_length term_id
          UnblockStatus.unblocked_to_end)

-- TermUnblocker::unblock: the status, and the term buffer.
unfoldable pub unblock_term : Buffer → Buffer → ℕ → ℕ → ℕ → Result (UnblockStatus × Buffer)
unfolding unblock_partial unblock_empty
unblock_term metadata term blocked_offset tail_offset term_id = do
  frame_length ← frame_length term blocked_offset
  (if is_neg32 frame_length
      then unblock_partial metadata term blocked_offset frame_length term_id
      else if frame_length == 0
      then unblock_empty metadata term blocked_offset tail_offset term_id
      else ok (UnblockStatus.no_action, term))

-- The state of a log: its metadata, and `term_buffers[]`.
pub record Log : Type 0 where
  pub metadata : Buffer
  pub terms : ℕ → Buffer

abbrev pub with_term : Log → ℕ → Buffer → Log
with_term log i term = record log { terms = λ j. if j == i then term else log.terms j }

-- LogBufferUnblocker::unblock: whether it did something, and the log. The shift of the position
-- is that of a u64, and the mask keeps the low bits of a term length that is a power of two.
unfoldable pub unblock : Log → ℕ → ℕ → Result (Bool × Log)
unfolding unblock_term
unblock log blocked_position term_length = do
  let blocked_term_count = low32 (blocked_position / 2 ^ position_bits_to_shift term_length)
  let blocked_offset = low32 (blocked_position % term_length)
  active_count ← active_term_count log.metadata
  let rotate_only : Result (Bool × Log) = do
    current_tail ← raw_tail_volatile log.metadata (index_by_term_count active_count)
    (rotated, metadata') ← rotate_log log.metadata active_count (tail_term_id current_tail)
    ok (rotated, record log { metadata = metadata' })
  let delegate : Result (Bool × Log) = do
    let partition_index = index_by_term_count blocked_term_count
    raw_tail ← raw_tail_volatile log.metadata partition_index
    let term_id = tail_term_id raw_tail
    (status, term) ←
        unblock_term log.metadata (log.terms partition_index) blocked_offset
          (tail_term_offset raw_tail) term_id
    let log' = with_term log partition_index term
    let rotate : Result (Bool × Log) = do
      (rotated, metadata') ← rotate_log log.metadata active_count term_id
      ok (true, record log' { metadata = metadata' })
    elim status [
      | UnblockStatus.unblocked_to_end ↦ rotate
      | UnblockStatus.unblocked ↦ ok (true, log')
      | UnblockStatus.no_action ↦ ok (false, log')
    ]
  (if blocked_offset == 0 && blocked_term_count == add32 active_count 1
      then rotate_only
      else delegate)

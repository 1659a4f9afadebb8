-- ===== src/LogBuffer/Rebuilder.antt =====
-- caeron/logbuffer/term_rebuilder.h: placing a received packet in the term.
pub mod Insert
use caeron.Base.{ℕ, ◌==◌, if◌then◌else◌, Result, ok, ◌>>=◌}
use caeron.Word.{add32, sub32, lt32}
use caeron.Buffer.{
  Buffer, get_i32, get_i64, put_i32, put_i64, put_bytes, get_i32_volatile, put_i32_ordered,
}
use caeron.Protocol.{data_header_length}

-- `packet.data () + header_length` is the packet's memory from there on.
unfoldable pub insert : Buffer → ℕ → Buffer → ℕ → Result Buffer
insert term term_offset packet length = do
  present ← get_i32_volatile term term_offset
  let payload_length = sub32 length data_header_length
  let write : Result Buffer = do
    term ←
        (if lt32 0 payload_length
          then put_bytes term (add32 term_offset data_header_length) packet.bytes data_header_length
              payload_length
          else ok term)
    reserved_value ← get_i64 packet 24
    term ← put_i64 term (add32 term_offset 24) reserved_value
    stream_and_term ← get_i64 packet 16
    term ← put_i64 term (add32 term_offset 16) stream_and_term
    offset_and_session ← get_i64 packet 8
    term ← put_i64 term (add32 term_offset 8) offset_and_session
    version_flags_type ← get_i32 packet 4
    term ← put_i32 term (add32 term_offset 4) version_flags_type
    frame_length ← get_i32 packet 0
    put_i32_ordered term term_offset frame_length
  (if present == 0 then write else ok term)

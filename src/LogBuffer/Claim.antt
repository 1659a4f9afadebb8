-- ===== src/LogBuffer/Claim.antt =====
-- caeron/logbuffer/buffer_claim.h: a region of a term that a publisher has claimed and fills in.
pub mod Publish
use caeron.Base.{ℕ, Result, ok, ◌>>=◌}
use caeron.Word.{add32, sub32}
use caeron.Buffer.{Buffer, get_u8, put_u8, get_u16, put_u16, get_i64, put_i64, put_bytes}
use caeron.Protocol.{hdr_type_pad, data_header_length}
use caeron.LogBuffer.Frame.{put_frame_length, put_frame_type}

-- The claimed frame; the buffer that it points to is handed to each operation.
pub record BufferClaim : Type 0 where
  pub frame_offset : ℕ
  pub capacity : ℕ

abbrev pub wrap : ℕ → ℕ → BufferClaim
wrap frame_offset capacity = record { frame_offset = frame_offset; capacity = capacity }

-- Where the payload begins, and how long it can be.
unfoldable pub payload_offset : BufferClaim → ℕ
payload_offset claim = add32 claim.frame_offset data_header_length

unfoldable pub payload_length : BufferClaim → ℕ
payload_length claim = sub32 claim.capacity data_header_length

unfoldable pub header_type : Buffer → BufferClaim → Result ℕ
header_type term claim = get_u16 term (add32 claim.frame_offset 6)

unfoldable pub put_header_type : Buffer → BufferClaim → ℕ → Result Buffer
put_header_type term claim type = put_u16 term (add32 claim.frame_offset 6) type

unfoldable pub flags : Buffer → BufferClaim → Result ℕ
flags term claim = get_u8 term (add32 claim.frame_offset 5)

unfoldable pub put_flags : Buffer → BufferClaim → ℕ → Result Buffer
put_flags term claim value = put_u8 term (add32 claim.frame_offset 5) value

unfoldable pub reserved_value : Buffer → BufferClaim → Result ℕ
reserved_value term claim = get_i64 term (add32 claim.frame_offset 24)

unfoldable pub put_reserved_value : Buffer → BufferClaim → ℕ → Result Buffer
put_reserved_value term claim value = put_i64 term (add32 claim.frame_offset 24) value

unfoldable pub put_payload : Buffer → BufferClaim → Buffer → ℕ → ℕ → Result Buffer
unfolding payload_offset
put_payload term claim source source_offset length =
    put_bytes term (payload_offset claim) source.bytes source_offset length

unfoldable pub commit : Buffer → BufferClaim → Result Buffer
commit term claim = put_frame_length term claim.frame_offset claim.capacity

unfoldable pub abort : Buffer → BufferClaim → Result Buffer
abort term claim = do
  term ← put_frame_type term claim.frame_offset hdr_type_pad
  put_frame_length term claim.frame_offset claim.capacity

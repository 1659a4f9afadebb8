-- ===== src/LogBuffer/Frame.antt =====
-- caeron/logbuffer/frame_descriptor.h: the fields of a frame in a term buffer.
pub mod Term
use caeron.Base.{ℕ, Bool, ◌==◌, Result, ok, ◌>>=◌}
use caeron.Word.{add32}
use caeron.Buffer.{
  Buffer, get_u16, get_i32, get_i32_ordered, put_u8, put_u16, put_i32, put_i32_ordered,
}
use caeron.Protocol.{hdr_type_pad}

abbrev pub frame_alignment : ℕ
frame_alignment = 32

-- BEGIN_FRAG_FLAG | END_FRAG_FLAG
abbrev pub unfragmented : ℕ
unfragmented = 0xc0

unfoldable pub frame_length : Buffer → ℕ → Result ℕ
unfolding get_i32_ordered
frame_length b offset = get_i32_ordered b (add32 offset 0)

unfoldable pub frame_type : Buffer → ℕ → Result ℕ
unfolding get_u16
frame_type b offset = get_u16 b (add32 offset 6)

unfoldable pub frame_term_id : Buffer → ℕ → Result ℕ
unfolding get_i32
frame_term_id b offset = get_i32 b (add32 offset 20)

unfoldable pub frame_session_id : Buffer → ℕ → Result ℕ
unfolding get_i32
frame_session_id b offset = get_i32 b (add32 offset 12)

unfoldable pub is_padding_frame : Buffer → ℕ → Result Bool
unfolding frame_type
is_padding_frame b offset = do type ← frame_type b offset; ok (type == hdr_type_pad)

unfoldable pub put_frame_length : Buffer → ℕ → ℕ → Result Buffer
unfolding put_i32_ordered
put_frame_length b offset length = put_i32_ordered b (add32 offset 0) length

unfoldable pub put_frame_type : Buffer → ℕ → ℕ → Result Buffer
unfolding put_u16
put_frame_type b offset type = put_u16 b (add32 offset 6) type

unfoldable pub put_frame_flags : Buffer → ℕ → ℕ → Result Buffer
unfolding put_u8
put_frame_flags b offset flags = put_u8 b (add32 offset 5) flags

unfoldable pub put_frame_term_offset : Buffer → ℕ → ℕ → Result Buffer
unfolding put_i32
put_frame_term_offset b offset term_offset = put_i32 b (add32 offset 8) term_offset

unfoldable pub put_frame_term_id : Buffer → ℕ → ℕ → Result Buffer
unfolding put_i32
put_frame_term_id b offset term_id = put_i32 b (add32 offset 20) term_id

unfoldable pub put_frame_session_id : Buffer → ℕ → ℕ → Result Buffer
unfolding put_i32
put_frame_session_id b offset session_id = put_i32 b (add32 offset 12) session_id

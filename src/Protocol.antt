-- ===== src/Protocol.antt =====
-- caeron/protocol: the wire frames, and the accessors that do more than read or write one field.
pub mod Streams
pub mod Control
pub mod Codec
pub mod Errors
use Prim.Native.Nat.{bit_and, bit_or}
use caeron.Base.{
  ℕ, zero, suc, ◌+◌, ◌-◌, ◌%◌, ◌^◌, Bool, true, false, not, ◌==◌, if◌then◌else◌, List, [], ◌∷◌,
  length, Result, ok, err, guard, Error, ◌>>=◌, ◌>>◌,
}
use caeron.Word.{i32_mod, lt32, add32, sub32}
use caeron.Buffer.{Buffer, get_u8, get_i32, get_i64, put_i32, put_i64, put_bytes}
use caeron.Buffer.Bytes.{Memory}
use caeron.Flyweight.{Layout, get, set}
use Streams.{header_layout, data_header_layout, nak_layout, status_message_layout, StatusMessage}
use Control.{setup_layout, rtt_measurement_layout, error_layout, response_setup_layout, ErrorFrame}

-- The classes of caeron/protocol that wrap a frame.
pub data Kind : Type 0 where
  header data_header nak status_message setup rtt_measurement error response_setup : Kind

unfoldable pub layout : Kind → Layout
layout Kind.header = header_layout
layout Kind.data_header = data_header_layout
layout Kind.nak = nak_layout
layout Kind.status_message = status_message_layout
layout Kind.setup = setup_layout
layout Kind.rtt_measurement = rtt_measurement_layout
layout Kind.error = error_layout
layout Kind.response_setup = response_setup_layout

-- Both accessors of the field only read or write its slot. The group tags of a status message and of
-- an error frame have accessors of their own, and the length of an error's text has no setter.
unfoldable pub is_plain : (k : Kind) → (layout k).Field → Bool
unfolding layout status_message_layout error_layout
is_plain Kind.header f = true
is_plain Kind.data_header f = true
is_plain Kind.nak f = true
is_plain Kind.status_message StatusMessage.group_tag = false
is_plain Kind.status_message f = true
is_plain Kind.setup f = true
is_plain Kind.rtt_measurement f = true
is_plain Kind.error ErrorFrame.group_tag = false
is_plain Kind.error ErrorFrame.error_message_length = false
is_plain Kind.error f = true
is_plain Kind.response_setup f = true

-- HDR_TYPE_PAD, HDR_TYPE_DATA and the header's length of a DATA frame.
abbrev pub hdr_type_pad : ℕ
hdr_type_pad = 0

abbrev pub hdr_type_data : ℕ
hdr_type_data = 1

abbrev pub data_header_length : ℕ
data_header_length = 32

-- DataHeaderFlyweight::is_end_of_stream and is_revoked.
unfoldable pub is_end_of_stream : Buffer → ℕ → Result Bool
is_end_of_stream b offset = do flags ← get_u8 b (add32 offset 5); ok (not (bit_and flags 0x20 == 0))

unfoldable pub is_revoked : Buffer → ℕ → Result Bool
is_revoked b offset = do flags ← get_u8 b (add32 offset 5); ok (not (bit_and flags 0x10 == 0))

-- StatusMessageFlyweight: the optional group tag of a frame of 44 bytes.
unfoldable pub asf_length : Buffer → ℕ → Result ℕ
unfolding status_message_layout
asf_length b base = do
  length ← get status_message_layout StatusMessage.frame_length b base
  ok (sub32 length 36)

unfoldable pub group_tag : Buffer → ℕ → Result ℕ
unfolding status_message_layout
group_tag b base = do
  length ← get status_message_layout StatusMessage.frame_length b base
  (if length == 44
      then get status_message_layout StatusMessage.group_tag b base
      else if lt32 36 length
      then err Error.runtime_error
      else ok 0)

unfoldable pub set_group_tag : Buffer → ℕ → ℕ → Result Buffer
unfolding status_message_layout
set_group_tag b base value = do
  b1 ← set status_message_layout StatusMessage.frame_length b base 44
  set status_message_layout StatusMessage.group_tag b1 base value

-- ===== src/Protocol/Streams.antt =====
-- caeron/protocol: the header that all frames share, data frames, and the two frames that a
-- receiver sends back (NAK, status message).
use caeron.Base.{◌+◌, ◌≤◌, ◌≢◌, arith}
use caeron.Flyweight.{Slot, SlotsApart, Layout, u8_at, u16_at, i32_at, i64_at}

-- header_flyweight.h
pub data Header : Type 0 where
  frame_length version flags type : Header

unfoldable pub header_slot : Header → Slot
header_slot Header.frame_length = i32_at 0
header_slot Header.version = u8_at 4
header_slot Header.flags = u8_at 5
header_slot Header.type = u16_at 6

header-inside : (f : Header) → (header_slot f).offset + (header_slot f).width ≤ 8
unfolding header_slot
header-inside f = ground arith

header-apart : (f g : Header) → f ≢ g → SlotsApart (header_slot f) (header_slot g)
unfolding header_slot
header-apart f g h = ground arith

unfoldable pub header_layout : Layout
unfolding header-inside header-apart
header_layout = record {
  Field = Header;
  slot = header_slot;
  length = 8;
  inside = header-inside;
  apart = header-apart;
}

-- data_header_flyweight.h
pub data DataHeader : Type 0 where
  frame_length version flags type : DataHeader
  term_offset session_id stream_id term_id reserved_value : DataHeader

unfoldable pub data_header_slot : DataHeader → Slot
data_header_slot DataHeader.frame_length = i32_at 0
data_header_slot DataHeader.version = u8_at 4
data_header_slot DataHeader.flags = u8_at 5
data_header_slot DataHeader.type = u16_at 6
data_header_slot DataHeader.term_offset = i32_at 8
data_header_slot DataHeader.session_id = i32_at 12
data_header_slot DataHeader.stream_id = i32_at 16
data_header_slot DataHeader.term_id = i32_at 20
data_header_slot DataHeader.reserved_value = i64_at 24

data_header-inside :
    (f : DataHeader) → (data_header_slot f).offset + (data_header_slot f).width ≤ 32
unfolding data_header_slot
data_header-inside f = ground arith

data_header-apart :
    (f g : DataHeader) → f ≢ g → SlotsApart (data_header_slot f) (data_header_slot g)
unfolding data_header_slot
data_header-apart f g h = ground arith

unfoldable pub data_header_layout : Layout
unfolding data_header-inside data_header-apart
data_header_layout = record {
  Field = DataHeader;
  slot = data_header_slot;
  length = 32;
  inside = data_header-inside;
  apart = data_header-apart;
}

-- nak_flyweight.h
pub data Nak : Type 0 where
  frame_length version flags type session_id stream_id term_id term_offset length : Nak

unfoldable pub nak_slot : Nak → Slot
nak_slot Nak.frame_length = i32_at 0
nak_slot Nak.version = u8_at 4
nak_slot Nak.flags = u8_at 5
nak_slot Nak.type = u16_at 6
nak_slot Nak.session_id = i32_at 8
nak_slot Nak.stream_id = i32_at 12
nak_slot Nak.term_id = i32_at 16
nak_slot Nak.term_offset = i32_at 20
nak_slot Nak.length = i32_at 24

nak-inside : (f : Nak) → (nak_slot f).offset + (nak_slot f).width ≤ 28
unfolding nak_slot
nak-inside f = ground arith

nak-apart : (f g : Nak) → f ≢ g → SlotsApart (nak_slot f) (nak_slot g)
unfolding nak_slot
nak-apart f g h = ground arith

unfoldable pub nak_layout : Layout
unfolding nak-inside nak-apart
nak_layout = record {
  Field = Nak;
  slot = nak_slot;
  length = 28;
  inside = nak-inside;
  apart = nak-apart;
}

-- status_message_flyweight.h
pub data StatusMessage : Type 0 where
  frame_length version flags type session_id : StatusMessage
  stream_id consumption_term_id consumption_term_offset receiver_window receiver_id group_tag :
      StatusMessage

-- Where the fields stand. The accessors of the group tag, which is optional, are in Protocol.antt.
unfoldable pub status_message_slot : StatusMessage → Slot
status_message_slot StatusMessage.frame_length = i32_at 0
status_message_slot StatusMessage.version = u8_at 4
status_message_slot StatusMessage.flags = u8_at 5
status_message_slot StatusMessage.type = u16_at 6
status_message_slot StatusMessage.session_id = i32_at 8
status_message_slot StatusMessage.stream_id = i32_at 12
status_message_slot StatusMessage.consumption_term_id = i32_at 16
status_message_slot StatusMessage.consumption_term_offset = i32_at 20
status_message_slot StatusMessage.receiver_window = i32_at 24
status_message_slot StatusMessage.receiver_id = i64_at 28
status_message_slot StatusMessage.group_tag = i64_at 36

status_message-inside :
    (f : StatusMessage) → (status_message_slot f).offset + (status_message_slot f).width ≤ 44
unfolding status_message_slot
status_message-inside f = ground arith

status_message-apart :
    (f g : StatusMessage) → f ≢ g → SlotsApart (status_message_slot f) (status_message_slot g)
unfolding status_message_slot
status_message-apart f g h = ground arith

unfoldable pub status_message_layout : Layout
unfolding status_message-inside status_message-apart
status_message_layout = record {
  Field = StatusMessage;
  slot = status_message_slot;
  length = 44;
  inside = status_message-inside;
  apart = status_message-apart;
}

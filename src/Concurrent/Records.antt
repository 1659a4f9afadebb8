-- ===== src/Concurrent/Records.antt =====
-- The records that the ring buffer and the broadcast buffer of caeron/concurrent hold: a length, a
-- type and a body, in a region of data that goes round at its end.
pub mod Layout
pub mod Frame
pub mod Written
use caeron.Base.{ℕ, suc, ◌+◌, ◌%◌}
use caeron.Buffer.{Buffer}

-- A call of a handler, with the message as the view of the buffer that its pointer and its length
-- make.
pub record Call : Type 0 where
  pub msg_type_id : ℕ
  pub message : Buffer

abbrev pub message_at : Buffer → ℕ → ℕ → ℕ → Call
message_at b offset msg_type_id length = record {
  msg_type_id = msg_type_id;
  message = record {
    address = b.address + offset;
    capacity = length;
    bytes = λ j. b.bytes (offset + j);
  };
}

-- `position & mask_`, where the mask is one less than a power of two.
abbrev pub index_of : ℕ → ℕ → ℕ
index_of position mask = position % suc mask

-- ===== src/Concurrent/Broadcast.antt =====
-- caeron/concurrent/broadcast_transmitter.h and broadcast_receiver.h: messages from one
-- transmitter to a receiver.
use caeron.Base.{
  ℕ, zero, suc, ◌-◌, ◌^◌, Bool, true, false, not, ◌==◌, if◌then◌else◌, Option, List, [], ◌∷◌,
  Result, ok, err, Error, guard, ◌>>=◌, ◌>>◌,
}
use caeron.Word.{
  add32, sub32, neg32, add64, sub64, is_neg32, lt32, lt64, low32, sign_extend, align,
  is_power_of_two,
}
use caeron.Buffer.{
  Buffer, get_i32, put_i32, put_some_bytes, get_i32_ordered, put_i32_ordered, get_i64_ordered,
  put_i64_ordered,
}
use caeron.Buffer.Bytes.{Memory}
use caeron.Concurrent.Records.{Call, index_of, message_at}

abbrev pub header_length : ℕ
header_length = 64

abbrev pub padding_msg_type_id : ℕ
padding_msg_type_id = 2 ^ 32 - 1

-- The words at 0 and at 8: how far was transmitted, and how far a receiver has read.
abbrev pub tail_position_offset : ℕ
tail_position_offset = 0

abbrev pub head_position_offset : ℕ
head_position_offset = 8

pub record BroadcastTransmitter : Type 0 where
  pub buffer : Buffer
  pub capacity : ℕ
  pub mask : ℕ

unfoldable pub create_transmitter : Buffer → Result BroadcastTransmitter
create_transmitter buffer = do
  let capacity = sub32 buffer.capacity header_length
  guard (lt32 0 capacity) Error.invalid_argument
  guard (is_power_of_two capacity) Error.invalid_argument
  ok (record { buffer = buffer; capacity = capacity; mask = sub32 capacity 1 })

unfoldable pub put_record : Buffer → ℕ → ℕ → ℕ → Option Memory → ℕ → Result Buffer
put_record b index record_length msg_type_id src length = do
  let offset = add32 header_length index
  b ← put_some_bytes b (add32 offset 8) src length
  b ← put_i32 b (add32 offset 4) msg_type_id
  put_i32_ordered b offset record_length

abbrev pub put_padding_record : Buffer → ℕ → ℕ → Result Buffer
put_padding_record b index to_buffer_end =
    put_i32_ordered b (add32 header_length index) (neg32 to_buffer_end)

-- Whether the message was transmitted, and the transmitter.
unfoldable pub transmit :
    BroadcastTransmitter → ℕ → Option Memory → ℕ → Result (Bool × BroadcastTransmitter)
unfolding put_record
transmit t msg_type_id src length = do
  guard (not (msg_type_id == padding_msg_type_id)) Error.invalid_argument
  guard (not (is_neg32 length)) Error.invalid_argument
  let record_length = add32 8 length
  required ← align (add32 record_length 4) 4
  tail ← get_i64_ordered t.buffer tail_position_offset
  head ← get_i64_ordered t.buffer head_position_offset
  let tail_index = low32 (index_of tail t.mask)
  let to_buffer_end = sub32 t.capacity tail_index
  let available = sub32 t.capacity (low32 (sub64 tail head))
  let claim = add32 to_buffer_end required
  let wrapped : Result (Bool × BroadcastTransmitter) = do
    b ← put_padding_record t.buffer tail_index to_buffer_end
    b ← put_record b 0 record_length msg_type_id src length
    b ← put_i64_ordered b tail_position_offset (add64 tail (sign_extend claim))
    ok (true, record t { buffer = b })
  let fitting : Result (Bool × BroadcastTransmitter) = do
    b ← put_record t.buffer tail_index record_length msg_type_id src length
    b ← put_i64_ordered b tail_position_offset (add64 tail (sign_extend required))
    ok (true, record t { buffer = b })
  (if lt32 to_buffer_end (add32 record_length 4)
      then (if lt32 available claim then ok (false, t) else wrapped)
      else if lt32 available required
      then ok (false, t)
      else fitting)

-- `tail` is how far this receiver has read.
pub record BroadcastReceiver : Type 0 where
  pub buffer : Buffer
  pub capacity : ℕ
  pub mask : ℕ
  pub tail : ℕ

unfoldable pub create_receiver : Buffer → Result BroadcastReceiver
create_receiver buffer = do
  let capacity = sub32 buffer.capacity header_length
  guard (lt32 0 capacity) Error.invalid_argument
  guard (is_power_of_two capacity) Error.invalid_argument
  ok (record { buffer = buffer; capacity = capacity; mask = sub32 capacity 1; tail = 0 })

-- The loop of receive: the position that it reaches, and the calls of the handler.
unfoldable pub receive_loop : ℕ → BroadcastReceiver → ℕ → ℕ → ℕ → Result (ℕ × List Call)
receive_loop zero r next_tail index tail = err Error.fuel
receive_loop (suc fuel) r next_tail index tail =
    let body : Result (ℕ × List Call) = do
      let offset = add32 header_length index
      record_length ← get_i32_ordered r.buffer offset
      let skip : Result (ℕ × List Call) =
          receive_loop fuel r (add64 (sub64 next_tail (sign_extend index)) (sign_extend r.capacity))
            0 tail
      let deliver : Result (ℕ × List Call) = do
        guard (not (lt32 r.capacity record_length)) Error.runtime_error
        msg_type_id ← get_i32 r.buffer (add32 offset 4)
        let call = message_at r.buffer (add32 offset 8) msg_type_id (sub32 record_length 8)
        aligned ← align (add32 record_length 4) 4
        let next_tail' = add64 next_tail (sign_extend aligned)
        (reached, calls) ← receive_loop fuel r next_tail' (low32 (index_of next_tail' r.mask)) tail
        ok (reached, call ∷ calls)
      (if record_length == 0
          then ok (next_tail, [])
          else if is_neg32 record_length
          then skip
          else deliver)
    in if lt64 next_tail tail then body else ok (next_tail, [])

-- The calls of the handler, and the receiver. A receiver that was lapped goes on at the oldest
-- position that can still be there.
unfoldable pub receive : BroadcastReceiver → Result (List Call × BroadcastReceiver)
unfolding receive_loop
receive r = do
  tail ← get_i64_ordered r.buffer tail_position_offset
  let oldest = sub64 tail (sign_extend r.capacity)
  let next_tail = if lt64 (sign_extend r.capacity) (sub64 tail r.tail) then oldest else r.tail
  (reached, calls) ←
      receive_loop (suc r.capacity) r next_tail (low32 (index_of next_tail r.mask)) tail
  let published : Result (List Call × BroadcastReceiver) = do
    b ← put_i64_ordered r.buffer head_position_offset reached
    ok (calls, record r { buffer = b; tail = reached })
  elim calls [ [] ↦ ok ([], record r { tail = reached }) | c ∷ cs ↦ published ]

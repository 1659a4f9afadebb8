-- ===== src/Cnc/DriverProxy/Counters.antt =====
-- caeron/cnc/driver_proxy.h: the methods that add a counter, with their overloads.
use caeron.Base.{ℕ, not, ◌||◌, Option, none, some, Result, Error, guard, ◌>>=◌, ◌>>◌}
use caeron.Word.{is_neg32}
use caeron.Buffer.Bytes.{Memory}
use caeron.Flyweight.{set}
use caeron.Command.CounterRequest
use caeron.Command.CounterRequest.{CounterMessage, counter_message_layout}
use caeron.Command.StaticCounterRequest
use caeron.Command.StaticCounterRequest.{StaticCounterMessage, static_counter_message_layout}
use caeron.Cnc.{add_counter_id, add_static_counter_id}
use caeron.Cnc.DriverProxy.{
  DriverProxy, CString, safe_strlen, next_correlation_id, validate_scratch_length, or_empty,
  scratch_of, send_correlated, part_of, length_of,
}

unfoldable pub add_counter :
    DriverProxy → ℕ → Option Memory → ℕ → ℕ → Option Memory → ℕ → ℕ → Result (ℕ × DriverProxy)
unfolding counter_message_layout
add_counter p type_id key key_offset key_length label label_offset label_length = do
  guard (not (is_neg32 key_length || is_neg32 label_length)) Error.invalid_argument
  guard (not (is_neg32 key_offset || is_neg32 label_offset)) Error.invalid_argument
  let key_length = length_of key key_length
  let label_length = length_of label label_length
  let correlation_id = p.correlation_counter
  let p = next_correlation_id p
  let msg_len = CounterRequest.compute_length key_length label_length
  validate_scratch_length msg_len
  let l = counter_message_layout
  b ← set l CounterMessage.client_id (scratch_of p msg_len) 0 p.client_id
  b ← set l CounterMessage.correlation_id b 0 correlation_id
  b ← set l CounterMessage.counter_type b 0 type_id
  b ← CounterRequest.set_key_buffer b 0 (part_of key key_offset key_length) key_length
  b ← CounterRequest.set_label b 0 (part_of label label_offset label_length) label_length
  send_correlated p add_counter_id b correlation_id

-- With a label only.
unfoldable pub add_counter_labelled : DriverProxy → ℕ → Option CString → Result (ℕ × DriverProxy)
unfolding counter_message_layout safe_strlen
add_counter_labelled p type_id label = do
  let label = or_empty label
  let correlation_id = p.correlation_counter
  let p = next_correlation_id p
  label_len ← safe_strlen label
  let msg_len = CounterRequest.compute_length 0 label_len
  validate_scratch_length msg_len
  let l = counter_message_layout
  b ← set l CounterMessage.client_id (scratch_of p msg_len) 0 p.client_id
  b ← set l CounterMessage.correlation_id b 0 correlation_id
  b ← set l CounterMessage.counter_type b 0 type_id
  b ← CounterRequest.set_key_buffer b 0 none 0
  b ← CounterRequest.set_label b 0 (some label.bytes) label_len
  send_correlated p add_counter_id b correlation_id

unfoldable pub add_static_counter :
    DriverProxy → ℕ → Option Memory → ℕ → ℕ → Option Memory → ℕ → ℕ → ℕ → Result (ℕ × DriverProxy)
unfolding static_counter_message_layout
add_static_counter p type_id key key_offset key_length label label_offset label_length
      registration_id =
    do
      guard (not (is_neg32 key_length || is_neg32 label_length)) Error.invalid_argument
      guard (not (is_neg32 key_offset || is_neg32 label_offset)) Error.invalid_argument
      let key_length = length_of key key_length
      let label_length = length_of label label_length
      let correlation_id = p.correlation_counter
      let p = next_correlation_id p
      msg_len ← StaticCounterRequest.compute_length key_length label_length
      validate_scratch_length msg_len
      let l = static_counter_message_layout
      b ← set l StaticCounterMessage.client_id (scratch_of p msg_len) 0 p.client_id
      b ← set l StaticCounterMessage.correlation_id b 0 correlation_id
      b ← set l StaticCounterMessage.registration_id b 0 registration_id
      b ← set l StaticCounterMessage.counter_type_id b 0 type_id
      b ← StaticCounterRequest.set_key_buffer b 0 (part_of key key_offset key_length) key_length
      b ← StaticCounterRequest.set_label b 0 (part_of label label_offset label_length) label_length
      send_correlated p add_static_counter_id b correlation_id

-- With a label only.
unfoldable pub add_static_counter_labelled :
    DriverProxy → ℕ → Option CString → ℕ → Result (ℕ × DriverProxy)
unfolding static_counter_message_layout safe_strlen
add_static_counter_labelled p type_id label registration_id = do
  let label = or_empty label
  let correlation_id = p.correlation_counter
  let p = next_correlation_id p
  label_len ← safe_strlen label
  msg_len ← StaticCounterRequest.compute_length 0 label_len
  validate_scratch_length msg_len
  let l = static_counter_message_layout
  b ← set l StaticCounterMessage.client_id (scratch_of p msg_len) 0 p.client_id
  b ← set l StaticCounterMessage.correlation_id b 0 correlation_id
  b ← set l StaticCounterMessage.registration_id b 0 registration_id
  b ← set l StaticCounterMessage.counter_type_id b 0 type_id
  b ← StaticCounterRequest.set_key_buffer b 0 none 0
  b ← StaticCounterRequest.set_label b 0 (some label.bytes) label_len
  send_correlated p add_static_counter_id b correlation_id

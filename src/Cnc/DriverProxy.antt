-- ===== src/Cnc/DriverProxy.antt =====
-- caeron/cnc/driver_proxy.h: each method serialises a command into the scratch buffer and writes it
-- to the ring buffer. A call that throws is an error; what it leaves behind is not followed.
pub mod Counters
use caeron.Base.{
  ℕ, ◌+◌, ◌-◌, ◌^◌, Bool, true, false, not, ◌&&◌, ◌||◌, ltb, ◌==◌, if◌then◌else◌, Option, none,
  some, Result, ok, err, Error, guard, ◌>>=◌, ◌>>◌,
}
use caeron.Word.{add64, is_neg32, lt32, i32_max}
use caeron.Buffer.{Buffer}
use caeron.Buffer.Bytes.{Memory}
use caeron.Flyweight.{Layout, set}
use caeron.Command.Trailing.{Text, set_text, compute_length}
use caeron.Command.Requests.{
  CorrelatedMessage, correlated_message_layout, RemoveMessage, remove_message_layout,
  RemoveSubscription, remove_subscription_layout, DestinationByIdMessage,
  destination_by_id_message_layout, GetNextAvailableSessionIdMessage,
  get_next_available_session_id_message_layout,
}
use caeron.Command.Channels.{
  PublicationMessage, publication_message_text, publication_message_layout, SubscriptionMessage,
  subscription_message_text, subscription_message_layout, DestinationMessage,
  destination_message_text, destination_message_layout,
}
use caeron.Command.Notices.{
  TerminateDriver, terminate_driver_text, terminate_driver_layout, RejectImage, reject_image_text,
  reject_image_layout,
}
use caeron.Command.Revocation.{RemovePublication, remove_publication_layout, set_revoke}
use caeron.Command.CounterRequest
use caeron.Command.CounterRequest.{CounterMessage, counter_message_layout}
use caeron.Command.StaticCounterRequest
use caeron.Command.StaticCounterRequest.{StaticCounterMessage, static_counter_message_layout}
use caeron.Concurrent.RingBuffer.{RingBuffer, write, consumer_heartbeat_time}
use caeron.Cnc.{
  add_publication_id, remove_publication_id, add_exclusive_publication_id, add_subscription_id,
  remove_subscription_id, client_keepalive_id, add_destination_id, remove_destination_id,
  add_counter_id, remove_counter_id, client_close_id, add_rcv_destination_id,
  remove_rcv_destination_id, terminate_driver_id, add_static_counter_id, reject_image_id,
  remove_destination_by_id_id, get_next_available_session_id_id,
}

-- The ring buffer is the one that the proxy refers to; `scratch` is its own array, with its
-- address.
pub record DriverProxy : Type 0 where
  pub ring_buffer : RingBuffer
  pub client_id : ℕ
  pub correlation_counter : ℕ
  pub scratch_address : ℕ
  pub scratch : Memory

-- A C string that is not null, with what strlen returns for it.
pub record CString : Type 0 where
  pub bytes : Memory
  pub size : ℕ

abbrev pub scratch_buffer_size : ℕ
scratch_buffer_size = 2048

abbrev pub null_value : ℕ
null_value = 2 ^ 64 - 1

unfoldable pub create : RingBuffer → ℕ → ℕ → DriverProxy
create ring_buffer client_id scratch_address = record {
  ring_buffer = ring_buffer;
  client_id = client_id;
  correlation_counter = 1;
  scratch_address = scratch_address;
  scratch = λ j. 0;
}

unfoldable pub time_of_last_driver_keepalive_ms : DriverProxy → Result ℕ
time_of_last_driver_keepalive_ms p = consumer_heartbeat_time p.ring_buffer

unfoldable pub safe_strlen : CString → Result ℕ
safe_strlen str = do guard (not (ltb i32_max str.size)) Error.runtime_error; ok str.size

-- The proxy with the next correlation id; the id is the value before.
abbrev pub next_correlation_id : DriverProxy → DriverProxy
next_correlation_id p = record p { correlation_counter = add64 p.correlation_counter 1 }

abbrev pub validate_scratch_length : ℕ → Result (Unit {0})
validate_scratch_length length =
    guard (not (is_neg32 length || lt32 scratch_buffer_size length)) Error.runtime_error

-- A null pointer stands for the empty string.
abbrev pub or_empty : Option CString → CString
or_empty none = record { bytes = λ j. 0; size = 0 }
or_empty (some str) = str

-- The scratch array as a buffer of `length` bytes.
abbrev pub scratch_of : DriverProxy → ℕ → Buffer
scratch_of p length = record { address = p.scratch_address; capacity = length; bytes = p.scratch }

-- The command is written to the ring buffer; whether there was room for it.
unfoldable pub try_send : DriverProxy → ℕ → Buffer → Result (Bool × DriverProxy)
try_send p msg_type_id command = do
  (written, ring_buffer) ← write p.ring_buffer msg_type_id (some command.bytes) command.capacity
  ok (written, record p { ring_buffer = ring_buffer; scratch = command.bytes })

abbrev pub send : DriverProxy → ℕ → Buffer → Result DriverProxy
send p msg_type_id command = do
  (written, p') ← try_send p msg_type_id command
  (if written then ok p' else err Error.runtime_error)

-- What the methods that return the correlation id do with it.
abbrev pub send_correlated : DriverProxy → ℕ → Buffer → ℕ → Result (ℕ × DriverProxy)
send_correlated p msg_type_id command correlation_id = do
  p' ← send p msg_type_id command
  ok (correlation_id, p')

-- Bytes from `offset` on, where there are any.
abbrev pub part_of : Option Memory → ℕ → ℕ → Option Memory
part_of none offset length = none
part_of (some bytes) offset length = if length == 0 then none else some (λ j. bytes (offset + j))

abbrev pub length_of : Option Memory → ℕ → ℕ
length_of none length = 0
length_of (some bytes) length = length

unfoldable pub add_publication : DriverProxy → Option CString → ℕ → Result (ℕ × DriverProxy)
unfolding publication_message_layout publication_message_text safe_strlen
add_publication p channel stream_id = do
  let channel = or_empty channel
  let correlation_id = p.correlation_counter
  let p = next_correlation_id p
  channel_len ← safe_strlen channel
  let msg_len = compute_length publication_message_text channel_len
  validate_scratch_length msg_len
  let l = publication_message_layout
  b ← set l PublicationMessage.client_id (scratch_of p msg_len) 0 p.client_id
  b ← set l PublicationMessage.correlation_id b 0 correlation_id
  b ← set l PublicationMessage.stream_id b 0 stream_id
  b ← set_text publication_message_text b 0 (some channel.bytes) channel_len
  send_correlated p add_publication_id b correlation_id

unfoldable pub add_exclusive_publication :
    DriverProxy → Option CString → ℕ → Result (ℕ × DriverProxy)
unfolding publication_message_layout publication_message_text safe_strlen
add_exclusive_publication p channel stream_id = do
  let channel = or_empty channel
  let correlation_id = p.correlation_counter
  let p = next_correlation_id p
  channel_len ← safe_strlen channel
  let msg_len = compute_length publication_message_text channel_len
  validate_scratch_length msg_len
  let l = publication_message_layout
  b ← set l PublicationMessage.client_id (scratch_of p msg_len) 0 p.client_id
  b ← set l PublicationMessage.correlation_id b 0 correlation_id
  b ← set l PublicationMessage.stream_id b 0 stream_id
  b ← set_text publication_message_text b 0 (some channel.bytes) channel_len
  send_correlated p add_exclusive_publication_id b correlation_id

unfoldable pub remove_publication : DriverProxy → ℕ → Bool → Result (ℕ × DriverProxy)
unfolding remove_publication_layout set_revoke
remove_publication p registration_id revoke = do
  let correlation_id = p.correlation_counter
  let p = next_correlation_id p
  let l = remove_publication_layout
  b ← set l RemovePublication.client_id (scratch_of p 32) 0 p.client_id
  b ← set l RemovePublication.correlation_id b 0 correlation_id
  b ← set l RemovePublication.registration_id b 0 registration_id
  b ← set_revoke b 0 revoke
  send_correlated p remove_publication_id b correlation_id

unfoldable pub add_subscription : DriverProxy → Option CString → ℕ → Result (ℕ × DriverProxy)
unfolding subscription_message_layout subscription_message_text safe_strlen
add_subscription p channel stream_id = do
  let channel = or_empty channel
  let correlation_id = p.correlation_counter
  let p = next_correlation_id p
  channel_len ← safe_strlen channel
  let msg_len = compute_length subscription_message_text channel_len
  validate_scratch_length msg_len
  let l = subscription_message_layout
  b ← set l SubscriptionMessage.client_id (scratch_of p msg_len) 0 p.client_id
  b ← set l SubscriptionMessage.correlation_id b 0 correlation_id
  b ← set l SubscriptionMessage.registration_correlation_id b 0 null_value
  b ← set l SubscriptionMessage.stream_id b 0 stream_id
  b ← set_text subscription_message_text b 0 (some channel.bytes) channel_len
  send_correlated p add_subscription_id b correlation_id

unfoldable pub remove_subscription : DriverProxy → ℕ → Result (ℕ × DriverProxy)
unfolding remove_subscription_layout
remove_subscription p registration_id = do
  let correlation_id = p.correlation_counter
  let p = next_correlation_id p
  let l = remove_subscription_layout
  b ← set l RemoveSubscription.client_id (scratch_of p 24) 0 p.client_id
  b ← set l RemoveSubscription.correlation_id b 0 correlation_id
  b ← set l RemoveSubscription.registration_id b 0 registration_id
  send_correlated p remove_subscription_id b correlation_id

unfoldable pub add_destination : DriverProxy → ℕ → Option CString → Result (ℕ × DriverProxy)
unfolding destination_message_layout destination_message_text safe_strlen
add_destination p registration_id endpoint_channel = do
  let channel = or_empty endpoint_channel
  let correlation_id = p.correlation_counter
  let p = next_correlation_id p
  channel_len ← safe_strlen channel
  let msg_len = compute_length destination_message_text channel_len
  validate_scratch_length msg_len
  let l = destination_message_layout
  b ← set l DestinationMessage.client_id (scratch_of p msg_len) 0 p.client_id
  b ← set l DestinationMessage.correlation_id b 0 correlation_id
  b ← set l DestinationMessage.registration_correlation_id b 0 registration_id
  b ← set_text destination_message_text b 0 (some channel.bytes) channel_len
  send_correlated p add_destination_id b correlation_id

unfoldable pub remove_destination : DriverProxy → ℕ → Option CString → Result (ℕ × DriverProxy)
unfolding destination_message_layout destination_message_text safe_strlen
remove_destination p registration_id endpoint_channel = do
  let channel = or_empty endpoint_channel
  let correlation_id = p.correlation_counter
  let p = next_correlation_id p
  channel_len ← safe_strlen channel
  let msg_len = compute_length destination_message_text channel_len
  validate_scratch_length msg_len
  let l = destination_message_layout
  b ← set l DestinationMessage.client_id (scratch_of p msg_len) 0 p.client_id
  b ← set l DestinationMessage.correlation_id b 0 correlation_id
  b ← set l DestinationMessage.registration_correlation_id b 0 registration_id
  b ← set_text destination_message_text b 0 (some channel.bytes) channel_len
  send_correlated p remove_destination_id b correlation_id

unfoldable pub remove_destination_by_id : DriverProxy → ℕ → ℕ → Result (ℕ × DriverProxy)
unfolding destination_by_id_message_layout
remove_destination_by_id p publication_registration_id destination_registration_id = do
  let correlation_id = p.correlation_counter
  let p = next_correlation_id p
  let l = destination_by_id_message_layout
  b ← set l DestinationByIdMessage.client_id (scratch_of p 32) 0 p.client_id
  b ← set l DestinationByIdMessage.correlation_id b 0 correlation_id
  b ← set l DestinationByIdMessage.resource_registration_id b 0 publication_registration_id
  b ← set l DestinationByIdMessage.destination_registration_id b 0 destination_registration_id
  send_correlated p remove_destination_by_id_id b correlation_id

unfoldable pub add_rcv_destination : DriverProxy → ℕ → Option CString → Result (ℕ × DriverProxy)
unfolding destination_message_layout destination_message_text safe_strlen
add_rcv_destination p registration_id endpoint_channel = do
  let channel = or_empty endpoint_channel
  let correlation_id = p.correlation_counter
  let p = next_correlation_id p
  channel_len ← safe_strlen channel
  let msg_len = compute_length destination_message_text channel_len
  validate_scratch_length msg_len
  let l = destination_message_layout
  b ← set l DestinationMessage.client_id (scratch_of p msg_len) 0 p.client_id
  b ← set l DestinationMessage.correlation_id b 0 correlation_id
  b ← set l DestinationMessage.registration_correlation_id b 0 registration_id
  b ← set_text destination_message_text b 0 (some channel.bytes) channel_len
  send_correlated p add_rcv_destination_id b correlation_id

unfoldable pub remove_rcv_destination : DriverProxy → ℕ → Option CString → Result (ℕ × DriverProxy)
unfolding destination_message_layout destination_message_text safe_strlen
remove_rcv_destination p registration_id endpoint_channel = do
  let channel = or_empty endpoint_channel
  let correlation_id = p.correlation_counter
  let p = next_correlation_id p
  channel_len ← safe_strlen channel
  let msg_len = compute_length destination_message_text channel_len
  validate_scratch_length msg_len
  let l = destination_message_layout
  b ← set l DestinationMessage.client_id (scratch_of p msg_len) 0 p.client_id
  b ← set l DestinationMessage.correlation_id b 0 correlation_id
  b ← set l DestinationMessage.registration_correlation_id b 0 registration_id
  b ← set_text destination_message_text b 0 (some channel.bytes) channel_len
  send_correlated p remove_rcv_destination_id b correlation_id

unfoldable pub remove_counter : DriverProxy → ℕ → Result (ℕ × DriverProxy)
unfolding remove_message_layout
remove_counter p registration_id = do
  let correlation_id = p.correlation_counter
  let p = next_correlation_id p
  let l = remove_message_layout
  b ← set l RemoveMessage.client_id (scratch_of p 24) 0 p.client_id
  b ← set l RemoveMessage.correlation_id b 0 correlation_id
  b ← set l RemoveMessage.registration_id b 0 registration_id
  send_correlated p remove_counter_id b correlation_id

unfoldable pub client_close : DriverProxy → Result DriverProxy
unfolding correlated_message_layout
client_close p = do
  let l = correlated_message_layout
  b ← set l CorrelatedMessage.client_id (scratch_of p 16) 0 p.client_id
  b ← set l CorrelatedMessage.correlation_id b 0 null_value
  send p client_close_id b

unfoldable pub terminate_driver : DriverProxy → Option Memory → ℕ → ℕ → Result (Bool × DriverProxy)
unfolding terminate_driver_layout terminate_driver_text
terminate_driver p token_buffer token_offset token_length = do
  guard (not (is_neg32 token_length)) Error.invalid_argument
  guard (not (is_neg32 token_offset)) Error.invalid_argument
  let token_length = length_of token_buffer token_length
  let msg_len = compute_length terminate_driver_text token_length
  validate_scratch_length msg_len
  let l = terminate_driver_layout
  b ← set l TerminateDriver.client_id (scratch_of p msg_len) 0 p.client_id
  b ← set l TerminateDriver.correlation_id b 0 null_value
  b ←
      set_text terminate_driver_text b 0 (part_of token_buffer token_offset token_length)
        token_length
  try_send p terminate_driver_id b

unfoldable pub reject_image : DriverProxy → ℕ → ℕ → Option CString → Result (ℕ × DriverProxy)
unfolding reject_image_layout reject_image_text safe_strlen
reject_image p image_correlation_id position reason = do
  let reason = or_empty reason
  let correlation_id = p.correlation_counter
  let p = next_correlation_id p
  reason_len ← safe_strlen reason
  let msg_len = compute_length reject_image_text reason_len
  validate_scratch_length msg_len
  let l = reject_image_layout
  b ← set l RejectImage.client_id (scratch_of p msg_len) 0 p.client_id
  b ← set l RejectImage.correlation_id b 0 correlation_id
  b ← set l RejectImage.image_correlation_id b 0 image_correlation_id
  b ← set l RejectImage.position b 0 position
  b ← set_text reject_image_text b 0 (some reason.bytes) reason_len
  send_correlated p reject_image_id b correlation_id

unfoldable pub next_available_session_id : DriverProxy → ℕ → Result (ℕ × DriverProxy)
unfolding get_next_available_session_id_message_layout
next_available_session_id p stream_id = do
  let correlation_id = p.correlation_counter
  let p = next_correlation_id p
  let l = get_next_available_session_id_message_layout
  b ← set l GetNextAvailableSessionIdMessage.client_id (scratch_of p 20) 0 p.client_id
  b ← set l GetNextAvailableSessionIdMessage.correlation_id b 0 correlation_id
  b ← set l GetNextAvailableSessionIdMessage.stream_id b 0 stream_id
  send_correlated p get_next_available_session_id_id b correlation_id

unfoldable pub keepalive : DriverProxy → Result DriverProxy
unfolding correlated_message_layout
keepalive p = do
  let l = correlated_message_layout
  b ← set l CorrelatedMessage.client_id (scratch_of p 16) 0 p.client_id
  b ← set l CorrelatedMessage.correlation_id b 0 null_value
  send p client_keepalive_id b

-- ===== src/Cnc/ClientCommandAdapter.antt =====
-- caeron/cnc/client_command_adapter.h: the driver's side, which reads a command and calls the
-- handler. The handler is a parameter, of which it is known for each call whether it throws a
-- std::exception; the texts of the error reports are left out. `msg_type_id` is an i32.
use caeron.Base.{
  ℕ, Bool, true, false, ◌||◌, ◌==◌, if◌then◌else◌, List, [], ◌∷◌, ◌++◌, Result, ok, ◌>>=◌,
}
use caeron.Word.{add32, sub32, is_neg32, lt32, align}
use caeron.Buffer.{Buffer}
use caeron.Flyweight.{get}
use caeron.Command.Requests.{
  CorrelatedMessage, correlated_message_layout, RemoveMessage, remove_message_layout,
  RemoveSubscription, remove_subscription_layout, DestinationByIdMessage,
  destination_by_id_message_layout, GetNextAvailableSessionIdMessage,
  get_next_available_session_id_message_layout,
}
use caeron.Command.Channels.{
  PublicationMessage, publication_message_layout, SubscriptionMessage, subscription_message_layout,
  DestinationMessage, destination_message_layout,
}
use caeron.Command.Notices.{
  TerminateDriver, terminate_driver_layout, RejectImage, reject_image_layout,
}
use caeron.Command.Revocation.{RemovePublication, remove_publication_layout, revoke_within}
use caeron.Command.CounterRequest
use caeron.Command.CounterRequest.{CounterMessage, counter_message_layout}
use caeron.Command.StaticCounterRequest
use caeron.Command.StaticCounterRequest.{StaticCounterMessage, static_counter_message_layout}
use caeron.Concurrent.Records.{Call}
use caeron.Concurrent.Records.Layout.{bytes_of}
use caeron.Concurrent.RingBuffer.{RingBuffer, read}
use caeron.Cnc.{
  add_publication_id, remove_publication_id, add_exclusive_publication_id, add_subscription_id,
  remove_subscription_id, client_keepalive_id, add_destination_id, remove_destination_id,
  add_counter_id, remove_counter_id, client_close_id, add_rcv_destination_id,
  remove_rcv_destination_id, terminate_driver_id, add_static_counter_id, reject_image_id,
  remove_destination_by_id_id, get_next_available_session_id_id,
}

abbrev pub error_code_generic : ℕ
error_code_generic = 1

abbrev pub error_code_unknown_command : ℕ
error_code_unknown_command = 3

abbrev pub error_code_malformed_command : ℕ
error_code_malformed_command = 4

-- The methods of the handler, with their arguments in the source's order. A string_view, and a
-- pointer with an offset and a length, is the bytes that it shows.
pub data HandlerCall : Type 0 where
  on_add_publication : List ℕ → ℕ → ℕ → ℕ → Bool → HandlerCall
  on_remove_publication : ℕ → ℕ → Bool → HandlerCall
  on_add_subscription : List ℕ → ℕ → ℕ → ℕ → HandlerCall
  on_remove_subscription : ℕ → ℕ → HandlerCall
  on_add_send_destination : ℕ → List ℕ → ℕ → HandlerCall
  on_remove_send_destination : ℕ → List ℕ → ℕ → HandlerCall
  on_remove_send_destination_by_id : ℕ → ℕ → ℕ → HandlerCall
  on_add_rcv_destination : ℕ → List ℕ → ℕ → HandlerCall
  on_remove_rcv_destination : ℕ → List ℕ → ℕ → HandlerCall
  on_client_keepalive : ℕ → HandlerCall
  on_client_close : ℕ → HandlerCall
  on_add_counter : ℕ → List ℕ → List ℕ → ℕ → ℕ → HandlerCall
  on_remove_counter : ℕ → ℕ → HandlerCall
  on_terminate_driver : List ℕ → HandlerCall
  on_add_static_counter : ℕ → List ℕ → List ℕ → ℕ → ℕ → ℕ → HandlerCall
  on_reject_image : ℕ → ℕ → ℕ → List ℕ → HandlerCall
  on_next_available_session_id : ℕ → ℕ → HandlerCall

-- What a command comes to: a call of the handler, with the correlation id that an error would be
-- reported under, or a call of report_error with its correlation id and its code. (report_error
-- passes it on to `on_error_`, if that callback is set.)
pub data Outcome : Type 0 where
  calls : ℕ → HandlerCall → Outcome
  reports : ℕ → ℕ → Outcome

abbrev malformed : ℕ → Result Outcome
malformed correlation_id = ok (Outcome.reports correlation_id error_code_malformed_command)

-- A text of `size` bytes from `offset` on does not lie in the message.
abbrev text_overflows : ℕ → ℕ → ℕ → Bool
text_overflows size length offset =
    is_neg32 size || lt32 length offset || lt32 (sub32 length offset) size

abbrev make_string_view : Buffer → ℕ → ℕ → List ℕ
make_string_view b offset length = bytes_of b.bytes offset length

unfoldable pub add_publication_case : Buffer → Result Outcome
unfolding publication_message_layout bytes_of
add_publication_case b =
    let body : Result Outcome = do
      let l = publication_message_layout
      correlation ← get l PublicationMessage.correlation_id b 0
      client ← get l PublicationMessage.client_id b 0
      stream ← get l PublicationMessage.stream_id b 0
      channel_len ← get l PublicationMessage.channel_length b 0
      (if text_overflows channel_len b.capacity 24
          then malformed correlation
          else ok (
              Outcome.calls correlation (
                HandlerCall.on_add_publication (make_string_view b 24 channel_len) stream
                  correlation client false)))
    in if lt32 b.capacity 24 then malformed 0 else body

unfoldable pub add_exclusive_publication_case : Buffer → Result Outcome
unfolding publication_message_layout bytes_of
add_exclusive_publication_case b =
    let body : Result Outcome = do
      let l = publication_message_layout
      correlation ← get l PublicationMessage.correlation_id b 0
      client ← get l PublicationMessage.client_id b 0
      stream ← get l PublicationMessage.stream_id b 0
      channel_len ← get l PublicationMessage.channel_length b 0
      (if text_overflows channel_len b.capacity 24
          then malformed correlation
          else ok (
              Outcome.calls correlation (
                HandlerCall.on_add_publication (make_string_view b 24 channel_len) stream
                  correlation client true)))
    in if lt32 b.capacity 24 then malformed 0 else body

unfoldable pub remove_publication_case : Buffer → Result Outcome
unfolding remove_publication_layout revoke_within
remove_publication_case b =
    let body : Result Outcome = do
      let l = remove_publication_layout
      correlation ← get l RemovePublication.correlation_id b 0
      registration ← get l RemovePublication.registration_id b 0
      revoked ← revoke_within b 0 b.capacity
      ok (
          Outcome.calls correlation
            (HandlerCall.on_remove_publication registration correlation revoked))
    in if lt32 b.capacity 24 then malformed 0 else body

unfoldable pub add_subscription_case : Buffer → Result Outcome
unfolding subscription_message_layout bytes_of
add_subscription_case b =
    let body : Result Outcome = do
      let l = subscription_message_layout
      correlation ← get l SubscriptionMessage.correlation_id b 0
      client ← get l SubscriptionMessage.client_id b 0
      stream ← get l SubscriptionMessage.stream_id b 0
      channel_len ← get l SubscriptionMessage.channel_length b 0
      (if text_overflows channel_len b.capacity 32
          then malformed correlation
          else ok (
              Outcome.calls correlation (
                HandlerCall.on_add_subscription (make_string_view b 32 channel_len) stream
                  correlation client)))
    in if lt32 b.capacity 32 then malformed 0 else body

unfoldable pub remove_subscription_case : Buffer → Result Outcome
unfolding remove_subscription_layout
remove_subscription_case b =
    let body : Result Outcome = do
      let l = remove_subscription_layout
      correlation ← get l RemoveSubscription.correlation_id b 0
      registration ← get l RemoveSubscription.registration_id b 0
      ok (Outcome.calls correlation (HandlerCall.on_remove_subscription registration correlation))
    in if lt32 b.capacity 24 then malformed 0 else body

unfoldable pub add_destination_case : Buffer → Result Outcome
unfolding destination_message_layout bytes_of
add_destination_case b =
    let body : Result Outcome = do
      let l = destination_message_layout
      correlation ← get l DestinationMessage.correlation_id b 0
      channel_len ← get l DestinationMessage.channel_length b 0
      let found : Result Outcome = do
        registration ← get l DestinationMessage.registration_correlation_id b 0
        ok (
            Outcome.calls correlation (
              HandlerCall.on_add_send_destination registration (make_string_view b 28 channel_len)
                correlation))
      (if text_overflows channel_len b.capacity 28 then malformed correlation else found)
    in if lt32 b.capacity 28 then malformed 0 else body

unfoldable pub remove_destination_case : Buffer → Result Outcome
unfolding destination_message_layout bytes_of
remove_destination_case b =
    let body : Result Outcome = do
      let l = destination_message_layout
      correlation ← get l DestinationMessage.correlation_id b 0
      channel_len ← get l DestinationMessage.channel_length b 0
      let found : Result Outcome = do
        registration ← get l DestinationMessage.registration_correlation_id b 0
        ok (
            Outcome.calls correlation (
              HandlerCall.on_remove_send_destination registration
                (make_string_view b 28 channel_len) correlation))
      (if text_overflows channel_len b.capacity 28 then malformed correlation else found)
    in if lt32 b.capacity 28 then malformed 0 else body

unfoldable pub add_rcv_destination_case : Buffer → Result Outcome
unfolding destination_message_layout bytes_of
add_rcv_destination_case b =
    let body : Result Outcome = do
      let l = destination_message_layout
      correlation ← get l DestinationMessage.correlation_id b 0
      channel_len ← get l DestinationMessage.channel_length b 0
      let found : Result Outcome = do
        registration ← get l DestinationMessage.registration_correlation_id b 0
        ok (
            Outcome.calls correlation (
              HandlerCall.on_add_rcv_destination registration (make_string_view b 28 channel_len)
                correlation))
      (if text_overflows channel_len b.capacity 28 then malformed correlation else found)
    in if lt32 b.capacity 28 then malformed 0 else body

unfoldable pub remove_rcv_destination_case : Buffer → Result Outcome
unfolding destination_message_layout bytes_of
remove_rcv_destination_case b =
    let body : Result Outcome = do
      let l = destination_message_layout
      correlation ← get l DestinationMessage.correlation_id b 0
      channel_len ← get l DestinationMessage.channel_length b 0
      let found : Result Outcome = do
        registration ← get l DestinationMessage.registration_correlation_id b 0
        ok (
            Outcome.calls correlation (
              HandlerCall.on_remove_rcv_destination registration (make_string_view b 28 channel_len)
                correlation))
      (if text_overflows channel_len b.capacity 28 then malformed correlation else found)
    in if lt32 b.capacity 28 then malformed 0 else body

unfoldable pub client_keepalive_case : Buffer → Result Outcome
unfolding correlated_message_layout
client_keepalive_case b =
    let body : Result Outcome = do
      client ← get correlated_message_layout CorrelatedMessage.client_id b 0
      ok (Outcome.calls 0 (HandlerCall.on_client_keepalive client))
    in if lt32 b.capacity 16 then malformed 0 else body

unfoldable pub client_close_case : Buffer → Result Outcome
unfolding correlated_message_layout
client_close_case b =
    let body : Result Outcome = do
      client ← get correlated_message_layout CorrelatedMessage.client_id b 0
      ok (Outcome.calls 0 (HandlerCall.on_client_close client))
    in if lt32 b.capacity 16 then malformed 0 else body

unfoldable pub add_counter_case : Buffer → Result Outcome
unfolding counter_message_layout CounterRequest.get_key_buffer_length CounterRequest.label_length
    CounterRequest.label_buffer_offset bytes_of
add_counter_case b =
    let body : Result Outcome = do
      let l = counter_message_layout
      correlation ← get l CounterMessage.correlation_id b 0
      client ← get l CounterMessage.client_id b 0
      key_len ← CounterRequest.get_key_buffer_length b 0
      let behind_key : Result Outcome = do
        label_len ← CounterRequest.label_length b 0
        label_offset ← CounterRequest.label_buffer_offset b 0
        let found : Result Outcome = do
          type ← get l CounterMessage.counter_type b 0
          ok (
              Outcome.calls correlation (
                HandlerCall.on_add_counter type (bytes_of b.bytes 24 key_len)
                  (bytes_of b.bytes label_offset label_len) correlation client))
        (if text_overflows label_len b.capacity label_offset then malformed correlation else found)
      (if is_neg32 key_len || lt32 (sub32 (sub32 b.capacity 24) 4) key_len
          then malformed correlation
          else behind_key)
    in if lt32 b.capacity 24 then malformed 0 else body

unfoldable pub remove_counter_case : Buffer → Result Outcome
unfolding remove_message_layout
remove_counter_case b =
    let body : Result Outcome = do
      let l = remove_message_layout
      correlation ← get l RemoveMessage.correlation_id b 0
      registration ← get l RemoveMessage.registration_id b 0
      ok (Outcome.calls correlation (HandlerCall.on_remove_counter registration correlation))
    in if lt32 b.capacity 24 then malformed 0 else body

unfoldable pub terminate_driver_case : Buffer → Result Outcome
unfolding terminate_driver_layout bytes_of
terminate_driver_case b =
    let body : Result Outcome = do
      token_len ← get terminate_driver_layout TerminateDriver.token_buffer_length b 0
      (if is_neg32 token_len || lt32 (sub32 b.capacity 20) token_len
          then malformed 0
          else ok
              (Outcome.calls 0 (HandlerCall.on_terminate_driver (bytes_of b.bytes 20 token_len))))
    in if lt32 b.capacity 20 then malformed 0 else body

-- (A key that fits in the message can be aligned.)
unfoldable pub add_static_counter_case : Buffer → Result Outcome
unfolding static_counter_message_layout StaticCounterRequest.get_key_length
    StaticCounterRequest.label_length StaticCounterRequest.label_buffer_offset bytes_of
add_static_counter_case b =
    let body : Result Outcome = do
      let l = static_counter_message_layout
      correlation ← get l StaticCounterMessage.correlation_id b 0
      client ← get l StaticCounterMessage.client_id b 0
      key_len ← StaticCounterRequest.get_key_length b 0
      let available = sub32 b.capacity 32
      let behind_key : Result Outcome = do
        label_buf_off ← StaticCounterRequest.label_buffer_offset b 0
        label_len ← StaticCounterRequest.label_length b 0
        let found : Result Outcome = do
          type ← get l StaticCounterMessage.counter_type_id b 0
          registration ← get l StaticCounterMessage.registration_id b 0
          ok (
              Outcome.calls correlation (
                HandlerCall.on_add_static_counter type (bytes_of b.bytes 32 key_len)
                  (bytes_of b.bytes label_buf_off label_len) registration correlation client))
        (if is_neg32 label_buf_off || text_overflows label_len b.capacity label_buf_off
            then malformed correlation
            else found)
      let with_padding : Result Outcome = do
        aligned ← align key_len 4
        (if lt32 available (add32 aligned 4) then malformed correlation else behind_key)
      (if is_neg32 key_len || lt32 available key_len then malformed correlation else with_padding)
    in if lt32 b.capacity 36 then malformed 0 else body

unfoldable pub reject_image_case : Buffer → Result Outcome
unfolding reject_image_layout bytes_of
reject_image_case b =
    let body : Result Outcome = do
      let l = reject_image_layout
      correlation ← get l RejectImage.correlation_id b 0
      reason_len ← get l RejectImage.reason_length b 0
      let found : Result Outcome = do
        image ← get l RejectImage.image_correlation_id b 0
        place ← get l RejectImage.position b 0
        ok (
            Outcome.calls correlation (
              HandlerCall.on_reject_image correlation image place
                (make_string_view b 36 reason_len)))
      (if is_neg32 reason_len || lt32 (sub32 b.capacity 36) reason_len
          then malformed correlation
          else found)
    in if lt32 b.capacity 36 then malformed 0 else body

unfoldable pub remove_destination_by_id_case : Buffer → Result Outcome
unfolding destination_by_id_message_layout
remove_destination_by_id_case b =
    let body : Result Outcome = do
      let l = destination_by_id_message_layout
      correlation ← get l DestinationByIdMessage.correlation_id b 0
      resource ← get l DestinationByIdMessage.resource_registration_id b 0
      destination ← get l DestinationByIdMessage.destination_registration_id b 0
      ok (
          Outcome.calls correlation
            (HandlerCall.on_remove_send_destination_by_id resource destination correlation))
    in if lt32 b.capacity 32 then malformed 0 else body

unfoldable pub get_next_available_session_id_case : Buffer → Result Outcome
unfolding get_next_available_session_id_message_layout
get_next_available_session_id_case b =
    let body : Result Outcome = do
      let l = get_next_available_session_id_message_layout
      correlation ← get l GetNextAvailableSessionIdMessage.correlation_id b 0
      stream ← get l GetNextAvailableSessionIdMessage.stream_id b 0
      ok (Outcome.calls correlation (HandlerCall.on_next_available_session_id correlation stream))
    in if lt32 b.capacity 20 then malformed 0 else body

-- The switch of dispatch. (No correlation id is known for an unknown type.)
unfoldable pub decode : ℕ → Buffer → Result Outcome
unfolding add_publication_case add_exclusive_publication_case remove_publication_case
    add_subscription_case remove_subscription_case add_destination_case remove_destination_case
    add_rcv_destination_case remove_rcv_destination_case client_keepalive_case client_close_case
    add_counter_case remove_counter_case terminate_driver_case add_static_counter_case
    reject_image_case remove_destination_by_id_case get_next_available_session_id_case
decode msg_type_id b =
    if msg_type_id == add_publication_id
    then add_publication_case b
    else if msg_type_id == add_exclusive_publication_id
    then add_exclusive_publication_case b
    else if msg_type_id == remove_publication_id
    then remove_publication_case b
    else if msg_type_id == add_subscription_id
    then add_subscription_case b
    else if msg_type_id == remove_subscription_id
    then remove_subscription_case b
    else if msg_type_id == add_destination_id
    then add_destination_case b
    else if msg_type_id == remove_destination_id
    then remove_destination_case b
    else if msg_type_id == add_rcv_destination_id
    then add_rcv_destination_case b
    else if msg_type_id == remove_rcv_destination_id
    then remove_rcv_destination_case b
    else if msg_type_id == client_keepalive_id
    then client_keepalive_case b
    else if msg_type_id == client_close_id
    then client_close_case b
    else if msg_type_id == add_counter_id
    then add_counter_case b
    else if msg_type_id == remove_counter_id
    then remove_counter_case b
    else if msg_type_id == terminate_driver_id
    then terminate_driver_case b
    else if msg_type_id == add_static_counter_id
    then add_static_counter_case b
    else if msg_type_id == reject_image_id
    then reject_image_case b
    else if msg_type_id == remove_destination_by_id_id
    then remove_destination_by_id_case b
    else if msg_type_id == get_next_available_session_id_id
    then get_next_available_session_id_case b
    else ok (Outcome.reports 0 error_code_unknown_command)

-- A call that throws is reported too. The source catches `const std::exception&`, so the model is
-- of handlers that throw nothing else: `throws` says at which calls one throws a std::exception.
abbrev pub responses : (HandlerCall → Bool) → Outcome → List Outcome
responses throws (Outcome.calls correlation_id call) =
    if throws call
    then Outcome.calls correlation_id call ∷ Outcome.reports correlation_id error_code_generic ∷ []
    else Outcome.calls correlation_id call ∷ []
responses throws (Outcome.reports correlation_id error_code) =
    Outcome.reports correlation_id error_code ∷ []

-- The calls and reports of one command.
unfoldable pub dispatch : (HandlerCall → Bool) → ℕ → Buffer → Result (List Outcome)
unfolding decode
dispatch throws msg_type_id b = do outcome ← decode msg_type_id b; ok (responses throws outcome)

unfoldable pub dispatch_all : (HandlerCall → Bool) → List Call → Result (List Outcome)
unfolding dispatch
dispatch_all throws [] = ok []
dispatch_all throws (c ∷ cs) = do
  first ← dispatch throws c.msg_type_id c.message
  rest ← dispatch_all throws cs
  ok (first ++ rest)

-- The commands that were read, and the ring buffer.
unfoldable pub receive : (HandlerCall → Bool) → RingBuffer → Result (List Outcome × RingBuffer)
unfolding dispatch_all
receive throws ring_buffer = do
  (messages, ring_buffer') ← read ring_buffer
  outcomes ← dispatch_all throws messages
  ok (outcomes, ring_buffer')

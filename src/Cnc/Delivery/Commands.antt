-- ===== src/Cnc/Delivery/Commands.antt =====
-- Every command, through the proxy, the ring buffer and the adapter.
use caeron.Base.{
  ℕ, ◌^◌, ◌≤◌, ◌<◌, ◌≡◌, refl, Bool, true, false, Option, none, some, Result, ok, ◌>>=◌,
}
use caeron.Concurrent.RingBuffer.{RingBuffer}
use caeron.Cnc.Requests.{Request, size_of}
use caeron.Cnc.DriverProxy.{
  DriverProxy, keepalive, client_close, remove_subscription, remove_counter,
  next_available_session_id, remove_destination_by_id, add_publication, add_exclusive_publication,
  add_subscription, add_destination, remove_destination, add_rcv_destination,
  remove_rcv_destination, reject_image,
}
use caeron.Cnc.ClientCommandAdapter.{HandlerCall, Outcome, responses, receive}
use caeron.Cnc.Delivery.{IsReady}
use caeron.Cnc.Delivery.Fixed.{
  keepalive_lem, client_close_lem, remove_subscription_lem, remove_counter_lem,
  next_available_session_id_lem, remove_destination_by_id_lem,
}
use caeron.Cnc.Delivery.Texts.{text_of}
use caeron.Cnc.Delivery.Channels.{
  add_publication_lem, add_exclusive_publication_lem, add_subscription_lem,
}
use caeron.Cnc.Delivery.Destinations.{
  add_destination_lem, remove_destination_lem, add_rcv_destination_lem, remove_rcv_destination_lem,
  reject_image_lem,
}

without_id : Result DriverProxy → Result (Option ℕ × DriverProxy)
without_id sent = do p ← sent; ok (none, p)

with_id : Result (ℕ × DriverProxy) → Result (Option ℕ × DriverProxy)
with_id sent = do (correlation_id, p) ← sent; ok (some correlation_id, p)

-- The call of the proxy, with the correlation id if it returns one.
unfoldable pub perform : Request → DriverProxy → Result (Option ℕ × DriverProxy)
unfolding without_id with_id
perform Request.keepalive p = without_id (keepalive p)
perform Request.client_close p = without_id (client_close p)
perform (Request.remove_subscription registration) p = with_id (remove_subscription p registration)
perform (Request.remove_counter registration) p = with_id (remove_counter p registration)
perform (Request.next_available_session_id stream) p = with_id (next_available_session_id p stream)
perform (Request.remove_destination_by_id resource destination) p =
    with_id (remove_destination_by_id p resource destination)
perform (Request.add_publication channel stream) p =
    with_id (add_publication p (some channel) stream)
perform (Request.add_exclusive_publication channel stream) p =
    with_id (add_exclusive_publication p (some channel) stream)
perform (Request.add_subscription channel stream) p =
    with_id (add_subscription p (some channel) stream)
perform (Request.add_destination registration channel) p =
    with_id (add_destination p registration (some channel))
perform (Request.remove_destination registration channel) p =
    with_id (remove_destination p registration (some channel))
perform (Request.add_rcv_destination registration channel) p =
    with_id (add_rcv_destination p registration (some channel))
perform (Request.remove_rcv_destination registration channel) p =
    with_id (remove_rcv_destination p registration (some channel))
perform (Request.reject_image image place reason) p =
    with_id (reject_image p image place (some reason))

-- Each number is one of its type.
abbrev pub InRange : Request → Type 0
InRange Request.keepalive = Unit {0}
InRange Request.client_close = Unit {0}
InRange (Request.remove_subscription registration) = registration < 2 ^ 64
InRange (Request.remove_counter registration) = registration < 2 ^ 64
InRange (Request.next_available_session_id stream) = stream < 2 ^ 32
InRange (Request.remove_destination_by_id resource destination) =
    (resource < 2 ^ 64) × (destination < 2 ^ 64)
InRange (Request.add_publication channel stream) = stream < 2 ^ 32
InRange (Request.add_exclusive_publication channel stream) = stream < 2 ^ 32
InRange (Request.add_subscription channel stream) = stream < 2 ^ 32
InRange (Request.add_destination registration channel) = registration < 2 ^ 64
InRange (Request.remove_destination registration channel) = registration < 2 ^ 64
InRange (Request.add_rcv_destination registration channel) = registration < 2 ^ 64
InRange (Request.remove_rcv_destination registration channel) = registration < 2 ^ 64
InRange (Request.reject_image image place reason) = (image < 2 ^ 64) × (place < 2 ^ 64)

-- The correlation id that is returned, and the one that an error would be reported under.
abbrev pub id_of : Request → DriverProxy → Option ℕ
id_of Request.keepalive p = none
id_of Request.client_close p = none
id_of request p = some p.correlation_counter

abbrev pub reported_id : Option ℕ → ℕ
reported_id none = 0
reported_id (some correlation_id) = correlation_id

-- The call of the handler that a command of client `client` with correlation id `id` is to make.
unfoldable pub expected : Request → ℕ → ℕ → HandlerCall
expected Request.keepalive client id = HandlerCall.on_client_keepalive client
expected Request.client_close client id = HandlerCall.on_client_close client
expected (Request.remove_subscription registration) client id =
    HandlerCall.on_remove_subscription registration id
expected (Request.remove_counter registration) client id =
    HandlerCall.on_remove_counter registration id
expected (Request.next_available_session_id stream) client id =
    HandlerCall.on_next_available_session_id id stream
expected (Request.remove_destination_by_id resource destination) client id =
    HandlerCall.on_remove_send_destination_by_id resource destination id
expected (Request.add_publication channel stream) client id =
    HandlerCall.on_add_publication (text_of channel) stream id client false
expected (Request.add_exclusive_publication channel stream) client id =
    HandlerCall.on_add_publication (text_of channel) stream id client true
expected (Request.add_subscription channel stream) client id =
    HandlerCall.on_add_subscription (text_of channel) stream id client
expected (Request.add_destination registration channel) client id =
    HandlerCall.on_add_send_destination registration (text_of channel) id
expected (Request.remove_destination registration channel) client id =
    HandlerCall.on_remove_send_destination registration (text_of channel) id
expected (Request.add_rcv_destination registration channel) client id =
    HandlerCall.on_add_rcv_destination registration (text_of channel) id
expected (Request.remove_rcv_destination registration channel) client id =
    HandlerCall.on_remove_rcv_destination registration (text_of channel) id
expected (Request.reject_image image place reason) client id =
    HandlerCall.on_reject_image id image place (text_of reason)

-- For every command of at most 2048 bytes whose numbers are in range, and a proxy whose ring
-- buffer is empty and has room for it: the call of the proxy succeeds and returns the correlation
-- id that the counter stood at (a keepalive and a close return none). The driver's next receive
-- then succeeds, and calls the handler once, with the method of that command and the arguments
-- that the client gave, its own id and the correlation id; if the handler throws a std::exception,
-- report_error is called with it.
pub receive-perform :
    (throws : HandlerCall → Bool) (request : Request) (p : DriverProxy)
    → IsReady p (size_of request)
    → size_of request ≤ 2048
    → InRange request
    → (p' : DriverProxy) × (r : RingBuffer) × (perform request p ≡ ok (id_of request p, p'))
      × (receive throws p'.ring_buffer
          ≡ ok (
            responses throws (
                Outcome.calls
                  (reported_id (id_of request p))
                  (expected request p.client_id p.correlation_counter)),
            r,
          ))
unfolding size_of perform expected
receive-perform throws Request.keepalive p ready short range =
    let (p', r, sent, received) = keepalive_lem throws p ready in (p', r, rw sent refl, received)
receive-perform throws Request.client_close p ready short range =
    let (p', r, sent, received) = client_close_lem throws p ready in (p', r, rw sent refl, received)
receive-perform throws (Request.remove_subscription registration) p ready short range =
    let (p', r, sent, received) = remove_subscription_lem throws p registration ready range in
    (p', r, rw sent refl, received)
receive-perform throws (Request.remove_counter registration) p ready short range =
    let (p', r, sent, received) = remove_counter_lem throws p registration ready range in
    (p', r, rw sent refl, received)
receive-perform throws (Request.next_available_session_id stream) p ready short range =
    let (p', r, sent, received) = next_available_session_id_lem throws p stream ready range in
    (p', r, rw sent refl, received)
receive-perform throws (Request.remove_destination_by_id resource destination) p ready short
      (range, second) =
    let (p', r, sent, received) =
      remove_destination_by_id_lem throws p resource destination ready range second in
    (p', r, rw sent refl, received)
receive-perform throws (Request.add_publication channel stream) p ready short range =
    let (p', r, sent, received) = add_publication_lem throws p stream channel ready short range in
    (p', r, rw sent refl, received)
receive-perform throws (Request.add_exclusive_publication channel stream) p ready short range =
    let (p', r, sent, received) =
      add_exclusive_publication_lem throws p stream channel ready short range in
    (p', r, rw sent refl, received)
receive-perform throws (Request.add_subscription channel stream) p ready short range =
    let (p', r, sent, received) = add_subscription_lem throws p stream channel ready short range in
    (p', r, rw sent refl, received)
receive-perform throws (Request.add_destination registration channel) p ready short range =
    let (p', r, sent, received) =
      add_destination_lem throws p registration channel ready short range in
    (p', r, rw sent refl, received)
receive-perform throws (Request.remove_destination registration channel) p ready short range =
    let (p', r, sent, received) =
      remove_destination_lem throws p registration channel ready short range in
    (p', r, rw sent refl, received)
receive-perform throws (Request.add_rcv_destination registration channel) p ready short range =
    let (p', r, sent, received) =
      add_rcv_destination_lem throws p registration channel ready short range in
    (p', r, rw sent refl, received)
receive-perform throws (Request.remove_rcv_destination registration channel) p ready short range =
    let (p', r, sent, received) =
      remove_rcv_destination_lem throws p registration channel ready short range in
    (p', r, rw sent refl, received)
receive-perform throws (Request.reject_image image place reason) p ready short (range, second) =
    let (p', r, sent, received) =
      reject_image_lem throws p image place reason ready short range second in
    (p', r, rw sent refl, received)

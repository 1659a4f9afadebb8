-- ===== src/Cnc/Delivery/Fixed.antt =====
-- Commands of a fixed length: what the proxy sends is what the handler is called with.
use caeron.Base.{ℕ, ◌^◌, ◌<◌, ◌≡◌, refl, Bool, ok, arith, ◌∙◌}
use caeron.Buffer.{Buffer}
use caeron.Buffer.Laws.{Fits}
use caeron.Flyweight.{Layout}
use caeron.Flyweight.Fields.{
  set_lem, assigned, assigned-Fits, get-assigned_self, get-assigned_other,
}
use caeron.Command.Requests.{
  CorrelatedMessage, correlated_message_layout, correlated_message_slot, RemoveMessage,
  remove_message_layout, remove_message_slot, RemoveSubscription, remove_subscription_layout,
  remove_subscription_slot, DestinationByIdMessage, destination_by_id_message_layout,
  destination_by_id_message_slot, GetNextAvailableSessionIdMessage,
  get_next_available_session_id_message_layout, get_next_available_session_id_message_slot,
}
use caeron.Concurrent.RingBuffer.{RingBuffer}
use caeron.Cnc.DriverProxy.{
  DriverProxy, scratch_of, null_value, next_correlation_id, keepalive, client_close,
  remove_subscription, remove_counter, remove_destination_by_id, next_available_session_id,
}
use caeron.Cnc.ClientCommandAdapter.{HandlerCall, Outcome, responses, decode, receive}
use caeron.Cnc.Delivery.{Same, get-Same, long_enough, IsReady, sent_received}

pub keepalive_lem :
    (throws : HandlerCall → Bool) (p : DriverProxy)
    → IsReady p 16
    → (p' : DriverProxy) × (r : RingBuffer) × (keepalive p ≡ ok p')
      × (receive throws p'.ring_buffer
          ≡ ok
              (responses throws (Outcome.calls 0 (HandlerCall.on_client_keepalive p.client_id)), r))
unfolding keepalive decode correlated_message_slot
keepalive_lem throws p ready =
    let l : Layout = correlated_message_layout in
    let q : DriverProxy = p in
    let b0 : Buffer = scratch_of q 16 in
    let f0 : Fits b0 0 16 = record { small = omega arith; within = omega arith } in
    let b1 : Buffer = assigned l CorrelatedMessage.client_id b0 0 p.client_id in
    let f1 = assigned-Fits l CorrelatedMessage.client_id b0 0 p.client_id f0 in
    let b2 : Buffer = assigned l CorrelatedMessage.correlation_id b1 0 null_value in
    let f2 = assigned-Fits l CorrelatedMessage.correlation_id b1 0 null_value f1 in
    let decodes : (m : Buffer)
        → Same m b2
        → decode 6 m ≡ ok (Outcome.calls 0 (HandlerCall.on_client_keepalive p.client_id)) =
      λ m s.
        rw
          (
            long_enough m b2 16 s (omega arith),
            get-Same l CorrelatedMessage.client_id m b2 s (omega arith)
                ∙ (get-assigned_other l CorrelatedMessage.correlation_id b1 0 null_value f1
                      CorrelatedMessage.client_id (λ e. cc)
                    ∙ get-assigned_self l CorrelatedMessage.client_id b0 0 p.client_id f0
                        (omega (arith, ready.client, ready.counter))),
          )
          refl in
    let (p', r, sent, received) =
      sent_received throws q 6 b2 _ ready.empty (omega arith) (omega arith) ready.range ready.room
        decodes in
    (
      p',
      r,
      rw
          (
            set_lem l b0 0 f0 CorrelatedMessage.client_id p.client_id,
            set_lem l b1 0 f1 CorrelatedMessage.correlation_id null_value,
            sent,
          )
          refl,
      received,
    )

pub client_close_lem :
    (throws : HandlerCall → Bool) (p : DriverProxy)
    → IsReady p 16
    → (p' : DriverProxy) × (r : RingBuffer) × (client_close p ≡ ok p')
      × (receive throws p'.ring_buffer
          ≡ ok (responses throws (Outcome.calls 0 (HandlerCall.on_client_close p.client_id)), r))
unfolding client_close decode correlated_message_slot
client_close_lem throws p ready =
    let l : Layout = correlated_message_layout in
    let q : DriverProxy = p in
    let b0 : Buffer = scratch_of q 16 in
    let f0 : Fits b0 0 16 = record { small = omega arith; within = omega arith } in
    let b1 : Buffer = assigned l CorrelatedMessage.client_id b0 0 p.client_id in
    let f1 = assigned-Fits l CorrelatedMessage.client_id b0 0 p.client_id f0 in
    let b2 : Buffer = assigned l CorrelatedMessage.correlation_id b1 0 null_value in
    let f2 = assigned-Fits l CorrelatedMessage.correlation_id b1 0 null_value f1 in
    let decodes : (m : Buffer)
        → Same m b2
        → decode 11 m ≡ ok (Outcome.calls 0 (HandlerCall.on_client_close p.client_id)) =
      λ m s.
        rw
          (
            long_enough m b2 16 s (omega arith),
            get-Same l CorrelatedMessage.client_id m b2 s (omega arith)
                ∙ (get-assigned_other l CorrelatedMessage.correlation_id b1 0 null_value f1
                      CorrelatedMessage.client_id (λ e. cc)
                    ∙ get-assigned_self l CorrelatedMessage.client_id b0 0 p.client_id f0
                        (omega (arith, ready.client, ready.counter))),
          )
          refl in
    let (p', r, sent, received) =
      sent_received throws q 11 b2 _ ready.empty (omega arith) (omega arith) ready.range ready.room
        decodes in
    (
      p',
      r,
      rw
          (
            set_lem l b0 0 f0 CorrelatedMessage.client_id p.client_id,
            set_lem l b1 0 f1 CorrelatedMessage.correlation_id null_value,
            sent,
          )
          refl,
      received,
    )

pub remove_subscription_lem :
    (throws : HandlerCall → Bool) (p : DriverProxy) (registration : ℕ)
    → IsReady p 24
    → registration < 2 ^ 64
    → (p' : DriverProxy) × (r : RingBuffer) × (remove_subscription p registration
        ≡ ok (p.correlation_counter, p'))
      × (receive throws p'.ring_buffer
          ≡ ok (
            responses throws (
                Outcome.calls p.correlation_counter
                  (HandlerCall.on_remove_subscription registration p.correlation_counter)),
            r,
          ))
unfolding remove_subscription decode remove_subscription_slot
remove_subscription_lem throws p registration ready h0 =
    let l : Layout = remove_subscription_layout in
    let q : DriverProxy = next_correlation_id p in
    let b0 : Buffer = scratch_of q 24 in
    let f0 : Fits b0 0 24 = record { small = omega arith; within = omega arith } in
    let b1 : Buffer = assigned l RemoveSubscription.client_id b0 0 p.client_id in
    let f1 = assigned-Fits l RemoveSubscription.client_id b0 0 p.client_id f0 in
    let b2 : Buffer = assigned l RemoveSubscription.correlation_id b1 0 p.correlation_counter in
    let f2 = assigned-Fits l RemoveSubscription.correlation_id b1 0 p.correlation_counter f1 in
    let b3 : Buffer = assigned l RemoveSubscription.registration_id b2 0 registration in
    let f3 = assigned-Fits l RemoveSubscription.registration_id b2 0 registration f2 in
    let decodes : (m : Buffer)
        → Same m b3
        → decode 5 m
          ≡ ok (
              Outcome.calls p.correlation_counter
                (HandlerCall.on_remove_subscription registration p.correlation_counter)) =
      λ m s.
        rw
          (
            long_enough m b3 24 s (omega arith),
            get-Same l RemoveSubscription.correlation_id m b3 s (omega arith)
                ∙ (get-assigned_other l RemoveSubscription.registration_id b2 0 registration f2
                      RemoveSubscription.correlation_id (λ e. cc)
                    ∙ get-assigned_self l RemoveSubscription.correlation_id b1 0
                        p.correlation_counter f1 (omega (arith, ready.client, ready.counter))),
            get-Same l RemoveSubscription.registration_id m b3 s (omega arith)
                ∙ (get-assigned_self l RemoveSubscription.registration_id b2 0 registration f2
                    (omega (arith, ready.client, ready.counter))),
          )
          refl in
    let (p', r, sent, received) =
      sent_received throws q 5 b3 _ ready.empty (omega arith) (omega arith) ready.range ready.room
        decodes in
    (
      p',
      r,
      rw
          (
            set_lem l b0 0 f0 RemoveSubscription.client_id p.client_id,
            set_lem l b1 0 f1 RemoveSubscription.correlation_id p.correlation_counter,
            set_lem l b2 0 f2 RemoveSubscription.registration_id registration,
            sent,
          )
          refl,
      received,
    )

pub remove_counter_lem :
    (throws : HandlerCall → Bool) (p : DriverProxy) (registration : ℕ)
    → IsReady p 24
    → registration < 2 ^ 64
    → (p' : DriverProxy) × (r : RingBuffer) × (remove_counter p registration
        ≡ ok (p.correlation_counter, p'))
      × (receive throws p'.ring_buffer
          ≡ ok (
            responses throws (
                Outcome.calls p.correlation_counter
                  (HandlerCall.on_remove_counter registration p.correlation_counter)),
            r,
          ))
unfolding remove_counter decode remove_message_slot
remove_counter_lem throws p registration ready h0 =
    let l : Layout = remove_message_layout in
    let q : DriverProxy = next_correlation_id p in
    let b0 : Buffer = scratch_of q 24 in
    let f0 : Fits b0 0 24 = record { small = omega arith; within = omega arith } in
    let b1 : Buffer = assigned l RemoveMessage.client_id b0 0 p.client_id in
    let f1 = assigned-Fits l RemoveMessage.client_id b0 0 p.client_id f0 in
    let b2 : Buffer = assigned l RemoveMessage.correlation_id b1 0 p.correlation_counter in
    let f2 = assigned-Fits l RemoveMessage.correlation_id b1 0 p.correlation_counter f1 in
    let b3 : Buffer = assigned l RemoveMessage.registration_id b2 0 registration in
    let f3 = assigned-Fits l RemoveMessage.registration_id b2 0 registration f2 in
    let decodes : (m : Buffer)
        → Same m b3
        → decode 10 m
          ≡ ok (
              Outcome.calls p.correlation_counter
                (HandlerCall.on_remove_counter registration p.correlation_counter)) =
      λ m s.
        rw
          (
            long_enough m b3 24 s (omega arith),
            get-Same l RemoveMessage.correlation_id m b3 s (omega arith)
                ∙ (get-assigned_other l RemoveMessage.registration_id b2 0 registration f2
                      RemoveMessage.correlation_id (λ e. cc)
                    ∙ get-assigned_self l RemoveMessage.correlation_id b1 0 p.correlation_counter f1
                        (omega (arith, ready.client, ready.counter))),
            get-Same l RemoveMessage.registration_id m b3 s (omega arith)
                ∙ (get-assigned_self l RemoveMessage.registration_id b2 0 registration f2
                    (omega (arith, ready.client, ready.counter))),
          )
          refl in
    let (p', r, sent, received) =
      sent_received throws q 10 b3 _ ready.empty (omega arith) (omega arith) ready.range ready.room
        decodes in
    (
      p',
      r,
      rw
          (
            set_lem l b0 0 f0 RemoveMessage.client_id p.client_id,
            set_lem l b1 0 f1 RemoveMessage.correlation_id p.correlation_counter,
            set_lem l b2 0 f2 RemoveMessage.registration_id registration,
            sent,
          )
          refl,
      received,
    )

pub remove_destination_by_id_lem :
    (throws : HandlerCall → Bool) (p : DriverProxy) (resource : ℕ) (destination : ℕ)
    → IsReady p 32
    → resource < 2 ^ 64
    → destination < 2 ^ 64
    → (p' : DriverProxy) × (r : RingBuffer) × (remove_destination_by_id p resource destination
        ≡ ok (p.correlation_counter, p'))
      × (receive throws p'.ring_buffer
          ≡ ok (
            responses throws (
                Outcome.calls p.correlation_counter (
                  HandlerCall.on_remove_send_destination_by_id resource destination
                    p.correlation_counter)),
            r,
          ))
unfolding remove_destination_by_id decode destination_by_id_message_slot
remove_destination_by_id_lem throws p resource destination ready h0 h1 =
    let l : Layout = destination_by_id_message_layout in
    let q : DriverProxy = next_correlation_id p in
    let b0 : Buffer = scratch_of q 32 in
    let f0 : Fits b0 0 32 = record { small = omega arith; within = omega arith } in
    let b1 : Buffer = assigned l DestinationByIdMessage.client_id b0 0 p.client_id in
    let f1 = assigned-Fits l DestinationByIdMessage.client_id b0 0 p.client_id f0 in
    let b2 : Buffer = assigned l DestinationByIdMessage.correlation_id b1 0 p.correlation_counter in
    let f2 = assigned-Fits l DestinationByIdMessage.correlation_id b1 0 p.correlation_counter f1 in
    let b3 : Buffer = assigned l DestinationByIdMessage.resource_registration_id b2 0 resource in
    let f3 = assigned-Fits l DestinationByIdMessage.resource_registration_id b2 0 resource f2 in
    let b4 : Buffer =
      assigned l DestinationByIdMessage.destination_registration_id b3 0 destination in
    let f4 =
      assigned-Fits l DestinationByIdMessage.destination_registration_id b3 0 destination f3 in
    let decodes : (m : Buffer)
        → Same m b4
        → decode 17 m
          ≡ ok (
              Outcome.calls p.correlation_counter (
                HandlerCall.on_remove_send_destination_by_id resource destination
                  p.correlation_counter)) =
      λ m s.
        rw
          (
            long_enough m b4 32 s (omega arith),
            get-Same l DestinationByIdMessage.correlation_id m b4 s (omega arith)
                ∙ (get-assigned_other l DestinationByIdMessage.destination_registration_id b3 0
                      destination f3 DestinationByIdMessage.correlation_id (λ e. cc)
                    ∙ get-assigned_other l DestinationByIdMessage.resource_registration_id b2 0
                        resource f2 DestinationByIdMessage.correlation_id (λ e. cc)
                    ∙ get-assigned_self l DestinationByIdMessage.correlation_id b1 0
                        p.correlation_counter f1 (omega (arith, ready.client, ready.counter))),
            get-Same l DestinationByIdMessage.resource_registration_id m b4 s (omega arith)
                ∙ (get-assigned_other l DestinationByIdMessage.destination_registration_id b3 0
                      destination f3 DestinationByIdMessage.resource_registration_id (λ e. cc)
                    ∙ get-assigned_self l DestinationByIdMessage.resource_registration_id b2 0
                        resource f2 (omega (arith, ready.client, ready.counter))),
            get-Same l DestinationByIdMessage.destination_registration_id m b4 s (omega arith)
                ∙ (get-assigned_self l DestinationByIdMessage.destination_registration_id b3 0
                    destination f3 (omega (arith, ready.client, ready.counter))),
          )
          refl in
    let (p', r, sent, received) =
      sent_received throws q 17 b4 _ ready.empty (omega arith) (omega arith) ready.range ready.room
        decodes in
    (
      p',
      r,
      rw
          (
            set_lem l b0 0 f0 DestinationByIdMessage.client_id p.client_id,
            set_lem l b1 0 f1 DestinationByIdMessage.correlation_id p.correlation_counter,
            set_lem l b2 0 f2 DestinationByIdMessage.resource_registration_id resource,
            set_lem l b3 0 f3 DestinationByIdMessage.destination_registration_id destination,
            sent,
          )
          refl,
      received,
    )

pub next_available_session_id_lem :
    (throws : HandlerCall → Bool) (p : DriverProxy) (stream : ℕ)
    → IsReady p 20
    → stream < 2 ^ 32
    → (p' : DriverProxy) × (r : RingBuffer) × (next_available_session_id p stream
        ≡ ok (p.correlation_counter, p'))
      × (receive throws p'.ring_buffer
          ≡ ok (
            responses throws (
                Outcome.calls p.correlation_counter
                  (HandlerCall.on_next_available_session_id p.correlation_counter stream)),
            r,
          ))
unfolding next_available_session_id decode get_next_available_session_id_message_slot
next_available_session_id_lem throws p stream ready h0 =
    let l : Layout = get_next_available_session_id_message_layout in
    let q : DriverProxy = next_correlation_id p in
    let b0 : Buffer = scratch_of q 20 in
    let f0 : Fits b0 0 20 = record { small = omega arith; within = omega arith } in
    let b1 : Buffer = assigned l GetNextAvailableSessionIdMessage.client_id b0 0 p.client_id in
    let f1 = assigned-Fits l GetNextAvailableSessionIdMessage.client_id b0 0 p.client_id f0 in
    let b2 : Buffer =
      assigned l GetNextAvailableSessionIdMessage.correlation_id b1 0 p.correlation_counter in
    let f2 =
      assigned-Fits l GetNextAvailableSessionIdMessage.correlation_id b1 0 p.correlation_counter
        f1 in
    let b3 : Buffer = assigned l GetNextAvailableSessionIdMessage.stream_id b2 0 stream in
    let f3 = assigned-Fits l GetNextAvailableSessionIdMessage.stream_id b2 0 stream f2 in
    let decodes : (m : Buffer)
        → Same m b3
        → decode 18 m
          ≡ ok (
              Outcome.calls p.correlation_counter
                (HandlerCall.on_next_available_session_id p.correlation_counter stream)) =
      λ m s.
        rw
          (
            long_enough m b3 20 s (omega arith),
            get-Same l GetNextAvailableSessionIdMessage.correlation_id m b3 s (omega arith)
                ∙ (get-assigned_other l GetNextAvailableSessionIdMessage.stream_id b2 0 stream f2
                      GetNextAvailableSessionIdMessage.correlation_id (λ e. cc)
                    ∙ get-assigned_self l GetNextAvailableSessionIdMessage.correlation_id b1 0
                        p.correlation_counter f1 (omega (arith, ready.client, ready.counter))),
            get-Same l GetNextAvailableSessionIdMessage.stream_id m b3 s (omega arith)
                ∙ (get-assigned_self l GetNextAvailableSessionIdMessage.stream_id b2 0 stream f2
                    (omega (arith, ready.client, ready.counter))),
          )
          refl in
    let (p', r, sent, received) =
      sent_received throws q 18 b3 _ ready.empty (omega arith) (omega arith) ready.range ready.room
        decodes in
    (
      p',
      r,
      rw
          (
            set_lem l b0 0 f0 GetNextAvailableSessionIdMessage.client_id p.client_id,
            set_lem l b1 0 f1 GetNextAvailableSessionIdMessage.correlation_id p.correlation_counter,
            set_lem l b2 0 f2 GetNextAvailableSessionIdMessage.stream_id stream,
            sent,
          )
          refl,
      received,
    )

-- ===== src/Cnc/Delivery/Channels.antt =====
-- Commands with a channel: what the proxy sends is what the handler is called with.
use caeron.Base.{ℕ, ◌+◌, ◌^◌, ◌≤◌, ◌<◌, ◌≡◌, refl, Bool, true, false, some, ok, arith, ◌∙◌}
use caeron.Buffer.{Buffer}
use caeron.Buffer.Laws.{Fits}
use caeron.Flyweight.{Layout}
use caeron.Flyweight.Fields.{
  set_lem, assigned, assigned-Fits, get-assigned_self, get-assigned_other,
}
use caeron.Command.Trailing.{Text}
use caeron.Command.Codec.{
  written, set_text-written, written-length, written-other, written_length_is,
}
use caeron.Command.Channels.{
  PublicationMessage, publication_message_text, publication_message_layout,
  publication_message_slot, SubscriptionMessage, subscription_message_text,
  subscription_message_layout, subscription_message_slot,
}
use caeron.Concurrent.RingBuffer.{RingBuffer}
use caeron.Cnc.DriverProxy.{
  DriverProxy, CString, scratch_of, null_value, next_correlation_id, add_publication,
  add_exclusive_publication, add_subscription,
}
use caeron.Cnc.ClientCommandAdapter.{HandlerCall, Outcome, responses, decode, receive}
use caeron.Cnc.Delivery.{Same, get-Same, IsReady, sent_received, long_enough}
use caeron.Cnc.Delivery.Texts.{text_of, safe_strlen_lem, validate_lem, text_shown, size_shown}

pub add_publication_lem :
    (throws : HandlerCall → Bool) (p : DriverProxy) (stream : ℕ) (str : CString)
    → IsReady p (24 + str.size)
    → 24 + str.size ≤ 2048
    → stream < 2 ^ 32
    → (p' : DriverProxy) × (r : RingBuffer) × (add_publication p (some str) stream
        ≡ ok (p.correlation_counter, p'))
      × (receive throws p'.ring_buffer
          ≡ ok (
            responses throws (
                Outcome.calls p.correlation_counter (
                  HandlerCall.on_add_publication
                    (text_of str)
                    stream
                    p.correlation_counter
                    p.client_id
                    false)),
            r,
          ))
unfolding add_publication decode publication_message_slot publication_message_text
add_publication_lem throws p stream str ready short h0 =
    let l : Layout = publication_message_layout in
    let t : Text = publication_message_text in
    let q : DriverProxy = next_correlation_id p in
    let n : ℕ = str.size in
    let b0 : Buffer = scratch_of q (24 + n) in
    let f0 : Fits b0 0 24 = record { small = omega arith; within = omega arith } in
    let b1 : Buffer = assigned l PublicationMessage.client_id b0 0 p.client_id in
    let f1 = assigned-Fits l PublicationMessage.client_id b0 0 p.client_id f0 in
    let b2 : Buffer = assigned l PublicationMessage.correlation_id b1 0 p.correlation_counter in
    let f2 = assigned-Fits l PublicationMessage.correlation_id b1 0 p.correlation_counter f1 in
    let b3 : Buffer = assigned l PublicationMessage.stream_id b2 0 stream in
    let f3 = assigned-Fits l PublicationMessage.stream_id b2 0 stream f2 in
    let full : Fits b3 0 (24 + n) = record { small = omega arith; within = omega arith } in
    let b : Buffer = written t b3 0 n str.bytes in
    let decodes : (m : Buffer)
        → Same m b
        → decode 1 m
          ≡ ok (
              Outcome.calls p.correlation_counter (
                HandlerCall.on_add_publication (text_of str) stream p.correlation_counter
                  p.client_id false)) =
      λ m s.
        let (nonneg, inside) = size_shown t m b3 str s refl in
        rw
          (
            long_enough m b 24 s (omega arith),
            get-Same l PublicationMessage.client_id m b s (omega arith)
                ∙ (written-other t b3 0 n str.bytes PublicationMessage.client_id (λ e. cc) full
                    ∙ get-assigned_other l PublicationMessage.stream_id b2 0 stream f2
                        PublicationMessage.client_id (λ e. cc)
                    ∙ get-assigned_other l PublicationMessage.correlation_id b1 0
                        p.correlation_counter f1 PublicationMessage.client_id (λ e. cc)
                    ∙ get-assigned_self l PublicationMessage.client_id b0 0 p.client_id f0
                        (omega (arith, ready.client, ready.counter))),
            get-Same l PublicationMessage.correlation_id m b s (omega arith)
                ∙ (written-other t b3 0 n str.bytes PublicationMessage.correlation_id (λ e. cc) full
                    ∙ get-assigned_other l PublicationMessage.stream_id b2 0 stream f2
                        PublicationMessage.correlation_id (λ e. cc)
                    ∙ get-assigned_self l PublicationMessage.correlation_id b1 0
                        p.correlation_counter f1 (omega (arith, ready.client, ready.counter))),
            get-Same l PublicationMessage.stream_id m b s (omega arith)
                ∙ (written-other t b3 0 n str.bytes PublicationMessage.stream_id (λ e. cc) full
                    ∙ get-assigned_self l PublicationMessage.stream_id b2 0 stream f2
                        (omega (arith, ready.client, ready.counter))),
            get-Same l PublicationMessage.channel_length m b s (omega arith)
                ∙ written-length t b3 0 n str.bytes full,
            nonneg,
            inside,
            text_shown t m b3 str s refl,
          )
          refl in
    let (p', r, sent, received) =
      sent_received throws q 1 b _ ready.empty (omega arith) (omega arith) ready.range ready.room
        decodes in
    (
      p',
      r,
      rw
          (
            safe_strlen_lem str (omega arith),
            written_length_is t b3 0 n str.bytes full,
            validate_lem (24 + n) short,
            set_lem l b0 0 f0 PublicationMessage.client_id p.client_id,
            set_lem l b1 0 f1 PublicationMessage.correlation_id p.correlation_counter,
            set_lem l b2 0 f2 PublicationMessage.stream_id stream,
            set_text-written t b3 0 n str.bytes full,
            sent,
          )
          refl,
      received,
    )

pub add_exclusive_publication_lem :
    (throws : HandlerCall → Bool) (p : DriverProxy) (stream : ℕ) (str : CString)
    → IsReady p (24 + str.size)
    → 24 + str.size ≤ 2048
    → stream < 2 ^ 32
    → (p' : DriverProxy) × (r : RingBuffer) × (add_exclusive_publication p (some str) stream
        ≡ ok (p.correlation_counter, p'))
      × (receive throws p'.ring_buffer
          ≡ ok (
            responses throws (
                Outcome.calls p.correlation_counter (
                  HandlerCall.on_add_publication
                    (text_of str)
                    stream
                    p.correlation_counter
                    p.client_id
                    true)),
            r,
          ))
unfolding add_exclusive_publication decode publication_message_slot publication_message_text
add_exclusive_publication_lem throws p stream str ready short h0 =
    let l : Layout = publication_message_layout in
    let t : Text = publication_message_text in
    let q : DriverProxy = next_correlation_id p in
    let n : ℕ = str.size in
    let b0 : Buffer = scratch_of q (24 + n) in
    let f0 : Fits b0 0 24 = record { small = omega arith; within = omega arith } in
    let b1 : Buffer = assigned l PublicationMessage.client_id b0 0 p.client_id in
    let f1 = assigned-Fits l PublicationMessage.client_id b0 0 p.client_id f0 in
    let b2 : Buffer = assigned l PublicationMessage.correlation_id b1 0 p.correlation_counter in
    let f2 = assigned-Fits l PublicationMessage.correlation_id b1 0 p.correlation_counter f1 in
    let b3 : Buffer = assigned l PublicationMessage.stream_id b2 0 stream in
    let f3 = assigned-Fits l PublicationMessage.stream_id b2 0 stream f2 in
    let full : Fits b3 0 (24 + n) = record { small = omega arith; within = omega arith } in
    let b : Buffer = written t b3 0 n str.bytes in
    let decodes : (m : Buffer)
        → Same m b
        → decode 3 m
          ≡ ok (
              Outcome.calls p.correlation_counter (
                HandlerCall.on_add_publication (text_of str) stream p.correlation_counter
                  p.client_id true)) =
      λ m s.
        let (nonneg, inside) = size_shown t m b3 str s refl in
        rw
          (
            long_enough m b 24 s (omega arith),
            get-Same l PublicationMessage.client_id m b s (omega arith)
                ∙ (written-other t b3 0 n str.bytes PublicationMessage.client_id (λ e. cc) full
                    ∙ get-assigned_other l PublicationMessage.stream_id b2 0 stream f2
                        PublicationMessage.client_id (λ e. cc)
                    ∙ get-assigned_other l PublicationMessage.correlation_id b1 0
                        p.correlation_counter f1 PublicationMessage.client_id (λ e. cc)
                    ∙ get-assigned_self l PublicationMessage.client_id b0 0 p.client_id f0
                        (omega (arith, ready.client, ready.counter))),
            get-Same l PublicationMessage.correlation_id m b s (omega arith)
                ∙ (written-other t b3 0 n str.bytes PublicationMessage.correlation_id (λ e. cc) full
                    ∙ get-assigned_other l PublicationMessage.stream_id b2 0 stream f2
                        PublicationMessage.correlation_id (λ e. cc)
                    ∙ get-assigned_self l PublicationMessage.correlation_id b1 0
                        p.correlation_counter f1 (omega (arith, ready.client, ready.counter))),
            get-Same l PublicationMessage.stream_id m b s (omega arith)
                ∙ (written-other t b3 0 n str.bytes PublicationMessage.stream_id (λ e. cc) full
                    ∙ get-assigned_self l PublicationMessage.stream_id b2 0 stream f2
                        (omega (arith, ready.client, ready.counter))),
            get-Same l PublicationMessage.channel_length m b s (omega arith)
                ∙ written-length t b3 0 n str.bytes full,
            nonneg,
            inside,
            text_shown t m b3 str s refl,
          )
          refl in
    let (p', r, sent, received) =
      sent_received throws q 3 b _ ready.empty (omega arith) (omega arith) ready.range ready.room
        decodes in
    (
      p',
      r,
      rw
          (
            safe_strlen_lem str (omega arith),
            written_length_is t b3 0 n str.bytes full,
            validate_lem (24 + n) short,
            set_lem l b0 0 f0 PublicationMessage.client_id p.client_id,
            set_lem l b1 0 f1 PublicationMessage.correlation_id p.correlation_counter,
            set_lem l b2 0 f2 PublicationMessage.stream_id stream,
            set_text-written t b3 0 n str.bytes full,
            sent,
          )
          refl,
      received,
    )

pub add_subscription_lem :
    (throws : HandlerCall → Bool) (p : DriverProxy) (stream : ℕ) (str : CString)
    → IsReady p (32 + str.size)
    → 32 + str.size ≤ 2048
    → stream < 2 ^ 32
    → (p' : DriverProxy) × (r : RingBuffer) × (add_subscription p (some str) stream
        ≡ ok (p.correlation_counter, p'))
      × (receive throws p'.ring_buffer
          ≡ ok (
            responses throws (
                Outcome.calls p.correlation_counter (
                  HandlerCall.on_add_subscription
                    (text_of str)
                    stream
                    p.correlation_counter
                    p.client_id)),
            r,
          ))
unfolding add_subscription decode subscription_message_slot subscription_message_text
add_subscription_lem throws p stream str ready short h0 =
    let l : Layout = subscription_message_layout in
    let t : Text = subscription_message_text in
    let q : DriverProxy = next_correlation_id p in
    let n : ℕ = str.size in
    let b0 : Buffer = scratch_of q (32 + n) in
    let f0 : Fits b0 0 32 = record { small = omega arith; within = omega arith } in
    let b1 : Buffer = assigned l SubscriptionMessage.client_id b0 0 p.client_id in
    let f1 = assigned-Fits l SubscriptionMessage.client_id b0 0 p.client_id f0 in
    let b2 : Buffer = assigned l SubscriptionMessage.correlation_id b1 0 p.correlation_counter in
    let f2 = assigned-Fits l SubscriptionMessage.correlation_id b1 0 p.correlation_counter f1 in
    let b3 : Buffer = assigned l SubscriptionMessage.registration_correlation_id b2 0 null_value in
    let f3 = assigned-Fits l SubscriptionMessage.registration_correlation_id b2 0 null_value f2 in
    let b4 : Buffer = assigned l SubscriptionMessage.stream_id b3 0 stream in
    let f4 = assigned-Fits l SubscriptionMessage.stream_id b3 0 stream f3 in
    let full : Fits b4 0 (32 + n) = record { small = omega arith; within = omega arith } in
    let b : Buffer = written t b4 0 n str.bytes in
    let decodes : (m : Buffer)
        → Same m b
        → decode 4 m
          ≡ ok (
              Outcome.calls p.correlation_counter (
                HandlerCall.on_add_subscription (text_of str) stream p.correlation_counter
                  p.client_id)) =
      λ m s.
        let (nonneg, inside) = size_shown t m b4 str s refl in
        rw
          (
            long_enough m b 32 s (omega arith),
            get-Same l SubscriptionMessage.client_id m b s (omega arith)
                ∙ (written-other t b4 0 n str.bytes SubscriptionMessage.client_id (λ e. cc) full
                    ∙ get-assigned_other l SubscriptionMessage.stream_id b3 0 stream f3
                        SubscriptionMessage.client_id (λ e. cc)
                    ∙ get-assigned_other l SubscriptionMessage.registration_correlation_id b2 0
                        null_value f2 SubscriptionMessage.client_id (λ e. cc)
                    ∙ get-assigned_other l SubscriptionMessage.correlation_id b1 0
                        p.correlation_counter f1 SubscriptionMessage.client_id (λ e. cc)
                    ∙ get-assigned_self l SubscriptionMessage.client_id b0 0 p.client_id f0
                        (omega (arith, ready.client, ready.counter))),
            get-Same l SubscriptionMessage.correlation_id m b s (omega arith)
                ∙ (written-other t b4 0 n str.bytes SubscriptionMessage.correlation_id (λ e. cc)
                      full
                    ∙ get-assigned_other l SubscriptionMessage.stream_id b3 0 stream f3
                        SubscriptionMessage.correlation_id (λ e. cc)
                    ∙ get-assigned_other l SubscriptionMessage.registration_correlation_id b2 0
                        null_value f2 SubscriptionMessage.correlation_id (λ e. cc)
                    ∙ get-assigned_self l SubscriptionMessage.correlation_id b1 0
                        p.correlation_counter f1 (omega (arith, ready.client, ready.counter))),
            get-Same l SubscriptionMessage.stream_id m b s (omega arith)
                ∙ (written-other t b4 0 n str.bytes SubscriptionMessage.stream_id (λ e. cc) full
                    ∙ get-assigned_self l SubscriptionMessage.stream_id b3 0 stream f3
                        (omega (arith, ready.client, ready.counter))),
            get-Same l SubscriptionMessage.channel_length m b s (omega arith)
                ∙ written-length t b4 0 n str.bytes full,
            nonneg,
            inside,
            text_shown t m b4 str s refl,
          )
          refl in
    let (p', r, sent, received) =
      sent_received throws q 4 b _ ready.empty (omega arith) (omega arith) ready.range ready.room
        decodes in
    (
      p',
      r,
      rw
          (
            safe_strlen_lem str (omega arith),
            written_length_is t b4 0 n str.bytes full,
            validate_lem (32 + n) short,
            set_lem l b0 0 f0 SubscriptionMessage.client_id p.client_id,
            set_lem l b1 0 f1 SubscriptionMessage.correlation_id p.correlation_counter,
            set_lem l b2 0 f2 SubscriptionMessage.registration_correlation_id null_value,
            set_lem l b3 0 f3 SubscriptionMessage.stream_id stream,
            set_text-written t b4 0 n str.bytes full,
            sent,
          )
          refl,
      received,
    )

-- ===== src/Cnc/Delivery/Destinations.antt =====
-- Commands on destinations and images: what the proxy sends is what the handler is called with.
use caeron.Base.{ℕ, ◌+◌, ◌^◌, ◌≤◌, ◌<◌, ◌≡◌, refl, Bool, some, ok, arith, ◌∙◌}
use caeron.Buffer.{Buffer}
use caeron.Buffer.Laws.{Fits}
use caeron.Flyweight.{Layout}
use caeron.Flyweight.Fields.{
  set_lem, assigned, assigned-Fits, get-assigned_self, get-assigned_other,
}
use caeron.Command.Trailing.{Text}
use caeron.Command.Codec.{
  written, set_text-written, written-length, written-other, written_length_is,
}
use caeron.Command.Channels.{
  DestinationMessage, destination_message_text, destination_message_layout,
  destination_message_slot,
}
use caeron.Command.Notices.{RejectImage, reject_image_text, reject_image_layout, reject_image_slot}
use caeron.Concurrent.RingBuffer.{RingBuffer}
use caeron.Cnc.DriverProxy.{
  DriverProxy, CString, scratch_of, next_correlation_id, add_destination, remove_destination,
  add_rcv_destination, remove_rcv_destination, reject_image,
}
use caeron.Cnc.ClientCommandAdapter.{HandlerCall, Outcome, responses, decode, receive}
use caeron.Cnc.Delivery.{Same, get-Same, IsReady, sent_received, long_enough}
use caeron.Cnc.Delivery.Texts.{text_of, safe_strlen_lem, validate_lem, text_shown, size_shown}

pub add_destination_lem :
    (throws : HandlerCall → Bool) (p : DriverProxy) (registration : ℕ) (str : CString)
    → IsReady p (28 + str.size)
    → 28 + str.size ≤ 2048
    → registration < 2 ^ 64
    → (p' : DriverProxy) × (r : RingBuffer) × (add_destination p registration (some str)
        ≡ ok (p.correlation_counter, p'))
      × (receive throws p'.ring_buffer
          ≡ ok (
            responses throws (
                Outcome.calls p.correlation_counter (
                  HandlerCall.on_add_send_destination registration
                    (text_of str)
                    p.correlation_counter)),
            r,
          ))
unfolding add_destination decode destination_message_slot destination_message_text
add_destination_lem throws p registration str ready short h0 =
    let l : Layout = destination_message_layout in
    let t : Text = destination_message_text in
    let q : DriverProxy = next_correlation_id p in
    let n : ℕ = str.size in
    let b0 : Buffer = scratch_of q (28 + n) in
    let f0 : Fits b0 0 28 = record { small = omega arith; within = omega arith } in
    let b1 : Buffer = assigned l DestinationMessage.client_id b0 0 p.client_id in
    let f1 = assigned-Fits l DestinationMessage.client_id b0 0 p.client_id f0 in
    let b2 : Buffer = assigned l DestinationMessage.correlation_id b1 0 p.correlation_counter in
    let f2 = assigned-Fits l DestinationMessage.correlation_id b1 0 p.correlation_counter f1 in
    let b3 : Buffer = assigned l DestinationMessage.registration_correlation_id b2 0 registration in
    let f3 = assigned-Fits l DestinationMessage.registration_correlation_id b2 0 registration f2 in
    let full : Fits b3 0 (28 + n) = record { small = omega arith; within = omega arith } in
    let b : Buffer = written t b3 0 n str.bytes in
    let decodes : (m : Buffer)
        → Same m b
        → decode 7 m
          ≡ ok (
              Outcome.calls p.correlation_counter (
                HandlerCall.on_add_send_destination registration (text_of str)
                  p.correlation_counter)) =
      λ m s.
        let (nonneg, inside) = size_shown t m b3 str s refl in
        rw
          (
            long_enough m b 28 s (omega arith),
            get-Same l DestinationMessage.correlation_id m b s (omega arith)
                ∙ (written-other t b3 0 n str.bytes DestinationMessage.correlation_id (λ e. cc) full
                    ∙ get-assigned_other l DestinationMessage.registration_correlation_id b2 0
                        registration f2 DestinationMessage.correlation_id (λ e. cc)
                    ∙ get-assigned_self l DestinationMessage.correlation_id b1 0
                        p.correlation_counter f1 (omega (arith, ready.client, ready.counter))),
            get-Same l DestinationMessage.registration_correlation_id m b s (omega arith)
                ∙ (written-other t b3 0 n str.bytes DestinationMessage.registration_correlation_id
                      (λ e. cc) full
                    ∙ get-assigned_self l DestinationMessage.registration_correlation_id b2 0
                        registration f2 (omega (arith, ready.client, ready.counter))),
            get-Same l DestinationMessage.channel_length m b s (omega arith)
                ∙ written-length t b3 0 n str.bytes full,
            nonneg,
            inside,
            text_shown t m b3 str s refl,
          )
          refl in
    let (p', r, sent, received) =
      sent_received throws q 7 b _ ready.empty (omega arith) (omega arith) ready.range ready.room
        decodes in
    (
      p',
      r,
      rw
          (
            safe_strlen_lem str (omega arith),
            written_length_is t b3 0 n str.bytes full,
            validate_lem (28 + n) short,
            set_lem l b0 0 f0 DestinationMessage.client_id p.client_id,
            set_lem l b1 0 f1 DestinationMessage.correlation_id p.correlation_counter,
            set_lem l b2 0 f2 DestinationMessage.registration_correlation_id registration,
            set_text-written t b3 0 n str.bytes full,
            sent,
          )
          refl,
      received,
    )

pub remove_destination_lem :
    (throws : HandlerCall → Bool) (p : DriverProxy) (registration : ℕ) (str : CString)
    → IsReady p (28 + str.size)
    → 28 + str.size ≤ 2048
    → registration < 2 ^ 64
    → (p' : DriverProxy) × (r : RingBuffer) × (remove_destination p registration (some str)
        ≡ ok (p.correlation_counter, p'))
      × (receive throws p'.ring_buffer
          ≡ ok (
            responses throws (
                Outcome.calls p.correlation_counter (
                  HandlerCall.on_remove_send_destination registration
                    (text_of str)
                    p.correlation_counter)),
            r,
          ))
unfolding remove_destination decode destination_message_slot destination_message_text
remove_destination_lem throws p registration str ready short h0 =
    let l : Layout = destination_message_layout in
    let t : Text = destination_message_text in
    let q : DriverProxy = next_correlation_id p in
    let n : ℕ = str.size in
    let b0 : Buffer = scratch_of q (28 + n) in
    let f0 : Fits b0 0 28 = record { small = omega arith; within = omega arith } in
    let b1 : Buffer = assigned l DestinationMessage.client_id b0 0 p.client_id in
    let f1 = assigned-Fits l DestinationMessage.client_id b0 0 p.client_id f0 in
    let b2 : Buffer = assigned l DestinationMessage.correlation_id b1 0 p.correlation_counter in
    let f2 = assigned-Fits l DestinationMessage.correlation_id b1 0 p.correlation_counter f1 in
    let b3 : Buffer = assigned l DestinationMessage.registration_correlation_id b2 0 registration in
    let f3 = assigned-Fits l DestinationMessage.registration_correlation_id b2 0 registration f2 in
    let full : Fits b3 0 (28 + n) = record { small = omega arith; within = omega arith } in
    let b : Buffer = written t b3 0 n str.bytes in
    let decodes : (m : Buffer)
        → Same m b
        → decode 8 m
          ≡ ok (
              Outcome.calls p.correlation_counter (
                HandlerCall.on_remove_send_destination registration (text_of str)
                  p.correlation_counter)) =
      λ m s.
        let (nonneg, inside) = size_shown t m b3 str s refl in
        rw
          (
            long_enough m b 28 s (omega arith),
            get-Same l DestinationMessage.correlation_id m b s (omega arith)
                ∙ (written-other t b3 0 n str.bytes DestinationMessage.correlation_id (λ e. cc) full
                    ∙ get-assigned_other l DestinationMessage.registration_correlation_id b2 0
                        registration f2 DestinationMessage.correlation_id (λ e. cc)
                    ∙ get-assigned_self l DestinationMessage.correlation_id b1 0
                        p.correlation_counter f1 (omega (arith, ready.client, ready.counter))),
            get-Same l DestinationMessage.registration_correlation_id m b s (omega arith)
                ∙ (written-other t b3 0 n str.bytes DestinationMessage.registration_correlation_id
                      (λ e. cc) full
                    ∙ get-assigned_self l DestinationMessage.registration_correlation_id b2 0
                        registration f2 (omega (arith, ready.client, ready.counter))),
            get-Same l DestinationMessage.channel_length m b s (omega arith)
                ∙ written-length t b3 0 n str.bytes full,
            nonneg,
            inside,
            text_shown t m b3 str s refl,
          )
          refl in
    let (p', r, sent, received) =
      sent_received throws q 8 b _ ready.empty (omega arith) (omega arith) ready.range ready.room
        decodes in
    (
      p',
      r,
      rw
          (
            safe_strlen_lem str (omega arith),
            written_length_is t b3 0 n str.bytes full,
            validate_lem (28 + n) short,
            set_lem l b0 0 f0 DestinationMessage.client_id p.client_id,
            set_lem l b1 0 f1 DestinationMessage.correlation_id p.correlation_counter,
            set_lem l b2 0 f2 DestinationMessage.registration_correlation_id registration,
            set_text-written t b3 0 n str.bytes full,
            sent,
          )
          refl,
      received,
    )

pub add_rcv_destination_lem :
    (throws : HandlerCall → Bool) (p : DriverProxy) (registration : ℕ) (str : CString)
    → IsReady p (28 + str.size)
    → 28 + str.size ≤ 2048
    → registration < 2 ^ 64
    → (p' : DriverProxy) × (r : RingBuffer) × (add_rcv_destination p registration (some str)
        ≡ ok (p.correlation_counter, p'))
      × (receive throws p'.ring_buffer
          ≡ ok (
            responses throws (
                Outcome.calls p.correlation_counter (
                  HandlerCall.on_add_rcv_destination registration
                    (text_of str)
                    p.correlation_counter)),
            r,
          ))
unfolding add_rcv_destination decode destination_message_slot destination_message_text
add_rcv_destination_lem throws p registration str ready short h0 =
    let l : Layout = destination_message_layout in
    let t : Text = destination_message_text in
    let q : DriverProxy = next_correlation_id p in
    let n : ℕ = str.size in
    let b0 : Buffer = scratch_of q (28 + n) in
    let f0 : Fits b0 0 28 = record { small = omega arith; within = omega arith } in
    let b1 : Buffer = assigned l DestinationMessage.client_id b0 0 p.client_id in
    let f1 = assigned-Fits l DestinationMessage.client_id b0 0 p.client_id f0 in
    let b2 : Buffer = assigned l DestinationMessage.correlation_id b1 0 p.correlation_counter in
    let f2 = assigned-Fits l DestinationMessage.correlation_id b1 0 p.correlation_counter f1 in
    let b3 : Buffer = assigned l DestinationMessage.registration_correlation_id b2 0 registration in
    let f3 = assigned-Fits l DestinationMessage.registration_correlation_id b2 0 registration f2 in
    let full : Fits b3 0 (28 + n) = record { small = omega arith; within = omega arith } in
    let b : Buffer = written t b3 0 n str.bytes in
    let decodes : (m : Buffer)
        → Same m b
        → decode 12 m
          ≡ ok (
              Outcome.calls p.correlation_counter (
                HandlerCall.on_add_rcv_destination registration (text_of str)
                  p.correlation_counter)) =
      λ m s.
        let (nonneg, inside) = size_shown t m b3 str s refl in
        rw
          (
            long_enough m b 28 s (omega arith),
            get-Same l DestinationMessage.correlation_id m b s (omega arith)
                ∙ (written-other t b3 0 n str.bytes DestinationMessage.correlation_id (λ e. cc) full
                    ∙ get-assigned_other l DestinationMessage.registration_correlation_id b2 0
                        registration f2 DestinationMessage.correlation_id (λ e. cc)
                    ∙ get-assigned_self l DestinationMessage.correlation_id b1 0
                        p.correlation_counter f1 (omega (arith, ready.client, ready.counter))),
            get-Same l DestinationMessage.registration_correlation_id m b s (omega arith)
                ∙ (written-other t b3 0 n str.bytes DestinationMessage.registration_correlation_id
                      (λ e. cc) full
                    ∙ get-assigned_self l DestinationMessage.registration_correlation_id b2 0
                        registration f2 (omega (arith, ready.client, ready.counter))),
            get-Same l DestinationMessage.channel_length m b s (omega arith)
                ∙ written-length t b3 0 n str.bytes full,
            nonneg,
            inside,
            text_shown t m b3 str s refl,
          )
          refl in
    let (p', r, sent, received) =
      sent_received throws q 12 b _ ready.empty (omega arith) (omega arith) ready.range ready.room
        decodes in
    (
      p',
      r,
      rw
          (
            safe_strlen_lem str (omega arith),
            written_length_is t b3 0 n str.bytes full,
            validate_lem (28 + n) short,
            set_lem l b0 0 f0 DestinationMessage.client_id p.client_id,
            set_lem l b1 0 f1 DestinationMessage.correlation_id p.correlation_counter,
            set_lem l b2 0 f2 DestinationMessage.registration_correlation_id registration,
            set_text-written t b3 0 n str.bytes full,
            sent,
          )
          refl,
      received,
    )

pub remove_rcv_destination_lem :
    (throws : HandlerCall → Bool) (p : DriverProxy) (registration : ℕ) (str : CString)
    → IsReady p (28 + str.size)
    → 28 + str.size ≤ 2048
    → registration < 2 ^ 64
    → (p' : DriverProxy) × (r : RingBuffer) × (remove_rcv_destination p registration (some str)
        ≡ ok (p.correlation_counter, p'))
      × (receive throws p'.ring_buffer
          ≡ ok (
            responses throws (
                Outcome.calls p.correlation_counter (
                  HandlerCall.on_remove_rcv_destination registration
                    (text_of str)
                    p.correlation_counter)),
            r,
          ))
unfolding remove_rcv_destination decode destination_message_slot destination_message_text
remove_rcv_destination_lem throws p registration str ready short h0 =
    let l : Layout = destination_message_layout in
    let t : Text = destination_message_text in
    let q : DriverProxy = next_correlation_id p in
    let n : ℕ = str.size in
    let b0 : Buffer = scratch_of q (28 + n) in
    let f0 : Fits b0 0 28 = record { small = omega arith; within = omega arith } in
    let b1 : Buffer = assigned l DestinationMessage.client_id b0 0 p.client_id in
    let f1 = assigned-Fits l DestinationMessage.client_id b0 0 p.client_id f0 in
    let b2 : Buffer = assigned l DestinationMessage.correlation_id b1 0 p.correlation_counter in
    let f2 = assigned-Fits l DestinationMessage.correlation_id b1 0 p.correlation_counter f1 in
    let b3 : Buffer = assigned l DestinationMessage.registration_correlation_id b2 0 registration in
    let f3 = assigned-Fits l DestinationMessage.registration_correlation_id b2 0 registration f2 in
    let full : Fits b3 0 (28 + n) = record { small = omega arith; within = omega arith } in
    let b : Buffer = written t b3 0 n str.bytes in
    let decodes : (m : Buffer)
        → Same m b
        → decode 13 m
          ≡ ok (
              Outcome.calls p.correlation_counter (
                HandlerCall.on_remove_rcv_destination registration (text_of str)
                  p.correlation_counter)) =
      λ m s.
        let (nonneg, inside) = size_shown t m b3 str s refl in
        rw
          (
            long_enough m b 28 s (omega arith),
            get-Same l DestinationMessage.correlation_id m b s (omega arith)
                ∙ (written-other t b3 0 n str.bytes DestinationMessage.correlation_id (λ e. cc) full
                    ∙ get-assigned_other l DestinationMessage.registration_correlation_id b2 0
                        registration f2 DestinationMessage.correlation_id (λ e. cc)
                    ∙ get-assigned_self l DestinationMessage.correlation_id b1 0
                        p.correlation_counter f1 (omega (arith, ready.client, ready.counter))),
            get-Same l DestinationMessage.registration_correlation_id m b s (omega arith)
                ∙ (written-other t b3 0 n str.bytes DestinationMessage.registration_correlation_id
                      (λ e. cc) full
                    ∙ get-assigned_self l DestinationMessage.registration_correlation_id b2 0
                        registration f2 (omega (arith, ready.client, ready.counter))),
            get-Same l DestinationMessage.channel_length m b s (omega arith)
                ∙ written-length t b3 0 n str.bytes full,
            nonneg,
            inside,
            text_shown t m b3 str s refl,
          )
          refl in
    let (p', r, sent, received) =
      sent_received throws q 13 b _ ready.empty (omega arith) (omega arith) ready.range ready.room
        decodes in
    (
      p',
      r,
      rw
          (
            safe_strlen_lem str (omega arith),
            written_length_is t b3 0 n str.bytes full,
            validate_lem (28 + n) short,
            set_lem l b0 0 f0 DestinationMessage.client_id p.client_id,
            set_lem l b1 0 f1 DestinationMessage.correlation_id p.correlation_counter,
            set_lem l b2 0 f2 DestinationMessage.registration_correlation_id registration,
            set_text-written t b3 0 n str.bytes full,
            sent,
          )
          refl,
      received,
    )

pub reject_image_lem :
    (throws : HandlerCall → Bool) (p : DriverProxy) (image : ℕ) (place : ℕ) (str : CString)
    → IsReady p (36 + str.size)
    → 36 + str.size ≤ 2048
    → image < 2 ^ 64
    → place < 2 ^ 64
    → (p' : DriverProxy) × (r : RingBuffer) × (reject_image p image place (some str)
        ≡ ok (p.correlation_counter, p'))
      × (receive throws p'.ring_buffer
          ≡ ok (
            responses throws (
                Outcome.calls p.correlation_counter
                  (HandlerCall.on_reject_image p.correlation_counter image place (text_of str))),
            r,
          ))
unfolding reject_image decode reject_image_slot reject_image_text
reject_image_lem throws p image place str ready short h0 h1 =
    let l : Layout = reject_image_layout in
    let t : Text = reject_image_text in
    let q : DriverProxy = next_correlation_id p in
    let n : ℕ = str.size in
    let b0 : Buffer = scratch_of q (36 + n) in
    let f0 : Fits b0 0 36 = record { small = omega arith; within = omega arith } in
    let b1 : Buffer = assigned l RejectImage.client_id b0 0 p.client_id in
    let f1 = assigned-Fits l RejectImage.client_id b0 0 p.client_id f0 in
    let b2 : Buffer = assigned l RejectImage.correlation_id b1 0 p.correlation_counter in
    let f2 = assigned-Fits l RejectImage.correlation_id b1 0 p.correlation_counter f1 in
    let b3 : Buffer = assigned l RejectImage.image_correlation_id b2 0 image in
    let f3 = assigned-Fits l RejectImage.image_correlation_id b2 0 image f2 in
    let b4 : Buffer = assigned l RejectImage.position b3 0 place in
    let f4 = assigned-Fits l RejectImage.position b3 0 place f3 in
    let full : Fits b4 0 (36 + n) = record { small = omega arith; within = omega arith } in
    let b : Buffer = written t b4 0 n str.bytes in
    let decodes : (m : Buffer)
        → Same m b
        → decode 16 m
          ≡ ok (
              Outcome.calls p.correlation_counter
                (HandlerCall.on_reject_image p.correlation_counter image place (text_of str))) =
      λ m s.
        let (nonneg, inside) = size_shown t m b4 str s refl in
        rw
          (
            long_enough m b 36 s (omega arith),
            get-Same l RejectImage.correlation_id m b s (omega arith)
                ∙ (written-other t b4 0 n str.bytes RejectImage.correlation_id (λ e. cc) full
                    ∙ get-assigned_other l RejectImage.position b3 0 place f3
                        RejectImage.correlation_id (λ e. cc)
                    ∙ get-assigned_other l RejectImage.image_correlation_id b2 0 image f2
                        RejectImage.correlation_id (λ e. cc)
                    ∙ get-assigned_self l RejectImage.correlation_id b1 0 p.correlation_counter f1
                        (omega (arith, ready.client, ready.counter))),
            get-Same l RejectImage.image_correlation_id m b s (omega arith)
                ∙ (written-other t b4 0 n str.bytes RejectImage.image_correlation_id (λ e. cc) full
                    ∙ get-assigned_other l RejectImage.position b3 0 place f3
                        RejectImage.image_correlation_id (λ e. cc)
                    ∙ get-assigned_self l RejectImage.image_correlation_id b2 0 image f2
                        (omega (arith, ready.client, ready.counter))),
            get-Same l RejectImage.position m b s (omega arith)
                ∙ (written-other t b4 0 n str.bytes RejectImage.position (λ e. cc) full
                    ∙ get-assigned_self l RejectImage.position b3 0 place f3
                        (omega (arith, ready.client, ready.counter))),
            get-Same l RejectImage.reason_length m b s (omega arith)
                ∙ written-length t b4 0 n str.bytes full,
            nonneg,
            inside,
            text_shown t m b4 str s refl,
          )
          refl in
    let (p', r, sent, received) =
      sent_received throws q 16 b _ ready.empty (omega arith) (omega arith) ready.range ready.room
        decodes in
    (
      p',
      r,
      rw
          (
            safe_strlen_lem str (omega arith),
            written_length_is t b4 0 n str.bytes full,
            validate_lem (36 + n) short,
            set_lem l b0 0 f0 RejectImage.client_id p.client_id,
            set_lem l b1 0 f1 RejectImage.correlation_id p.correlation_counter,
            set_lem l b2 0 f2 RejectImage.image_correlation_id image,
            set_lem l b3 0 f3 RejectImage.position place,
            set_text-written t b4 0 n str.bytes full,
            sent,
          )
          refl,
      received,
    )

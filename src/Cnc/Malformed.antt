-- ===== src/Cnc/Malformed.antt =====
-- No message, however it is formed, makes the adapter fail.
mod Guards
mod Cases
mod Optional
use caeron.Base.{
  ℕ, ◌+◌, ◌-◌, ◌*◌, ◌/◌, ◌^◌, ◌≤◌, ◌<◌, ◌≡◌, refl, Bool, true, false, ◌||◌, ◌==◌, if◌then◌else◌,
  List, length, Result, ok, lt→ltb, le→ltb, Bool-cases, inl, inr, arith,
}
use native.Mathlib.Decide.{dec_lt}
use caeron.Word.{add32, sub32, is_neg32, lt32}
use caeron.Word.Bounds.{align_int, lt32_lem}
use caeron.Buffer.{Buffer, get_plain}
use caeron.Buffer.Bytes.{load, load-lt}
use caeron.Buffer.Laws.{Fits, get_plain_lem, get_i32_lem}
use caeron.Flyweight.{get}
use caeron.Flyweight.Fields.{get_lem}
use caeron.Command.Requests.{
  CorrelatedMessage, correlated_message_layout, RemoveMessage, remove_message_layout,
  RemoveSubscription, remove_subscription_layout, DestinationByIdMessage,
  destination_by_id_message_layout, GetNextAvailableSessionIdMessage,
  get_next_available_session_id_message_layout,
}
use caeron.Command.Channels.{
  PublicationMessage, publication_message_layout, SubscriptionMessage, subscription_message_layout,
  DestinationMessage, destination_message_layout,
}
use caeron.Command.Notices.{
  TerminateDriver, terminate_driver_layout, RejectImage, reject_image_layout,
}
use caeron.Command.Revocation.{
  remove_publication_layout, remove_publication_slot, revoke, revoke_within,
}
use caeron.Command.CounterRequest
use caeron.Command.CounterRequest.{CounterMessage, counter_message_layout, counter_message_slot}
use caeron.Command.StaticCounterRequest
use caeron.Command.StaticCounterRequest.{
  StaticCounterMessage, static_counter_message_layout, static_counter_message_slot,
}
use caeron.Cnc.{
  add_publication_id, add_exclusive_publication_id, remove_publication_id, add_subscription_id,
  remove_subscription_id, add_destination_id, remove_destination_id, add_rcv_destination_id,
  remove_rcv_destination_id, client_keepalive_id, client_close_id, add_counter_id,
  remove_counter_id, terminate_driver_id, add_static_counter_id, reject_image_id,
  remove_destination_by_id_id, get_next_available_session_id_id,
}
use caeron.Cnc.ClientCommandAdapter.{
  Outcome, HandlerCall, decode, responses, dispatch, add_publication_case,
  add_exclusive_publication_case, remove_publication_case, add_subscription_case,
  remove_subscription_case, add_destination_case, remove_destination_case, add_rcv_destination_case,
  remove_rcv_destination_case, client_keepalive_case, client_close_case, add_counter_case,
  remove_counter_case, terminate_driver_case, add_static_counter_case, reject_image_case,
  remove_destination_by_id_case, get_next_available_session_id_case,
}
use Guards.{Succeeds, if-Succeeds, ok-Succeeds}
use Cases.{
  add_publication-Succeeds, add_exclusive_publication-Succeeds, add_subscription-Succeeds,
  add_destination-Succeeds, remove_destination-Succeeds, add_rcv_destination-Succeeds,
  remove_rcv_destination-Succeeds, reject_image-Succeeds, terminate_driver-Succeeds,
  remove_subscription-Succeeds, remove_counter-Succeeds, client_keepalive-Succeeds,
  client_close-Succeeds, remove_destination_by_id-Succeeds, get_next_available_session_id-Succeeds,
}
use Optional.{remove_publication-Succeeds, add_counter-Succeeds, add_static_counter-Succeeds}

module _ (b : Buffer) (small : b.capacity < 2 ^ 31) where
  pub decode-Succeeds : (t : ℕ) → Succeeds (decode t b)
  unfolding decode
  decode-Succeeds t = if-Succeeds (t == add_publication_id) _ _ (add_publication-Succeeds b small) (
      if-Succeeds (t == add_exclusive_publication_id) _ _
        (add_exclusive_publication-Succeeds b small)
        (if-Succeeds (t == remove_publication_id) _ _ (remove_publication-Succeeds b small) (
          if-Succeeds (t == add_subscription_id) _ _ (add_subscription-Succeeds b small) (
            if-Succeeds (t == remove_subscription_id) _ _ (remove_subscription-Succeeds b small) (
              if-Succeeds (t == add_destination_id) _ _ (add_destination-Succeeds b small) (
                if-Succeeds (t == remove_destination_id) _ _ (remove_destination-Succeeds b small) (
                  if-Succeeds (t == add_rcv_destination_id) _ _
                    (add_rcv_destination-Succeeds b small)
                    (if-Succeeds (t == remove_rcv_destination_id) _ _
                      (remove_rcv_destination-Succeeds b small)
                      (if-Succeeds (t == client_keepalive_id) _ _
                        (client_keepalive-Succeeds b small)
                        (if-Succeeds (t == client_close_id) _ _ (client_close-Succeeds b small) (
                          if-Succeeds (t == add_counter_id) _ _ (add_counter-Succeeds b small) (
                            if-Succeeds (t == remove_counter_id) _ _
                              (remove_counter-Succeeds b small)
                              (if-Succeeds (t == terminate_driver_id) _ _
                                (terminate_driver-Succeeds b small)
                                (if-Succeeds (t == add_static_counter_id) _ _
                                  (add_static_counter-Succeeds b small)
                                  (if-Succeeds (t == reject_image_id) _ _
                                    (reject_image-Succeeds b small)
                                    (if-Succeeds (t == remove_destination_by_id_id) _ _
                                      (remove_destination_by_id-Succeeds b small)
                                      (if-Succeeds (t == get_next_available_session_id_id) _ _
                                        (get_next_available_session_id-Succeeds b small)
                                        (ok-Succeeds _))))))))))))))))))

-- ===== src/Cnc/Malformed/Cases.antt =====
-- The cases whose message has fixed fields and at most one text.
use caeron.Base.{◌^◌, ◌<◌, arith}
use caeron.Buffer.{Buffer}
use caeron.Flyweight.Fields.{get_lem}
use caeron.Command.Requests.{
  CorrelatedMessage, correlated_message_layout, RemoveMessage, remove_message_layout,
  RemoveSubscription, remove_subscription_layout, DestinationByIdMessage,
  destination_by_id_message_layout, GetNextAvailableSessionIdMessage,
  get_next_available_session_id_message_layout,
}
use caeron.Command.Channels.{
  PublicationMessage, publication_message_layout, SubscriptionMessage, subscription_message_layout,
  DestinationMessage, destination_message_layout,
}
use caeron.Command.Notices.{
  TerminateDriver, terminate_driver_layout, RejectImage, reject_image_layout,
}
use caeron.Cnc.ClientCommandAdapter.{
  add_publication_case, add_exclusive_publication_case, add_subscription_case,
  remove_subscription_case, add_destination_case, remove_destination_case, add_rcv_destination_case,
  remove_rcv_destination_case, client_keepalive_case, client_close_case, remove_counter_case,
  terminate_driver_case, reject_image_case, remove_destination_by_id_case,
  get_next_available_session_id_case,
}
use caeron.Cnc.Malformed.Guards.{Succeeds, if-Succeeds, ok-Succeeds, long_enough}

module _ (b : Buffer) (small : b.capacity < 2 ^ 31) where
  pub add_publication-Succeeds : Succeeds (add_publication_case b)
  unfolding add_publication_case publication_message_layout
  add_publication-Succeeds = long_enough b small 24 _ _ (omega arith) (λ fits.
      rw
        (
          get_lem publication_message_layout b 0 fits PublicationMessage.correlation_id,
          get_lem publication_message_layout b 0 fits PublicationMessage.client_id,
          get_lem publication_message_layout b 0 fits PublicationMessage.stream_id,
          get_lem publication_message_layout b 0 fits PublicationMessage.channel_length,
        )
        (if-Succeeds _ _ _ (ok-Succeeds _) (ok-Succeeds _)))

  pub add_exclusive_publication-Succeeds : Succeeds (add_exclusive_publication_case b)
  unfolding add_exclusive_publication_case publication_message_layout
  add_exclusive_publication-Succeeds = long_enough b small 24 _ _ (omega arith) (λ fits.
      rw
        (
          get_lem publication_message_layout b 0 fits PublicationMessage.correlation_id,
          get_lem publication_message_layout b 0 fits PublicationMessage.client_id,
          get_lem publication_message_layout b 0 fits PublicationMessage.stream_id,
          get_lem publication_message_layout b 0 fits PublicationMessage.channel_length,
        )
        (if-Succeeds _ _ _ (ok-Succeeds _) (ok-Succeeds _)))

  pub add_subscription-Succeeds : Succeeds (add_subscription_case b)
  unfolding add_subscription_case subscription_message_layout
  add_subscription-Succeeds = long_enough b small 32 _ _ (omega arith) (λ fits.
      rw
        (
          get_lem subscription_message_layout b 0 fits SubscriptionMessage.correlation_id,
          get_lem subscription_message_layout b 0 fits SubscriptionMessage.client_id,
          get_lem subscription_message_layout b 0 fits SubscriptionMessage.stream_id,
          get_lem subscription_message_layout b 0 fits SubscriptionMessage.channel_length,
        )
        (if-Succeeds _ _ _ (ok-Succeeds _) (ok-Succeeds _)))

  pub add_destination-Succeeds : Succeeds (add_destination_case b)
  unfolding add_destination_case destination_message_layout
  add_destination-Succeeds = long_enough b small 28 _ _ (omega arith) (λ fits.
      rw
        (
          get_lem destination_message_layout b 0 fits DestinationMessage.correlation_id,
          get_lem destination_message_layout b 0 fits DestinationMessage.channel_length,
          get_lem destination_message_layout b 0 fits
              DestinationMessage.registration_correlation_id,
        )
        (if-Succeeds _ _ _ (ok-Succeeds _) (ok-Succeeds _)))

  pub remove_destination-Succeeds : Succeeds (remove_destination_case b)
  unfolding remove_destination_case destination_message_layout
  remove_destination-Succeeds = long_enough b small 28 _ _ (omega arith) (λ fits.
      rw
        (
          get_lem destination_message_layout b 0 fits DestinationMessage.correlation_id,
          get_lem destination_message_layout b 0 fits DestinationMessage.channel_length,
          get_lem destination_message_layout b 0 fits
              DestinationMessage.registration_correlation_id,
        )
        (if-Succeeds _ _ _ (ok-Succeeds _) (ok-Succeeds _)))

  pub add_rcv_destination-Succeeds : Succeeds (add_rcv_destination_case b)
  unfolding add_rcv_destination_case destination_message_layout
  add_rcv_destination-Succeeds = long_enough b small 28 _ _ (omega arith) (λ fits.
      rw
        (
          get_lem destination_message_layout b 0 fits DestinationMessage.correlation_id,
          get_lem destination_message_layout b 0 fits DestinationMessage.channel_length,
          get_lem destination_message_layout b 0 fits
              DestinationMessage.registration_correlation_id,
        )
        (if-Succeeds _ _ _ (ok-Succeeds _) (ok-Succeeds _)))

  pub remove_rcv_destination-Succeeds : Succeeds (remove_rcv_destination_case b)
  unfolding remove_rcv_destination_case destination_message_layout
  remove_rcv_destination-Succeeds = long_enough b small 28 _ _ (omega arith) (λ fits.
      rw
        (
          get_lem destination_message_layout b 0 fits DestinationMessage.correlation_id,
          get_lem destination_message_layout b 0 fits DestinationMessage.channel_length,
          get_lem destination_message_layout b 0 fits
              DestinationMessage.registration_correlation_id,
        )
        (if-Succeeds _ _ _ (ok-Succeeds _) (ok-Succeeds _)))

  pub reject_image-Succeeds : Succeeds (reject_image_case b)
  unfolding reject_image_case reject_image_layout
  reject_image-Succeeds = long_enough b small 36 _ _ (omega arith) (λ fits.
      rw
        (
          get_lem reject_image_layout b 0 fits RejectImage.correlation_id,
          get_lem reject_image_layout b 0 fits RejectImage.reason_length,
          get_lem reject_image_layout b 0 fits RejectImage.image_correlation_id,
          get_lem reject_image_layout b 0 fits RejectImage.position,
        )
        (if-Succeeds _ _ _ (ok-Succeeds _) (ok-Succeeds _)))

  pub terminate_driver-Succeeds : Succeeds (terminate_driver_case b)
  unfolding terminate_driver_case terminate_driver_layout
  terminate_driver-Succeeds = long_enough b small 20 _ _ (omega arith) (λ fits.
      rw (get_lem terminate_driver_layout b 0 fits TerminateDriver.token_buffer_length)
        (if-Succeeds _ _ _ (ok-Succeeds _) (ok-Succeeds _)))

  pub remove_subscription-Succeeds : Succeeds (remove_subscription_case b)
  unfolding remove_subscription_case remove_subscription_layout
  remove_subscription-Succeeds = long_enough b small 24 _ _ (omega arith) (λ fits.
      rw
        (
          get_lem remove_subscription_layout b 0 fits RemoveSubscription.correlation_id,
          get_lem remove_subscription_layout b 0 fits RemoveSubscription.registration_id,
        )
        (ok-Succeeds _))

  pub remove_counter-Succeeds : Succeeds (remove_counter_case b)
  unfolding remove_counter_case remove_message_layout
  remove_counter-Succeeds = long_enough b small 24 _ _ (omega arith) (λ fits.
      rw
        (
          get_lem remove_message_layout b 0 fits RemoveMessage.correlation_id,
          get_lem remove_message_layout b 0 fits RemoveMessage.registration_id,
        )
        (ok-Succeeds _))

  pub client_keepalive-Succeeds : Succeeds (client_keepalive_case b)
  unfolding client_keepalive_case correlated_message_layout
  client_keepalive-Succeeds = long_enough b small 16 _ _ (omega arith) (λ fits.
      rw (get_lem correlated_message_layout b 0 fits CorrelatedMessage.client_id) (ok-Succeeds _))

  pub client_close-Succeeds : Succeeds (client_close_case b)
  unfolding client_close_case correlated_message_layout
  client_close-Succeeds = long_enough b small 16 _ _ (omega arith) (λ fits.
      rw (get_lem correlated_message_layout b 0 fits CorrelatedMessage.client_id) (ok-Succeeds _))

  pub remove_destination_by_id-Succeeds : Succeeds (remove_destination_by_id_case b)
  unfolding remove_destination_by_id_case destination_by_id_message_layout
  remove_destination_by_id-Succeeds = long_enough b small 32 _ _ (omega arith) (λ fits.
      rw
        (
          get_lem destination_by_id_message_layout b 0 fits DestinationByIdMessage.correlation_id,
          get_lem destination_by_id_message_layout b 0 fits
              DestinationByIdMessage.resource_registration_id,
          get_lem destination_by_id_message_layout b 0 fits
              DestinationByIdMessage.destination_registration_id,
        )
        (ok-Succeeds _))

  pub get_next_available_session_id-Succeeds : Succeeds (get_next_available_session_id_case b)
  unfolding get_next_available_session_id_case get_next_available_session_id_message_layout
  get_next_available_session_id-Succeeds = long_enough b small 20 _ _ (omega arith) (λ fits.
      rw
        (
          get_lem get_next_available_session_id_message_layout b 0 fits
              GetNextAvailableSessionIdMessage.correlation_id,
          get_lem get_next_available_session_id_message_layout b 0 fits
              GetNextAvailableSessionIdMessage.stream_id,
        )
        (ok-Succeeds _))

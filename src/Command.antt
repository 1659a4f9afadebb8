-- ===== src/Command.antt =====
-- caeron/command: the messages between clients and the driver.
pub mod Trailing
pub mod Requests
pub mod Replies
pub mod Channels
pub mod Notices
pub mod Revocation
pub mod CounterRequest
pub mod StaticCounterRequest
pub mod Codec
use caeron.Flyweight.{Layout}
use caeron.Command.Trailing.{Text}
use caeron.Command.Requests.{
  client_timeout_layout, correlated_message_layout, remove_message_layout,
  remove_subscription_layout, destination_by_id_message_layout,
  get_next_available_session_id_message_layout,
}
use caeron.Command.Replies.{
  operation_succeeded_layout, counter_update_layout, static_counter_layout,
  subscription_ready_layout, next_available_session_id_layout,
}
use caeron.Command.Channels.{
  publication_message_text, subscription_message_text, destination_message_text,
}
use caeron.Command.Notices.{
  terminate_driver_text, reject_image_text, error_response_text, publication_buffers_ready_text,
}

-- The messages of a fixed length.
pub data FixedMessage : Type 0 where
  client_timeout correlated_message remove_message remove_subscription : FixedMessage
  destination_by_id_message get_next_available_session_id_message operation_succeeded : FixedMessage
  counter_update static_counter subscription_ready next_available_session_id : FixedMessage

unfoldable pub fixed_layout : FixedMessage → Layout
fixed_layout FixedMessage.client_timeout = client_timeout_layout
fixed_layout FixedMessage.correlated_message = correlated_message_layout
fixed_layout FixedMessage.remove_message = remove_message_layout
fixed_layout FixedMessage.remove_subscription = remove_subscription_layout
fixed_layout FixedMessage.destination_by_id_message = destination_by_id_message_layout
fixed_layout FixedMessage.get_next_available_session_id_message =
    get_next_available_session_id_message_layout
fixed_layout FixedMessage.operation_succeeded = operation_succeeded_layout
fixed_layout FixedMessage.counter_update = counter_update_layout
fixed_layout FixedMessage.static_counter = static_counter_layout
fixed_layout FixedMessage.subscription_ready = subscription_ready_layout
fixed_layout FixedMessage.next_available_session_id = next_available_session_id_layout

-- The messages that end with a text.
pub data TextMessage : Type 0 where
  publication_message subscription_message destination_message terminate_driver : TextMessage
  reject_image error_response publication_buffers_ready : TextMessage

unfoldable pub text : TextMessage → Text
text TextMessage.publication_message = publication_message_text
text TextMessage.subscription_message = subscription_message_text
text TextMessage.destination_message = destination_message_text
text TextMessage.terminate_driver = terminate_driver_text
text TextMessage.reject_image = reject_image_text
text TextMessage.error_response = error_response_text
text TextMessage.publication_buffers_ready = publication_buffers_ready_text

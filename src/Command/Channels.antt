-- ===== src/Command/Channels.antt =====
-- caeron/command: the requests that end with a channel.
use caeron.Base.{◌+◌, ◌≤◌, ◌≢◌, arith, refl}
use caeron.Flyweight.{Slot, SlotsApart, Layout, i32_at, i64_at}
use caeron.Command.Trailing.{Text}

-- publication_message_flyweight.h
pub data PublicationMessage : Type 0 where
  client_id correlation_id stream_id channel_length : PublicationMessage

unfoldable pub publication_message_slot : PublicationMessage → Slot
publication_message_slot PublicationMessage.client_id = i64_at 0
publication_message_slot PublicationMessage.correlation_id = i64_at 8
publication_message_slot PublicationMessage.stream_id = i32_at 16
publication_message_slot PublicationMessage.channel_length = i32_at 20

publication_message-inside :
    (f : PublicationMessage)
    → (publication_message_slot f).offset + (publication_message_slot f).width ≤ 24
unfolding publication_message_slot
publication_message-inside f = ground arith

publication_message-apart :
    (f g : PublicationMessage)
    → f ≢ g
    → SlotsApart (publication_message_slot f) (publication_message_slot g)
unfolding publication_message_slot
publication_message-apart f g h = ground arith

unfoldable pub publication_message_layout : Layout
unfolding publication_message-inside publication_message-apart
publication_message_layout = record {
  Field = PublicationMessage;
  slot = publication_message_slot;
  length = 24;
  inside = publication_message-inside;
  apart = publication_message-apart;
}

unfoldable pub publication_message_text : Text
unfolding publication_message_slot publication_message_layout
publication_message_text = record {
  layout = publication_message_layout;
  length_field = PublicationMessage.channel_length;
  is_i32 = refl;
}

-- subscription_message_flyweight.h
pub data SubscriptionMessage : Type 0 where
  client_id correlation_id : SubscriptionMessage
  registration_correlation_id stream_id channel_length : SubscriptionMessage

unfoldable pub subscription_message_slot : SubscriptionMessage → Slot
subscription_message_slot SubscriptionMessage.client_id = i64_at 0
subscription_message_slot SubscriptionMessage.correlation_id = i64_at 8
subscription_message_slot SubscriptionMessage.registration_correlation_id = i64_at 16
subscription_message_slot SubscriptionMessage.stream_id = i32_at 24
subscription_message_slot SubscriptionMessage.channel_length = i32_at 28

subscription_message-inside :
    (f : SubscriptionMessage)
    → (subscription_message_slot f).offset + (subscription_message_slot f).width ≤ 32
unfolding subscription_message_slot
subscription_message-inside f = ground arith

subscription_message-apart :
    (f g : SubscriptionMessage)
    → f ≢ g
    → SlotsApart (subscription_message_slot f) (subscription_message_slot g)
unfolding subscription_message_slot
subscription_message-apart f g h = ground arith

unfoldable pub subscription_message_layout : Layout
unfolding subscription_message-inside subscription_message-apart
subscription_message_layout = record {
  Field = SubscriptionMessage;
  slot = subscription_message_slot;
  length = 32;
  inside = subscription_message-inside;
  apart = subscription_message-apart;
}

unfoldable pub subscription_message_text : Text
unfolding subscription_message_slot subscription_message_layout
subscription_message_text = record {
  layout = subscription_message_layout;
  length_field = SubscriptionMessage.channel_length;
  is_i32 = refl;
}

-- destination_message_flyweight.h
pub data DestinationMessage : Type 0 where
  client_id correlation_id registration_correlation_id channel_length : DestinationMessage

unfoldable pub destination_message_slot : DestinationMessage → Slot
destination_message_slot DestinationMessage.client_id = i64_at 0
destination_message_slot DestinationMessage.correlation_id = i64_at 8
destination_message_slot DestinationMessage.registration_correlation_id = i64_at 16
destination_message_slot DestinationMessage.channel_length = i32_at 24

destination_message-inside :
    (f : DestinationMessage)
    → (destination_message_slot f).offset + (destination_message_slot f).width ≤ 28
unfolding destination_message_slot
destination_message-inside f = ground arith

destination_message-apart :
    (f g : DestinationMessage)
    → f ≢ g
    → SlotsApart (destination_message_slot f) (destination_message_slot g)
unfolding destination_message_slot
destination_message-apart f g h = ground arith

unfoldable pub destination_message_layout : Layout
unfolding destination_message-inside destination_message-apart
destination_message_layout = record {
  Field = DestinationMessage;
  slot = destination_message_slot;
  length = 28;
  inside = destination_message-inside;
  apart = destination_message-apart;
}

unfoldable pub destination_message_text : Text
unfolding destination_message_slot destination_message_layout
destination_message_text = record {
  layout = destination_message_layout;
  length_field = DestinationMessage.channel_length;
  is_i32 = refl;
}

-- ===== src/Command/Requests.antt =====
-- caeron/command: the requests of a client that have a fixed length.
use caeron.Base.{◌+◌, ◌≤◌, ◌≢◌, arith}
use caeron.Flyweight.{Slot, SlotsApart, Layout, i32_at, i64_at}

-- client_timeout_flyweight.h
pub data ClientTimeout : Type 0 where
  client_id : ClientTimeout

unfoldable pub client_timeout_slot : ClientTimeout → Slot
client_timeout_slot ClientTimeout.client_id = i64_at 0

client_timeout-inside :
    (f : ClientTimeout) → (client_timeout_slot f).offset + (client_timeout_slot f).width ≤ 8
unfolding client_timeout_slot
client_timeout-inside f = ground arith

client_timeout-apart :
    (f g : ClientTimeout) → f ≢ g → SlotsApart (client_timeout_slot f) (client_timeout_slot g)
unfolding client_timeout_slot
client_timeout-apart f g h = ground arith

unfoldable pub client_timeout_layout : Layout
unfolding client_timeout-inside client_timeout-apart
client_timeout_layout = record {
  Field = ClientTimeout;
  slot = client_timeout_slot;
  length = 8;
  inside = client_timeout-inside;
  apart = client_timeout-apart;
}

-- correlated_message_flyweight.h
pub data CorrelatedMessage : Type 0 where
  client_id correlation_id : CorrelatedMessage

unfoldable pub correlated_message_slot : CorrelatedMessage → Slot
correlated_message_slot CorrelatedMessage.client_id = i64_at 0
correlated_message_slot CorrelatedMessage.correlation_id = i64_at 8

correlated_message-inside :
    (f : CorrelatedMessage)
    → (correlated_message_slot f).offset + (correlated_message_slot f).width ≤ 16
unfolding correlated_message_slot
correlated_message-inside f = ground arith

correlated_message-apart :
    (f g : CorrelatedMessage)
    → f ≢ g
    → SlotsApart (correlated_message_slot f) (correlated_message_slot g)
unfolding correlated_message_slot
correlated_message-apart f g h = ground arith

unfoldable pub correlated_message_layout : Layout
unfolding correlated_message-inside correlated_message-apart
correlated_message_layout = record {
  Field = CorrelatedMessage;
  slot = correlated_message_slot;
  length = 16;
  inside = correlated_message-inside;
  apart = correlated_message-apart;
}

-- remove_message_flyweight.h
pub data RemoveMessage : Type 0 where
  client_id correlation_id registration_id : RemoveMessage

unfoldable pub remove_message_slot : RemoveMessage → Slot
remove_message_slot RemoveMessage.client_id = i64_at 0
remove_message_slot RemoveMessage.correlation_id = i64_at 8
remove_message_slot RemoveMessage.registration_id = i64_at 16

remove_message-inside :
    (f : RemoveMessage) → (remove_message_slot f).offset + (remove_message_slot f).width ≤ 24
unfolding remove_message_slot
remove_message-inside f = ground arith

remove_message-apart :
    (f g : RemoveMessage) → f ≢ g → SlotsApart (remove_message_slot f) (remove_message_slot g)
unfolding remove_message_slot
remove_message-apart f g h = ground arith

unfoldable pub remove_message_layout : Layout
unfolding remove_message-inside remove_message-apart
remove_message_layout = record {
  Field = RemoveMessage;
  slot = remove_message_slot;
  length = 24;
  inside = remove_message-inside;
  apart = remove_message-apart;
}

-- remove_subscription_flyweight.h
pub data RemoveSubscription : Type 0 where
  client_id correlation_id registration_id : RemoveSubscription

unfoldable pub remove_subscription_slot : RemoveSubscription → Slot
remove_subscription_slot RemoveSubscription.client_id = i64_at 0
remove_subscription_slot RemoveSubscription.correlation_id = i64_at 8
remove_subscription_slot RemoveSubscription.registration_id = i64_at 16

remove_subscription-inside :
    (f : RemoveSubscription)
    → (remove_subscription_slot f).offset + (remove_subscription_slot f).width ≤ 24
unfolding remove_subscription_slot
remove_subscription-inside f = ground arith

remove_subscription-apart :
    (f g : RemoveSubscription)
    → f ≢ g
    → SlotsApart (remove_subscription_slot f) (remove_subscription_slot g)
unfolding remove_subscription_slot
remove_subscription-apart f g h = ground arith

unfoldable pub remove_subscription_layout : Layout
unfolding remove_subscription-inside remove_subscription-apart
remove_subscription_layout = record {
  Field = RemoveSubscription;
  slot = remove_subscription_slot;
  length = 24;
  inside = remove_subscription-inside;
  apart = remove_subscription-apart;
}

-- destination_by_id_message_flyweight.h
pub data DestinationByIdMessage : Type 0 where
  client_id correlation_id : DestinationByIdMessage
  resource_registration_id destination_registration_id : DestinationByIdMessage

unfoldable pub destination_by_id_message_slot : DestinationByIdMessage → Slot
destination_by_id_message_slot DestinationByIdMessage.client_id = i64_at 0
destination_by_id_message_slot DestinationByIdMessage.correlation_id = i64_at 8
destination_by_id_message_slot DestinationByIdMessage.resource_registration_id = i64_at 16
destination_by_id_message_slot DestinationByIdMessage.destination_registration_id = i64_at 24

destination_by_id_message-inside :
    (f : DestinationByIdMessage)
    → (destination_by_id_message_slot f).offset + (destination_by_id_message_slot f).width ≤ 32
unfolding destination_by_id_message_slot
destination_by_id_message-inside f = ground arith

destination_by_id_message-apart :
    (f g : DestinationByIdMessage)
    → f ≢ g
    → SlotsApart (destination_by_id_message_slot f) (destination_by_id_message_slot g)
unfolding destination_by_id_message_slot
destination_by_id_message-apart f g h = ground arith

unfoldable pub destination_by_id_message_layout : Layout
unfolding destination_by_id_message-inside destination_by_id_message-apart
destination_by_id_message_layout = record {
  Field = DestinationByIdMessage;
  slot = destination_by_id_message_slot;
  length = 32;
  inside = destination_by_id_message-inside;
  apart = destination_by_id_message-apart;
}

-- get_next_available_session_id_message_flyweight.h
pub data GetNextAvailableSessionIdMessage : Type 0 where
  client_id correlation_id stream_id : GetNextAvailableSessionIdMessage

unfoldable pub get_next_available_session_id_message_slot : GetNextAvailableSessionIdMessage → Slot
get_next_available_session_id_message_slot GetNextAvailableSessionIdMessage.client_id = i64_at 0
get_next_available_session_id_message_slot GetNextAvailableSessionIdMessage.correlation_id =
    i64_at 8
get_next_available_session_id_message_slot GetNextAvailableSessionIdMessage.stream_id = i32_at 16

get_next_available_session_id_message-inside :
    (f : GetNextAvailableSessionIdMessage)
    → (get_next_available_session_id_message_slot f).offset
        + (get_next_available_session_id_message_slot f).width
      ≤ 20
unfolding get_next_available_session_id_message_slot
get_next_available_session_id_message-inside f = ground arith

get_next_available_session_id_message-apart :
    (f g : GetNextAvailableSessionIdMessage)
    → f ≢ g
    → SlotsApart
        (get_next_available_session_id_message_slot f)
        (get_next_available_session_id_message_slot g)
unfolding get_next_available_session_id_message_slot
get_next_available_session_id_message-apart f g h = ground arith

unfoldable pub get_next_available_session_id_message_layout : Layout
unfolding get_next_available_session_id_message-inside get_next_available_session_id_message-apart
get_next_available_session_id_message_layout = record {
  Field = GetNextAvailableSessionIdMessage;
  slot = get_next_available_session_id_message_slot;
  length = 20;
  inside = get_next_available_session_id_message-inside;
  apart = get_next_available_session_id_message-apart;
}

-- ===== src/Command/Replies.antt =====
-- caeron/command: the replies of the driver that have a fixed length.
use caeron.Base.{◌+◌, ◌≤◌, ◌≢◌, arith}
use caeron.Flyweight.{Slot, SlotsApart, Layout, i32_at, i64_at}

-- operation_succeeded_flyweight.h
pub data OperationSucceeded : Type 0 where
  correlation_id : OperationSucceeded

unfoldable pub operation_succeeded_slot : OperationSucceeded → Slot
operation_succeeded_slot OperationSucceeded.correlation_id = i64_at 0

operation_succeeded-inside :
    (f : OperationSucceeded)
    → (operation_succeeded_slot f).offset + (operation_succeeded_slot f).width ≤ 8
unfolding operation_succeeded_slot
operation_succeeded-inside f = ground arith

operation_succeeded-apart :
    (f g : OperationSucceeded)
    → f ≢ g
    → SlotsApart (operation_succeeded_slot f) (operation_succeeded_slot g)
unfolding operation_succeeded_slot
operation_succeeded-apart f g h = ground arith

unfoldable pub operation_succeeded_layout : Layout
unfolding operation_succeeded-inside operation_succeeded-apart
operation_succeeded_layout = record {
  Field = OperationSucceeded;
  slot = operation_succeeded_slot;
  length = 8;
  inside = operation_succeeded-inside;
  apart = operation_succeeded-apart;
}

-- counter_update_flyweight.h
pub data CounterUpdate : Type 0 where
  correlation_id counter_id : CounterUpdate

unfoldable pub counter_update_slot : CounterUpdate → Slot
counter_update_slot CounterUpdate.correlation_id = i64_at 0
counter_update_slot CounterUpdate.counter_id = i32_at 8

counter_update-inside :
    (f : CounterUpdate) → (counter_update_slot f).offset + (counter_update_slot f).width ≤ 12
unfolding counter_update_slot
counter_update-inside f = ground arith

counter_update-apart :
    (f g : CounterUpdate) → f ≢ g → SlotsApart (counter_update_slot f) (counter_update_slot g)
unfolding counter_update_slot
counter_update-apart f g h = ground arith

unfoldable pub counter_update_layout : Layout
unfolding counter_update-inside counter_update-apart
counter_update_layout = record {
  Field = CounterUpdate;
  slot = counter_update_slot;
  length = 12;
  inside = counter_update-inside;
  apart = counter_update-apart;
}

-- static_counter_flyweight.h
pub data StaticCounter : Type 0 where
  correlation_id counter_id : StaticCounter

unfoldable pub static_counter_slot : StaticCounter → Slot
static_counter_slot StaticCounter.correlation_id = i64_at 0
static_counter_slot StaticCounter.counter_id = i32_at 8

static_counter-inside :
    (f : StaticCounter) → (static_counter_slot f).offset + (static_counter_slot f).width ≤ 12
unfolding static_counter_slot
static_counter-inside f = ground arith

static_counter-apart :
    (f g : StaticCounter) → f ≢ g → SlotsApart (static_counter_slot f) (static_counter_slot g)
unfolding static_counter_slot
static_counter-apart f g h = ground arith

unfoldable pub static_counter_layout : Layout
unfolding static_counter-inside static_counter-apart
static_counter_layout = record {
  Field = StaticCounter;
  slot = static_counter_slot;
  length = 12;
  inside = static_counter-inside;
  apart = static_counter-apart;
}

-- subscription_ready_flyweight.h
pub data SubscriptionReady : Type 0 where
  correlation_id channel_status_counter_id : SubscriptionReady

unfoldable pub subscription_ready_slot : SubscriptionReady → Slot
subscription_ready_slot SubscriptionReady.correlation_id = i64_at 0
subscription_ready_slot SubscriptionReady.channel_status_counter_id = i32_at 8

subscription_ready-inside :
    (f : SubscriptionReady)
    → (subscription_ready_slot f).offset + (subscription_ready_slot f).width ≤ 12
unfolding subscription_ready_slot
subscription_ready-inside f = ground arith

subscription_ready-apart :
    (f g : SubscriptionReady)
    → f ≢ g
    → SlotsApart (subscription_ready_slot f) (subscription_ready_slot g)
unfolding subscription_ready_slot
subscription_ready-apart f g h = ground arith

unfoldable pub subscription_ready_layout : Layout
unfolding subscription_ready-inside subscription_ready-apart
subscription_ready_layout = record {
  Field = SubscriptionReady;
  slot = subscription_ready_slot;
  length = 12;
  inside = subscription_ready-inside;
  apart = subscription_ready-apart;
}

-- next_available_session_id_flyweight.h
pub data NextAvailableSessionId : Type 0 where
  correlation_id next_session_id : NextAvailableSessionId

unfoldable pub next_available_session_id_slot : NextAvailableSessionId → Slot
next_available_session_id_slot NextAvailableSessionId.correlation_id = i64_at 0
next_available_session_id_slot NextAvailableSessionId.next_session_id = i32_at 8

next_available_session_id-inside :
    (f : NextAvailableSessionId)
    → (next_available_session_id_slot f).offset + (next_available_session_id_slot f).width ≤ 12
unfolding next_available_session_id_slot
next_available_session_id-inside f = ground arith

next_available_session_id-apart :
    (f g : NextAvailableSessionId)
    → f ≢ g
    → SlotsApart (next_available_session_id_slot f) (next_available_session_id_slot g)
unfolding next_available_session_id_slot
next_available_session_id-apart f g h = ground arith

unfoldable pub next_available_session_id_layout : Layout
unfolding next_available_session_id-inside next_available_session_id-apart
next_available_session_id_layout = record {
  Field = NextAvailableSessionId;
  slot = next_available_session_id_slot;
  length = 12;
  inside = next_available_session_id-inside;
  apart = next_available_session_id-apart;
}

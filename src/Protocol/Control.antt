-- ===== src/Protocol/Control.antt =====
-- caeron/protocol: the frames that set up, measure and tear down a stream.
use caeron.Base.{◌+◌, ◌≤◌, ◌≢◌, arith}
use caeron.Flyweight.{Slot, SlotsApart, Layout, u8_at, u16_at, i32_at, i64_at}

-- setup_flyweight.h
pub data Setup : Type 0 where
  frame_length version flags type term_offset session_id : Setup
  stream_id initial_term_id active_term_id term_length mtu_length ttl : Setup

unfoldable pub setup_slot : Setup → Slot
setup_slot Setup.frame_length = i32_at 0
setup_slot Setup.version = u8_at 4
setup_slot Setup.flags = u8_at 5
setup_slot Setup.type = u16_at 6
setup_slot Setup.term_offset = i32_at 8
setup_slot Setup.session_id = i32_at 12
setup_slot Setup.stream_id = i32_at 16
setup_slot Setup.initial_term_id = i32_at 20
setup_slot Setup.active_term_id = i32_at 24
setup_slot Setup.term_length = i32_at 28
setup_slot Setup.mtu_length = i32_at 32
setup_slot Setup.ttl = i32_at 36

setup-inside : (f : Setup) → (setup_slot f).offset + (setup_slot f).width ≤ 40
unfolding setup_slot
setup-inside f = ground arith

setup-apart : (f g : Setup) → f ≢ g → SlotsApart (setup_slot f) (setup_slot g)
unfolding setup_slot
setup-apart f g h = ground arith

unfoldable pub setup_layout : Layout
unfolding setup-inside setup-apart
setup_layout = record {
  Field = Setup;
  slot = setup_slot;
  length = 40;
  inside = setup-inside;
  apart = setup-apart;
}

-- rtt_measurement_flyweight.h
pub data RttMeasurement : Type 0 where
  frame_length version flags type : RttMeasurement
  session_id stream_id echo_timestamp reception_delta receiver_id : RttMeasurement

unfoldable pub rtt_measurement_slot : RttMeasurement → Slot
rtt_measurement_slot RttMeasurement.frame_length = i32_at 0
rtt_measurement_slot RttMeasurement.version = u8_at 4
rtt_measurement_slot RttMeasurement.flags = u8_at 5
rtt_measurement_slot RttMeasurement.type = u16_at 6
rtt_measurement_slot RttMeasurement.session_id = i32_at 8
rtt_measurement_slot RttMeasurement.stream_id = i32_at 12
rtt_measurement_slot RttMeasurement.echo_timestamp = i64_at 16
rtt_measurement_slot RttMeasurement.reception_delta = i64_at 24
rtt_measurement_slot RttMeasurement.receiver_id = i64_at 32

rtt_measurement-inside :
    (f : RttMeasurement) → (rtt_measurement_slot f).offset + (rtt_measurement_slot f).width ≤ 40
unfolding rtt_measurement_slot
rtt_measurement-inside f = ground arith

rtt_measurement-apart :
    (f g : RttMeasurement) → f ≢ g → SlotsApart (rtt_measurement_slot f) (rtt_measurement_slot g)
unfolding rtt_measurement_slot
rtt_measurement-apart f g h = ground arith

unfoldable pub rtt_measurement_layout : Layout
unfolding rtt_measurement-inside rtt_measurement-apart
rtt_measurement_layout = record {
  Field = RttMeasurement;
  slot = rtt_measurement_slot;
  length = 40;
  inside = rtt_measurement-inside;
  apart = rtt_measurement-apart;
}

-- error_flyweight.h
pub data ErrorFrame : Type 0 where
  frame_length version flags type session_id : ErrorFrame
  stream_id receiver_id group_tag error_code error_message_length : ErrorFrame

-- Where the fields stand. The setter of the group tag sets a flag too, and the length of the text is
-- set with the text: Protocol/Errors.antt.
unfoldable pub error_slot : ErrorFrame → Slot
error_slot ErrorFrame.frame_length = i32_at 0
error_slot ErrorFrame.version = u8_at 4
error_slot ErrorFrame.flags = u8_at 5
error_slot ErrorFrame.type = u16_at 6
error_slot ErrorFrame.session_id = i32_at 8
error_slot ErrorFrame.stream_id = i32_at 12
error_slot ErrorFrame.receiver_id = i64_at 16
error_slot ErrorFrame.group_tag = i64_at 24
error_slot ErrorFrame.error_code = i32_at 32
error_slot ErrorFrame.error_message_length = i32_at 36

error-inside : (f : ErrorFrame) → (error_slot f).offset + (error_slot f).width ≤ 40
unfolding error_slot
error-inside f = ground arith

error-apart : (f g : ErrorFrame) → f ≢ g → SlotsApart (error_slot f) (error_slot g)
unfolding error_slot
error-apart f g h = ground arith

unfoldable pub error_layout : Layout
unfolding error-inside error-apart
error_layout = record {
  Field = ErrorFrame;
  slot = error_slot;
  length = 40;
  inside = error-inside;
  apart = error-apart;
}

-- response_setup_flyweight.h
pub data ResponseSetup : Type 0 where
  frame_length version flags type session_id stream_id response_session_id : ResponseSetup

unfoldable pub response_setup_slot : ResponseSetup → Slot
response_setup_slot ResponseSetup.frame_length = i32_at 0
response_setup_slot ResponseSetup.version = u8_at 4
response_setup_slot ResponseSetup.flags = u8_at 5
response_setup_slot ResponseSetup.type = u16_at 6
response_setup_slot ResponseSetup.session_id = i32_at 8
response_setup_slot ResponseSetup.stream_id = i32_at 12
response_setup_slot ResponseSetup.response_session_id = i32_at 16

response_setup-inside :
    (f : ResponseSetup) → (response_setup_slot f).offset + (response_setup_slot f).width ≤ 20
unfolding response_setup_slot
response_setup-inside f = ground arith

response_setup-apart :
    (f g : ResponseSetup) → f ≢ g → SlotsApart (response_setup_slot f) (response_setup_slot g)
unfolding response_setup_slot
response_setup-apart f g h = ground arith

unfoldable pub response_setup_layout : Layout
unfolding response_setup-inside response_setup-apart
response_setup_layout = record {
  Field = ResponseSetup;
  slot = response_setup_slot;
  length = 20;
  inside = response_setup-inside;
  apart = response_setup-apart;
}

-- ===== src/Command/Notices.antt =====
-- caeron/command: the other messages that end with a text.
use caeron.Base.{◌+◌, ◌≤◌, ◌≢◌, arith, refl}
use caeron.Flyweight.{Slot, SlotsApart, Layout, i32_at, i64_at}
use caeron.Command.Trailing.{Text}

-- terminate_driver_flyweight.h
pub data TerminateDriver : Type 0 where
  client_id correlation_id token_buffer_length : TerminateDriver

unfoldable pub terminate_driver_slot : TerminateDriver → Slot
terminate_driver_slot TerminateDriver.client_id = i64_at 0
terminate_driver_slot TerminateDriver.correlation_id = i64_at 8
terminate_driver_slot TerminateDriver.token_buffer_length = i32_at 16

terminate_driver-inside :
    (f : TerminateDriver) → (terminate_driver_slot f).offset + (terminate_driver_slot f).width ≤ 20
unfolding terminate_driver_slot
terminate_driver-inside f = ground arith

terminate_driver-apart :
    (f g : TerminateDriver) → f ≢ g → SlotsApart (terminate_driver_slot f) (terminate_driver_slot g)
unfolding terminate_driver_slot
terminate_driver-apart f g h = ground arith

unfoldable pub terminate_driver_layout : Layout
unfolding terminate_driver-inside terminate_driver-apart
terminate_driver_layout = record {
  Field = TerminateDriver;
  slot = terminate_driver_slot;
  length = 20;
  inside = terminate_driver-inside;
  apart = terminate_driver-apart;
}

unfoldable pub terminate_driver_text : Text
unfolding terminate_driver_slot terminate_driver_layout
terminate_driver_text = record {
  layout = terminate_driver_layout;
  length_field = TerminateDriver.token_buffer_length;
  is_i32 = refl;
}

-- reject_image_flyweight.h
pub data RejectImage : Type 0 where
  client_id correlation_id image_correlation_id position reason_length : RejectImage

unfoldable pub reject_image_slot : RejectImage → Slot
reject_image_slot RejectImage.client_id = i64_at 0
reject_image_slot RejectImage.correlation_id = i64_at 8
reject_image_slot RejectImage.image_correlation_id = i64_at 16
reject_image_slot RejectImage.position = i64_at 24
reject_image_slot RejectImage.reason_length = i32_at 32

reject_image-inside :
    (f : RejectImage) → (reject_image_slot f).offset + (reject_image_slot f).width ≤ 36
unfolding reject_image_slot
reject_image-inside f = ground arith

reject_image-apart :
    (f g : RejectImage) → f ≢ g → SlotsApart (reject_image_slot f) (reject_image_slot g)
unfolding reject_image_slot
reject_image-apart f g h = ground arith

unfoldable pub reject_image_layout : Layout
unfolding reject_image-inside reject_image-apart
reject_image_layout = record {
  Field = RejectImage;
  slot = reject_image_slot;
  length = 36;
  inside = reject_image-inside;
  apart = reject_image-apart;
}

unfoldable pub reject_image_text : Text
unfolding reject_image_slot reject_image_layout
reject_image_text = record {
  layout = reject_image_layout;
  length_field = RejectImage.reason_length;
  is_i32 = refl;
}

-- error_response_flyweight.h
pub data ErrorResponse : Type 0 where
  offending_correlation_id error_code error_message_length : ErrorResponse

unfoldable pub error_response_slot : ErrorResponse → Slot
error_response_slot ErrorResponse.offending_correlation_id = i64_at 0
error_response_slot ErrorResponse.error_code = i32_at 8
error_response_slot ErrorResponse.error_message_length = i32_at 12

error_response-inside :
    (f : ErrorResponse) → (error_response_slot f).offset + (error_response_slot f).width ≤ 16
unfolding error_response_slot
error_response-inside f = ground arith

error_response-apart :
    (f g : ErrorResponse) → f ≢ g → SlotsApart (error_response_slot f) (error_response_slot g)
unfolding error_response_slot
error_response-apart f g h = ground arith

unfoldable pub error_response_layout : Layout
unfolding error_response-inside error_response-apart
error_response_layout = record {
  Field = ErrorResponse;
  slot = error_response_slot;
  length = 16;
  inside = error_response-inside;
  apart = error_response-apart;
}

unfoldable pub error_response_text : Text
unfolding error_response_slot error_response_layout
error_response_text = record {
  layout = error_response_layout;
  length_field = ErrorResponse.error_message_length;
  is_i32 = refl;
}

-- publication_buffers_ready_flyweight.h
pub data PublicationBuffersReady : Type 0 where
  correlation_id registration_id session_id : PublicationBuffersReady
  stream_id pub_limit_counter_id channel_status_counter_id log_file_name_length :
      PublicationBuffersReady

unfoldable pub publication_buffers_ready_slot : PublicationBuffersReady → Slot
publication_buffers_ready_slot PublicationBuffersReady.correlation_id = i64_at 0
publication_buffers_ready_slot PublicationBuffersReady.registration_id = i64_at 8
publication_buffers_ready_slot PublicationBuffersReady.session_id = i32_at 16
publication_buffers_ready_slot PublicationBuffersReady.stream_id = i32_at 20
publication_buffers_ready_slot PublicationBuffersReady.pub_limit_counter_id = i32_at 24
publication_buffers_ready_slot PublicationBuffersReady.channel_status_counter_id = i32_at 28
publication_buffers_ready_slot PublicationBuffersReady.log_file_name_length = i32_at 32

publication_buffers_ready-inside :
    (f : PublicationBuffersReady)
    → (publication_buffers_ready_slot f).offset + (publication_buffers_ready_slot f).width ≤ 36
unfolding publication_buffers_ready_slot
publication_buffers_ready-inside f = ground arith

publication_buffers_ready-apart :
    (f g : PublicationBuffersReady)
    → f ≢ g
    → SlotsApart (publication_buffers_ready_slot f) (publication_buffers_ready_slot g)
unfolding publication_buffers_ready_slot
publication_buffers_ready-apart f g h = ground arith

unfoldable pub publication_buffers_ready_layout : Layout
unfolding publication_buffers_ready-inside publication_buffers_ready-apart
publication_buffers_ready_layout = record {
  Field = PublicationBuffersReady;
  slot = publication_buffers_ready_slot;
  length = 36;
  inside = publication_buffers_ready-inside;
  apart = publication_buffers_ready-apart;
}

unfoldable pub publication_buffers_ready_text : Text
unfolding publication_buffers_ready_slot publication_buffers_ready_layout
publication_buffers_ready_text = record {
  layout = publication_buffers_ready_layout;
  length_field = PublicationBuffersReady.log_file_name_length;
  is_i32 = refl;
}

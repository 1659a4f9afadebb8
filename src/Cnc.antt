-- ===== src/Cnc.antt =====
-- caeron/cnc: the commands of a client on their way to the driver, through the ring buffer, with the
-- type ids of caeron/command/control_protocol_events.h.
pub mod DriverProxy
pub mod Requests
pub mod ClientCommandAdapter
pub mod Malformed
pub mod Receive
pub mod Delivery
use caeron.Base.{ℕ}

abbrev pub add_publication_id : ℕ
add_publication_id = 1

abbrev pub remove_publication_id : ℕ
remove_publication_id = 2

abbrev pub add_exclusive_publication_id : ℕ
add_exclusive_publication_id = 3

abbrev pub add_subscription_id : ℕ
add_subscription_id = 4

abbrev pub remove_subscription_id : ℕ
remove_subscription_id = 5

abbrev pub client_keepalive_id : ℕ
client_keepalive_id = 6

abbrev pub add_destination_id : ℕ
add_destination_id = 7

abbrev pub remove_destination_id : ℕ
remove_destination_id = 8

abbrev pub add_counter_id : ℕ
add_counter_id = 9

abbrev pub remove_counter_id : ℕ
remove_counter_id = 10

abbrev pub client_close_id : ℕ
client_close_id = 11

abbrev pub add_rcv_destination_id : ℕ
add_rcv_destination_id = 12

abbrev pub remove_rcv_destination_id : ℕ
remove_rcv_destination_id = 13

abbrev pub terminate_driver_id : ℕ
terminate_driver_id = 14

abbrev pub add_static_counter_id : ℕ
add_static_counter_id = 15

abbrev pub reject_image_id : ℕ
reject_image_id = 16

abbrev pub remove_destination_by_id_id : ℕ
remove_destination_by_id_id = 17

abbrev pub get_next_available_session_id_id : ℕ
get_next_available_session_id_id = 18

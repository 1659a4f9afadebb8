-- ===== src/Cnc/Requests.antt =====
-- The commands of a client as values: what they ask the proxy for, and what the driver is to see.
use caeron.Base.{ℕ, ◌+◌}
use caeron.Cnc.DriverProxy.{CString}

-- One constructor for each method of the proxy that takes no flags, key or token.
pub data Request : Type 0 where
  keepalive client_close : Request
  remove_subscription remove_counter next_available_session_id : ℕ → Request
  remove_destination_by_id : ℕ → ℕ → Request
  add_publication add_exclusive_publication add_subscription : CString → ℕ → Request
  add_destination remove_destination : ℕ → CString → Request
  add_rcv_destination remove_rcv_destination : ℕ → CString → Request
  reject_image : ℕ → ℕ → CString → Request

-- The bytes of its message.
unfoldable pub size_of : Request → ℕ
size_of Request.keepalive = 16
size_of Request.client_close = 16
size_of (Request.remove_subscription registration) = 24
size_of (Request.remove_counter registration) = 24
size_of (Request.next_available_session_id stream) = 20
size_of (Request.remove_destination_by_id resource destination) = 32
size_of (Request.add_publication channel stream) = 24 + channel.size
size_of (Request.add_exclusive_publication channel stream) = 24 + channel.size
size_of (Request.add_subscription channel stream) = 32 + channel.size
size_of (Request.add_destination registration channel) = 28 + channel.size
size_of (Request.remove_destination registration channel) = 28 + channel.size
size_of (Request.add_rcv_destination registration channel) = 28 + channel.size
size_of (Request.remove_rcv_destination registration channel) = 28 + channel.size
size_of (Request.reject_image image place reason) = 36 + reason.size

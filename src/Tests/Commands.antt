-- ===== src/Tests/Commands.antt =====
-- Commands of one client through a ring buffer of 512 bytes.
use caeron.Base.{◌≤◌, ◌≡◌, refl, List, [], ◌∷◌, some, arith, ok, Bool, false}
use caeron.Buffer.{Buffer}
use caeron.Buffer.Bytes.{load}
use caeron.Concurrent.Records.Layout.{bytes_of, messages_of}
use caeron.Concurrent.RingBuffer.{RingBuffer}
use caeron.Concurrent.RingBuffer.Contents.{Contents}
use caeron.Cnc.Requests.{Request, size_of}
use caeron.Cnc.DriverProxy.{DriverProxy, CString}
use caeron.Cnc.ClientCommandAdapter.{HandlerCall, Outcome, responses, decode, receive}
use caeron.Cnc.Receive.{Handled, receive_lem}
use caeron.Cnc.Delivery.{IsReady}
use caeron.Cnc.Delivery.Commands.{perform, expected, receive-perform}
use caeron.Tests.Inputs.{zeros}
use caeron.Tests.Rings.{empty_ring, empty_ring-Contents, ring, held, ring-Contents}

abbrev proxy : DriverProxy
proxy = record {
  ring_buffer = empty_ring;
  client_id = 7;
  correlation_counter = 41;
  scratch_address = 0;
  scratch = zeros;
}

-- "aaaaa"
abbrev channel : CString
channel = record { bytes = λ j. 97; size = 5 }

abbrev request : Request
request = Request.add_publication channel 1001

abbrev calm : HandlerCall → Bool
calm call = false

proxy-IsReady : IsReady proxy (size_of request)
unfolding load size_of
proxy-IsReady = record {
  empty = empty_ring-Contents;
  room = refl;
  range = omega arith;
  client = omega arith;
  counter = omega arith;
}

request-short : size_of request ≤ 2048
unfolding size_of
request-short = omega arith

receive-perform_example :
    (p' : DriverProxy) × (r : RingBuffer) × (perform request proxy ≡ ok (some 41, p'))
    × (receive calm p'.ring_buffer
        ≡ ok (responses calm (Outcome.calls 41 (expected request 7 41)), r))
receive-perform_example =
    receive-perform calm request proxy proxy-IsReady request-short (omega arith)

expected_test :
    expected request 7 41
    ≡ HandlerCall.on_add_publication (97 ∷ 97 ∷ 97 ∷ 97 ∷ 97 ∷ []) 1001 41 7 false
unfolding expected bytes_of
expected_test = refl

-- A message of type 5 and three bytes is too short for a removal of a subscription.
receive_lem_example :
    (outcomes : List Outcome) × (r' : RingBuffer) × (receive calm ring ≡ ok (outcomes, r'))
    × Contents r' []
    × Handled calm (messages_of held) outcomes
receive_lem_example = receive_lem calm ring held ring-Contents

abbrev short_message : Buffer
short_message = record { address = 0; capacity = 3; bytes = zeros }

short_test : decode 5 short_message ≡ ok (Outcome.reports 0 4)
unfolding decode
short_test = refl

unknown_test : decode 99 short_message ≡ ok (Outcome.reports 0 3)
unfolding decode
unknown_test = refl

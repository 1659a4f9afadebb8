-- ===== src/Tests/Rings.antt =====
-- A ring buffer of 512 bytes.
use caeron.Base.{
  Bool, Result, ◌>>=◌, ℕ, ◌+◌, ◌-◌, ◌^◌, ◌≤◌, ◌≡◌, refl, List, [], ◌∷◌, ◌++◌, some, none, arith, ok,
  err, Error, true, false, if◌then◌else◌,
}
use caeron.Word.{align}
use caeron.Buffer.{
  get_i64_ordered, put_some_bytes, put_bytes, put_i32, put_i32_ordered, put_i64_ordered,
  get_i32_ordered, get_i32,
}
use caeron.Buffer.Bytes.{Memory, load, store}
use caeron.Concurrent.Records.{Call}
use caeron.Concurrent.Records.Layout.{Entry, bytes_of, end_at, all_delivered, messages_of}
use caeron.Concurrent.Records.Written.{body_of}
use caeron.Concurrent.RingBuffer.{RingBuffer, write, read}
use caeron.Concurrent.RingBuffer.Contents.{IsRing, Contents, bytes_in}
use caeron.Concurrent.RingBuffer.Read.{read_delivers}
use caeron.Concurrent.RingBuffer.Write.{has_room, write_lem}
use caeron.Concurrent.RingBuffer.Order.{Op, run, run_in_order}
use caeron.Concurrent.Broadcast.{BroadcastTransmitter, BroadcastReceiver, transmit, receive}
use caeron.Tests.Inputs.{zeros}

abbrev pub ring_of : Memory → RingBuffer
ring_of m = record {
  buffer = record { address = 0; capacity = 640; bytes = m };
  capacity = 512;
  mask = 511;
  max_msg_length = 64;
}

ring_of-IsRing : (m : Memory) → IsRing (ring_of m)
ring_of-IsRing m = record {
  placed = refl;
  small = omega arith;
  room = refl;
  nonempty = omega arith;
  half = omega arith;
  whole = refl;
  masks = refl;
  max = refl;
}

abbrev pub empty_ring : RingBuffer
empty_ring = ring_of zeros

pub empty_ring-Contents : Contents empty_ring []
unfolding load end_at
empty_ring-Contents = record {
  holding = record {
    ring = ring_of-IsRing zeros;
    entries = tt;
    reaches = refl;
    bounded = omega arith;
    in_range = omega arith;
    on_int = refl;
  };
}

-- One message of three bytes, with type 5, at the start.
abbrev pub ring : RingBuffer
ring = ring_of (store 4 (store 4 (store 8 zeros 64 16) 132 5) 128 11)

abbrev pub held : List Entry
held = Entry.message 5 (0 ∷ 0 ∷ 0 ∷ []) ∷ []

pub ring-Contents : Contents ring held
unfolding load store end_at bytes_of
ring-Contents = record {
  holding = record {
    ring = ring_of-IsRing (bytes_in ring);
    entries = ((refl, refl, refl, omega arith, omega arith), tt);
    reaches = refl;
    bounded = omega arith;
    in_range = omega arith;
    on_int = refl;
  };
}

read_delivers_example :
    (calls : List Call) × (r' : RingBuffer) × (read ring ≡ ok (calls, r'))
    × (all_delivered calls ≡ messages_of held)
    × Contents r' []
    × (r'.capacity ≡ 512)
    × (load 8 (bytes_in r') 64 ≡ load 8 (bytes_in ring) 64)
read_delivers_example = read_delivers ring held ring-Contents

ring-tail : load 8 (bytes_in ring) 64 ≡ 16
unfolding load store
ring-tail = refl

write_lem_example :
    (r' : RingBuffer) × (es' : List Entry) × (write ring 9 (some zeros) 4
      ≡ ok (has_room ring 4, r'))
    × Contents r' es'
    × (messages_of es' ≡ (
        if has_room ring 4
        then messages_of held ++ (9, body_of (some zeros) 4) ∷ []
        else messages_of held))
    × (r'.capacity ≡ 512)
    × (load 8 (bytes_in r') 64 ≤ load 8 (bytes_in ring) 64 + 2 ^ 31)
    × ((has_room ring 4 ≡ false) → r' ≡ ring)
write_lem_example =
    write_lem ring 9 4 (some zeros) held ring-Contents (omega arith) (omega arith)
      (omega (arith, ring-tail))

has_room_test : has_room ring 4 ≡ true
unfolding load store
has_room_test = refl

-- A message of an eighth of the capacity is too long.
long_test : write ring 9 (some zeros) 57 ≡ ok (false, ring)
unfolding write
long_test = refl

padding_type_test : write ring (2 ^ 32 - 1) none 4 ≡ err Error.invalid_argument
unfolding write
padding_type_test = refl

abbrev ops : List Op
ops = Op.put 9 (some (λ j. 1)) 4 ∷ Op.take ∷ Op.put 7 none 2 ∷ []

run_in_order_example :
    (sent received : List (ℕ × List ℕ)) × (r' : RingBuffer) × (es' : List Entry) × (run ops ring
      ≡ ok (sent, received, r'))
    × Contents r' es'
    × (messages_of held ++ sent ≡ received ++ messages_of es')
run_in_order_example =
    run_in_order ops ring held ring-Contents
      (omega arith, omega arith, (omega arith, omega arith, tt)) (omega (arith, ring-tail))

-- A broadcast buffer of 64 bytes, of which the first message takes 48: the second goes round.
abbrev transmitter : BroadcastTransmitter
transmitter = record {
  buffer = record { address = 0; capacity = 128; bytes = zeros };
  capacity = 64;
  mask = 63;
}

abbrev receiver_of : BroadcastTransmitter → ℕ → BroadcastReceiver
receiver_of t tail = record { buffer = t.buffer; capacity = 64; mask = 63; tail = tail }

abbrev second_received : Result (Bool × List (ℕ × List ℕ))
second_received = do
  (first, t) ← transmit transmitter 3 (some (λ j. 1)) 36
  (calls, r) ← receive (receiver_of t 0)
  (second, t) ← transmit (record t { buffer = r.buffer }) 4 (some (λ j. 2)) 5
  (calls', r') ← receive (receiver_of t r.tail)
  ok (second, all_delivered calls')

second_received_test : second_received ≡ ok (true, (4, 2 ∷ 2 ∷ 2 ∷ 2 ∷ 2 ∷ []) ∷ [])
unfolding transmit receive all_delivered bytes_of align get_i64_ordered load put_some_bytes
    put_bytes put_i32 put_i32_ordered put_i64_ordered store get_i32_ordered get_i32
second_received_test = refl

-- ===== src/Cnc/Receive.antt =====
-- Reading commands: every message of the ring buffer is dispatched.
use caeron.Base.{
  ℕ, ◌+◌, ◌/◌, ◌^◌, ◌≤◌, ◌<◌, ◌≡◌, refl, Bool, List, [], ◌∷◌, ◌++◌, length, ok, arith,
}
use caeron.Buffer.{Buffer}
use caeron.Buffer.Bytes.{Memory, load}
use caeron.Concurrent.Records.{Call}
use caeron.Concurrent.Records.Layout.{
  Entry, bytes_of, length-bytes_of, all_delivered, messages_of, width, Entries,
}
use caeron.Concurrent.RingBuffer.{RingBuffer}
use caeron.Concurrent.RingBuffer.Contents.{Contents, bytes_in}
use caeron.Concurrent.RingBuffer.Read.{read_delivers}
use caeron.Cnc.ClientCommandAdapter.{
  HandlerCall, Outcome, decode, responses, dispatch, dispatch_all, receive,
}
use caeron.Cnc.Malformed.{decode-Succeeds}

-- Messages shorter than `max`.
Short : ℕ → List (ℕ × List ℕ) → Type 0
Short max [] = Unit {0}
Short max (m ∷ ms) = (length m.1 < max) × Short max ms

Entries-Short :
    (C : ℕ) (m : Memory) (p : ℕ) (es : List Entry)
    → C ≤ 2 ^ 30
    → Entries 128 C (C / 8) m p es
    → Short (2 ^ 31) (messages_of es)
unfolding Short messages_of
Entries-Short C m p [] half h = tt
Entries-Short C m p (Entry.message t bs ∷ es) half ((l, ty, body, fit, small), hs) =
    (omega arith, Entries-Short C m (p + width 128 C (C / 8) p (Entry.message t bs)) es half hs)
Entries-Short C m p (Entry.padding ∷ es) half (h, hs) =
    Entries-Short C m (p + width 128 C (C / 8) p Entry.padding) es half hs

-- What the messages come to, one after the other: each has a buffer of its bytes, for which
-- `decode` gives an outcome, and its responses stand in front of those of the messages behind it.
unfoldable pub Handled : (HandlerCall → Bool) → List (ℕ × List ℕ) → List Outcome → Type 0
Handled throws [] outcomes = outcomes ≡ []
Handled throws ((t, bs) ∷ ms) outcomes =
    (b : Buffer) × (o : Outcome) × (rest : List Outcome) × (bytes_of b.bytes 0 b.capacity ≡ bs)
    × (decode t b ≡ ok o)
    × (outcomes ≡ responses throws o ++ rest)
    × Handled throws ms rest

dispatch_all-Handled :
    (throws : HandlerCall → Bool) (cs : List Call)
    → Short (2 ^ 31) (all_delivered cs)
    → (outcomes : List Outcome) × (dispatch_all throws cs ≡ ok outcomes)
      × Handled throws (all_delivered cs) outcomes
unfolding dispatch_all dispatch all_delivered Short Handled
dispatch_all-Handled throws [] h = ([], refl, refl)
dispatch_all-Handled throws (c ∷ cs) (short, others) =
    let small : c.message.capacity < 2 ^ 31 =
      omega (arith, length-bytes_of c.message.bytes 0 c.message.capacity) in
    let (o, e) = decode-Succeeds c.message small c.msg_type_id in
    let (rest, e', handled) = dispatch_all-Handled throws cs others in
    (responses throws o ++ rest, rw (e, e') refl, (c.message, o, rest, refl, e, refl, handled))

-- Whatever messages the ring buffer holds, with any types and bytes, and whichever calls the
-- handler throws a std::exception at: a call of receive succeeds and leaves the ring buffer empty.
-- Its outcomes are those of the messages, message by message and in their order: for each, one
-- call of the handler or one of report_error, which also follows a call of the handler that throws.
pub receive_lem :
    (throws : HandlerCall → Bool) (r : RingBuffer) (es : List Entry)
    → Contents r es
    → (outcomes : List Outcome) × (r' : RingBuffer) × (receive throws r ≡ ok (outcomes, r'))
      × Contents r' []
      × Handled throws (messages_of es) outcomes
unfolding receive
receive_lem throws r es c =
    let (cs, r', reads, same, empty, kept, tail) = read_delivers r es c in
    let h = c.holding in
    let short =
      Entries-Short r.capacity (bytes_in r) (load 8 (bytes_in r) 0) es h.ring.half h.entries in
    let (outcomes, e, handled) = dispatch_all-Handled throws cs (rw same short) in
    (outcomes, r', rw (reads, e) refl, empty, rw same at handled)

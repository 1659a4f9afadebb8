-- ===== src/Cnc/Delivery.antt =====
-- A command that is written to an empty ring buffer is the one that is read.
pub mod Fixed
pub mod Texts
pub mod Channels
pub mod Destinations
pub mod Commands
use caeron.Base.{
  ℕ, zero, suc, ◌+◌, ◌-◌, ◌*◌, ◌/◌, ◌%◌, ◌^◌, ◌≤◌, ◌<◌, ◌≡◌, refl, Bool, true, false, not,
  if◌then◌else◌, Option, none, some, List, [], ◌∷◌, ◌++◌, length, Result, ok, err, Error, guard,
  ◌>>=◌, ◌>>◌, arith, ap, sym, ◌∙◌,
}
use mathlib.Core.List.{append-nil}
use native.Mathlib.Nat.{add-zero}
use caeron.Word.{lt32}
use caeron.Buffer.{Buffer}
use caeron.Buffer.Bytes.{Memory, load, load_local}
use caeron.Buffer.Laws.{Fits}
use caeron.Flyweight.{Layout, get}
use caeron.Flyweight.Fields.{get_lem}
use caeron.Concurrent.Records.{Call}
use caeron.Concurrent.Records.Layout.{
  Entry, bytes_of, length-bytes_of, delivered, all_delivered, messages_of,
}
use caeron.Concurrent.Records.Written.{body_of}
use caeron.Concurrent.RingBuffer.{RingBuffer, padding_msg_type_id}
use caeron.Concurrent.RingBuffer.Contents.{Contents, bytes_in}
use caeron.Concurrent.RingBuffer.Read.{read_delivers}
use caeron.Concurrent.RingBuffer.Write.{has_room, write_lem}
use caeron.Cnc.DriverProxy.{DriverProxy, try_send}
use caeron.Cnc.ClientCommandAdapter.{
  HandlerCall, Outcome, responses, decode, dispatch, dispatch_all, receive,
}

-- Two buffers that show the same bytes.
pub record Same (m b : Buffer) : Type 0 where
  pub small : b.capacity < 2 ^ 31
  pub capacity : m.capacity ≡ b.capacity
  pub bytes : (k : ℕ) → k < b.capacity → m.bytes k ≡ b.bytes k

pub get-Same :
    (l : Layout) (f : l.Field) (m b : Buffer)
    → Same m b
    → l.length ≤ b.capacity
    → get l f m 0 ≡ get l f b 0
get-Same l f m b s within = rw (
  get_lem l m 0 (record { small = rw s.capacity s.small; within = omega (arith, s.capacity) }) f,
  get_lem l b 0 (record { small = s.small; within = omega arith }) f,
  load_local (l.slot f).width m.bytes b.bytes (0 + (l.slot f).offset) (0 + (l.slot f).offset)
      (λ k lt.
        ap (λ (x : ℕ). x % 256) (s.bytes (0 + (l.slot f).offset + k) (omega (arith, l.inside f)))),
)

pub long_enough : (m b : Buffer) (n : ℕ) → Same m b → n ≤ b.capacity → lt32 m.capacity n ≡ false
long_enough m b n s h = ground (arith, s.small, s.capacity)

head_of : List ℕ → ℕ
head_of [] = 0
head_of (x ∷ xs) = x

tail_of : List ℕ → List ℕ
tail_of [] = []
tail_of (x ∷ xs) = xs

bytes_of-at :
    (m m' : Memory) (p q n k : ℕ)
    → bytes_of m p n ≡ bytes_of m' q n
    → k < n
    → m (p + k) ≡ m' (q + k)
unfolding bytes_of head_of tail_of
bytes_of-at m m' p q zero k e lt = absurd (omega arith)
bytes_of-at m m' p q (suc n) zero e lt = rw (add-zero p, add-zero q) (ap head_of e)
bytes_of-at m m' p q (suc n) (suc k) e lt =
    let ep : p + suc k ≡ p + 1 + k = omega arith in
    let eq : q + suc k ≡ q + 1 + k = omega arith in
    rw (ep, eq) (bytes_of-at m m' (p + 1) (q + 1) n k (ap tail_of e) (omega arith))

-- One message that was delivered.
only :
    (cs : List Call) (t : ℕ) (bs : List ℕ)
    → all_delivered cs ≡ (t, bs) ∷ []
    → (c : Call) × (cs ≡ c ∷ [])
      × (c.msg_type_id ≡ t)
      × (bytes_of c.message.bytes 0 c.message.capacity ≡ bs)
unfolding all_delivered
only [] t bs e = absurd (cc)
only (c ∷ []) t bs e = (c, refl, cc, cc)
only (c ∷ d ∷ cs) t bs e = absurd (cc)

-- A proxy whose ring buffer is empty and takes a command of `n` bytes, far from the end of the
-- ranges of its counters.
pub record IsReady (p : DriverProxy) (n : ℕ) : Type 0 where
  pub empty : Contents p.ring_buffer []
  pub room : has_room p.ring_buffer n ≡ true
  pub range : load 8 (bytes_in p.ring_buffer) 64 + 2 ^ 31 < 2 ^ 62
  pub client : p.client_id < 2 ^ 64
  pub counter : p.correlation_counter < 2 ^ 63

-- What is sent to an empty ring buffer with room for it is received, whichever calls throw, if
-- every buffer that shows its bytes decodes to `o`.
pub sent_received :
    (throws : HandlerCall → Bool) (p : DriverProxy) (t : ℕ) (b : Buffer) (o : Outcome)
    → Contents p.ring_buffer []
    → t < padding_msg_type_id
    → 8 + b.capacity < 2 ^ 31
    → load 8 (bytes_in p.ring_buffer) 64 + 2 ^ 31 < 2 ^ 62
    → has_room p.ring_buffer b.capacity ≡ true
    → ((m : Buffer) → Same m b → decode t m ≡ ok o)
    → (p' : DriverProxy) × (r : RingBuffer) × (try_send p t b ≡ ok (true, p'))
      × (receive throws p'.ring_buffer ≡ ok (responses throws o, r))
unfolding try_send receive dispatch_all dispatch messages_of
sent_received throws p t b o c typed short range room decodes =
    let (r', es', done, held, messages, kept, near, same) =
      write_lem p.ring_buffer t b.capacity (some b.bytes) [] c typed short range in
    let (cs, r'', reads, delivers, empty, kept', tail) = read_delivers r' es' held in
    let one : messages_of es' ≡ (t, body_of (some b.bytes) b.capacity) ∷ [] =
      messages ∙ rw room refl in
    let (call, single, type, shown) =
      only cs t (body_of (some b.bytes) b.capacity) (delivers ∙ one) in
    let m : Buffer = call.message in
    let sized : m.capacity ≡ b.capacity =
      sym (length-bytes_of m.bytes 0 m.capacity)
      ∙ (ap length shown ∙ length-bytes_of b.bytes 0 b.capacity) in
    let e : Same m b = record {
      small = omega arith;
      capacity = sized;
      bytes = λ k lt.
          let e0 : 0 + k ≡ k = omega arith in
          rw e0 at (bytes_of-at m.bytes b.bytes 0 0 b.capacity k (rw sized at shown) lt);
    } in
    (
      record p { ring_buffer = r'; scratch = b.bytes },
      r'',
      rw (done, room) refl,
      rw (reads, single, type, decodes m e, append-nil (responses throws o)) refl,
    )

-- ===== src/Concurrent/RingBuffer/Order.antt =====
-- Any sequence of writes and reads: what was accepted is delivered once and in order.
use caeron.Base.{
  ℕ, ◌+◌, ◌*◌, ◌^◌, ◌<◌, ◌≡◌, refl, Bool, true, false, if◌then◌else◌, Option, List, [], ◌∷◌, ◌++◌,
  length, Result, ok, ◌>>=◌, arith, ap, ◌∙◌, sym,
}
use mathlib.Core.List.{append-nil, append_assoc}
use caeron.Buffer.Bytes.{Memory, load}
use caeron.Concurrent.Records.Layout.{Entry, all_delivered, messages_of}
use caeron.Concurrent.Records.Written.{body_of}
use caeron.Concurrent.RingBuffer.{RingBuffer, padding_msg_type_id, write, read}
use caeron.Concurrent.RingBuffer.Contents.{Contents, bytes_in}
use caeron.Concurrent.RingBuffer.Read.{read_delivers}
use caeron.Concurrent.RingBuffer.Write.{has_room, write_lem}

abbrev Messages : Type 0
Messages = List (ℕ × List ℕ)

pub data Op : Type 0 where
  put : ℕ → Option Memory → ℕ → Op
  take : Op

-- The messages that the writes accepted, those that the reads delivered, and the ring buffer.
unfoldable pub run : List Op → RingBuffer → Result (Messages × Messages × RingBuffer)
unfolding all_delivered
run [] r = ok ([], [], r)
run (Op.put t src n ∷ ops) r = do
  (accepted, r') ← write r t src n
  (sent, received, r'') ← run ops r'
  ok (if accepted then (t, body_of src n) ∷ sent else sent, received, r'')
run (Op.take ∷ ops) r = do
  (calls, r') ← read r
  (sent, received, r'') ← run ops r'
  ok (sent, all_delivered calls ++ received, r'')

appended_last :
    (b : Bool) (ms : Messages) (x : ℕ × List ℕ) (sent after : Messages)
    → after ≡ (if b then ms ++ x ∷ [] else ms)
    → ms ++ (if b then x ∷ sent else sent) ≡ after ++ sent
appended_last true ms x sent after e = rw e (sym (append_assoc ms (x ∷ []) sent))
appended_last false ms x sent after e = rw e refl

-- No message has the type of the padding, or a length near the end of its range.
abbrev pub AreMessages : List Op → Type 0
AreMessages [] = Unit {0}
AreMessages (Op.put t src n ∷ ops) = (t < padding_msg_type_id) × (8 + n < 2 ^ 31) × AreMessages ops
AreMessages (Op.take ∷ ops) = AreMessages ops

-- From a ring buffer that holds the records `es`, any sequence of writes and reads succeeds, while
-- the tail cannot reach the end of its range. The messages held at first and behind them those
-- that the writes accepted are, in this order, the messages that the reads delivered and behind
-- them those still held.
pub run_in_order :
    (ops : List Op) (r : RingBuffer) (es : List Entry)
    → Contents r es
    → AreMessages ops
    → load 8 (bytes_in r) 64 + 2 ^ 31 * length ops < 2 ^ 62
    → (sent : Messages) × (received : Messages) × (r' : RingBuffer) × (es' : List Entry) × (run ops
          r
        ≡ ok (sent, received, r'))
      × Contents r' es'
      × (messages_of es ++ sent ≡ received ++ messages_of es')
unfolding run messages_of
run_in_order [] r es c typed range = ([], [], r, es, refl, c, append-nil (messages_of es))
run_in_order (Op.put t src n ∷ ops) r es c (typed, short, others) range =
    let (r', es1, done, held, messages, kept, near, same) =
      write_lem r t n src es c typed short (omega arith) in
    let (sent, received, r'', es', ran, held', in_order) =
      run_in_order ops r' es1 held others (omega arith) in
    (
      (if has_room r n then (t, body_of src n) ∷ sent else sent),
      received,
      r'',
      es',
      rw (done, ran) refl,
      held',
      appended_last (has_room r n) (messages_of es) (t, body_of src n) sent (messages_of es1)
            messages
          ∙ in_order,
    )
run_in_order (Op.take ∷ ops) r es c typed range =
    let (calls, r', done, delivered, held, kept, same) = read_delivers r es c in
    let (sent, received, r'', es', ran, held', in_order) =
      run_in_order ops r' [] held typed (omega arith) in
    (
      sent,
      all_delivered calls ++ received,
      r'',
      es',
      rw (done, ran) refl,
      held',
      rw (delivered, append_assoc (messages_of es) received (messages_of es'))
          (ap (λ (ms : Messages). messages_of es ++ ms) in_order),
    )

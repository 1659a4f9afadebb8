-- ===== src/Concurrent/RingBuffer/Write.antt =====
-- What a write does: the message is behind the others, or the ring buffer is as before.
use caeron.Base.{
  ℕ, ◌+◌, ◌-◌, ◌/◌, ◌%◌, ◌^◌, ◌≤◌, ◌<◌, ◌≡◌, inl, inr, refl, List, [], ◌∷◌, ◌++◌, Option, true,
  false, leb, lt→ltb, le→ltb, le→leb, lt→leb, ◌==◌, ◌&&◌, Bool-cases, Bool, if◌then◌else◌, ok,
  arith, ap, ◌∙◌,
}
use native.Mathlib.Decide.{dec_le}
use caeron.Word.{add32, is_neg32, lt32}
use caeron.Buffer.Bytes.{Memory, load, load_local, load-store_self, load-store_elsewhere}
use caeron.Concurrent.Records.Layout.{Entry, le-end_at, messages_of}
use caeron.Concurrent.Records.Frame.{end_at-whole}
use caeron.Concurrent.Records.Written.{body_of}
use caeron.Concurrent.RingBuffer.{RingBuffer, padding_msg_type_id, write}
use caeron.Concurrent.RingBuffer.Contents.{IsRing, Contents, bytes_in, required_lem}
use caeron.Concurrent.RingBuffer.Claim.{
  goes_round, needed, needed_bounds, moved, claim_lem, counted-Holding,
}
use caeron.Concurrent.RingBuffer.Publish.{
  Published, published, publish_lem, published_fitting, published_round,
}

load_below :
    (m m' : Memory) (o : ℕ)
    → o + 8 ≤ 128
    → ((j : ℕ) → j < 128 → m j ≡ m' j)
    → load 8 m o ≡ load 8 m' o
load_below m m' o h same =
    load_local 8 m m' o o (λ i lt. ap (λ (x : ℕ). x % 256) (same (o + i) (omega arith)))

-- The capacity left for a message: whether a write of `n` bytes is accepted.
abbrev pub has_room : RingBuffer → ℕ → Bool
has_room r n =
    let head : ℕ = load 8 (bytes_in r) 0 in
    let tail : ℕ = load 8 (bytes_in r) 64 in
    leb (8 + n) (r.capacity / 8) && leb (needed r tail n) (r.capacity - (tail - head))

refused_long :
    (r : RingBuffer) (t n : ℕ) (src : Option Memory)
    → IsRing r
    → t < padding_msg_type_id
    → 8 + n < 2 ^ 31
    → r.capacity / 8 < 8 + n
    → write r t src n ≡ ok (false, r)
unfolding write
refused_long r t n src valid typed fits long =
    let e1 : (t == padding_msg_type_id) ≡ false = ground arith in
    let e2 : is_neg32 n ≡ false = ground arith in
    let e3 : add32 8 n ≡ 8 + n = omega arith in
    let e4 : lt32 r.max_msg_length (8 + n) ≡ true = rw valid.max (ground (arith, valid.half)) in
    rw (e1, e2, e3, e4) refl

module _ (r : RingBuffer) (t n : ℕ) (src : Option Memory) (es : List Entry) (c : Contents r es)
    (typed : t < padding_msg_type_id) (short : 8 + n ≤ r.capacity / 8) where
  refused_full :
      (let head : ℕ = load 8 (bytes_in r) 0 in
        let tail : ℕ = load 8 (bytes_in r) 64 in
        r.capacity - (tail - head) < needed r tail n → write r t src n ≡ ok (false, r))
  unfolding write
  refused_full full =
      let valid = c.holding.ring in
      let tail : ℕ = load 8 (bytes_in r) 64 in
      let e1 : (t == padding_msg_type_id) ≡ false = ground arith in
      let e2 : is_neg32 n ≡ false = ground (arith, valid.half) in
      let e3 : add32 8 n ≡ 8 + n = omega (arith, valid.half) in
      let e4 : lt32 r.max_msg_length (8 + n) ≡ false = rw valid.max (ground (arith, valid.half)) in
      let e5 = lt→ltb (r.capacity - (tail - load 8 (bytes_in r) 0)) (needed r tail n) full in
      let claimed = claim_lem r es n short c.holding in
      rw (e1, e2, e3, e4, required_lem n (omega (arith, valid.half)), claimed, e5) refl

  accepted :
      (let head : ℕ = load 8 (bytes_in r) 0 in
        let tail : ℕ = load 8 (bytes_in r) 64 in
        needed r tail n ≤ r.capacity - (tail - head)
        → tail + 2 ^ 31 < 2 ^ 62
        → (r' : RingBuffer) × (es' : List Entry) × (write r t src n ≡ ok (true, r'))
          × Contents r' es'
          × (messages_of es' ≡ messages_of es ++ (t, body_of src n) ∷ [])
          × (r'.capacity ≡ r.capacity)
          × (load 8 (bytes_in r') 64 ≤ tail + 2 ^ 31))
  unfolding write
  accepted room range =
      let h = c.holding in
      let valid = h.ring in
      let m : Memory = bytes_in r in
      let C : ℕ = r.capacity in
      let head : ℕ = load 8 m 0 in
      let tail : ℕ = load 8 m 64 in
      let (pos, narrow) = needed_bounds r valid tail n short in
      let next : ℕ = tail + needed r tail n in
      let r1 : RingBuffer = record r { buffer = moved r.buffer next } in
      let h1 = counted-Holding r head tail next es h in
      let m' : Memory = published r1 tail t src n in
      let r' : RingBuffer = record r { buffer = record r1.buffer { bytes = m' } } in
      let whole : C % 4 ≡ 0 = omega (arith, valid.whole) in
      let s : (tail % C) % 4 ≡ 0 =
        rw h.reaches at
          (end_at-whole 128 C (C / 8) valid.nonempty m head es whole h.on_int h.entries) in
      let below = le-end_at 128 C (C / 8) head es in
      let free : next ≤ head + C = omega (arith, h.reaches, h.bounded) in
      let p : Published r1 head next t (body_of src n) es m' =
        elim (Bool-cases (goes_round r tail n)) [
          | inl round ↦
              published_round r1 head tail t src n es h1 (omega arith) short (omega arith) free s
                round
          | inr fits ↦
              published_fitting r1 head tail t src n es h1 (omega arith) short (omega arith) free s
                fits
        ] in
      let starts : load 8 m' 0 ≡ head =
        load_below m' (bytes_in r1) 0 (omega arith) p.below
        ∙ load-store_elsewhere 8 8 m 0 64 next (inl (omega arith)) in
      let ends : load 8 m' 64 ≡ next =
        load_below m' (bytes_in r1) 64 (omega arith) p.below
        ∙ load-store_self 8 m 64 next (omega arith) in
      let e1 : (t == padding_msg_type_id) ≡ false = ground arith in
      let e2 : is_neg32 n ≡ false = ground (arith, valid.half) in
      let e3 : add32 8 n ≡ 8 + n = omega (arith, valid.half) in
      let e4 : lt32 r.max_msg_length (8 + n) ≡ false = rw valid.max (ground (arith, valid.half)) in
      let e5 = le→ltb (C - (tail - head)) (needed r tail n) room in
      let claimed = claim_lem r es n short h in
      (
        r',
        p.entries,
        rw
            (
              e1,
              e2,
              e3,
              e4,
              required_lem n (omega (arith, valid.half)),
              claimed,
              e5,
              e3,
              publish_lem r1 h1.ring tail t src n s short,
            )
            refl,
        record { holding = rw (starts, ends) p.holding },
        p.messages,
        refl,
        rw ends (omega arith),
      )

-- On a ring buffer that holds the records `es`, whose tail is not near the end of its range, a
-- write of `n` bytes with a type other than the padding's succeeds. It returns whether the message
-- is no longer than allowed and the space that it needs, padding included, is free. If so, the
-- ring buffer then holds the messages of `es` and behind them the new one, with its type and its
-- bytes; if not, it is as before.
pub write_lem :
    (r : RingBuffer) (t n : ℕ) (src : Option Memory) (es : List Entry)
    → Contents r es
    → t < padding_msg_type_id
    → 8 + n < 2 ^ 31
    → load 8 (bytes_in r) 64 + 2 ^ 31 < 2 ^ 62
    → (r' : RingBuffer) × (es' : List Entry) × (write r t src n ≡ ok (has_room r n, r'))
      × Contents r' es'
      × (messages_of es'
          ≡ (if has_room r n then messages_of es ++ (t, body_of src n) ∷ [] else messages_of es))
      × (r'.capacity ≡ r.capacity)
      × (load 8 (bytes_in r') 64 ≤ load 8 (bytes_in r) 64 + 2 ^ 31)
      × ((has_room r n ≡ false) → r' ≡ r)
write_lem r t n src es c typed fits range =
    let free : ℕ = r.capacity - (load 8 (bytes_in r) 64 - load 8 (bytes_in r) 0) in
    let space : ℕ = needed r (load 8 (bytes_in r) 64) n in
    elim (dec_le (8 + n) (r.capacity / 8)) [
      | yes short ↦ elim (dec_le space free) [
        | yes room ↦
            let (r', es', done, held, messages, kept, near) =
              accepted r t n src es c typed short room range in
            let yes_room : has_room r n ≡ true =
              rw (le→leb (8 + n) (r.capacity / 8) short, le→leb space free room) refl in
            (
              r',
              es',
              rw yes_room done,
              held,
              rw yes_room messages,
              kept,
              near,
              λ no_room. ground arith,
            )
        | no full ↦
            let no_room : has_room r n ≡ false =
              rw (le→leb (8 + n) (r.capacity / 8) short, lt→leb space free (omega arith)) refl in
            (
              r,
              es,
              rw no_room (refused_full r t n src es c typed short (omega arith)),
              c,
              rw no_room refl,
              refl,
              omega arith,
              λ f. refl,
            )
      ]
      | no long ↦
          let no_room : has_room r n ≡ false =
            rw (lt→leb (8 + n) (r.capacity / 8) (omega arith)) refl in
          (
            r,
            es,
            rw no_room (refused_long r t n src c.holding.ring typed fits (omega arith)),
            c,
            rw no_room refl,
            refl,
            omega arith,
            λ f. refl,
          )
    ]

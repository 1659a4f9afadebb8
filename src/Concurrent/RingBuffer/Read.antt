-- ===== src/Concurrent/RingBuffer/Read.antt =====
-- A read delivers the messages of the ring buffer in their order, and empties it.
use caeron.Base.{
  ℕ, zero, suc, ◌+◌, ◌-◌, ◌/◌, ◌%◌, ◌≤◌, ◌<◌, ◌≡◌, inl, inr, refl, List, [], ◌∷◌, length, arith, ap,
  ◌∙◌, sym, false, Bool-cases, ==_iff, ◌==◌, ok,
}
use native.Mathlib.Nat.{mod-lt}
use caeron.Word.{lt64}
use caeron.Buffer.{Buffer}
use caeron.Buffer.Bytes.{
  Memory, load, store, store_outside, load_local, load-store_elsewhere, load-store_self,
}
use caeron.Buffer.Laws.{get_i64_ordered_lem, put_i64_ordered_lem}
use caeron.Concurrent.Records.{Call, message_at}
use caeron.Concurrent.Records.Layout.{
  Entry, bytes_of-view, all_delivered, messages_of, width, end_at, le-end_at, record_space,
}
use caeron.Concurrent.Records.Frame.{
  Holds-width, next_whole, width-whole, width-least, end_at-whole, Entries-kept_before,
}
use caeron.Concurrent.RingBuffer.{RingBuffer, read_loop, read}
use caeron.Concurrent.RingBuffer.Contents.{IsRing-at, Holding, Contents, bytes_in, index_lem}
use caeron.Concurrent.RingBuffer.Rounds.{cleared, cleared-IsRing, message_round, padding_round}

-- What a buffer keeps while the records are cleared.
pub record Kept (b b' : Buffer) : Type 0 where
  pub address : b'.address ≡ b.address
  pub capacity : b'.capacity ≡ b.capacity
  pub below : (j : ℕ) → j < 128 → b'.bytes j ≡ b.bytes j

cleared-Holding :
    (r : RingBuffer) (p tail : ℕ) (e : Entry) (es : List Entry)
    → Holding r p tail (e ∷ es)
    → Holding (cleared r p) (p + width 128 r.capacity (r.capacity / 8) p e) tail es
unfolding end_at
cleared-Holding r p tail e es h =
    let C : ℕ = r.capacity in
    let max : ℕ = C / 8 in
    let v = h.ring in
    let (first, others) = h.entries in
    let w : ℕ = width 128 C max p e in
    let whole : C % 4 ≡ 0 = omega (arith, v.whole) in
    let fit = Holds-width 128 C max v.nonempty (bytes_in r) p e first in
    let next =
      next_whole 128 C max v.nonempty p w h.on_int
        (width-whole 128 C max v.nonempty p e h.on_int whole) fit in
    record {
      ring = cleared-IsRing r p v;
      entries =
          Entries-kept_before 128 C max v.nonempty (bytes_in r) (bytes_in (cleared r p)) p 4
            (λ j low out. store_outside 4 (bytes_in r) (128 + p % C) 0 j out) whole (p + w) es next
            (omega (arith, width-least 128 C max v.nonempty p e h.on_int whole))
            (omega (arith, h.reaches, h.bounded)) others;
      reaches = h.reaches;
      bounded = omega (arith, h.bounded);
      in_range = h.in_range;
      on_int = next;
    }

stopped :
    (fuel : ℕ) (r : RingBuffer) (p tail : ℕ)
    → p ≡ tail
    → read_loop (suc fuel) r p (p % r.capacity) tail ≡ ok (tail, r.buffer, [])
unfolding read_loop
stopped fuel r p tail e = let e' : lt64 tail tail ≡ false = ground arith in rw (e, e')

Kept-first : (r : RingBuffer) (p : ℕ) (b : Buffer) → Kept (cleared r p).buffer b → Kept r.buffer b
Kept-first r p b k = record {
  address = k.address;
  capacity = k.capacity;
  below = λ j lt.
      k.below j lt ∙ store_outside 4 (bytes_in r) (128 + p % r.capacity) 0 j (inl (omega arith));
}

delivers :
    (fuel : ℕ) (r : RingBuffer) (p tail : ℕ) (es : List Entry)
    → Holding r p tail es
    → tail < p + fuel
    → (b : Buffer) × (calls : List Call) × (read_loop fuel r p (p % r.capacity) tail
        ≡ ok (tail, b, calls))
      × (all_delivered calls ≡ messages_of es)
      × Kept r.buffer b
unfolding end_at all_delivered messages_of
delivers zero r p tail es h more =
    absurd (omega (arith, le-end_at 128 r.capacity (r.capacity / 8) p es, h.reaches))
delivers (suc fuel) r p tail [] h more = (
  r.buffer,
  [],
  stopped fuel r p tail h.reaches,
  refl,
  record { address = refl; capacity = refl; below = λ j lt. refl },
)
delivers (suc fuel) r p tail (Entry.message t bs ∷ es) h more =
    let C : ℕ = r.capacity in
    let n : ℕ = length bs in
    let next = cleared-Holding r p tail (Entry.message t bs) es h in
    let last = le-end_at 128 C (C / 8) (p + record_space n) es in
    let (b, calls, rest, same, kept) =
      delivers fuel (cleared r p) (p + record_space n) tail es next (omega arith) in
    let before : p < tail = omega (arith, next.reaches) in
    let (holds, others) = h.entries in
    let (l, ty, body, fit, small) = holds in
    let seen = bytes_of-view (bytes_in r) (128 + p % C + 8) n ∙ body in
    (
      b,
      message_at r.buffer (128 + p % C + 8) t n ∷ calls,
      message_round fuel r h.ring p tail before h.in_range h.on_int t bs tail b calls holds rest,
      rw (seen, same) refl,
      Kept-first r p b kept,
    )
delivers (suc fuel) r p tail (Entry.padding ∷ es) h more =
    let C : ℕ = r.capacity in
    let inside = mod-lt p {m = C} h.ring.nonempty in
    let next = cleared-Holding r p tail Entry.padding es h in
    let last = le-end_at 128 C (C / 8) (p + (C - p % C)) es in
    let (b, calls, rest, same, kept) =
      delivers fuel (cleared r p) (p + (C - p % C)) tail es next (omega arith) in
    let before : p < tail = omega (arith, next.reaches) in
    (
      b,
      calls,
      padding_round fuel r h.ring p tail before h.in_range h.on_int tail b calls h.entries.0 rest,
      same,
      Kept-first r p b kept,
    )

emptied-Holding :
    (r : RingBuffer) (p tail : ℕ) (es : List Entry) (b : Buffer)
    → Holding r p tail es
    → b.address ≡ r.buffer.address
    → b.capacity ≡ r.buffer.capacity
    → Holding (record r { buffer = b }) tail tail []
unfolding end_at
emptied-Holding r p tail es b h a c =
    let v = h.ring in
    let whole : r.capacity % 4 ≡ 0 = omega (arith, v.whole) in
    let end =
      end_at-whole 128 r.capacity (r.capacity / 8) v.nonempty (bytes_in r) p es whole h.on_int
        h.entries in
    record {
      ring = IsRing-at r b v a c;
      entries = tt;
      reaches = refl;
      bounded = omega arith;
      in_range = h.in_range;
      on_int = rw h.reaches at end;
    }

Kept-word : (b b' : Buffer) (o : ℕ) → Kept b b' → o + 8 ≤ 128 → load 8 b'.bytes o ≡ load 8 b.bytes o
Kept-word b b' o k h =
    load_local 8 b'.bytes b.bytes o o
      (λ i lt. ap (λ (x : ℕ). x % 256) (k.below (o + i) (omega arith)))

-- Where both words are the tail, nothing is held.
empty_at :
    (r : RingBuffer) (tail : ℕ)
    → load 8 (bytes_in r) 0 ≡ tail
    → load 8 (bytes_in r) 64 ≡ tail
    → Holding r tail tail []
    → Contents r []
empty_at r tail e e' h = record { holding = rw (e, e') h }

-- On a ring buffer that holds the records `es`, a read succeeds: it calls the handler with the
-- messages of `es`, each with its type and its bytes, in their order; the ring buffer is then
-- empty, with the same capacity and the same tail.
pub read_delivers :
    (r : RingBuffer) (es : List Entry)
    → Contents r es
    → (calls : List Call) × (r' : RingBuffer) × (read r ≡ ok (calls, r'))
      × (all_delivered calls ≡ messages_of es)
      × Contents r' []
      × (r'.capacity ≡ r.capacity)
      × (load 8 (bytes_in r') 64 ≡ load 8 (bytes_in r) 64)
unfolding read
read_delivers r es c =
    let h = c.holding in
    let m : Memory = bytes_in r in
    let head : ℕ = load 8 m 0 in
    let tail : ℕ = load 8 m 64 in
    let (b, calls, reads, same, kept) =
      delivers (suc r.capacity) r head tail es h (omega (arith, h.bounded)) in
    let first =
      get_i64_ordered_lem r.buffer 0
        (record { small = h.ring.small; within = omega (arith, h.ring.room) })
        (omega (arith, h.ring.placed)) in
    let second =
      get_i64_ordered_lem r.buffer 64
        (record { small = h.ring.small; within = omega (arith, h.ring.room) })
        (omega (arith, h.ring.placed)) in
    let ends = Kept-word r.buffer b 64 kept (omega arith) in
    elim (Bool-cases (tail == head)) [
      | inl still ↦
          let e : head ≡ tail = sym ((==_iff tail head).0 still) in
          let r' : RingBuffer = record r { buffer = b } in
          let starts = Kept-word r.buffer b 0 kept (omega arith) ∙ e in
          (
            calls,
            r',
            rw (first, second, index_lem r h.ring head, reads, still) refl,
            same,
            empty_at r' tail starts ends
                (emptied-Holding r head tail es b h kept.address kept.capacity),
            refl,
            ends,
          )
      | inr moved ↦
          let b' : Buffer = record b { bytes = store 8 b.bytes 0 tail } in
          let r' : RingBuffer = record r { buffer = b' } in
          let writes =
            put_i64_ordered_lem b 0 tail
              (record {
                small = rw kept.capacity h.ring.small;
                within = omega (arith, kept.capacity, h.ring.room);
              })
              (omega (arith, kept.address, h.ring.placed)) in
          let ends' = load-store_elsewhere 8 8 b.bytes 64 0 tail (inr (omega arith)) ∙ ends in
          (
            calls,
            r',
            rw (first, second, index_lem r h.ring head, reads, moved, writes) refl,
            same,
            empty_at r' tail (load-store_self 8 b.bytes 0 tail (omega (arith, h.in_range))) ends'
                (emptied-Holding r head tail es b' h kept.address kept.capacity),
            refl,
            ends',
          )
    ]

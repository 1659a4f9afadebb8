-- ===== src/Concurrent/RingBuffer/Publish.antt =====
-- The records that the second half of a write leaves.
use caeron.Base.{
  ℕ, ◌+◌, ◌-◌, ◌/◌, ◌%◌, ◌^◌, ◌≤◌, ◌<◌, ◌≡◌, inl, inr, refl, List, [], ◌∷◌, ◌++◌, Option, true,
  false, Bool-cases, if◌then◌else◌, ok, length, arith, ◌∙◌,
}
use native.Mathlib.Nat.{mod-lt}
use caeron.Word.{sub32, add32, neg32}
use caeron.Buffer.{Buffer}
use caeron.Buffer.Bytes.{Memory, store, store_outside, fill, load-store_self}
use caeron.Buffer.Laws.{Fits, copied, put_some_bytes_lem, put_i32_lem, put_i32_ordered_lem}
use caeron.Concurrent.Records.Layout.{
  Entry, messages_of, messages_of-append, messages_of-padded, record_space, mod_round,
}
use caeron.Concurrent.Records.Written.{
  body_of, length-body_of, copied-outside, copied-body, set_memory_lem, IsWritten, headed,
}
use caeron.Concurrent.RingBuffer.{RingBuffer, put_msg_header_and_body, put_padding_record, publish}
use caeron.Concurrent.RingBuffer.Contents.{
  IsRing, IsRing-at, Holding, bytes_in, index_lem, place_lem,
}
use caeron.Concurrent.RingBuffer.Claim.{
  left_at, goes_round, needed, wraps_lem, to_buffer_end_lem, appended-Holding,
}

-- The record at index `i`, as the function writes it.
abbrev pub record_bytes : Memory → ℕ → ℕ → Option Memory → ℕ → Memory
record_bytes m at t src n =
    store 4 (store 4 (copied (fill m (at + 8) n 0) (at + 8) src n) (at + 4) t) at (8 + n)

record_bytes-IsWritten :
    (m : Memory) (at t : ℕ) (src : Option Memory) (n : ℕ)
    → t < 2 ^ 32
    → 8 + n < 2 ^ 32
    → IsWritten m (record_bytes m at t src n) at t n (body_of src n)
record_bytes-IsWritten m at t src n small short =
    headed m (copied (fill m (at + 8) n 0) (at + 8) src n) at t n (body_of src n) small short
      (copied-body m (at + 8) src n)
      (λ j out. copied-outside (fill m (at + 8) n 0) (at + 8) src n j (omega arith) ∙ ground arith)

module _ (r : RingBuffer) (valid : IsRing r) where
  put_msg_lem :
      (i t : ℕ) (src : Option Memory) (n : ℕ)
      → i % 4 ≡ 0
      → i + (8 + n) ≤ r.capacity
      → put_msg_header_and_body r.buffer i (8 + n) t src n
        ≡ ok (record r.buffer { bytes = record_bytes (bytes_in r) (128 + i) t src n })
  unfolding put_msg_header_and_body
  put_msg_lem i t src n s fits =
      let at : ℕ = 128 + i in
      let b : Buffer = r.buffer in
      let e4 : add32 at 4 ≡ at + 4 = omega (arith, valid.half) in
      let e8 : add32 at 8 ≡ at + 8 = omega (arith, valid.half) in
      let en : sub32 (8 + n) 8 ≡ n = omega (arith, valid.half) in
      let filled : Memory = fill b.bytes (at + 8) n 0 in
      let full : Memory = copied filled (at + 8) src n in
      let body-Fits : Fits b (at + 8) n = record {
        small = valid.small;
        within = omega (arith, valid.room);
      } in
      rw (
        place_lem r valid i (omega arith),
        e8,
        en,
        set_memory_lem b (at + 8) n body-Fits,
        put_some_bytes_lem (record b { bytes = filled }) (at + 8) src n
            (record { small = valid.small; within = body-Fits.within }),
        e4,
        put_i32_lem (record b { bytes = full }) (at + 4) t
            (record { small = valid.small; within = omega (arith, valid.room) }),
        put_i32_ordered_lem (record b { bytes = store 4 full (at + 4) t }) at (8 + n)
            (record { small = valid.small; within = omega (arith, valid.room) })
            (omega (arith, valid.placed)),
      )

abbrev pub padded : RingBuffer → ℕ → Memory
padded r tail = store 4 (bytes_in r) (128 + tail % r.capacity) (2 ^ 32 - left_at r tail)

-- The memory after the second half of a write.
abbrev pub published : RingBuffer → ℕ → ℕ → Option Memory → ℕ → Memory
published r tail t src n =
    if goes_round r tail n
    then record_bytes (padded r tail) 128 t src n
    else record_bytes (bytes_in r) (128 + tail % r.capacity) t src n

-- A message that was written behind the others is held.
message-appended :
    (r : RingBuffer) (p q t n : ℕ) (bs : List ℕ) (es : List Entry) (m : Memory)
    → Holding r p q es
    → IsWritten (bytes_in r) m (128 + q % r.capacity) t n bs
    → length bs ≡ n
    → q % r.capacity + record_space n ≤ r.capacity
    → 8 + n ≤ r.capacity / 8
    → q + record_space n ≤ p + r.capacity
    → q + record_space n < 2 ^ 62
    → Holding
        (record r { buffer = record r.buffer { bytes = m } })
        p
        (q + record_space n)
        (es ++ Entry.message t bs ∷ [])
message-appended r p q t n bs es m h w e fit short round range = rw e at (
    appended-Holding r p q (8 + n) es (Entry.message t bs) m h
      (λ j low out. w.outside j (omega arith)) (omega arith)
      (rw e w.length_word, w.type_word, rw e w.body, rw e fit, rw e short) (rw e (omega arith))
      (rw e round) (rw e range))

module _ (r : RingBuffer) (valid : IsRing r) (tail t : ℕ) (src : Option Memory) (n : ℕ) where
  pub publish_lem :
      (tail % r.capacity) % 4 ≡ 0
      → 8 + n ≤ r.capacity / 8
      → publish r tail (8 + n) t src n ≡ ok (record r.buffer { bytes = published r tail t src n })
  unfolding publish put_padding_record
  publish_lem s short =
      let C : ℕ = r.capacity in
      let inside = mod-lt tail {m = C} valid.nonempty in
      let place : ℕ = 128 + tail % C in
      let e : neg32 (left_at r tail) ≡ 2 ^ 32 - left_at r tail =
        omega (arith, valid.half, inside) in
      let padding =
        put_i32_ordered_lem r.buffer place (2 ^ 32 - left_at r tail)
          (record { small = valid.small; within = omega (arith, valid.room, valid.whole, inside) })
          (omega (arith, valid.placed)) in
      let second : RingBuffer = record r { buffer = record r.buffer { bytes = padded r tail } } in
      elim (Bool-cases (goes_round r tail n)) [
        | inl round ↦
            rw
              (
                wraps_lem r valid tail n short,
                round,
                to_buffer_end_lem r valid tail n short,
                index_lem r valid tail,
                place_lem r valid (tail % C) (omega (arith, inside)),
                e,
                padding,
                put_msg_lem second (IsRing-at r second.buffer valid refl refl) 0 t src n
                    (omega arith) (omega arith),
              )
              refl
        | inr fits ↦
            rw
              (
                wraps_lem r valid tail n short,
                fits,
                index_lem r valid tail,
                put_msg_lem r valid (tail % C) t src n s (ground (arith, inside)),
              )
              refl
      ]

-- What is held after the second half of a write, the words in front of the region staying.
pub record Published (r : RingBuffer) (p tail t : ℕ) (bs : List ℕ) (es : List Entry) (m : Memory)
    : Type 0 where
  pub entries : List Entry
  pub holding : Holding (record r { buffer = record r.buffer { bytes = m } }) p tail entries
  pub messages : messages_of entries ≡ messages_of es ++ (t, bs) ∷ []
  pub below : (j : ℕ) → j < 128 → m j ≡ bytes_in r j

module _ (r : RingBuffer) (p tail t : ℕ) (src : Option Memory) (n : ℕ) (es : List Entry)
    (h : Holding r p tail es) (small : t < 2 ^ 32) (short : 8 + n ≤ r.capacity / 8)
    (range : tail + needed r tail n < 2 ^ 62) (room : tail + needed r tail n ≤ p + r.capacity)
    (s : (tail % r.capacity) % 4 ≡ 0) where
  pub published_fitting :
      goes_round r tail n ≡ false
      → Published r p (tail + needed r tail n) t (body_of src n) es (published r tail t src n)
  unfolding messages_of
  published_fitting fits =
      let C : ℕ = r.capacity in
      let m : Memory = bytes_in r in
      let valid = h.ring in
      let inside = mod-lt tail {m = C} valid.nonempty in
      let place : ℕ = 128 + tail % C in
      let bs : List ℕ = body_of src n in
      let w = record_bytes-IsWritten m place t src n small (omega (arith, valid.half)) in
      let new : List Entry = Entry.message t bs ∷ [] in
      let r_needed : needed r tail n ≡ record_space n = rw fits refl in
      rw fits (record {
        entries = es ++ new;
        holding =
            message-appended r p tail t n bs es (record_bytes m place t src n) h w
              (length-body_of src n) (ground (arith, valid.whole)) short (rw r_needed at room)
              (rw r_needed at range);
        messages = messages_of-append es new;
        below = λ j lt. w.outside j (inl (omega arith));
      })

  pub published_round :
      goes_round r tail n ≡ true
      → Published r p (tail + needed r tail n) t (body_of src n) es (published r tail t src n)
  unfolding messages_of
  published_round round =
      let C : ℕ = r.capacity in
      let m : Memory = bytes_in r in
      let valid = h.ring in
      let inside = mod-lt tail {m = C} valid.nonempty in
      let left : ℕ = left_at r tail in
      let place : ℕ = 128 + tail % C in
      let bs : List ℕ = body_of src n in
      let pad : Memory = padded r tail in
      let new : List Entry = Entry.message t bs ∷ [] in
      let skipped : List Entry = es ++ Entry.padding ∷ [] in
      let r_needed : needed r tail n ≡ left + record_space n = rw round refl in
      let room' : tail + left + record_space n ≤ p + C = omega (arith, room, r_needed) in
      let range' : tail + left + record_space n < 2 ^ 62 = omega (arith, range, r_needed) in
      let h' =
        appended-Holding r p tail 4 es Entry.padding pad h
          (λ j low out. store_outside 4 m place (2 ^ 32 - left) j out) (omega arith)
          (load-store_self 4 m place (2 ^ 32 - left) (omega (arith, valid.half, inside)))
          (omega (arith, valid.whole, inside)) (omega arith) (omega arith) in
      let start : (tail + left) % C ≡ 0 =
        mod_round C tail left valid.nonempty (omega arith) (omega (arith, inside)) in
      let w : IsWritten pad (record_bytes pad 128 t src n) (128 + (tail + left) % C) t n bs =
        rw start (record_bytes-IsWritten pad 128 t src n small (omega (arith, valid.half))) in
      let sum : tail + (left + record_space n) ≡ tail + left + record_space n = omega arith in
      let second : RingBuffer = record r { buffer = record r.buffer { bytes = pad } } in
      rw (round, sum)
        (record {
          entries = skipped ++ new;
          holding =
              message-appended second p (tail + left) t n bs skipped (record_bytes pad 128 t src n)
                h' w (length-body_of src n) (omega (arith, start, valid.half)) short room' range';
          messages = messages_of-append skipped new ∙ rw (messages_of-padded es) refl;
          below = λ j lt.
              w.outside j (inl (omega (arith, start)))
              ∙ store_outside 4 m place (2 ^ 32 - left) j (inl (omega arith));
        })

-- ===== src/Concurrent/RingBuffer/Claim.antt =====
-- What a claim of space does to a ring buffer, and what is appended to its records.
use caeron.Base.{
  ℕ, ◌+◌, ◌-◌, ◌/◌, ◌%◌, ◌^◌, ◌≤◌, ◌<◌, ◌≡◌, inl, inr, refl, List, [], ◌∷◌, ◌++◌, none, some, ltb,
  Bool-cases, Bool, if◌then◌else◌, ok, arith,
}
use native.Mathlib.Nat.{mod-lt}
use caeron.Word.{sub32, add32, low32, sub64, add64, sign_extend, lt32}
use caeron.Buffer.{Buffer}
use caeron.Buffer.Bytes.{Memory, load, store, store_outside}
use caeron.Buffer.Laws.{Fits, get_i64_ordered_lem, compare_and_set_i64_lem}
use caeron.Concurrent.Records.Layout.{
  Entry, width, Holds, Entries, end_at, le-end_at, end_at-append, Entries-append, record_space,
}
use caeron.Concurrent.Records.Frame.{
  Changed, Holds-width, Entries-kept_behind, Entries-kept_outside,
}
use caeron.Concurrent.RingBuffer.{RingBuffer, to_buffer_end, wraps, claim_length, claim}
use caeron.Concurrent.RingBuffer.Contents.{IsRing, IsRing-at, Holding, bytes_in, index_lem}

-- The bytes up to the end of the region.
abbrev pub left_at : RingBuffer → ℕ → ℕ
left_at r tail = r.capacity - tail % r.capacity

-- Whether a message of `n` bytes wraps round, and the space that it takes, with the padding.
abbrev pub goes_round : RingBuffer → ℕ → ℕ → Bool
goes_round r tail n = ltb (left_at r tail) (n + 12)

abbrev pub needed : RingBuffer → ℕ → ℕ → ℕ
needed r tail n = if goes_round r tail n then left_at r tail + record_space n else record_space n

module _ (r : RingBuffer) (valid : IsRing r) (tail n : ℕ) (short : 8 + n ≤ r.capacity / 8) where
  pub to_buffer_end_lem : to_buffer_end r tail ≡ left_at r tail
  to_buffer_end_lem =
      let inside = mod-lt tail {m = r.capacity} valid.nonempty in
      rw (index_lem r valid tail) (omega (arith, inside, valid.small, valid.room))

  pub wraps_lem : wraps r tail (8 + n) ≡ goes_round r tail n
  wraps_lem =
      let inside = mod-lt tail {m = r.capacity} valid.nonempty in
      rw to_buffer_end_lem (ground (arith, inside, valid.small, valid.room))

  pub needed_bounds : (0 < needed r tail n) × (needed r tail n < 2 ^ 31)
  needed_bounds =
      let inside = mod-lt tail {m = r.capacity} valid.nonempty in ground (arith, inside, valid.half)

  pub claim_length_lem : claim_length r tail (8 + n) (record_space n) ≡ needed r tail n
  claim_length_lem =
      let e : add32 (left_at r tail) (record_space n) ≡ left_at r tail + record_space n =
        omega (arith, valid.small, valid.room) in
      rw (wraps_lem, to_buffer_end_lem, e)

-- The buffer after its tail was moved.
abbrev pub moved : Buffer → ℕ → Buffer
moved b tail = record b { bytes = store 8 b.bytes 64 tail }

-- One round of the loop: with enough space, the tail is moved behind what is needed; without, the
-- buffer stays as it is.
pub claim_lem :
    (r : RingBuffer) (es : List Entry) (n : ℕ)
    → 8 + n ≤ r.capacity / 8
    → (let head : ℕ = load 8 (bytes_in r) 0 in
        let tail : ℕ = load 8 (bytes_in r) 64 in
        Holding r head tail es
        → claim 1 r (8 + n) (record_space n)
          ≡ ok (
              if ltb (r.capacity - (tail - head)) (needed r tail n)
              then (none, r.buffer)
              else (some tail, moved r.buffer (tail + needed r tail n))))
unfolding claim
claim_lem r es n short h =
    let valid = h.ring in
    let head : ℕ = load 8 (bytes_in r) 0 in
    let tail : ℕ = load 8 (bytes_in r) 64 in
    let below = le-end_at 128 r.capacity (r.capacity / 8) head es in
    let (pos, small) = needed_bounds r valid tail n short in
    let available : sub32 r.capacity (low32 (sub64 tail head)) ≡ r.capacity - (tail - head) =
      omega (arith, valid.half, h.bounded, h.reaches, h.in_range) in
    let test : lt32 (r.capacity - (tail - head)) (needed r tail n)
        ≡ ltb (r.capacity - (tail - head)) (needed r tail n) =
      ground (arith, valid.half) in
    let next : add64 tail (sign_extend (needed r tail n)) ≡ tail + needed r tail n =
      ground (arith, h.in_range) in
    let at-Fits : Fits r.buffer 64 8 = record {
      small = valid.small;
      within = omega (arith, valid.room);
    } in
    let on_word : (r.buffer.address + 64) % 8 ≡ 0 = omega (arith, valid.placed) in
    rw
      (
        get_i64_ordered_lem r.buffer 64 at-Fits on_word,
        get_i64_ordered_lem r.buffer 0
            (record { small = valid.small; within = omega (arith, valid.room) })
            (omega (arith, valid.placed)),
        claim_length_lem r valid tail n short,
        available,
        test,
      )
      (elim (Bool-cases (ltb (r.capacity - (tail - head)) (needed r tail n))) [
        | inl full ↦ rw full refl
        | inr room ↦
            let exchanged =
              compare_and_set_i64_lem r.buffer 64 (tail + needed r tail n) at-Fits on_word in
            rw (room, next, exchanged) refl
      ])

-- A record behind the others, whose bytes are all that changes.
pub appended-Holding :
    (r : RingBuffer) (p tail v : ℕ) (es : List Entry) (e : Entry) (m : Memory)
    → (h : Holding r p tail es)
    → Changed 128 r.capacity (r.capacity / 8) h.ring.nonempty (bytes_in r) m tail v
    → 0 < v
    → Holds 128 r.capacity (r.capacity / 8) m tail e
    → (let w : ℕ = width 128 r.capacity (r.capacity / 8) tail e in
        v ≤ w
        → tail + w ≤ p + r.capacity
        → tail + w < 2 ^ 62
        → Holding (record r { buffer = record r.buffer { bytes = m } }) p (tail + w) (es ++ e ∷ []))
unfolding end_at
appended-Holding r p tail v es e m h changed pos holds narrow round range =
    let C : ℕ = r.capacity in
    let max : ℕ = C / 8 in
    let valid = h.ring in
    let w : ℕ = width 128 C max tail e in
    let whole : C % 4 ≡ 0 = omega (arith, valid.whole) in
    let fit = Holds-width 128 C max valid.nonempty m tail e holds in
    let kept =
      Entries-kept_behind 128 C max valid.nonempty (bytes_in r) m tail v changed whole p es h.on_int
        pos (omega arith) (omega (arith, h.reaches)) (omega arith) h.entries in
    let last : Entries 128 C max m (end_at 128 C max p es) (e ∷ []) = rw h.reaches (holds, tt) in
    record {
      ring = IsRing-at r _ valid refl refl;
      entries = Entries-append 128 C max m p es (e ∷ []) kept last;
      reaches = rw (end_at-append 128 C max p es (e ∷ []), h.reaches) refl;
      bounded = round;
      in_range = range;
      on_int = h.on_int;
    }

-- A change in front of the records, that of a counter.
pub counted-Holding :
    (r : RingBuffer) (p tail v : ℕ) (es : List Entry)
    → Holding r p tail es
    → Holding (record r { buffer = moved r.buffer v }) p tail es
counted-Holding r p tail v es h =
    let C : ℕ = r.capacity in
    let valid = h.ring in
    record {
      ring = IsRing-at r _ valid refl refl;
      entries =
          Entries-kept_outside 128 C (C / 8) valid.nonempty (bytes_in r) (store 8 (bytes_in r) 64 v)
            p es (λ j low. store_outside 8 (bytes_in r) 64 v j (inr (omega arith))) h.on_int
            (omega (arith, valid.whole)) h.entries;
      reaches = h.reaches;
      bounded = h.bounded;
      in_range = h.in_range;
      on_int = h.on_int;
    }

-- ===== src/Concurrent/SpscQueue/Fifo.antt =====
-- The queue behaves as a bounded first-in, first-out list.
use caeron.Base.{
  ℕ, suc, ◌+◌, ◌-◌, ◌%◌, ◌^◌, ◌≤◌, ◌<◌, ◌≡◌, ◌≢◌, refl, false, ◌==◌, ltb, Bool-cases, inl, inr,
  if◌then◌else◌, Option, none, some, List, [], ◌∷◌, ◌++◌, length, length-append, ok, arith,
}
use native.Mathlib.Nat.{mod-add-mod, mod-eq_of_lt, mod-eq-sub-mod, mod-lt}
use native.Mathlib.Decide.{dec_lt}
use caeron.Word.{add32, sub32, lt32}
use caeron.Concurrent.SpscQueue.{
  SpscQueue, slot_of, with_slot, enqueue, try_dequeue, size, empty, Op, Reply, perform, run,
}

round : (h k cap : ℕ) → h < cap → 0 < k → k < cap → (h + k) % cap ≢ h
round h k cap hh pos hk = elim (dec_lt (h + k) cap) [
  | yes p ↦ omega (arith, mod-eq_of_lt p)
  | no p ↦ omega (
    arith,
    mod-eq-sub-mod {n = h + k} {m = cap} (omega arith),
    mod-eq_of_lt {n = h + k - cap} {m = cap} (omega arith),
  )
]

-- Indices less than the capacity apart have different slots.
slots_differ : (i k cap : ℕ) → 0 < k → k < cap → (i + k) % cap ≢ i % cap
slots_differ i k cap pos small =
    rw (← mod-add-mod i cap k) (round (i % cap) k cap (mod-lt i (omega arith)) pos small)

module _ {ℓ} {A : Type ℓ} where
  -- The slots from index `h` on hold `xs`.
  abbrev pub Window : (ℕ → Option A) → ℕ → ℕ → List A → Type ℓ
  Window storage cap h [] = Unit
  Window storage cap h (x ∷ xs) = (storage (h % cap) ≡ some x) × Window storage cap (h + 1) xs

  -- The queue holds `xs`, and its indices have not yet run out of the range of an i32.
  pub record Contents (q : SpscQueue A) (xs : List A) : Type ℓ where
    pub room : 0 < q.capacity
    pub small : q.capacity < 2 ^ 31
    pub masks : q.mask ≡ q.capacity - 1
    pub counted : q.tail ≡ q.head + length xs
    pub bounded : length xs ≤ q.capacity
    pub in_range : q.tail < 2 ^ 31
    pub holds : Window q.storage q.capacity q.head xs

  Window-apart :
      (storage : ℕ → Option A) (cap h i : ℕ) (v : Option A) (xs : List A)
      → Window storage cap h xs
      → i < h
      → h + length xs ≤ i + cap
      → Window (with_slot storage (i % cap) v) cap h xs
  Window-apart storage cap h i v [] w lt fits = tt
  Window-apart storage cap h i v (x ∷ xs) (e, w) lt fits =
      let apart : h % cap ≢ i % cap =
        let d : i + (h - i) ≡ h = omega arith in
        rw d at (slots_differ i (h - i) cap (omega arith) (omega arith)) in
      (
        ground (arith, apart, e),
        Window-apart storage cap (h + 1) i v xs w (omega arith) (omega arith),
      )

  Window-append :
      (storage : ℕ → Option A) (cap h : ℕ) (v : A) (xs : List A)
      → Window storage cap h xs
      → length xs < cap
      → Window (with_slot storage ((h + length xs) % cap) (some v)) cap h (xs ++ v ∷ [])
  Window-append storage cap h v [] w room =
      let e : h + 0 ≡ h = omega arith in (ground (arith, e), tt)
  Window-append storage cap h v (x ∷ xs) (e, w) room =
      let apart = slots_differ h (suc (length xs)) cap (omega arith) room in
      let shift : h + 1 + length xs ≡ h + suc (length xs) = omega arith in
      (
        ground (arith, apart, e),
        rw shift at (Window-append storage cap (h + 1) v xs w (omega arith)),
      )

  -- The bounded list that the queue stands for.
  abbrev pub put_last : ℕ → List A → A → List A
  put_last cap xs x = if ltb (length xs) cap then xs ++ x ∷ [] else xs

  abbrev pub first : List A → Option A
  first [] = none
  first (x ∷ xs) = some x

  abbrev pub rest : List A → List A
  rest [] = []
  rest (x ∷ xs) = xs

  length_of : (q : SpscQueue A) (xs : List A) → Contents q xs → sub32 q.tail q.head ≡ length xs
  length_of q xs c = omega (arith, c.counted, c.in_range)

  -- On a queue that holds `xs`, the size is the length of `xs`, and `empty` says whether it is 0.
  pub size_lem :
      (q : SpscQueue A) (xs : List A)
      → Contents q xs
      → (size q ≡ length xs) × (empty q ≡ (length xs == 0))
  unfolding size empty
  size_lem q xs c = (length_of q xs c, rw (length_of q xs c))

  mask_slot :
      (q : SpscQueue A) (xs : List A) (i : ℕ) → Contents q xs → slot_of i q.mask ≡ i % q.capacity
  mask_slot q xs i c = let e : suc q.mask ≡ q.capacity = omega (arith, c.masks, c.room) in rw e

  appended : (q : SpscQueue A) (xs : List A) (x : A) → SpscQueue A
  appended q xs x = record q {
    storage = with_slot q.storage ((q.head + length xs) % q.capacity) (some x);
    tail = q.tail + 1;
  }

  appended-Contents :
      (q : SpscQueue A) (xs : List A) (x : A)
      → Contents q xs
      → q.tail + 1 < 2 ^ 31
      → length xs < q.capacity
      → Contents (appended q xs x) (xs ++ x ∷ [])
  unfolding appended
  appended-Contents q xs x c more room = record {
    room = c.room;
    small = c.small;
    masks = c.masks;
    counted = omega (arith, c.counted, length-append xs (x ∷ []));
    bounded = omega (arith, length-append xs (x ∷ []));
    in_range = more;
    holds = Window-append q.storage q.capacity q.head x xs c.holds room;
  }

  -- On a queue that holds `xs`, while its tail can still grow: enqueue puts the value behind `xs`
  -- and returns true if `xs` is shorter than the capacity; else it returns false and the queue
  -- still holds `xs`. The capacity stays, and the tail grows by at most one.
  pub enqueue_lem :
      (q : SpscQueue A) (xs : List A) (x : A)
      → Contents q xs
      → q.tail + 1 < 2 ^ 31
      → (q' : SpscQueue A) × (enqueue q x ≡ (ltb (length xs) q.capacity, q'))
        × Contents q' (put_last q.capacity xs x)
        × (q'.capacity ≡ q.capacity)
        × (q'.tail ≤ q.tail + 1)
  unfolding enqueue appended
  enqueue_lem q xs x c more =
      let small : lt32 (length xs) q.capacity ≡ ltb (length xs) q.capacity =
        ground (arith, c.small, c.bounded) in
      elim (Bool-cases (ltb (length xs) q.capacity)) [
        | inl room ↦
            let grown : add32 q.tail 1 ≡ q.tail + 1 = omega arith in
            (
              appended q xs x,
              rw (length_of q xs c, small, room, mask_slot q xs q.tail c, grown, c.counted),
              rw room (appended-Contents q xs x c more (ground arith)),
              refl,
              omega arith,
            )
        | inr full ↦ (q, rw (length_of q xs c, small, full), rw full c, refl, omega arith)
      ]

  -- On a queue that holds `xs`, try_dequeue succeeds. It returns the first element, if there is
  -- one, and the queue then holds the others; the capacity and the tail stay.
  pub try_dequeue_lem :
      (q : SpscQueue A) (xs : List A)
      → Contents q xs
      → (q' : SpscQueue A) × (try_dequeue q ≡ ok (first xs, q'))
        × Contents q' (rest xs)
        × (q'.capacity ≡ q.capacity)
        × (q'.tail ≡ q.tail)
  unfolding try_dequeue
  try_dequeue_lem q [] c = (q, ground (arith, c.counted), c, refl, refl)
  try_dequeue_lem q (x ∷ xs) c =
      let some_left : (q.head == q.tail) ≡ false = ground (arith, c.counted) in
      let grown : add32 q.head 1 ≡ q.head + 1 = omega (arith, c.counted, c.in_range) in
      (
        record q { storage = with_slot q.storage (q.head % q.capacity) none; head = q.head + 1 },
        rw (some_left, mask_slot q (x ∷ xs) q.head c, c.holds.0, grown),
        record {
          room = c.room;
          small = c.small;
          masks = c.masks;
          counted = omega (arith, c.counted);
          bounded = omega (arith, c.bounded);
          in_range = c.in_range;
          holds =
              Window-apart q.storage q.capacity (q.head + 1) q.head none xs c.holds.1 (omega arith)
                (omega (arith, c.bounded));
        },
        refl,
        refl,
      )

  -- What the bounded list replies to a sequence of calls.
  unfoldable pub fifo : ℕ → List A → List (Op A) → List (Reply A)
  fifo cap xs [] = []
  fifo cap xs (Op.put x ∷ ops) =
      Reply.accepted (ltb (length xs) cap) ∷ fifo cap (put_last cap xs x) ops
  fifo cap xs (Op.take ∷ ops) = Reply.taken (first xs) ∷ fifo cap (rest xs) ops

  -- A queue that holds `xs` replies to every sequence of calls of the two threads as the bounded
  -- list does, as long as its tail and the number of calls stay below 2^31.
  pub run_lem :
      (q : SpscQueue A) (xs : List A) (ops : List (Op A))
      → Contents q xs
      → q.tail + length ops < 2 ^ 31
      → run q ops ≡ ok (fifo q.capacity xs ops)
  unfolding run perform fifo
  run_lem q xs [] c more = refl
  run_lem q xs (Op.put x ∷ ops) c more =
      let (q', e, c', cap, grown) = enqueue_lem q xs x c (omega arith) in
      rw (e, run_lem q' (put_last q.capacity xs x) ops c' (omega arith), cap)
  run_lem q xs (Op.take ∷ ops) c more =
      let (q', e, c', cap, same) = try_dequeue_lem q xs c in
      rw (e, run_lem q' (rest xs) ops c' (omega arith), cap)

-- ===== src/Concurrent/SpscQueue.antt =====
-- caeron/concurrent/one_to_one_concurrent_array_queue.h: one producer, one consumer, and two
-- indices that only grow. The calls of the two threads are taken one after the other.
pub mod Fifo
pub mod Create
use caeron.Base.{
  ℕ, suc, ◌+◌, ◌%◌, ◌^◌, Bool, true, false, ◌==◌, if◌then◌else◌, Option, none, some, List, [], ◌∷◌,
  Result, ok, err, Error, guard, ◌>>=◌, ◌>>◌,
}
use caeron.Word.{add32, sub32, lt32, low32, bit_ceil}

-- A slot that holds no object is `none`.
pub record SpscQueue {ℓ} (A : Type ℓ) : Type ℓ where
  pub storage : ℕ → Option A
  pub capacity : ℕ
  pub mask : ℕ
  pub head : ℕ
  pub tail : ℕ

-- `index & mask_`, where the mask is one less than a power of two.
abbrev pub slot_of : ℕ → ℕ → ℕ
slot_of index mask = index % suc mask

module _ {ℓ} {A : Type ℓ} where
  unfoldable pub create : ℕ → Result (SpscQueue A)
  create requested = do
    guard (lt32 0 requested) Error.invalid_argument
    let capacity = low32 (bit_ceil requested)
    ok (record {
      storage = λ i. none;
      capacity = capacity;
      mask = sub32 capacity 1;
      head = 0;
      tail = 0;
    })

  abbrev pub with_slot : (ℕ → Option A) → ℕ → Option A → ℕ → Option A
  with_slot storage i x = λ j. if j == i then x else storage j

  unfoldable pub enqueue : SpscQueue A → A → Bool × SpscQueue A
  enqueue q value =
      if lt32 (sub32 q.tail q.head) q.capacity
      then (
        true,
        record q {
          storage = with_slot q.storage (slot_of q.tail q.mask) (some value);
          tail = add32 q.tail 1;
        },
      )
      else (false, q)

  -- Moving out of a slot that holds no object is undefined.
  move_out : Option A → Result A
  move_out none = err Error.assertion
  move_out (some x) = ok x

  unfoldable pub try_dequeue : SpscQueue A → Result (Option A × SpscQueue A)
  unfolding move_out
  try_dequeue q = if q.head == q.tail then ok (none, q) else do
    out ← move_out (q.storage (slot_of q.head q.mask))
    ok (
      some out,
      record q {
        storage = with_slot q.storage (slot_of q.head q.mask) none;
        head = add32 q.head 1;
      },
    )

  unfoldable pub size : SpscQueue A → ℕ
  size q = sub32 q.tail q.head

  unfoldable pub empty : SpscQueue A → Bool
  unfolding size
  empty q = size q == 0

-- A call of one of the two threads, and what it returns.
pub data Op {ℓ} (A : Type ℓ) : Type ℓ where
  put : A → Op A
  take : Op A

pub data Reply {ℓ} (A : Type ℓ) : Type ℓ where
  accepted : Bool → Reply A
  taken : Option A → Reply A

module _ {ℓ} {A : Type ℓ} where
  unfoldable pub perform : SpscQueue A → Op A → Result (Reply A × SpscQueue A)
  perform q (Op.put x) = let (b, q') = enqueue q x in ok (Reply.accepted b, q')
  perform q Op.take = do (x, q') ← try_dequeue q; ok (Reply.taken x, q')

  unfoldable pub run : SpscQueue A → List (Op A) → Result (List (Reply A))
  unfolding perform
  run q [] = ok []
  run q (op ∷ ops) = do (reply, q') ← perform q op; replies ← run q' ops; ok (reply ∷ replies)

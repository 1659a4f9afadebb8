-- ===== src/Tests/Queues.antt =====
-- A queue of two slots.
use caeron.Base.{
  ℕ, ◌+◌, ◌*◌, ◌^◌, ◌≤◌, ◌<◌, ◌≡◌, refl, List, [], ◌∷◌, length, some, none, arith, ok, true, false,
  if◌then◌else◌, ◌==◌, ltb,
}
use caeron.Concurrent.SpscQueue.{
  SpscQueue, create, enqueue, try_dequeue, size, empty, Op, Reply, run,
}
use caeron.Concurrent.SpscQueue.Fifo.{
  Contents, put_last, fifo, size_lem, enqueue_lem, try_dequeue_lem, run_lem,
}
use caeron.Concurrent.SpscQueue.Create.{create_lem}

-- Two slots, of which the second holds 8; its indices have gone round once.
abbrev queue : SpscQueue ℕ
queue = record {
  storage = λ i. if i == 1 then some 8 else none;
  capacity = 2;
  mask = 1;
  head = 3;
  tail = 4;
}

queue-Contents : Contents queue (8 ∷ [])
queue-Contents = record {
  room = omega arith;
  small = omega arith;
  masks = refl;
  counted = refl;
  bounded = omega arith;
  in_range = omega arith;
  holds = (refl, tt);
}

abbrev calls : List (Op ℕ)
calls = Op.put 9 ∷ Op.put 10 ∷ Op.take ∷ Op.put 11 ∷ Op.take ∷ Op.take ∷ Op.take ∷ []

run_lem_example : run queue calls ≡ ok (fifo 2 (8 ∷ []) calls)
run_lem_example = run_lem queue (8 ∷ []) calls queue-Contents (omega arith)

-- The third value is refused; the others come out in order; the last call finds nothing.
fifo_test :
    fifo 2 (8 ∷ []) calls
    ≡ Reply.accepted true
      ∷ Reply.accepted false
      ∷ Reply.taken (some 8)
      ∷ Reply.accepted true
      ∷ Reply.taken (some 9)
      ∷ Reply.taken (some 11)
      ∷ Reply.taken none
      ∷ []
unfolding fifo
fifo_test = refl

enqueue_lem_example :
    (q' : SpscQueue ℕ) × (enqueue queue 9 ≡ (ltb (length {A = ℕ} (8 ∷ [])) 2, q'))
    × Contents q' (put_last 2 (8 ∷ []) 9)
    × (q'.capacity ≡ 2)
    × (q'.tail ≤ 4 + 1)
enqueue_lem_example = enqueue_lem queue (8 ∷ []) 9 queue-Contents (omega arith)

try_dequeue_lem_example :
    (q' : SpscQueue ℕ) × (try_dequeue queue ≡ ok (some 8, q'))
    × Contents q' []
    × (q'.capacity ≡ 2)
    × (q'.tail ≡ 4)
try_dequeue_lem_example = try_dequeue_lem queue (8 ∷ []) queue-Contents

size_lem_example : (size queue ≡ 1) × (empty queue ≡ false)
size_lem_example = size_lem queue (8 ∷ []) queue-Contents

create_lem_example :
    (q : SpscQueue ℕ) × (n : ℕ) × (create 5 ≡ ok q)
    × Contents q []
    × (q.capacity ≡ 2 ^ n)
    × (5 ≤ q.capacity)
    × (q.capacity < 2 * 5)
create_lem_example = create_lem ℕ 5 (omega arith) (omega arith)

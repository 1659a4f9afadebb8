-- ===== src/Tests/Counters.antt =====
-- A manager of two counters, of which the first is taken.
use caeron.Base.{ℕ, ◌≡◌, refl, true, some, none, ok, err, Error, arith}
use caeron.Word.{add64, is_i64_sum}
use caeron.Buffer.{Buffer}
use caeron.Buffer.Bytes.{Memory, load, store}
use caeron.Concurrent.Counters.{
  CountersManager, allocate, free, get_type_id, get_counter_value, set_counter_value,
  atomic_counter, increment_ordered,
}
use caeron.Concurrent.Counters.Values.{
  HasValues, value_at, set_counter_value-get_counter_value, increment_ordered-get_counter_value,
}
use caeron.Concurrent.Counters.Slots.{type_id_at, all_taken}
use caeron.Concurrent.Counters.Fill.{IsManager}
use caeron.Concurrent.Counters.Allocate.{IsRequest, allocate_first, allocate_full}
use caeron.Concurrent.Counters.Release.{free_lem}
use caeron.Tests.Inputs.{zeros}

abbrev manager_of : Memory → CountersManager
manager_of bytes = record {
  metadata = record { address = 0; capacity = 128; bytes = bytes };
  values = record { address = 0; capacity = 16; bytes = store 8 zeros 0 5 };
  metadata_slot_size = 64;
  max_counter_id = 2;
}

abbrev manager : CountersManager
manager = manager_of (store 4 zeros 0 9)

abbrev full_manager : CountersManager
full_manager = manager_of (store 4 (store 4 zeros 0 9) 64 7)

manager_of-IsManager : (bytes : Memory) → IsManager (manager_of bytes)
manager_of-IsManager bytes = record {
  slots = record {
    placed = refl;
    small = omega arith;
    wide = omega arith;
    whole = refl;
    room = omega arith;
  };
  values = record { placed = refl; small = omega arith; room = omega arith };
}

request : IsRequest 64 3 4 5
request = record {
  is_i32 = omega arith;
  not_zero = omega arith;
  not_marked = omega arith;
  fits = omega arith;
}

manager-taken : all_taken manager.metadata 64 1 ≡ true
unfolding all_taken load store
manager-taken = refl

manager-vacant : type_id_at manager.metadata 64 1 ≡ 0
unfolding load store
manager-vacant = refl

full_manager-taken : all_taken full_manager.metadata 64 2 ≡ true
unfolding all_taken load store
full_manager-taken = refl

allocate_first_example :
    (m' : CountersManager) × (allocate manager 3 (some zeros) 4 none 5 ≡ ok (1, m'))
    × IsManager m'
    × (get_type_id m' 1 ≡ ok 3)
    × (get_counter_value m' 1 ≡ ok 0)
    × (get_type_id m' 0 ≡ get_type_id manager 0)
    × (get_counter_value m' 0 ≡ get_counter_value manager 0)
allocate_first_example =
    allocate_first manager 3 (some zeros) 4 none 5 1 0 (manager_of-IsManager (store 4 zeros 0 9))
      request (omega arith) (omega arith) (omega arith) manager-taken manager-vacant

allocate_full_example : allocate full_manager 3 (some zeros) 4 none 5 ≡ err Error.runtime_error
allocate_full_example =
    allocate_full full_manager 3 (some zeros) 4 none 5
      (manager_of-IsManager (store 4 (store 4 zeros 0 9) 64 7)) (omega arith) request
      full_manager-taken

free_lem_example :
    (m' : CountersManager) × (free manager 0 ≡ ok m')
    × IsManager m'
    × (get_type_id m' 0 ≡ ok 0)
    × (get_counter_value m' 0 ≡ ok 0)
    × (get_type_id m' 1 ≡ get_type_id manager 1)
    × (get_counter_value m' 1 ≡ get_counter_value manager 1)
free_lem_example =
    free_lem manager 0 1 (manager_of-IsManager (store 4 zeros 0 9)) (omega arith) (omega arith)
      (omega arith)

manager-HasValues : HasValues manager
manager-HasValues = record { placed = refl; small = omega arith; room = omega arith }

set_counter_value-get_counter_value_example :
    (m' : CountersManager) × (set_counter_value manager 1 77 ≡ ok m')
    × (get_counter_value m' 1 ≡ ok 77)
    × (get_counter_value m' 0 ≡ get_counter_value manager 0)
set_counter_value-get_counter_value_example =
    set_counter_value-get_counter_value manager 1 0 77 manager-HasValues (omega arith) (omega arith)
      (omega arith) (omega arith)

manager-in_range : is_i64_sum (value_at manager 0) 3 ≡ true
unfolding load store
manager-in_range = refl

increment_ordered-get_counter_value_example :
    (offset v : ℕ) × (values : Buffer) × (atomic_counter 0 manager.values ≡ ok offset)
    × (get_counter_value manager 0 ≡ ok v)
    × (increment_ordered manager.values offset 3 ≡ ok (add64 v 3, values))
    × (get_counter_value (record manager { values = values }) 0 ≡ ok (add64 v 3))
    × (get_counter_value (record manager { values = values }) 1 ≡ get_counter_value manager 1)
increment_ordered-get_counter_value_example =
    increment_ordered-get_counter_value manager 0 1 3 manager-HasValues (omega arith) (omega arith)
      (omega arith) manager-in_range

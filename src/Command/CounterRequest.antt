-- ===== src/Command/CounterRequest.antt =====
-- caeron/command/counter_message_flyweight.h: a request with a key and a label.
use caeron.Base.{ℕ, ◌+◌, ◌≤◌, ◌≢◌, Bool, ◌||◌, if◌then◌else◌, ltb, Option, Result, ok, ◌>>=◌, arith}
use caeron.Word.{add32, sub32, is_neg32, lt32, i32_max}
use caeron.Buffer.{Buffer, get_i32, put_i32, put_some_bytes}
use caeron.Buffer.Bytes.{Memory}
use caeron.Flyweight.{Slot, SlotsApart, Layout, get, set, i32_at, i64_at}
use caeron.Command.Trailing.{no_length}

-- counter_message_flyweight.h
pub data CounterMessage : Type 0 where
  client_id correlation_id counter_type key_buffer_length : CounterMessage

unfoldable pub counter_message_slot : CounterMessage → Slot
counter_message_slot CounterMessage.client_id = i64_at 0
counter_message_slot CounterMessage.correlation_id = i64_at 8
counter_message_slot CounterMessage.counter_type = i32_at 16
counter_message_slot CounterMessage.key_buffer_length = i32_at 20

counter_message-inside :
    (f : CounterMessage) → (counter_message_slot f).offset + (counter_message_slot f).width ≤ 24
unfolding counter_message_slot
counter_message-inside f = ground arith

counter_message-apart :
    (f g : CounterMessage) → f ≢ g → SlotsApart (counter_message_slot f) (counter_message_slot g)
unfolding counter_message_slot
counter_message-apart f g h = ground arith

unfoldable pub counter_message_layout : Layout
unfolding counter_message-inside counter_message-apart
counter_message_layout = record {
  Field = CounterMessage;
  slot = counter_message_slot;
  length = 24;
  inside = counter_message-inside;
  apart = counter_message-apart;
}

-- The guard of the functions: `size` bytes behind `offset` do not lie in the buffer.
abbrev pub no_header : Buffer → ℕ → ℕ → Bool
no_header b offset size =
    is_neg32 offset || lt32 b.capacity offset || lt32 (sub32 b.capacity offset) size

-- No label behind a key of this length.
abbrev pub key_overflows : Buffer → ℕ → ℕ → Bool
key_overflows b offset key_length =
    is_neg32 key_length || lt32 (sub32 (sub32 (sub32 b.capacity offset) 24) 4) key_length

unfoldable pub get_key_buffer_length : Buffer → ℕ → Result ℕ
unfolding counter_message_layout
get_key_buffer_length b offset =
    get counter_message_layout CounterMessage.key_buffer_length b offset

unfoldable pub set_key_buffer_length : Buffer → ℕ → ℕ → Result Buffer
unfolding counter_message_layout
set_key_buffer_length b offset length =
    set counter_message_layout CounterMessage.key_buffer_length b offset length

unfoldable pub set_key_buffer : Buffer → ℕ → Option Memory → ℕ → Result Buffer
unfolding set_key_buffer_length put_some_bytes
set_key_buffer b offset source length =
    let put : Result Buffer = do
      b' ← set_key_buffer_length b offset length
      put_some_bytes b' (add32 offset 24) source length
    in if is_neg32 length
      then ok b
      else if no_header b offset 24
      then ok b
      else if lt32 (sub32 (sub32 b.capacity offset) 24) length
      then ok b
      else put

unfoldable pub label_length : Buffer → ℕ → Result ℕ
unfolding get_key_buffer_length
label_length b offset =
    let behind_key : Result ℕ = do
      key_length ← get_key_buffer_length b offset
      (if key_overflows b offset key_length
          then ok no_length
          else get_i32 b (add32 (add32 offset 24) key_length))
    in if no_header b offset 24 then ok no_length else behind_key

unfoldable pub set_label_length : Buffer → ℕ → ℕ → Result Buffer
unfolding get_key_buffer_length
set_label_length b offset length =
    let behind_key : Result Buffer = do
      key_length ← get_key_buffer_length b offset
      (if key_overflows b offset key_length
          then ok b
          else put_i32 b (add32 (add32 offset 24) key_length) length)
    in if no_header b offset 24 then ok b else behind_key

unfoldable pub label_buffer_offset : Buffer → ℕ → Result ℕ
unfolding get_key_buffer_length
label_buffer_offset b offset =
    let behind_key : Result ℕ = do
      key_length ← get_key_buffer_length b offset
      ok (if key_overflows b offset key_length then no_length else add32 (add32 24 key_length) 4)
    in if no_header b offset 28 then ok no_length else behind_key

unfoldable pub set_label : Buffer → ℕ → Option Memory → ℕ → Result Buffer
unfolding get_key_buffer_length set_label_length put_some_bytes
set_label b offset source length =
    let put : ℕ → Result Buffer =
      λ place. do b' ← set_label_length b offset length; put_some_bytes b' place source length
    in let behind_key : Result Buffer = do
      key_length ← get_key_buffer_length b offset
      let place = add32 (add32 (add32 offset 24) key_length) 4
      (if key_overflows b offset key_length
          then ok b
          else if lt32 (sub32 b.capacity place) length
          then ok b
          else put place)
      in if is_neg32 length then ok b else if no_header b offset 24 then ok b else behind_key

-- The total is computed in 64 bits.
unfoldable pub compute_length : ℕ → ℕ → ℕ
compute_length key_length label_length =
    let total = 28 + key_length + label_length in
    if is_neg32 key_length || is_neg32 label_length
    then no_length
    else if ltb i32_max total
    then no_length
    else total

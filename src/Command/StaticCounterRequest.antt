-- ===== src/Command/StaticCounterRequest.antt =====
-- caeron/command/static_counter_message_flyweight.h: a request with an aligned key and a label.
use caeron.Base.{ℕ, ◌+◌, ◌-◌, ◌≤◌, ◌≢◌, ◌||◌, if◌then◌else◌, ltb, Option, Result, ok, ◌>>=◌, arith}
use caeron.Word.{add32, sub32, is_neg32, lt32, i32_max, align}
use caeron.Buffer.{Buffer, get_i32, put_i32, put_some_bytes, set_memory}
use caeron.Buffer.Bytes.{Memory}
use caeron.Flyweight.{Slot, SlotsApart, Layout, get, set, i32_at, i64_at}
use caeron.Command.Trailing.{no_length}
use caeron.Command.CounterRequest.{no_header}

-- static_counter_message_flyweight.h
pub data StaticCounterMessage : Type 0 where
  client_id correlation_id registration_id counter_type_id key_length : StaticCounterMessage

unfoldable pub static_counter_message_slot : StaticCounterMessage → Slot
static_counter_message_slot StaticCounterMessage.client_id = i64_at 0
static_counter_message_slot StaticCounterMessage.correlation_id = i64_at 8
static_counter_message_slot StaticCounterMessage.registration_id = i64_at 16
static_counter_message_slot StaticCounterMessage.counter_type_id = i32_at 24
static_counter_message_slot StaticCounterMessage.key_length = i32_at 28

static_counter_message-inside :
    (f : StaticCounterMessage)
    → (static_counter_message_slot f).offset + (static_counter_message_slot f).width ≤ 32
unfolding static_counter_message_slot
static_counter_message-inside f = ground arith

static_counter_message-apart :
    (f g : StaticCounterMessage)
    → f ≢ g
    → SlotsApart (static_counter_message_slot f) (static_counter_message_slot g)
unfolding static_counter_message_slot
static_counter_message-apart f g h = ground arith

unfoldable pub static_counter_message_layout : Layout
unfolding static_counter_message-inside static_counter_message-apart
static_counter_message_layout = record {
  Field = StaticCounterMessage;
  slot = static_counter_message_slot;
  length = 32;
  inside = static_counter_message-inside;
  apart = static_counter_message-apart;
}

unfoldable pub get_key_length : Buffer → ℕ → Result ℕ
unfolding static_counter_message_layout
get_key_length b offset = get static_counter_message_layout StaticCounterMessage.key_length b offset

unfoldable pub set_key_length : Buffer → ℕ → ℕ → Result Buffer
unfolding static_counter_message_layout
set_key_length b offset length =
    set static_counter_message_layout StaticCounterMessage.key_length b offset length

unfoldable pub set_key_buffer : Buffer → ℕ → Option Memory → ℕ → Result Buffer
unfolding set_key_length put_some_bytes
set_key_buffer b offset source length =
    let put : ℕ → Result Buffer = λ aligned_end. do
      b1 ← set_key_length b offset length
      b2 ← put_some_bytes b1 (add32 offset 32) source length
      (if lt32 length aligned_end
          then set_memory b2 (add32 (add32 offset 32) length) (sub32 aligned_end length) 0
          else ok b2)
    in let padded : Result Buffer = do
      aligned_end ← align length 4
      (if no_header b offset 32
          then ok b
          else if lt32 (sub32 (sub32 b.capacity offset) 32) aligned_end
          then ok b
          else put aligned_end)
      in if is_neg32 length || is_neg32 offset
        then ok b
        else if lt32 (i32_max - 3) length
        then ok b
        else padded

unfoldable pub label_length_offset : Buffer → ℕ → Result ℕ
unfolding get_key_length
label_length_offset b offset =
    let behind : ℕ → Result ℕ = λ key_size. do
      aligned ← align key_size 4
      ok (
          if lt32 (sub32 (sub32 (sub32 b.capacity offset) 32) 4) aligned
          then no_length
          else add32 32 aligned)
    in let behind_key : Result ℕ = do
      key_size ← get_key_length b offset
      (if is_neg32 key_size
          then ok no_length
          else if lt32 (i32_max - 3) key_size
          then ok no_length
          else behind key_size)
      in if no_header b offset 36 then ok no_length else behind_key

unfoldable pub label_length : Buffer → ℕ → Result ℕ
unfolding label_length_offset
label_length b offset =
    let behind_key : Result ℕ = do
      place ← label_length_offset b offset
      (if is_neg32 place then ok no_length else get_i32 b (add32 offset place))
    in if is_neg32 offset then ok no_length else behind_key

unfoldable pub set_label_length : Buffer → ℕ → ℕ → Result Buffer
unfolding label_length_offset
set_label_length b offset length =
    let behind_key : Result Buffer = do
      place ← label_length_offset b offset
      (if is_neg32 place then ok b else put_i32 b (add32 offset place) length)
    in if is_neg32 offset then ok b else behind_key

unfoldable pub label_buffer_offset : Buffer → ℕ → Result ℕ
unfolding label_length_offset
label_buffer_offset b offset =
    let behind_key : Result ℕ = do
      place ← label_length_offset b offset
      ok (if is_neg32 place then no_length else add32 place 4)
    in if is_neg32 offset then ok no_length else behind_key

unfoldable pub set_label : Buffer → ℕ → Option Memory → ℕ → Result Buffer
unfolding label_buffer_offset set_label_length put_some_bytes
set_label b offset source length =
    let put : ℕ → Result Buffer = λ place. do
      b' ← set_label_length b offset length
      put_some_bytes b' (add32 offset place) source length
    in let behind_key : Result Buffer = do
      place ← label_buffer_offset b offset
      (if is_neg32 place || no_header b offset place
          then ok b
          else if lt32 (sub32 (sub32 b.capacity offset) place) length
          then ok b
          else put place)
      in if is_neg32 length || is_neg32 offset then ok b else behind_key

-- The total is computed in 64 bits.
unfoldable pub compute_length : ℕ → ℕ → Result ℕ
compute_length key_size label_length =
    let total : Result ℕ = do
      aligned_key ← align key_size 4
      let sum = 36 + aligned_key + label_length
      ok (if ltb i32_max sum then no_length else sum)
    in if is_neg32 key_size || is_neg32 label_length
      then ok no_length
      else if lt32 (i32_max - 4) key_size
      then ok no_length
      else total

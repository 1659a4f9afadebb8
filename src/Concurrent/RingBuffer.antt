-- ===== src/Concurrent/RingBuffer.antt =====
-- caeron/concurrent/many_to_one_ring_buffer.h: messages from many producers to one consumer.
-- A call of `write` is its claim of space and then its publication; the two are functions of their
-- own, since other producers can come in between.
pub mod Contents
pub mod Rounds
pub mod Claim
pub mod Read
pub mod Publish
pub mod Write
pub mod Order
use caeron.Base.{
  ℕ, zero, suc, ◌+◌, ◌-◌, ◌/◌, ◌%◌, ◌^◌, Bool, true, false, not, ◌&&◌, ◌==◌, if◌then◌else◌, Option,
  none, some, List, [], ◌∷◌, length, Result, ok, err, Error, guard, ◌>>=◌, ◌>>◌,
}
use caeron.Word.{
  add32, sub32, neg32, add64, sub64, is_neg32, is_neg64, lt32, lt64, low32, sign_extend, align,
  is_power_of_two,
}
use caeron.Buffer.{
  Buffer, get_i32, put_i32, put_some_bytes, set_memory, get_i32_ordered, put_i32_ordered,
  get_i64_ordered, put_i64_ordered, compare_and_set_i64,
}
use caeron.Buffer.Bytes.{Memory}
use caeron.Concurrent.Records.{Call, index_of, message_at}

pub record RingBuffer : Type 0 where
  pub buffer : Buffer
  pub capacity : ℕ
  pub mask : ℕ
  pub max_msg_length : ℕ

abbrev pub header_length : ℕ
header_length = 128

abbrev pub tail_position : ℕ
tail_position = 64

abbrev pub padding_msg_type_id : ℕ
padding_msg_type_id = 2 ^ 32 - 1

-- (An eighth of a positive capacity is no larger than the capacity.)
unfoldable pub create : Buffer → Result RingBuffer
create buffer = do
  let capacity = sub32 buffer.capacity header_length
  guard (lt32 0 capacity) Error.invalid_argument
  guard (is_power_of_two capacity) Error.invalid_argument
  ok (record {
    buffer = buffer;
    capacity = capacity;
    mask = sub32 capacity 1;
    max_msg_length = capacity / 8;
  })

-- The head, which moves as the consumer reads.
unfoldable pub consumer_heartbeat_time : RingBuffer → Result ℕ
consumer_heartbeat_time r = get_i64_ordered r.buffer 0

unfoldable pub size : RingBuffer → Result ℕ
size r = do
  head ← get_i64_ordered r.buffer 0
  tail ← get_i64_ordered r.buffer tail_position
  let size = sub64 tail head
  ok (if is_neg64 size then 0 else low32 size)

-- The bytes from the tail to the end of the data, and whether a record has to wrap round there.
abbrev pub to_buffer_end : RingBuffer → ℕ → ℕ
to_buffer_end r tail = sub32 r.capacity (low32 (index_of tail r.mask))

abbrev pub wraps : RingBuffer → ℕ → ℕ → Bool
wraps r tail record_length = lt32 (to_buffer_end r tail) (add32 record_length 4)

-- What is claimed: the record, and the padding in front of it if it wraps round.
abbrev pub claim_length : RingBuffer → ℕ → ℕ → ℕ → ℕ
claim_length r tail record_length required =
    if wraps r tail record_length then add32 (to_buffer_end r tail) required else required

-- The compare-and-set loop: the tail at which space was claimed, if there is enough, and the
-- buffer. One round is enough where no other producer writes between its loads and its exchange.
unfoldable pub claim : ℕ → RingBuffer → ℕ → ℕ → Result (Option ℕ × Buffer)
unfolding get_i64_ordered
claim zero r record_length required = err Error.fuel
claim (suc fuel) r record_length required = do
  tail ← get_i64_ordered r.buffer tail_position
  head ← get_i64_ordered r.buffer 0
  let available = sub32 r.capacity (low32 (sub64 tail head))
  let claimed = claim_length r tail record_length required
  let rest = claim fuel r record_length required
  let attempt : Result (Option ℕ × Buffer) = do
    (exchanged, buffer) ←
        compare_and_set_i64 r.buffer tail_position tail (add64 tail (sign_extend claimed))
    (if exchanged then ok (some tail, buffer) else rest)
  (if lt32 available claimed then ok (none, r.buffer) else attempt)

unfoldable pub put_msg_header_and_body : Buffer → ℕ → ℕ → ℕ → Option Memory → ℕ → Result Buffer
put_msg_header_and_body b index record_length msg_type_id src length = do
  let offset = add32 header_length index
  b ← set_memory b (add32 offset 8) (sub32 record_length 8) 0
  b ← put_some_bytes b (add32 offset 8) src length
  b ← put_i32 b (add32 offset 4) msg_type_id
  put_i32_ordered b offset record_length

unfoldable pub put_padding_record : Buffer → ℕ → ℕ → Result Buffer
put_padding_record b index to_buffer_end =
    put_i32_ordered b (add32 header_length index) (neg32 to_buffer_end)

-- The second half of write, for the space that was claimed at `tail`.
unfoldable pub publish : RingBuffer → ℕ → ℕ → ℕ → Option Memory → ℕ → Result Buffer
unfolding put_msg_header_and_body put_padding_record
publish r tail record_length msg_type_id src length = do
  let tail_index = low32 (index_of tail r.mask)
  let wrapped : Result Buffer = do
    b ← put_padding_record r.buffer tail_index (to_buffer_end r tail)
    put_msg_header_and_body b 0 record_length msg_type_id src length
  (if wraps r tail record_length
      then wrapped
      else put_msg_header_and_body r.buffer tail_index record_length msg_type_id src length)

unfoldable pub write : RingBuffer → ℕ → Option Memory → ℕ → Result (Bool × RingBuffer)
unfolding claim publish
write r msg_type_id src length = do
  guard (not (msg_type_id == padding_msg_type_id)) Error.invalid_argument
  guard (not (is_neg32 length)) Error.invalid_argument
  let record_length = add32 8 length
  let put : Result (Bool × RingBuffer) = do
    required ← align (add32 record_length 4) 4
    (claimed, buffer) ← claim 1 r record_length required
    let r' : RingBuffer = record r { buffer = buffer }
    elim claimed [
      | none ↦ ok (false, r')
      | some tail ↦ do
        buffer' ← publish r' tail record_length msg_type_id src length
        ok (true, record r { buffer = buffer' })
    ]
  (if lt32 r.max_msg_length record_length then ok (false, r) else put)

-- The loop of read: the position that it reaches, the buffer, and the calls of the handler.
unfoldable pub read_loop : ℕ → RingBuffer → ℕ → ℕ → ℕ → Result (ℕ × Buffer × List Call)
read_loop zero r next_head head_index tail = err Error.fuel
read_loop (suc fuel) r next_head head_index tail =
    let body : Result (ℕ × Buffer × List Call) = do
      let offset = add32 header_length head_index
      record_length ← get_i32_ordered r.buffer offset
      let skip : Result (ℕ × Buffer × List Call) = do
        cleared ← put_i32_ordered r.buffer offset 0
        read_loop fuel (record r { buffer = cleared })
            (add64 (sub64 next_head (sign_extend head_index)) (sign_extend r.capacity)) 0 tail
      let deliver : Result (ℕ × Buffer × List Call) = do
        guard (not (lt32 r.max_msg_length record_length)) Error.runtime_error
        msg_type_id ← get_i32 r.buffer (add32 offset 4)
        let call = message_at r.buffer (add32 offset 8) msg_type_id (sub32 record_length 8)
        cleared ← put_i32_ordered r.buffer offset 0
        aligned ← align (add32 record_length 4) 4
        let next_head' = add64 next_head (sign_extend aligned)
        (reached, buffer, calls) ←
            read_loop fuel (record r { buffer = cleared }) next_head'
              (low32 (index_of next_head' r.mask)) tail
        ok (reached, buffer, call ∷ calls)
      (if record_length == 0
          then ok (next_head, r.buffer, [])
          else if is_neg32 record_length
          then skip
          else deliver)
    in if lt64 next_head tail then body else ok (next_head, r.buffer, [])

-- The calls of the handler, whose number is returned, and the ring buffer.
unfoldable pub read : RingBuffer → Result (List Call × RingBuffer)
unfolding read_loop
read r = do
  head ← get_i64_ordered r.buffer 0
  tail ← get_i64_ordered r.buffer tail_position
  (reached, buffer, calls) ← read_loop (suc r.capacity) r head (low32 (index_of head r.mask)) tail
  let published : Result (List Call × RingBuffer) = do
    buffer' ← put_i64_ordered buffer 0 reached
    ok (calls, record r { buffer = buffer' })
  (if reached == head then ok (calls, record r { buffer = buffer }) else published)

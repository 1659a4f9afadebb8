-- ===== src/Concurrent/RingBuffer/Contents.antt =====
-- What a ring buffer holds.
use caeron.Base.{ℕ, suc, ◌+◌, ◌-◌, ◌*◌, ◌/◌, ◌%◌, ◌^◌, ◌≤◌, ◌<◌, ◌≡◌, List, arith, ok}
use native.Mathlib.Nat.{mod-lt}
use caeron.Word.{add32, low32, align}
use caeron.Word.Bounds.{align_int}
use caeron.Buffer.{Buffer}
use caeron.Buffer.Bytes.{Memory, load}
use caeron.Concurrent.Records.{index_of}
use caeron.Concurrent.Records.Layout.{Entry, Entries, end_at, record_space}
use caeron.Concurrent.RingBuffer.{RingBuffer}

-- What the constructor sets up, for a capacity of at least 8.
pub record IsRing (r : RingBuffer) : Type 0 where
  pub placed : r.buffer.address % 8 ≡ 0
  pub small : r.buffer.capacity < 2 ^ 31
  pub room : r.buffer.capacity ≡ 128 + r.capacity
  pub nonempty : 0 < r.capacity
  pub half : r.capacity ≤ 2 ^ 30
  pub whole : r.capacity % 8 ≡ 0
  pub masks : r.mask ≡ r.capacity - 1
  pub max : r.max_msg_length ≡ r.capacity / 8

abbrev pub bytes_in : RingBuffer → Memory
bytes_in r = r.buffer.bytes

pub IsRing-at :
    (r : RingBuffer) (b : Buffer)
    → IsRing r
    → b.address ≡ r.buffer.address
    → b.capacity ≡ r.buffer.capacity
    → IsRing (record r { buffer = b })
IsRing-at r b valid a c = record {
  placed = rw a valid.placed;
  small = rw c valid.small;
  room = rw c valid.room;
  nonempty = valid.nonempty;
  half = valid.half;
  whole = valid.whole;
  masks = valid.masks;
  max = valid.max;
}

-- The records from position `p` to position `tail` are `es`.
pub record Holding (r : RingBuffer) (p tail : ℕ) (es : List Entry) : Type 0 where
  pub ring : IsRing r
  pub entries : Entries 128 r.capacity (r.capacity / 8) (bytes_in r) p es
  pub reaches : end_at 128 r.capacity (r.capacity / 8) p es ≡ tail
  pub bounded : tail ≤ p + r.capacity
  pub in_range : tail < 2 ^ 62
  pub on_int : (p % r.capacity) % 4 ≡ 0

module _ (r : RingBuffer) (valid : IsRing r) where
  pub index_lem : (p : ℕ) → low32 (index_of p r.mask) ≡ p % r.capacity
  index_lem p =
      let e : suc r.mask ≡ r.capacity = omega (arith, valid.masks, valid.nonempty) in
      rw e (omega (arith, mod-lt p {m = r.capacity} valid.nonempty, valid.small, valid.room))

  pub place_lem : (k : ℕ) → k ≤ r.capacity → add32 128 k ≡ 128 + k
  place_lem k h = omega (arith, valid.small, valid.room)

pub required_lem : (n : ℕ) → n < 2 ^ 29 → align (add32 (8 + n) 4) 4 ≡ ok (record_space n)
required_lem n h =
    let e : add32 (8 + n) 4 ≡ n + 12 = omega arith in
    let e' : (n + 12 + 3) / 4 * 4 ≡ record_space n = omega arith in
    rw (e, align_int (n + 12) (omega arith), e')

-- The ring buffer holds `es` between its head and its tail.
pub record Contents (r : RingBuffer) (es : List Entry) : Type 0 where
  pub holding : Holding r (load 8 (bytes_in r) 0) (load 8 (bytes_in r) 64) es

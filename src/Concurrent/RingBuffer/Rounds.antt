-- ===== src/Concurrent/RingBuffer/Rounds.antt =====
-- One round of the loop of read, at each kind of record.
use caeron.Base.{
  ℕ, suc, ◌+◌, ◌-◌, ◌/◌, ◌%◌, ◌^◌, ◌<◌, ◌≡◌, refl, List, ◌∷◌, length, arith, true, false, ◌==◌, ok,
}
use native.Mathlib.Nat.{mod-lt}
use caeron.Word.{add32, sub32, add64, sub64, sign_extend, is_neg32, lt32, lt64}
use caeron.Buffer.{Buffer}
use caeron.Buffer.Bytes.{store}
use caeron.Buffer.Laws.{Fits, get_i32_lem, get_i32_ordered_lem, put_i32_ordered_lem}
use caeron.Concurrent.Records.{Call, message_at}
use caeron.Concurrent.Records.Layout.{Entry, Holds, record_space, mod_round}
use caeron.Concurrent.RingBuffer.{RingBuffer, read_loop}
use caeron.Concurrent.RingBuffer.Contents.{
  IsRing, IsRing-at, bytes_in, index_lem, place_lem, required_lem,
}

module _ (r : RingBuffer) (valid : IsRing r) (p : ℕ) where
  pub length-Fits : (p % r.capacity) % 4 ≡ 0 → Fits r.buffer (128 + p % r.capacity) 4
  length-Fits s = record {
    small = valid.small;
    within = omega (arith, mod-lt p {m = r.capacity} valid.nonempty, valid.room, valid.whole);
  }

  pub length-aligned :
      (p % r.capacity) % 4 ≡ 0 → (r.buffer.address + (128 + p % r.capacity)) % 4 ≡ 0
  length-aligned s = omega (arith, valid.placed)

-- The ring buffer after the length of a record was cleared.
abbrev pub cleared : RingBuffer → ℕ → RingBuffer
cleared r p = record r {
  buffer = record r.buffer { bytes = store 4 r.buffer.bytes (128 + p % r.capacity) 0 };
}

pub cleared-IsRing : (r : RingBuffer) (p : ℕ) → IsRing r → IsRing (cleared r p)
cleared-IsRing r p v = IsRing-at r (cleared r p).buffer v refl refl

module _ (fuel : ℕ) (r : RingBuffer) (valid : IsRing r) (p tail : ℕ) where
  module _ (before : p < tail) (in_range : tail < 2 ^ 62) (s : (p % r.capacity) % 4 ≡ 0) where
    pub message_round :
        (t : ℕ) (bs : List ℕ) (reached : ℕ) (b : Buffer) (calls : List Call)
        → Holds 128 r.capacity (r.capacity / 8) (bytes_in r) p (Entry.message t bs)
        → (let p' : ℕ = p + record_space (length bs) in
            read_loop fuel (cleared r p) p' (p' % r.capacity) tail ≡ ok (reached, b, calls))
        → read_loop (suc fuel) r p (p % r.capacity) tail
          ≡ ok (reached, b, message_at r.buffer (128 + p % r.capacity + 8) t (length bs) ∷ calls)
    unfolding read_loop
    message_round t bs reached b calls (l, ty, body, fit, small) rest =
        let C : ℕ = r.capacity in
        let n : ℕ = length bs in
        let short : n < 2 ^ 28 = omega (arith, valid.small, valid.room) in
        let at : ℕ = 128 + p % C in
        let e1 : lt64 p tail ≡ true = ground arith in
        let e2 : (8 + n == 0) ≡ false = ground arith in
        let e3 : is_neg32 (8 + n) ≡ false = ground arith in
        let e4 : lt32 r.max_msg_length (8 + n) ≡ false =
          rw valid.max (ground (arith, valid.small, valid.room)) in
        let e5 : add32 at 4 ≡ at + 4 = omega (arith, valid.small, valid.room) in
        let e6 : add32 at 8 ≡ at + 8 = omega (arith, valid.small, valid.room) in
        let e7 : sub32 (8 + n) 8 ≡ n = omega arith in
        let e8 : add64 p (sign_extend (record_space n)) ≡ p + record_space n = ground arith in
        let type-Fits : Fits r.buffer (at + 4) 4 = record {
          small = valid.small;
          within = omega (arith, valid.room);
        } in
        rw (
          e1,
          place_lem r valid (p % C) (omega (arith, mod-lt p {m = C} valid.nonempty)),
          get_i32_ordered_lem r.buffer at (length-Fits r valid p s) (length-aligned r valid p s),
          l,
          e2,
          e3,
          e4,
          e5,
          get_i32_lem r.buffer (at + 4) type-Fits,
          ty,
          e6,
          e7,
          put_i32_ordered_lem r.buffer at 0 (length-Fits r valid p s) (length-aligned r valid p s),
          required_lem n (omega arith),
          e8,
          index_lem r valid (p + record_space n),
          rest,
        )

    pub padding_round :
        (reached : ℕ) (b : Buffer) (calls : List Call)
        → Holds 128 r.capacity (r.capacity / 8) (bytes_in r) p Entry.padding
        → (let p' : ℕ = p + (r.capacity - p % r.capacity) in
            read_loop fuel (cleared r p) p' (p' % r.capacity) tail ≡ ok (reached, b, calls))
        → read_loop (suc fuel) r p (p % r.capacity) tail ≡ ok (reached, b, calls)
    unfolding read_loop
    padding_round reached b calls l rest =
        let C : ℕ = r.capacity in
        let at : ℕ = 128 + p % C in
        let inside = mod-lt p {m = C} valid.nonempty in
        let left : ℕ = 2 ^ 32 - (C - p % C) in
        let e1 : lt64 p tail ≡ true = ground arith in
        let e2 : (left == 0) ≡ false = ground (arith, inside, valid.small, valid.room) in
        let e3 : is_neg32 left ≡ true = ground (arith, inside, valid.small, valid.room) in
        let e4 : add64 (sub64 p (sign_extend (p % C))) (sign_extend C) ≡ p + (C - p % C) =
          ground (arith, inside, valid.small, valid.room) in
        let e5 : (p + (C - p % C)) % C ≡ 0 =
          mod_round C p (C - p % C) valid.nonempty (omega arith) (omega (arith, inside)) in
        rw (
          e1,
          place_lem r valid (p % C) (omega (arith, inside)),
          get_i32_ordered_lem r.buffer at (length-Fits r valid p s) (length-aligned r valid p s),
          l,
          e2,
          e3,
          put_i32_ordered_lem r.buffer at 0 (length-Fits r valid p s) (length-aligned r valid p s),
          e4,
          rw e5 at rest,
        )

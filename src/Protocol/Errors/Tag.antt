-- ===== src/Protocol/Errors/Tag.antt =====
-- The group tag of an error frame can be read back, and is there once it was set.
use Prim.Native.Nat.{bit_and, bit_or}
use native.Mathlib.Decide.{ℕ_discrete}
use caeron.Base.{
  ℕ, zero, suc, ◌+◌, ◌^◌, ◌<◌, ◌≡◌, ◌≢◌, refl, Bool, true, false, not, ◌&&◌, ◌==◌, ltb, ok, arith,
}
use caeron.Buffer.{Buffer}
use caeron.Buffer.Bytes.{load, store, load-lt, load-store_self}
use caeron.Buffer.Laws.{Fits}
use caeron.Protocol.Control.{ErrorFrame, error_slot}
use caeron.Protocol.Errors.{get_error, set_error_group_tag, has_group_tag}
use caeron.Protocol.Errors.Fields.{get_error_lem, set_error_lem, load-store_other}

-- A test holds of all the numbers below `n`.
all_below : (ℕ → Bool) → ℕ → Bool
all_below test zero = true
all_below test (suc n) = test n && all_below test n

all_below_lem : (test : ℕ → Bool) (n k : ℕ) → all_below test n ≡ true → k < n → test k ≡ true
unfolding all_below
all_below_lem test zero k h lt = absurd (omega arith)
all_below_lem test (suc n) k h lt = elim (ℕ_discrete k n) [
  | yes e ↦ rw e (ground arith)
  | no ne ↦ ground (arith, all_below_lem test n k)
]

-- What setting the flag does to the flags, a byte.
flag_test : ℕ → Bool
flag_test f =
    ltb (bit_or f 8) 256
    && (not (bit_and (bit_or f 8) 8 == 0) && bit_and (bit_or f 8) 0xF7 == bit_and f 0xF7)

flag_test_lem : (f : ℕ) → f < 256 → flag_test f ≡ true
unfolding all_below flag_test
flag_test_lem f h = all_below_lem flag_test 256 f refl h

module _ (f : ℕ) (flag : flag_test f ≡ true) where
  flag_small : bit_or f 8 < 256
  unfolding flag_test
  flag_small = ground arith

  flag_set : (bit_and (bit_or f 8) 8 == 0) ≡ false
  unfolding flag_test
  flag_set = ground arith

  flag_others : bit_and (bit_or f 8) 0xF7 ≡ bit_and f 0xF7
  unfolding flag_test
  flag_others = ground arith

-- After set_error_group_tag on an error frame that lies in the buffer: the tag's field returns the
-- tag, has_group_tag is true, the other seven flags are as before, and a field `g` other than the
-- tag and the flags returns what it did before.
pub set_error_group_tag-has_group_tag :
    (b : Buffer) (base v : ℕ) (g : ErrorFrame)
    → Fits b base 40
    → v < 2 ^ 64
    → ErrorFrame.group_tag ≢ g
    → ErrorFrame.flags ≢ g
    → (old new : ℕ) × (b' : Buffer) × (set_error_group_tag b base v ≡ ok b')
      × (get_error ErrorFrame.group_tag b' base ≡ ok v)
      × (has_group_tag b' base ≡ ok true)
      × (get_error ErrorFrame.flags b base ≡ ok old)
      × (get_error ErrorFrame.flags b' base ≡ ok new)
      × (bit_and new 0xF7 ≡ bit_and old 0xF7)
      × (get_error g b' base ≡ get_error g b base)
unfolding set_error_group_tag has_group_tag error_slot
set_error_group_tag-has_group_tag b base v g fits small ne ne' =
    let m = b.bytes in
    let m1 = store 8 m (base + 24) v in
    let old = load 1 m (base + 5) in
    let new = bit_or old 8 in
    let m2 = store 1 m1 (base + 5) new in
    let b1 : Buffer = record b { bytes = m1 } in
    let b2 : Buffer = record b { bytes = m2 } in
    let fits1 : Fits b1 base 40 = record { small = fits.small; within = fits.within } in
    let fits2 : Fits b2 base 40 = record { small = fits.small; within = fits.within } in
    let flag : flag_test old ≡ true = flag_test_lem old (load-lt 1 m (base + 5)) in
    let same : load 1 m1 (base + 5) ≡ old =
      load-store_other m base ErrorFrame.group_tag ErrorFrame.flags v (cc) in
    let read : load 1 m2 (base + 5) ≡ new =
      load-store_self 1 m1 (base + 5) new (flag_small old flag) in
    (
      old,
      new,
      b2,
      rw (
        set_error_lem b base fits ErrorFrame.group_tag v,
        get_error_lem b1 base fits1 ErrorFrame.flags,
        same,
        set_error_lem b1 base fits1 ErrorFrame.flags new,
      ),
      rw (
        get_error_lem b2 base fits2 ErrorFrame.group_tag,
        load-store_other m1 base ErrorFrame.flags ErrorFrame.group_tag new (cc),
        load-store_self 8 m (base + 24) v small,
      ),
      rw (get_error_lem b2 base fits2 ErrorFrame.flags, read, flag_set old flag),
      rw (get_error_lem b base fits ErrorFrame.flags),
      rw (get_error_lem b2 base fits2 ErrorFrame.flags, read),
      flag_others old flag,
      rw (
        get_error_lem b2 base fits2 g,
        get_error_lem b base fits g,
        load-store_other m1 base ErrorFrame.flags g new ne',
        load-store_other m base ErrorFrame.group_tag g v ne,
      ),
    )

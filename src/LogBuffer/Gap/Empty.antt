-- ===== src/LogBuffer/Gap/Empty.antt =====
-- Runs of empty slots, walked forwards and backwards.
use caeron.Base.{
  ℕ, zero, suc, ◌+◌, ◌*◌, ◌%◌, ◌≤◌, ◌<◌, ◌≡◌, Bool, true, ◌&&◌, ◌==◌, le→ltb, Result, ok, arith,
}
use native.Mathlib.Decide.{ℕ_discrete}
use caeron.Word.{sub32}
use caeron.Word.Bounds.{lt32_lem}
use caeron.Buffer.{Buffer}
use caeron.LogBuffer.Frame.Term.{IsTerm, IsSlot, length_at}
use caeron.LogBuffer.Gap.{zeroed_back}

-- The `n` slots from `o` on are empty.
unfoldable pub all_empty : Buffer → ℕ → ℕ → Bool
all_empty b o zero = true
all_empty b o (suc n) = length_at b (o + 32 * n) == 0 && all_empty b o n

pub all_empty_at :
    (b : Buffer) (o n k : ℕ) → all_empty b o n ≡ true → k < n → length_at b (o + 32 * k) ≡ 0
unfolding all_empty
all_empty_at b o zero k h lt = absurd (omega arith)
all_empty_at b o (suc n) k h lt = elim (ℕ_discrete k n) [
  | yes e ↦ rw e (ground arith)
  | no ne ↦ ground (arith, all_empty_at b o n k)
]

pub all_empty-first :
    (b : Buffer) (o n : ℕ)
    → length_at b o ≡ 0
    → all_empty b (o + 32) n ≡ true
    → all_empty b o (suc n) ≡ true
unfolding all_empty
all_empty-first b o zero h k = let e : o + 32 * 0 ≡ o = omega arith in rw (e, h)
all_empty-first b o (suc n) h k =
    let e : o + 32 + 32 * n ≡ o + 32 * suc n = omega arith in
    ground (arith, rw e at k, all_empty-first b o n h)

-- The walk backwards over `n` slots of the term decides whether they are all empty.
pub zeroed_back_lem :
    (fuel : ℕ) (b : Buffer) (read : ℕ → Result ℕ) (o n : ℕ)
    → ((p : ℕ) → IsSlot b p → read p ≡ ok (length_at b p))
    → IsTerm b
    → o % 32 ≡ 0
    → o + 32 * n ≤ b.capacity
    → n < fuel
    → zeroed_back fuel read o (sub32 (o + 32 * n) 32) ≡ ok (all_empty b o n)
unfolding zeroed_back all_empty
zeroed_back_lem zero b read o n reads t s fits f = absurd (omega arith)
zeroed_back_lem (suc fuel) b read o zero reads t s fits f = ground (arith, t.small)
zeroed_back_lem (suc fuel) b read o (suc n) reads t s fits f =
    let e : sub32 (o + 32 * suc n) 32 ≡ o + 32 * n = omega (arith, t.small) in
    let slot : IsSlot b (o + 32 * n) = record {
      term = t;
      on_slot = omega arith;
      within = omega arith;
    } in
    rw
      (
        e,
        lt32_lem (o + 32 * n) o (omega (arith, t.small)) (omega (arith, t.small)),
        le→ltb (o + 32 * n) o (omega arith),
        reads (o + 32 * n) slot,
        zeroed_back_lem fuel b read o n reads t s (omega arith) (omega arith),
      )
      (ground arith)

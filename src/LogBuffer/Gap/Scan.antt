-- ===== src/LogBuffer/Gap/Scan.antt =====
-- What scan_for_gap finds in a term that holds a sequence of frames.
use caeron.Base.{
  ℕ, zero, suc, ◌+◌, ◌*◌, ◌%◌, ◌≤◌, ◌<◌, ◌≡◌, ◌≢◌, ◌⊎◌, inl, inr, true, ltb, lt→ltb, if◌then◌else◌,
  List, [], ◌∷◌, Option, none, some, ok, arith, refl,
}
use native.Mathlib.Decide.{dec_lt, ℕ_discrete}
use caeron.Word.Bounds.{aligned, lt32_lem, add32_lem}
use caeron.Buffer.{Buffer}
use caeron.LogBuffer.Frame.Term.{IsTerm, IsSlot, Frame, frame_length_lem, length_at}
use caeron.LogBuffer.Gap.{empty_loop, OnGap}
use caeron.LogBuffer.Gap.Empty.{all_empty, all_empty-first}

-- The first boundary of frames at or behind `limit`, or the end of the frames.
pub reach : ℕ → ℕ → List Frame → ℕ
reach limit o [] = o
reach limit o (f ∷ fs) =
    let rest = reach limit (o + aligned f.length) fs in if ltb o limit then rest else o

-- What the second loop finds from `o` on: `n` empty slots, behind which it stops.
pub record Run (fuel : ℕ) (b : Buffer) (limit o n : ℕ) : Type 0 where
  pub result : empty_loop fuel b limit o ≡ ok (o + 32 * n)
  pub empty : all_empty b o n ≡ true
  pub stop : (limit ≤ o + 32 * n) ⊎ (length_at b (o + 32 * n) ≢ 0)
  pub bounded : (n ≡ 0) ⊎ (o + 32 * n < limit + 32)
  pub inside : o + 32 * n ≤ b.capacity

pub empty_loop_lem :
    (fuel : ℕ) (b : Buffer) (limit o : ℕ)
    → IsTerm b
    → o % 32 ≡ 0
    → o ≤ b.capacity
    → limit ≤ b.capacity
    → b.capacity < o + fuel
    → (n : ℕ) × Run fuel b limit o n
unfolding empty_loop all_empty
empty_loop_lem zero b limit o t s small p f = absurd (omega arith)
empty_loop_lem (suc fuel) b limit o t s small p f = elim (dec_lt o limit) [
  | no beyond ↦ (
    0,
    record {
      result = let e : o + 32 * 0 ≡ o = omega arith in rw e (ground (arith, t.small));
      empty = refl;
      stop = inl (omega arith);
      bounded = inl refl;
      inside = omega arith;
    },
  )
  | yes within ↦ elim (ℕ_discrete (length_at b o) 0) [
    | no there ↦ (
      0,
      record {
        result =
            let e : o + 32 * 0 ≡ o = omega arith in
            rw (e, frame_length_lem b o (slot within)) (ground (arith, t.small));
        empty = refl;
        stop = inr (let e : o + 32 * 0 ≡ o = omega arith in rw e there);
        bounded = inl refl;
        inside = omega arith;
      },
    )
    | yes vacant ↦
        let (n, run) =
          empty_loop_lem fuel b limit (o + 32) t (omega arith) (omega (arith, t.whole)) p
            (omega arith) in
        let e : o + 32 + 32 * n ≡ o + 32 * suc n = omega arith in
        (
          suc n,
          record {
            result = rw (
              lt32_lem o limit (omega (arith, t.small)) (omega (arith, t.small)),
              lt→ltb o limit within,
              frame_length_lem b o (slot within),
              vacant,
              add32_lem o 32 (omega (arith, t.small)),
              run.result,
              e,
            );
            empty = all_empty-first b o n vacant run.empty;
            stop = rw e at run.stop;
            bounded = inr (omega (arith, within, run.bounded));
            inside = rw e at run.inside;
          },
        )
  ]
]
  where
    slot : o < limit → IsSlot b o
    slot within = record { term = t; on_slot = s; within = omega arith }

abbrev pub reported : ℕ → ℕ → ℕ → ℕ × Option OnGap
reported term_id start n = (
  start + 32 * n,
  if ltb 0 n then some (record { term_id = term_id; offset = start; length = 32 * n }) else none,
)

-- ===== src/Tests/Gaps.antt =====
-- Gaps and blocked publishers on the small terms.
use caeron.Base.{ℕ, ◌+◌, ◌*◌, ◌≤◌, ◌≡◌, ◌≢◌, ◌⊎◌, refl, arith, ok, true, false, if◌then◌else◌}
use caeron.Buffer.{Buffer}
use caeron.Tests.Inputs.{
  term, term-empty_at, term-IsSlot, claimed, claimed-IsSlot, claimed-length, metadata,
}
use caeron.Word.{is_neg32, neg32}
use caeron.LogBuffer.Frame.Term.{length_at}
use caeron.LogBuffer.Gap.{try_fill_gap}
use caeron.LogBuffer.Gap.Empty.{all_empty}
use caeron.LogBuffer.Gap.Padding.{Padded, try_fill_gap_lem}
use caeron.LogBuffer.Unblocker.{UnblockStatus, unblock_term}
use caeron.LogBuffer.Unblocker.Term.{
  unblock_term-frame, unblock_term-empty, vacated, vacated_status,
}

try_fill_gap_lem_example :
    (b' : Buffer) × (try_fill_gap metadata term 7 128 (32 * 2)
      ≡ ok (if all_empty term 128 2 then (true, b') else (false, term)))
    × Padded metadata term 128 (32 * 2) 7 b'
try_fill_gap_lem_example =
    try_fill_gap_lem metadata term 7 128 2 (term-IsSlot 128 refl (omega arith)) (omega arith)
      (omega arith) (omega arith)

claimed-there : length_at claimed 0 ≢ 0
claimed-there = rw claimed-length (omega arith)

unblock_term-frame_example :
    (b' : Buffer) × (unblock_term metadata claimed 0 64 7
      ≡ ok (
          if is_neg32 (length_at claimed 0)
          then (UnblockStatus.unblocked, b')
          else (UnblockStatus.no_action, claimed)))
    × Padded metadata claimed 0 (neg32 (length_at claimed 0)) 7 b'
unblock_term-frame_example =
    unblock_term-frame metadata claimed 0 64 7 claimed-IsSlot (omega arith) claimed-there

unblock_term-empty_example :
    (n : ℕ) × (b' : Buffer) × (unblock_term metadata term 128 192 7
      ≡ ok (vacated_status 128 192 n, b'))
    × (all_empty term 128 n ≡ true)
    × ((192 ≤ 128 + 32 * n) ⊎ (length_at term (128 + 32 * n) ≢ 0))
    × Padded metadata term 128 (vacated 128 192 n) 7 b'
unblock_term-empty_example =
    unblock_term-empty metadata term 128 192 7 (term-IsSlot 128 refl (omega arith)) (omega arith)
      (omega arith) (omega arith) (term-empty_at 128 (omega arith))

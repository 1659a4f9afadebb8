-- ===== src/Concurrent/Records/Written.antt =====
-- The bytes of a record that was written.
use caeron.Base.{
  ℕ, ◌+◌, ◌-◌, ◌^◌, ◌≤◌, ◌<◌, ◌≡◌, ◌⊎◌, inr, refl, Option, none, some, List, length, ok, arith, ap,
  ◌∙◌,
}
use caeron.Word.{sign_extend}
use caeron.Buffer.{Buffer, set_memory}
use caeron.Buffer.Bytes.{
  Memory, load, store, copy, fill, store_outside, load-store_self, load-store_elsewhere,
}
use caeron.Buffer.Laws.{Fits, Fits-in_bounds, copied}
use caeron.Concurrent.Records.Layout.{bytes_of, bytes_of-eq, length-bytes_of}

-- The body that a pointer stands for, in zeroed memory.
abbrev pub body_of : Option Memory → ℕ → List ℕ
body_of none n = bytes_of (λ j. 0) 0 n
body_of (some src) n = bytes_of src 0 n

pub set_memory_lem :
    (b : Buffer) (o n : ℕ)
    → Fits b o n
    → set_memory b o n 0 ≡ ok (record b { bytes = fill b.bytes o n 0 })
unfolding set_memory
set_memory_lem b o n f =
    let e : sign_extend n ≡ n = ground (arith, f.small, f.within) in rw (Fits-in_bounds b o n f, e)

pub copied-outside :
    (m : Memory) (p : ℕ) (src : Option Memory) (n j : ℕ)
    → (j < p) ⊎ (p + n ≤ j)
    → copied m p src n j ≡ m j
copied-outside m p none n j h = refl
copied-outside m p (some src) n j h = ground arith

pub copied-body :
    (m : Memory) (p : ℕ) (src : Option Memory) (n : ℕ)
    → bytes_of (copied (fill m p n 0) p src n) p n ≡ body_of src n
copied-body m p none n = bytes_of-eq (fill m p n 0) (λ j. 0) p 0 n (λ k lt. ground arith)
copied-body m p (some src) n =
    bytes_of-eq (copy (fill m p n 0) p src 0 n) src p 0 n
      (λ k lt. let e : p + k - p ≡ k = omega arith in ground (arith, ap src e))

pub length-body_of : (src : Option Memory) (n : ℕ) → length (body_of src n) ≡ n
length-body_of none n = length-bytes_of (λ j. 0) 0 n
length-body_of (some src) n = length-bytes_of src 0 n

-- What is at `at` in `m'` is a record of type `t` with the body `bs`, and nothing else changed.
pub record IsWritten (m m' : Memory) (at t n : ℕ) (bs : List ℕ) : Type 0 where
  pub length_word : load 4 m' at ≡ 8 + n
  pub type_word : load 4 m' (at + 4) ≡ t
  pub body : bytes_of m' (at + 8) n ≡ bs
  pub outside : (j : ℕ) → (j < at) ⊎ (at + 8 + n ≤ j) → m' j ≡ m j

pub headed :
    (m m1 : Memory) (at t n : ℕ) (bs : List ℕ)
    → t < 2 ^ 32
    → 8 + n < 2 ^ 32
    → bytes_of m1 (at + 8) n ≡ bs
    → ((j : ℕ) → (j < at) ⊎ (at + 8 + n ≤ j) → m1 j ≡ m j)
    → IsWritten m (store 4 (store 4 m1 (at + 4) t) at (8 + n)) at t n bs
headed m m1 at t n bs small short body outside =
    let m2 : Memory = store 4 m1 (at + 4) t in
    let m3 : Memory = store 4 m2 at (8 + n) in
    record {
      length_word = load-store_self 4 m2 at (8 + n) (omega arith);
      type_word =
          load-store_elsewhere 4 4 m2 (at + 4) at (8 + n) (inr (omega arith))
          ∙ load-store_self 4 m1 (at + 4) t (omega arith);
      body =
          bytes_of-eq m3 m1 (at + 8) (at + 8) n (λ k lt.
            store_outside 4 m2 at (8 + n) (at + 8 + k) (inr (omega arith))
            ∙ store_outside 4 m1 (at + 4) t (at + 8 + k) (inr (omega arith)))
          ∙ body;
      outside = λ j out.
          store_outside 4 m2 at (8 + n) j (omega arith)
          ∙ (store_outside 4 m1 (at + 4) t j (omega arith) ∙ outside j out);
    }

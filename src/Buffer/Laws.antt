-- ===== src/Buffer/Laws.antt =====
-- When an access of a buffer succeeds, and what it then does.
use caeron.Base.{
  refl, inl, inr, Bool-cases, Option, none, some, ap, fun_ext, ℕ, ◌+◌, ◌%◌, ◌^◌, ◌≤◌, ◌<◌, ◌≡◌,
  ◌==◌, true, ok, arith,
}
use caeron.Word.{lt32, sign_extend}
use caeron.Buffer.{
  Buffer, in_bounds, get_i32, put_i32, get_i64, put_i64, get_atomic, put_atomic, get_plain,
  put_plain, get_i32_ordered, put_i32_ordered, get_i64_ordered, put_i64_ordered, get_i32_volatile,
  put_bytes, compare_and_set_i64, put_some_bytes,
}
use caeron.Buffer.Bytes.{Memory, load, store, copy}

-- A range of bytes of the buffer, for offsets that an i32 holds.
pub record Fits (b : Buffer) (offset width : ℕ) : Type 0 where
  pub small : b.capacity < 2 ^ 31
  pub within : offset + width ≤ b.capacity

pub Fits-in_bounds : (b : Buffer) (o w : ℕ) → Fits b o w → in_bounds b o w ≡ true
Fits-in_bounds b o w f = ground arith

pub get_plain_lem :
    (n : ℕ) (b : Buffer) (o : ℕ) → Fits b o n → get_plain n b o ≡ ok (load n b.bytes o)
get_plain_lem n b o f = rw (Fits-in_bounds b o n f)

pub put_plain_lem :
    (n : ℕ) (b : Buffer) (o v : ℕ)
    → Fits b o n
    → put_plain n b o v ≡ ok (record b { bytes = store n b.bytes o v })
put_plain_lem n b o v f = rw (Fits-in_bounds b o n f)

pub get_atomic_lem :
    (n : ℕ) (b : Buffer) (o : ℕ)
    → Fits b o n
    → (b.address + o) % n ≡ 0
    → get_atomic n b o ≡ ok (load n b.bytes o)
get_atomic_lem n b o f a = rw (Fits-in_bounds b o n f, a)

pub put_atomic_lem :
    (n : ℕ) (b : Buffer) (o v : ℕ)
    → Fits b o n
    → (b.address + o) % n ≡ 0
    → put_atomic n b o v ≡ ok (record b { bytes = store n b.bytes o v })
put_atomic_lem n b o v f a = rw (Fits-in_bounds b o n f, a)

-- The accessors, each with the width of its type.
module _ (b : Buffer) (o : ℕ) where
  pub get_i32_lem : Fits b o 4 → get_i32 b o ≡ ok (load 4 b.bytes o)
  unfolding get_i32
  get_i32_lem f = get_plain_lem 4 b o f

  pub get_i64_lem : Fits b o 8 → get_i64 b o ≡ ok (load 8 b.bytes o)
  unfolding get_i64
  get_i64_lem f = get_plain_lem 8 b o f

  pub put_i32_lem :
      (v : ℕ) → Fits b o 4 → put_i32 b o v ≡ ok (record b { bytes = store 4 b.bytes o v })
  unfolding put_i32
  put_i32_lem v f = put_plain_lem 4 b o v f

  pub put_i64_lem :
      (v : ℕ) → Fits b o 8 → put_i64 b o v ≡ ok (record b { bytes = store 8 b.bytes o v })
  unfolding put_i64
  put_i64_lem v f = put_plain_lem 8 b o v f

  pub put_bytes_lem :
      (src : Memory) (q n : ℕ)
      → Fits b o n
      → put_bytes b o src q n ≡ ok (record b { bytes = copy b.bytes o src q n })
  unfolding put_bytes
  put_bytes_lem src q n f =
      let e : sign_extend n ≡ n = ground (arith, f.small, f.within) in
      rw (Fits-in_bounds b o n f, e)

  pub get_i32_volatile_lem :
      Fits b o 4 → (b.address + o) % 4 ≡ 0 → get_i32_volatile b o ≡ ok (load 4 b.bytes o)
  unfolding get_i32_volatile
  get_i32_volatile_lem f a = get_atomic_lem 4 b o f a

  pub get_i32_ordered_lem :
      Fits b o 4 → (b.address + o) % 4 ≡ 0 → get_i32_ordered b o ≡ ok (load 4 b.bytes o)
  unfolding get_i32_ordered
  get_i32_ordered_lem f a = get_atomic_lem 4 b o f a

  pub get_i64_ordered_lem :
      Fits b o 8 → (b.address + o) % 8 ≡ 0 → get_i64_ordered b o ≡ ok (load 8 b.bytes o)
  unfolding get_i64_ordered
  get_i64_ordered_lem f a = get_atomic_lem 8 b o f a

  pub put_i32_ordered_lem :
      (v : ℕ)
      → Fits b o 4
      → (b.address + o) % 4 ≡ 0
      → put_i32_ordered b o v ≡ ok (record b { bytes = store 4 b.bytes o v })
  unfolding put_i32_ordered
  put_i32_ordered_lem v f a = put_atomic_lem 4 b o v f a

  pub put_i64_ordered_lem :
      (v : ℕ)
      → Fits b o 8
      → (b.address + o) % 8 ≡ 0
      → put_i64_ordered b o v ≡ ok (record b { bytes = store 8 b.bytes o v })
  unfolding put_i64_ordered
  put_i64_ordered_lem v f a = put_atomic_lem 8 b o v f a

  -- An exchange of the value that is there takes place.
  pub compare_and_set_i64_lem :
      (v : ℕ)
      → Fits b o 8
      → (b.address + o) % 8 ≡ 0
      → compare_and_set_i64 b o (load 8 b.bytes o) v
        ≡ ok (true, record b { bytes = store 8 b.bytes o v })
  unfolding compare_and_set_i64
  compare_and_set_i64_lem v f a =
      let e : (load 8 b.bytes o == load 8 b.bytes o) ≡ true = ground arith in
      rw (get_atomic_lem 8 b o f a, e)

abbrev pub copied : Memory → ℕ → Option Memory → ℕ → Memory
copied m p none n = m
copied m p (some src) n = copy m p src 0 n

pub put_some_bytes_lem :
    (b : Buffer) (o : ℕ) (src : Option Memory) (n : ℕ)
    → Fits b o n
    → put_some_bytes b o src n ≡ ok (record b { bytes = copied b.bytes o src n })
unfolding put_some_bytes
put_some_bytes_lem b o none n f = refl
put_some_bytes_lem b o (some src) n f = elim (Bool-cases (lt32 0 n)) [
  | inl nonempty ↦ rw nonempty (put_bytes_lem b o src 0 n f)
  | inr nothing ↦
      let same : b.bytes ≡ copy b.bytes o src 0 n =
        fun_ext (λ j. ground (arith, f.small, f.within)) in
      rw nothing (ap (λ (m : Memory). ok (record b { bytes = m })) same)
]

-- ===== src/Buffer/Bytes.antt =====
-- Little-endian values in a memory of bytes: what memcpy of an integer and memset do.
use caeron.Base.{
  ℕ, zero, suc, ◌+◌, ◌-◌, ◌*◌, ◌/◌, ◌%◌, ◌^◌, ◌≤◌, ◌<◌, ◌≡◌, ◌⊎◌, inl, refl, ◌==◌, if◌then◌else◌,
  leb, ltb, ◌&&◌, arith, ap,
}
use native.Mathlib.Nat.{pow-suc, add-zero}

abbrev pub Memory : Type 0
Memory = ℕ → ℕ

abbrev pub update : Memory → ℕ → ℕ → Memory
update m p v q = if p == q then v else m q

-- The value of the `w` bytes from `p` on.
unfoldable pub load : ℕ → Memory → ℕ → ℕ
load zero m p = 0
load (suc w) m p = m p % 256 + 256 * load w m (p + 1)

unfoldable pub store : ℕ → Memory → ℕ → ℕ → Memory
store zero m p v = m
store (suc w) m p v = store w (update m p (v % 256)) (p + 1) (v / 256)

-- `n` bytes of `src` from `q` on are copied to `p`.
abbrev pub copy : Memory → ℕ → Memory → ℕ → ℕ → Memory
copy m p src q n j = if leb p j && ltb j (p + n) then src (q + (j - p)) else m j

abbrev pub fill : Memory → ℕ → ℕ → ℕ → Memory
fill m p n v j = if leb p j && ltb j (p + n) then v % 256 else m j

-- Two ranges of bytes that do not meet.
abbrev pub Apart : ℕ → ℕ → ℕ → ℕ → Type 0
Apart p w q v = (p + w ≤ q) ⊎ (q + v ≤ p)

pub store_outside : (w : ℕ) (m : Memory) (p v j : ℕ) → (j < p) ⊎ (p + w ≤ j) → store w m p v j ≡ m j
unfolding store
store_outside zero m p v j h = refl
store_outside (suc w) m p v j h =
    ground (arith, store_outside w (update m p (v % 256)) (p + 1) (v / 256) j (omega arith))

-- A load depends on its own bytes only.
pub load_local :
    (w : ℕ) (m n : Memory) (p q : ℕ)
    → ((k : ℕ) → k < w → m (p + k) % 256 ≡ n (q + k) % 256)
    → load w m p ≡ load w n q
unfolding load
load_local zero m n p q h = refl
load_local (suc w) m n p q h = omega (
  arith,
  rw (add-zero p, add-zero q) at (h 0 (omega arith)),
  load_local w m n (p + 1) (q + 1) (λ k lt.
      let e : p + 1 + k ≡ p + suc k = omega arith in
      let e' : q + 1 + k ≡ q + suc k = omega arith in rw (e, e') (h (suc k) (omega arith))),
)

pub load-store_elsewhere :
    (w u : ℕ) (m : Memory) (p q v : ℕ) → Apart p w q u → load w (store u m q v) p ≡ load w m p
load-store_elsewhere w u m p q v h =
    load_local w (store u m q v) m p p
      (λ k lt. ap (λ (x : ℕ). x % 256) (store_outside u m q v (p + k) (omega arith)))

pub load-lt : (w : ℕ) (m : Memory) (p : ℕ) → load w m p < 256 ^ w
unfolding load
load-lt zero m p = omega arith
load-lt (suc w) m p = omega (arith, load-lt w m (p + 1), pow-suc 256 w)

pub load-store_self : (w : ℕ) (m : Memory) (p v : ℕ) → v < 256 ^ w → load w (store w m p v) p ≡ v
unfolding load store
load-store_self zero m p v h = omega arith
load-store_self (suc w) m p v h = ground (
  arith,
  store_outside w (update m p (v % 256)) (p + 1) (v / 256) p (inl (omega arith)),
  load-store_self w (update m p (v % 256)) (p + 1) (v / 256) (omega (arith, pow-suc 256 w)),
)

-- Storing a loaded value copies its bytes.
pub store-load_byte :
    (w : ℕ) (m n : Memory) (p q k : ℕ)
    → k < w
    → store w m p (load w n q) (p + k) % 256 ≡ n (q + k) % 256
unfolding load store
store-load_byte zero m n p q k h = elim h [ ]
store-load_byte (suc w) m n p q zero h =
    rw (add-zero p, add-zero q)
      (ground (
        arith,
        store_outside w (update m p ((n q % 256 + 256 * load w n (q + 1)) % 256)) (p + 1)
            ((n q % 256 + 256 * load w n (q + 1)) / 256) p (inl (omega arith)),
      ))
store-load_byte (suc w) m n p q (suc k) h =
    let x : ℕ = n q % 256 + 256 * load w n (q + 1) in
    let e : x / 256 ≡ load w n (q + 1) = omega arith in
    let e1 : p + suc k ≡ p + 1 + k = omega arith in
    let e2 : q + suc k ≡ q + 1 + k = omega arith in
    rw (e, e1, e2) (store-load_byte w (update m p (x % 256)) n (p + 1) (q + 1) k (omega arith))

-- No byte changes outside the `n` from `p` on.
abbrev pub SameOutside : ℕ → ℕ → Memory → Memory → Type 0
SameOutside p n m m' = (j : ℕ) → m' j ≡ (if leb p j && ltb j (p + n) then m' j else m j)

pub load-copy_inside :
    (w : ℕ) (m src : Memory) (p q n k : ℕ)
    → k + w ≤ n
    → load w (copy m p src q n) (p + k) ≡ load w src (q + k)
load-copy_inside w m src p q n k h = load_local w (copy m p src q n) src (p + k) (q + k) (λ i lt.
    let e : q + (p + k + i - p) ≡ q + k + i = omega arith in
    ap (λ (x : ℕ). x % 256) (ground (arith, ap src e)))

pub load-copy_elsewhere :
    (w : ℕ) (m src : Memory) (p q n r : ℕ)
    → Apart r w p n
    → load w (copy m p src q n) r ≡ load w m r
load-copy_elsewhere w m src p q n r h =
    load_local w (copy m p src q n) m r r (λ i lt. ap (λ (x : ℕ). x % 256) (ground arith))

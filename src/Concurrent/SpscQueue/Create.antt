-- ===== src/Concurrent/SpscQueue/Create.antt =====
-- What the constructor of the queue sets up.
use caeron.Base.{
  ℕ, zero, suc, ◌-◌, ◌*◌, ◌^◌, ◌≤◌, ◌<◌, ◌≡◌, ◌⊎◌, inl, inr, refl, leb, Bool-cases, true, none, [],
  ok, arith,
}
use native.Mathlib.Decide.{dec_le}
use native.Mathlib.Nat.{pow-suc, pow-succ', mul_assoc}
use caeron.Word.{lt32, low32, sub32, bit_ceil_from, bit_ceil}
use caeron.Concurrent.SpscQueue.{SpscQueue, create}
use caeron.Concurrent.SpscQueue.Fifo.{Contents}

bit_ceil_from_lem :
    (fuel p v : ℕ)
    → v ≤ p * 2 ^ fuel
    → (v ≤ bit_ceil_from fuel p v)
      × ((bit_ceil_from fuel p v ≡ p) ⊎ (bit_ceil_from fuel p v < 2 * v))
unfolding bit_ceil_from
bit_ceil_from_lem zero p v h = (omega arith, inl refl)
bit_ceil_from_lem (suc f) p v h = elim (dec_le v p) [
  | yes fits ↦ ground arith
  | no short ↦
      let e : p * 2 ^ suc f ≡ p * 2 * 2 ^ f = rw (pow-succ' 2 f, mul_assoc p 2 (2 ^ f)) in
      let (reached, near) = bit_ceil_from_lem f (p * 2) v (rw e at h) in
      ground (arith, reached, near)
]

bit_ceil_from-power : (fuel k v : ℕ) → (n : ℕ) × (bit_ceil_from fuel (2 ^ k) v ≡ 2 ^ n)
unfolding bit_ceil_from
bit_ceil_from-power zero k v = (k, refl)
bit_ceil_from-power (suc f) k v = elim (Bool-cases (leb v (2 ^ k))) [
  | inl fits ↦ (k, rw fits)
  | inr short ↦
      let (n, e) = bit_ceil_from-power f (suc k) v in
      let doubled : 2 ^ suc k ≡ 2 ^ k * 2 = pow-suc 2 k in (n, rw short (rw doubled at e))
]

bit_ceil_lem : (v : ℕ) → 0 < v → v ≤ 2 ^ 30 → (v ≤ bit_ceil v) × (bit_ceil v < 2 * v)
unfolding bit_ceil
bit_ceil_lem v pos small =
    let (reached, near) = bit_ceil_from_lem 32 1 v (omega arith) in
    (reached, elim near [ inl e ↦ omega arith | inr h ↦ h ])

bit_ceil-power : (v : ℕ) → (n : ℕ) × (bit_ceil v ≡ 2 ^ n)
unfolding bit_ceil
bit_ceil-power v = bit_ceil_from-power 32 0 v

-- For a requested capacity from 1 to 2^30, the constructor succeeds with an empty queue, whose
-- capacity is a power of two, at least the requested one and less than twice it.
pub create_lem :
    (A : Type 0) (requested : ℕ)
    → 0 < requested
    → requested ≤ 2 ^ 30
    → (q : SpscQueue A) × (n : ℕ) × (create requested ≡ ok q)
      × Contents q []
      × (q.capacity ≡ 2 ^ n)
      × (requested ≤ q.capacity)
      × (q.capacity < 2 * requested)
unfolding create
create_lem A requested pos small =
    let (reached, near) = bit_ceil_lem requested pos small in
    let (n, power) = bit_ceil-power requested in
    let fits : low32 (bit_ceil requested) ≡ bit_ceil requested = omega arith in
    let some_room : lt32 0 requested ≡ true = ground arith in
    let masked : sub32 (bit_ceil requested) 1 ≡ bit_ceil requested - 1 = omega arith in
    (
      record {
        storage = λ i. none;
        capacity = bit_ceil requested;
        mask = bit_ceil requested - 1;
        head = 0;
        tail = 0;
      },
      n,
      rw (some_room, fits, masked),
      record {
        room = omega arith;
        small = omega arith;
        masks = refl;
        counted = refl;
        bounded = omega arith;
        in_range = omega arith;
        holds = tt;
      },
      power,
      reached,
      near,
    )

-- ===== src/Concurrent/Records/Layout.antt =====
-- Records in a region of `C` bytes that starts at `base` and goes round, at positions that only
-- grow.
use caeron.Base.{
  ℕ, zero, suc, ◌+◌, ◌-◌, ◌*◌, ◌/◌, ◌%◌, ◌^◌, ◌≤◌, ◌<◌, ◌≡◌, ◌⊎◌, inl, inr, refl, List, [], ◌∷◌,
  ◌++◌, length, arith, ap, ◌∙◌, sym,
}
use native.Mathlib.Nat.{mod_self, mod-add-mod, mod-eq_of_lt, mod-eq-sub-mod, mod-lt}
use native.Mathlib.Decide.{dec_lt}
use caeron.Buffer.Bytes.{Memory, load}
use caeron.Concurrent.Records.{Call}

pub data Entry : Type 0 where
  message : ℕ → List ℕ → Entry
  padding : Entry

-- The `n` bytes from `p` on.
unfoldable pub bytes_of : Memory → ℕ → ℕ → List ℕ
bytes_of m p zero = []
bytes_of m p (suc n) = m p ∷ bytes_of m (p + 1) n

-- What a handler is called with.
abbrev pub delivered : Call → ℕ × List ℕ
delivered c = (c.msg_type_id, bytes_of c.message.bytes 0 c.message.capacity)

unfoldable pub all_delivered : List Call → List (ℕ × List ℕ)
all_delivered [] = []
all_delivered (c ∷ cs) = delivered c ∷ all_delivered cs

unfoldable pub messages_of : List Entry → List (ℕ × List ℕ)
messages_of [] = []
messages_of (Entry.message t bs ∷ es) = (t, bs) ∷ messages_of es
messages_of (Entry.padding ∷ es) = messages_of es

-- The bytes of a record, with its header and the header's length of the next one, aligned.
abbrev pub record_space : ℕ → ℕ
record_space n = (n + 15) / 4 * 4

module _ (base C max : ℕ) where
  abbrev pub width : ℕ → Entry → ℕ
  width p (Entry.message t bs) = record_space (length bs)
  width p Entry.padding = C - p % C

  -- A padding record fills the region up to its end.
  abbrev pub Holds : Memory → ℕ → Entry → Type 0
  Holds m p (Entry.message t bs) =
      (load 4 m (base + p % C) ≡ 8 + length bs)
      × (load 4 m (base + p % C + 4) ≡ t)
      × (bytes_of m (base + p % C + 8) (length bs) ≡ bs)
      × (p % C + record_space (length bs) ≤ C)
      × (8 + length bs ≤ max)
  Holds m p Entry.padding = load 4 m (base + p % C) ≡ 2 ^ 32 - (C - p % C)

  abbrev pub Entries : Memory → ℕ → List Entry → Type 0
  Entries m p [] = Unit
  Entries m p (e ∷ es) = Holds m p e × Entries m (p + width p e) es

  unfoldable pub end_at : ℕ → List Entry → ℕ
  end_at p [] = p
  end_at p (e ∷ es) = end_at (p + width p e) es

  pub le-end_at : (p : ℕ) (es : List Entry) → p ≤ end_at p es
  unfolding end_at
  le-end_at p [] = omega arith
  le-end_at p (e ∷ es) = omega (arith, le-end_at (p + width p e) es)

  pub end_at-append : (p : ℕ) (es fs : List Entry) → end_at p (es ++ fs) ≡ end_at (end_at p es) fs
  unfolding end_at
  end_at-append p [] fs = refl
  end_at-append p (e ∷ es) fs = end_at-append (p + width p e) es fs

  pub Entries-append :
      (m : Memory) (p : ℕ) (es fs : List Entry)
      → Entries m p es
      → Entries m (end_at p es) fs
      → Entries m p (es ++ fs)
  unfolding end_at
  Entries-append m p [] fs h k = k
  Entries-append m p (e ∷ es) fs (h, hs) k = (h, Entries-append m (p + width p e) es fs hs k)

pub messages_of-append :
    (es fs : List Entry) → messages_of (es ++ fs) ≡ messages_of es ++ messages_of fs
unfolding messages_of
messages_of-append [] fs = refl
messages_of-append (Entry.message t bs ∷ es) fs =
    ap (λ (x : List (ℕ × List ℕ)). (t, bs) ∷ x) (messages_of-append es fs)
messages_of-append (Entry.padding ∷ es) fs = messages_of-append es fs

pub length-bytes_of : (m : Memory) (p n : ℕ) → length (bytes_of m p n) ≡ n
unfolding bytes_of
length-bytes_of m p zero = refl
length-bytes_of m p (suc n) = ap suc (length-bytes_of m (p + 1) n)

pub bytes_of-eq :
    (m m' : Memory) (p q n : ℕ)
    → ((k : ℕ) → k < n → m (p + k) ≡ m' (q + k))
    → bytes_of m p n ≡ bytes_of m' q n
unfolding bytes_of
bytes_of-eq m m' p q zero h = refl
bytes_of-eq m m' p q (suc n) h =
    let e : m p ≡ m' q =
      let ep : p + 0 ≡ p = omega arith in
      let eq : q + 0 ≡ q = omega arith in rw (ep, eq) at (h 0 (omega arith)) in
    let es = bytes_of-eq m m' (p + 1) (q + 1) n (λ k lt.
      let ep : p + 1 + k ≡ p + suc k = omega arith in
      let eq : q + 1 + k ≡ q + suc k = omega arith in rw (ep, eq) (h (suc k) (omega arith))) in
    rw (e, es)

-- Where a position stands after `d` bytes more, less than once round.
pub mod_cases :
    (C i d : ℕ) → 0 < C → d < C → ((i + d) % C ≡ i % C + d) ⊎ ((i + d) % C + C ≡ i % C + d)
mod_cases C i d pos small = elim (dec_lt (i % C + d) C) [
  | yes p ↦ inl (omega (arith, mod-add-mod i C d, mod-eq_of_lt p))
  | no p ↦ inr (
      omega (
        arith,
        mod-add-mod i C d,
        mod-lt i {m = C} pos,
        mod-eq-sub-mod {n = i % C + d} {m = C} (omega arith),
        mod-eq_of_lt {n = i % C + d - C} {m = C} (omega (arith, mod-lt i {m = C} pos)),
      ))
]

-- A stretch that ends at the end of the region leads to its start.
pub mod_round : (C i d : ℕ) → 0 < C → d ≤ C → i % C + d ≡ C → (i + d) % C ≡ 0
mod_round C i d pos small e = sym (mod-add-mod i C d) ∙ rw e (mod_self C)

-- The bytes of a view.
pub bytes_of-view : (m : Memory) (q n : ℕ) → bytes_of (λ j. m (q + j)) 0 n ≡ bytes_of m q n
bytes_of-view m q n =
    bytes_of-eq (λ j. m (q + j)) m 0 q n (λ k lt. let e : 0 + k ≡ k = omega arith in rw e refl)

pub messages_of-padded : (es : List Entry) → messages_of (es ++ Entry.padding ∷ []) ≡ messages_of es
unfolding messages_of
messages_of-padded [] = refl
messages_of-padded (Entry.message t bs ∷ es) =
    ap (λ (x : List (ℕ × List ℕ)). (t, bs) ∷ x) (messages_of-padded es)
messages_of-padded (Entry.padding ∷ es) = messages_of-padded es

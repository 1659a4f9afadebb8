-- ===== src/Concurrent/Records/Frame.antt =====
-- Writes outside a record, or outside the whole region, leave it as it is.
use caeron.Base.{
  ℕ, ◌+◌, ◌-◌, ◌%◌, ◌≤◌, ◌<◌, ◌≡◌, ◌⊎◌, inl, inr, refl, List, [], ◌∷◌, length, arith, ap, ◌∙◌,
}
use native.Mathlib.Nat.{mod-lt}
use native.Mathlib.Decide.{dec_lt}
use caeron.Buffer.Bytes.{Memory, load, load_local, Apart}
use caeron.Concurrent.Records.Layout.{
  Entry, bytes_of-eq, width, Holds, Entries, end_at, le-end_at, mod_cases, mod_round,
}

load_same :
    (w : ℕ) (m m' : Memory) (p : ℕ)
    → ((j : ℕ) → p ≤ j → j < p + w → m' j ≡ m j)
    → load w m' p ≡ load w m p
load_same w m m' p h =
    load_local w m' m p p (λ k lt. ap (λ (x : ℕ). x % 256) (h (p + k) (omega arith) (omega arith)))

-- Two stretches, each within the region, of which the second ends less than a round behind the
-- first one's start.
stretches-Apart :
    (C q v p w : ℕ)
    → 0 < C
    → 0 < w
    → p % C + w ≤ C
    → q + v ≤ p
    → p + w ≤ q + C
    → Apart (p % C) w (q % C) v
stretches-Apart C q v p w pos some fit after round =
    let e : q + (p - q) ≡ p = omega arith in
    elim (rw e at (mod_cases C q (p - q) pos (omega arith))) [
      | inl same ↦ inr (omega arith)
      | inr wrapped ↦ inl (omega arith)
    ]

Apart-sym : (p w q v : ℕ) → Apart p w q v → Apart q v p w
Apart-sym p w q v h = omega arith

module _ (base C max : ℕ) (pos : 0 < C) where
  -- What changes of the region from `m` to `m'` are the `v` bytes at position `q`.
  abbrev pub Changed : Memory → Memory → ℕ → ℕ → Type 0
  Changed m m' q v = (j : ℕ) → base ≤ j → (j < base + q % C) ⊎ (base + q % C + v ≤ j) → m' j ≡ m j

  pub Holds-width :
      (m : Memory) (p : ℕ) (e : Entry) → Holds base C max m p e → p % C + width base C max p e ≤ C
  Holds-width m p (Entry.message t bs) (l, ty, body, fit, small) = fit
  Holds-width m p Entry.padding h = omega (arith, mod-lt p {m = C} pos)

  Holds-kept :
      (m m' : Memory) (p q v : ℕ) (e : Entry)
      → Changed m m' q v
      → Apart (p % C) (width base C max p e) (q % C) v
      → (p % C) % 4 ≡ 0
      → C % 4 ≡ 0
      → Holds base C max m p e
      → Holds base C max m' p e
  Holds-kept m m' p q v (Entry.message t bs) changed apart s c (l, ty, body, fit, small) = (
    load_same 4 m m' (base + p % C) (λ j a b. changed j (omega arith) (omega arith)) ∙ l,
    load_same 4 m m' (base + p % C + 4) (λ j a b. changed j (omega arith) (omega arith)) ∙ ty,
    bytes_of-eq m' m (base + p % C + 8) (base + p % C + 8) (length bs)
          (λ k lt. changed (base + p % C + 8 + k) (omega arith) (omega arith))
        ∙ body,
    fit,
    small,
  )
  Holds-kept m m' p q v Entry.padding changed apart s c h =
      load_same 4 m m' (base + p % C)
        (λ j a b. changed j (omega arith) (omega (arith, mod-lt p {m = C} pos)))
      ∙ h

  -- The width of a record at an aligned position is aligned, and so is the position behind it.
  pub next_whole : (p w : ℕ) → (p % C) % 4 ≡ 0 → w % 4 ≡ 0 → p % C + w ≤ C → ((p + w) % C) % 4 ≡ 0
  next_whole p w s a fit = elim (dec_lt (p % C + w) C) [
    | yes inside ↦ elim (mod_cases C p w pos (omega arith)) [
      | inl same ↦ omega arith
      | inr wrapped ↦ omega (arith, mod-lt (p + w) {m = C} pos)
    ]
    | no all ↦
        let e : (p + w) % C ≡ 0 = mod_round C p w pos (omega arith) (omega arith) in rw e refl
  ]

  pub width-whole : (p : ℕ) (e : Entry) → (p % C) % 4 ≡ 0 → C % 4 ≡ 0 → width base C max p e % 4 ≡ 0
  width-whole p (Entry.message t bs) s c = omega arith
  width-whole p Entry.padding s c = omega (arith, mod-lt p {m = C} pos)

  pub width-least : (p : ℕ) (e : Entry) → (p % C) % 4 ≡ 0 → C % 4 ≡ 0 → 4 ≤ width base C max p e
  width-least p (Entry.message t bs) s c = omega arith
  width-least p Entry.padding s c = omega (arith, mod-lt p {m = C} pos)

  width-pos : (p : ℕ) (e : Entry) → 0 < width base C max p e
  width-pos p (Entry.message t bs) = omega arith
  width-pos p Entry.padding = omega (arith, mod-lt p {m = C} pos)

  module _ (m m' : Memory) (q v : ℕ) (changed : Changed m m' q v) (whole : C % 4 ≡ 0) where
    -- The change is in front of all the records.
    pub Entries-kept_before :
        (p : ℕ) (es : List Entry)
        → (p % C) % 4 ≡ 0
        → q + v ≤ p
        → end_at base C max p es ≤ q + C
        → Entries base C max m p es
        → Entries base C max m' p es
    unfolding end_at
    Entries-kept_before p [] s before round h = tt
    Entries-kept_before p (e ∷ es) s before round (h, hs) =
        let w = width base C max p e in
        let fit = Holds-width m p e h in
        let last = le-end_at base C max (p + w) es in
        (
          Holds-kept m m' p q v e changed
              (stretches-Apart C q v p w pos (width-pos p e) fit before (omega arith)) s whole h,
          Entries-kept_before (p + w) es (next_whole p w s (width-whole p e s whole) fit)
              (omega arith) round hs,
        )

    -- The change is behind all the records.
    pub Entries-kept_behind :
        (p : ℕ) (es : List Entry)
        → (p % C) % 4 ≡ 0
        → 0 < v
        → q % C + v ≤ C
        → end_at base C max p es ≤ q
        → q + v ≤ p + C
        → Entries base C max m p es
        → Entries base C max m' p es
    unfolding end_at
    Entries-kept_behind p [] s some fits behind round h = tt
    Entries-kept_behind p (e ∷ es) s some fits behind round (h, hs) =
        let w = width base C max p e in
        let fit = Holds-width m p e h in
        let last = le-end_at base C max (p + w) es in
        (
          Holds-kept m m' p q v e changed
              (Apart-sym (q % C) v (p % C) w
                (stretches-Apart C p w q v pos some fits (omega arith) round))
              s whole h,
          Entries-kept_behind (p + w) es (next_whole p w s (width-whole p e s whole) fit) some fits
              behind (omega arith) hs,
        )

  -- A change outside the region.
  pub Entries-kept_outside :
      (m m' : Memory) (p : ℕ) (es : List Entry)
      → ((j : ℕ) → base ≤ j → m' j ≡ m j)
      → (p % C) % 4 ≡ 0
      → C % 4 ≡ 0
      → Entries base C max m p es
      → Entries base C max m' p es
  Entries-kept_outside m m' p [] same s whole h = tt
  Entries-kept_outside m m' p (e ∷ es) same s whole (h, hs) =
      let w = width base C max p e in
      let fit = Holds-width m p e h in
      (
        Holds-kept m m' p 0 0 e (λ j a b. same j a) (omega arith) s whole h,
        Entries-kept_outside m m' (p + w) es same (next_whole p w s (width-whole p e s whole) fit)
            whole hs,
      )

  -- Records from an aligned position on end at one.
  pub end_at-whole :
      (m : Memory) (p : ℕ) (es : List Entry)
      → C % 4 ≡ 0
      → (p % C) % 4 ≡ 0
      → Entries base C max m p es
      → (end_at base C max p es % C) % 4 ≡ 0
  unfolding end_at
  end_at-whole m p [] whole s h = s
  end_at-whole m p (e ∷ es) whole s (h, hs) =
      let w = width base C max p e in
      end_at-whole m (p + w) es whole
        (next_whole p w s (width-whole p e s whole) (Holds-width m p e h)) hs

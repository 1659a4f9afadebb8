-- ===== src/Flyweight/Fields.antt =====
-- What every flyweight gives: a field reads back what was set, and no other field is disturbed.
use caeron.Base.{ℕ, ◌+◌, ◌^◌, ◌≤◌, ◌<◌, ◌≡◌, ◌≢◌, ◌⊎◌, refl, ok, arith}
use caeron.Word.{add32}
use caeron.Buffer.{Buffer}
use caeron.Buffer.Bytes.{load, store, load-store_self, load-store_elsewhere, store_outside}
use caeron.Buffer.Laws.{Fits, get_plain_lem, put_plain_lem}
use caeron.Flyweight.{Layout, get, set}

module _ (l : Layout) (b : Buffer) (base : ℕ) (fits : Fits b base l.length) where
  open l use {Field, slot}

  field-place : (f : Field) → add32 base (slot f).offset ≡ base + (slot f).offset
  field-place f = omega (arith, fits.small, fits.within, l.inside f)

  field-Fits : (f : Field) → Fits b (base + (slot f).offset) (slot f).width
  field-Fits f = record { small = fits.small; within = omega (arith, fits.within, l.inside f) }

  pub get_lem :
      (f : Field) → get l f b base ≡ ok (load (slot f).width b.bytes (base + (slot f).offset))
  unfolding get
  get_lem f =
      rw (field-place f, get_plain_lem (slot f).width b (base + (slot f).offset) (field-Fits f))

  pub set_lem :
      (f : Field) (v : ℕ)
      → set l f b base v
        ≡ ok (record b { bytes = store (slot f).width b.bytes (base + (slot f).offset) v })
  unfolding set
  set_lem f v =
      rw (field-place f, put_plain_lem (slot f).width b (base + (slot f).offset) v (field-Fits f))

-- What holds of the buffer `b'` after field `f` of `b` was set to `v`.
pub record FieldSet (l : Layout) (f : l.Field) (b : Buffer) (base v : ℕ) (b' : Buffer)
    : Type 0 where
  pub capacity_kept : b'.capacity ≡ b.capacity
  pub reads_back : get l f b' base ≡ ok v
  pub others_kept : (g : l.Field) → f ≢ g → get l g b' base ≡ get l g b base
  pub outside_kept : (j : ℕ) → (j < base) ⊎ (base + l.length ≤ j) → b'.bytes j ≡ b.bytes j

pub set-FieldSet :
    (l : Layout) (f : l.Field) (b : Buffer) (base v : ℕ)
    → Fits b base l.length
    → v < 256 ^ (l.slot f).width
    → (b' : Buffer) × (set l f b base v ≡ ok b') × FieldSet l f b base v b'
set-FieldSet l f b base v fits small = (
  b',
  set_lem l b base fits f v,
  record {
    capacity_kept = refl;
    reads_back = rw (get_lem l b' base fits' f, load-store_self w b.bytes p v small);
    others_kept = λ g ne. rw (
      get_lem l b' base fits' g,
      get_lem l b base fits g,
      load-store_elsewhere (l.slot g).width w b.bytes (base + (l.slot g).offset) p v
          (omega (arith, l.apart f g ne)),
    );
    outside_kept = λ j h. store_outside w b.bytes p v j (omega (arith, l.inside f));
  },
)
  where
    w : ℕ
    w = (l.slot f).width

    p : ℕ
    p = base + (l.slot f).offset

    b' : Buffer
    b' = record b { bytes = store w b.bytes p v }

    fits' : Fits b' base l.length
    fits' = record { small = fits.small; within = fits.within }

-- The buffer after the setter of a field.
abbrev pub assigned : (l : Layout) → l.Field → Buffer → ℕ → ℕ → Buffer
assigned l f b base v = record b {
  bytes = store (l.slot f).width b.bytes (base + (l.slot f).offset) v;
}

module _ (l : Layout) (f : l.Field) (b : Buffer) (base v : ℕ) (fits : Fits b base l.length) where
  pub assigned-Fits : Fits (assigned l f b base v) base l.length
  assigned-Fits = record { small = fits.small; within = fits.within }

  pub get-assigned_self : v < 256 ^ (l.slot f).width → get l f (assigned l f b base v) base ≡ ok v
  get-assigned_self small = rw (
    get_lem l (assigned l f b base v) base assigned-Fits f,
    load-store_self (l.slot f).width b.bytes (base + (l.slot f).offset) v small,
  )

  pub get-assigned_other :
      (g : l.Field) → f ≢ g → get l g (assigned l f b base v) base ≡ get l g b base
  get-assigned_other g ne = rw (
    get_lem l (assigned l f b base v) base assigned-Fits g,
    get_lem l b base fits g,
    load-store_elsewhere (l.slot g).width (l.slot f).width b.bytes (base + (l.slot g).offset)
        (base + (l.slot f).offset) v (omega (arith, l.apart f g ne)),
  )

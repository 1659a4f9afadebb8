-- ===== src/Protocol/Errors/Fields.antt =====
-- The slots of an error frame as bytes of the buffer.
use caeron.Base.{ℕ, ◌+◌, ◌≡◌, ◌≢◌, ◌≤◌, ok, arith}
use caeron.Buffer.{Buffer}
use caeron.Buffer.Bytes.{Memory, load, store, load-store_elsewhere}
use caeron.Buffer.Laws.{Fits}
use caeron.Flyweight.Fields.{get_lem, set_lem}
use caeron.Protocol.Control.{ErrorFrame, error_layout, error_slot}
use caeron.Protocol.Errors.{get_error, set_error}

abbrev pub width : ErrorFrame → ℕ
width f = (error_slot f).width

abbrev pub place : ℕ → ErrorFrame → ℕ
place base f = base + (error_slot f).offset

module _ (b : Buffer) (base : ℕ) (fits : Fits b base 40) where
  pub get_error_lem :
      (f : ErrorFrame) → get_error f b base ≡ ok (load (width f) b.bytes (place base f))
  unfolding get_error error_layout
  get_error_lem f = get_lem error_layout b base fits f

  pub set_error_lem :
      (f : ErrorFrame) (v : ℕ)
      → set_error f b base v ≡ ok (record b { bytes = store (width f) b.bytes (place base f) v })
  unfolding set_error error_layout
  set_error_lem f v = set_lem error_layout b base fits f v

pub load-store_other :
    (m : Memory) (base : ℕ) (f g : ErrorFrame) (v : ℕ)
    → f ≢ g
    → load (width g) (store (width f) m (place base f) v) (place base g)
      ≡ load (width g) m (place base g)
unfolding error_layout
load-store_other m base f g v ne =
    load-store_elsewhere (width g) (width f) m (place base g) (place base f) v
      (omega (arith, error_layout.apart f g ne))

pub slot-inside : (f : ErrorFrame) → (error_slot f).offset + width f ≤ 40
unfolding error_layout
slot-inside f = error_layout.inside f

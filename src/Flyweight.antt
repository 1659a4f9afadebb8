-- ===== src/Flyweight.antt =====
-- A flyweight: named fields at fixed places of a frame, each with a getter and a setter.
pub mod Fields
use caeron.Base.{ℕ, ◌+◌, ◌^◌, ◌≤◌, ◌<◌, ◌≡◌, ◌≢◌, Result, ok}
use caeron.Word.{add32}
use caeron.Buffer.{Buffer, get_plain, put_plain}
use caeron.Buffer.Bytes.{Apart}

pub record Slot : Type 0 where
  pub offset : ℕ
  pub width : ℕ

abbrev pub i64_at : ℕ → Slot
i64_at o = record { offset = o; width = 8 }

abbrev pub i32_at : ℕ → Slot
i32_at o = record { offset = o; width = 4 }

abbrev pub u16_at : ℕ → Slot
u16_at o = record { offset = o; width = 2 }

abbrev pub u8_at : ℕ → Slot
u8_at o = record { offset = o; width = 1 }

abbrev pub SlotsApart : Slot → Slot → Type 0
SlotsApart s t = Apart s.offset s.width t.offset t.width

-- The fields of a flyweight lie in its first `length` bytes, and no two of them meet.
pub record Layout : Type 1 where
  pub Field : Type 0
  pub slot : Field → Slot
  pub length : ℕ
  pub inside : (f : Field) → (slot f).offset + (slot f).width ≤ length
  pub apart : (f g : Field) → f ≢ g → SlotsApart (slot f) (slot g)

module _ (l : Layout) where
  open l use {Field, slot}

  -- The getter of a field, for the flyweight that wraps `b` at `base`.
  unfoldable pub get : Field → Buffer → ℕ → Result ℕ
  get f b base = get_plain (slot f).width b (add32 base (slot f).offset)

  unfoldable pub set : Field → Buffer → ℕ → ℕ → Result Buffer
  set f b base value = put_plain (slot f).width b (add32 base (slot f).offset) value

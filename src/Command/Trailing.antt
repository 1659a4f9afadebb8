-- ===== src/Command/Trailing.antt =====
-- caeron/command: the part that all the messages share which end with a text of variable length
-- (`set_channel`, `set_token_buffer`, `set_reason`, `set_error_message`, `set_log_file_name`), with
-- the two lengths that go with it.
use caeron.Base.{ℕ, ◌+◌, ◌-◌, ◌^◌, ◌≡◌, Bool, ◌||◌, ltb, if◌then◌else◌, Option, Result, ok, ◌>>=◌}
use caeron.Word.{add32, sub32, is_neg32, lt32, i32_max}
use caeron.Buffer.{Buffer, put_some_bytes}
use caeron.Buffer.Bytes.{Memory}
use caeron.Flyweight.{Layout, get, set}

-- The text starts behind the fixed fields, the last of which is its length.
pub record Text : Type 1 where
  pub layout : Layout
  pub length_field : layout.Field
  pub is_i32 : (layout.slot length_field).width ≡ 4

-- What the functions return for a length that they refuse, -1.
abbrev pub no_length : ℕ
no_length = 2 ^ 32 - 1

module _ (t : Text) where
  open t use {layout, length_field}

  -- The text does not fit behind `offset`. Both of the source's guards on the buffer.
  unfoldable pub no_room : Buffer → ℕ → ℕ → Bool
  no_room b offset length =
      (is_neg32 offset || lt32 b.capacity offset || lt32 (sub32 b.capacity offset) layout.length)
      || lt32 (sub32 (sub32 b.capacity offset) layout.length) length

  unfoldable pub set_text : Buffer → ℕ → Option Memory → ℕ → Result Buffer
  unfolding no_room put_some_bytes
  set_text b offset source length =
      if is_neg32 length then ok b else if no_room b offset length then ok b else do
        b' ← set layout length_field b offset length
        put_some_bytes b' (add32 offset layout.length) source length

  -- The total is computed in 64 bits.
  unfoldable pub compute_length : ℕ → ℕ
  compute_length length =
      if is_neg32 length
      then no_length
      else if ltb i32_max (layout.length + length)
      then no_length
      else layout.length + length

  unfoldable pub message_length : Buffer → ℕ → Result ℕ
  unfolding compute_length
  message_length b offset = do length ← get layout length_field b offset; ok (compute_length length)

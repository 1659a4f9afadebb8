-- ===== src/Protocol/Errors.antt =====
-- caeron/protocol/error_flyweight.h: the accessors that do more than read or write one field.
pub mod Fields
pub mod Text
pub mod Tag
use Prim.Native.Nat.{bit_and, bit_or}
use caeron.Base.{
  ℕ, ◌+◌, ◌==◌, Bool, not, if◌then◌else◌, List, [], Result, ok, guard, Error, ◌>>=◌, ◌>>◌,
}
use caeron.Word.{add32, lt32, low32}
use caeron.Buffer.{Buffer, put_bytes, get_bytes}
use caeron.Buffer.Bytes.{Memory}
use caeron.Flyweight.{get, set}
use caeron.Concurrent.Records.Layout.{bytes_of}
use caeron.Protocol.Control.{ErrorFrame, error_layout}

abbrev pub has_group_id_flag : ℕ
has_group_id_flag = 0x08

abbrev pub max_error_message_length : ℕ
max_error_message_length = 1023

-- The plain accessors of the slots.
unfoldable pub get_error : ErrorFrame → Buffer → ℕ → Result ℕ
unfolding error_layout
get_error f b base = get error_layout f b base

unfoldable pub set_error : ErrorFrame → Buffer → ℕ → ℕ → Result Buffer
unfolding error_layout
set_error f b base value = set error_layout f b base value

unfoldable pub set_error_group_tag : Buffer → ℕ → ℕ → Result Buffer
unfolding get_error set_error
set_error_group_tag b base value = do
  b1 ← set_error ErrorFrame.group_tag b base value
  flags ← get_error ErrorFrame.flags b1 base
  set_error ErrorFrame.flags b1 base (bit_or flags has_group_id_flag)

unfoldable pub has_group_tag : Buffer → ℕ → Result Bool
unfolding get_error
has_group_tag b base = do
  flags ← get_error ErrorFrame.flags b base
  ok (not (bit_and flags has_group_id_flag == 0))

-- The string that is returned, as its bytes; it is made of zeros before the copy.
unfoldable pub error_message : Buffer → ℕ → Result (List ℕ)
unfolding get_error get_bytes
error_message b base = do
  length ← get_error ErrorFrame.error_message_length b base
  let copied : Result (List ℕ) = do
    result ← get_bytes b (add32 base 40) (λ j. 0) length
    ok (bytes_of result 0 length)
  (if lt32 0 length then copied else ok [])

-- A message of `size` bytes. The frame's length is set last.
unfoldable pub set_error_message : Buffer → ℕ → Memory → ℕ → Result Buffer
unfolding set_error put_bytes
set_error_message b base message size = do
  let length = low32 size
  guard (not (lt32 max_error_message_length length)) Error.out_of_range
  b1 ← set_error ErrorFrame.error_message_length b base length
  b2 ← put_bytes b1 (add32 base 40) message 0 length
  set_error ErrorFrame.frame_length b2 base (add32 40 length)

-- ===== src/Command/Revocation.antt =====
-- caeron/command/remove_publication_flyweight.h: a request whose flags may be left out.
use caeron.Base.{
  ℕ, ◌+◌, ◌-◌, ◌%◌, ◌≤◌, ◌≢◌, Bool, false, ◌==◌, if◌then◌else◌, Result, ok, ◌>>=◌, arith,
}
use caeron.Word.{lt32}
use caeron.Buffer.{Buffer}
use caeron.Flyweight.{Slot, SlotsApart, Layout, get, set, i64_at}

-- remove_publication_flyweight.h
pub data RemovePublication : Type 0 where
  client_id correlation_id registration_id flags : RemovePublication

unfoldable pub remove_publication_slot : RemovePublication → Slot
remove_publication_slot RemovePublication.client_id = i64_at 0
remove_publication_slot RemovePublication.correlation_id = i64_at 8
remove_publication_slot RemovePublication.registration_id = i64_at 16
remove_publication_slot RemovePublication.flags = i64_at 24

remove_publication-inside :
    (f : RemovePublication)
    → (remove_publication_slot f).offset + (remove_publication_slot f).width ≤ 32
unfolding remove_publication_slot
remove_publication-inside f = ground arith

remove_publication-apart :
    (f g : RemovePublication)
    → f ≢ g
    → SlotsApart (remove_publication_slot f) (remove_publication_slot g)
unfolding remove_publication_slot
remove_publication-apart f g h = ground arith

unfoldable pub remove_publication_layout : Layout
unfolding remove_publication-inside remove_publication-apart
remove_publication_layout = record {
  Field = RemovePublication;
  slot = remove_publication_slot;
  length = 32;
  inside = remove_publication-inside;
  apart = remove_publication-apart;
}

-- Bit 0 of the flags.
unfoldable pub revoke : Buffer → ℕ → Result Bool
unfolding remove_publication_layout
revoke b offset = do
  bits ← get remove_publication_layout RemovePublication.flags b offset
  ok (bits % 2 == 1)

-- Older clients leave the flags out.
unfoldable pub revoke_within : Buffer → ℕ → ℕ → Result Bool
unfolding revoke
revoke_within b offset message_length = if lt32 message_length 32 then ok false else revoke b offset

unfoldable pub set_revoke : Buffer → ℕ → Bool → Result Buffer
unfolding remove_publication_layout
set_revoke b offset value = do
  bits ← get remove_publication_layout RemovePublication.flags b offset
  set remove_publication_layout RemovePublication.flags b offset
      (bits - bits % 2 + (if value then 1 else 0))

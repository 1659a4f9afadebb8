-- ===== src/Tests/Inputs.antt =====
-- The buffers that the tests use, and what is true of them.
use caeron.Base.{ℕ, ◌+◌, ◌-◌, ◌%◌, ◌^◌, ◌≤◌, ◌<◌, ◌≡◌, refl, inl, inr, List, [], ◌∷◌, arith}
use caeron.Buffer.{Buffer}
use caeron.Buffer.Bytes.{Memory, load, store}
use caeron.Buffer.Laws.{Fits}
use caeron.LogBuffer.Frame.Term.{IsTerm, IsSlot, Frame, Frames, end_of, Stops, length_at}
use caeron.LogBuffer.Descriptor.Rotate.{IsMetadata}

abbrev pub zeros : Memory
zeros = λ j. 0

-- A data frame of 40 bytes at 0, a padding frame of 64 at 64, and nothing from 128 on.
abbrev pub term : Buffer
term = record {
  address = 0;
  capacity = 256;
  bytes = store 4 (store 2 (store 4 zeros 0 40) 6 1) 64 64;
}

abbrev pub frames : List Frame
frames = record { length = 40; type = 1 } ∷ record { length = 64; type = 0 } ∷ []

pub term-IsTerm : IsTerm term
term-IsTerm = record { placed = refl; small = omega arith; whole = refl }

pub term-Frames : Frames term 0 frames
unfolding load store
term-Frames = (
  record { has_length = refl; has_type = refl; published = omega arith; fits = omega arith },
  (record { has_length = refl; has_type = refl; published = omega arith; fits = omega arith }, tt),
)

pub term-Stops : Stops term (end_of 0 frames)
unfolding end_of load store
term-Stops = inr (inl refl)

pub term-empty_at : (o : ℕ) → 128 ≤ o → length_at term o ≡ 0
unfolding load store
term-empty_at o h = ground arith

pub term-IsSlot : (o : ℕ) → o % 32 ≡ 0 → o < 256 → IsSlot term o
term-IsSlot o h k = record { term = term-IsTerm; on_slot = h; within = k }

-- A term whose first frame, of 64 bytes, is being written.
abbrev pub claimed : Buffer
claimed = record { address = 0; capacity = 256; bytes = store 4 zeros 0 (2 ^ 32 - 64) }

pub claimed-IsSlot : IsSlot claimed 0
claimed-IsSlot = record {
  term = record { placed = refl; small = omega arith; whole = refl };
  on_slot = refl;
  within = omega arith;
}

pub claimed-length : length_at claimed 0 ≡ 2 ^ 32 - 64
unfolding load store
claimed-length = refl

-- The metadata of a log in its first term, whose id is 0.
abbrev pub metadata : Buffer
metadata = record { address = 0; capacity = 4096; bytes = store 8 zeros 8 (2 ^ 32 - 2) }

pub metadata-IsMetadata : IsMetadata metadata
metadata-IsMetadata = record { placed = refl; small = omega arith; room = omega arith }

abbrev pub packet : Buffer
packet = record { address = 0; capacity = 64; bytes = store 4 zeros 0 40 }

pub packet-Fits : Fits packet 0 40
packet-Fits = record { small = omega arith; within = omega arith }

pub packet-length : load 4 packet.bytes 0 ≡ 40
unfolding load store
packet-length = refl

abbrev pub blank : Buffer
blank = record { address = 0; capacity = 64; bytes = zeros }

pub blank-Fits : (o n : ℕ) → o + n ≤ 64 → Fits blank o n
blank-Fits o n h = record { small = omega arith; within = h }

-- ===== src/Tests/Terms.antt =====
-- The scanners, the reader and the rebuilder on the small term.
use caeron.Base.{ℕ, ◌+◌, ◌%◌, ◌≤◌, ◌≡◌, ◌≢◌, ◌⊎◌, refl, length, arith, ok, true, ◌>>=◌}
use caeron.Buffer.{Buffer}
use caeron.Tests.Inputs.{
  term, frames, term-IsTerm, term-Frames, term-Stops, term-empty_at, term-IsSlot, packet,
  packet-Fits, packet-length, zeros,
}
use caeron.Word.{is_neg32}
use caeron.Buffer.Bytes.{SameOutside, load}
use caeron.Buffer.Laws.{Fits}
use caeron.LogBuffer.Frame.Term.{length_at}
use caeron.LogBuffer.Scanner.{scan_for_availability, scan, pack, low_half, high_half}
use caeron.LogBuffer.Scanner.Available.{
  scanned, scan_for_availability_lem, scan_for_availability_bounds,
}
use caeron.LogBuffer.Scanner.Block.{block, scan_lem}
use caeron.LogBuffer.Reader.{Header, read}
use caeron.LogBuffer.Reader.Delivery.{read_lem, read_end, data_offsets, last_header, headers}
use caeron.LogBuffer.Rebuilder.{insert}
use caeron.LogBuffer.Rebuilder.Insert.{insert_lem, insert_twice, insert_comm}

-- A scan takes the data frame and the header of the padding frame, and skips the rest of it.
scan_for_availability_lem_example :
    scan_for_availability term 0 200 ≡ ok (pack (scanned 0 200 frames).1 (scanned 0 200 frames).0)
scan_for_availability_lem_example =
    scan_for_availability_lem term 0 200 frames term-IsTerm refl (omega arith) (omega arith)
      term-Frames term-Stops

scan_for_availability_bounds_example :
    (r : ℕ) × (scan_for_availability term 0 200 ≡ ok r)
    × (((low_half r ≤ 200) × (0 + low_half r + high_half r ≤ 256))
        ⊎ ((is_neg32 (low_half r) ≡ true) × (high_half r ≡ 0)))
scan_for_availability_bounds_example =
    scan_for_availability_bounds term 0 200 frames term-IsTerm refl (omega arith) (omega arith)
      term-Frames term-Stops

scan_lem_example : scan term 0 200 ≡ ok (block 200 0 frames)
scan_lem_example =
    scan_lem term 0 200 frames term-IsTerm refl (omega arith) (omega arith) term-Frames term-Stops

abbrev no_header : Header
no_header = record { offset = 0; session_id = 0; stream_id = 0; term_id = 0; position = 0 }

read_lem_example :
    read term 0 10 no_header
    ≡ ok (
      pack (read_end 10 0 frames) (length (data_offsets 10 0 frames)),
      last_header term no_header (data_offsets 10 0 frames),
      headers term no_header (data_offsets 10 0 frames),
    )
read_lem_example =
    read_lem term 0 10 no_header frames term-IsTerm refl (omega arith) (omega arith) term-Frames
      term-Stops

insert_lem_example :
    (b' : Buffer) × (insert term 128 packet 40 ≡ ok b')
    × (b'.bytes (128 + 0) % 256 ≡ packet.bytes 0 % 256)
    × SameOutside 128 40 term.bytes b'.bytes
insert_lem_example =
    insert_lem term 128 packet 40 (term-IsSlot 128 refl (omega arith)) (omega arith) (omega arith)
      packet-Fits 0 (omega arith) (term-empty_at 128 (omega arith))

packet-present : load 4 packet.bytes 0 ≢ 0
packet-present = rw packet-length (omega arith)

-- A late packet of zeros and another length.
abbrev late_packet : Buffer
late_packet = record { address = 0; capacity = 64; bytes = zeros }

late_packet-Fits : Fits late_packet 0 32
late_packet-Fits = record { small = omega arith; within = omega arith }

insert_twice_example :
    (b' : Buffer) × (insert term 128 packet 40 ≡ ok b')
    × ((length_at term 128 ≡ 0) ⊎ (b' ≡ term))
    × (insert b' 128 late_packet 32 ≡ ok b')
insert_twice_example =
    insert_twice term 128 packet late_packet 40 32 (term-IsSlot 128 refl (omega arith))
      (omega arith) (omega arith) (omega arith) (omega arith) packet-Fits late_packet-Fits
      packet-present

insert_comm_example :
    (b12 b21 : Buffer) × ((insert term 128 packet 40 >>= λ b1. insert b1 192 packet 40) ≡ ok b12)
    × ((insert term 192 packet 40 >>= λ b2. insert b2 128 packet 40) ≡ ok b21)
    × (b12.bytes 130 % 256 ≡ b21.bytes 130 % 256)
insert_comm_example =
    insert_comm term 128 192 packet packet 40 40 130 (term-IsSlot 128 refl (omega arith))
      (term-IsSlot 192 refl (omega arith)) (omega arith) (omega arith) (omega arith) (omega arith)
      packet-Fits packet-Fits (term-empty_at 128 (omega arith)) (term-empty_at 192 (omega arith))
      (omega arith)

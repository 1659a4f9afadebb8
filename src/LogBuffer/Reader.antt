-- ===== src/LogBuffer/Reader.antt =====
-- caeron/logbuffer/term_reader.h and header.h: reading the fragments of a term in order.
-- The handler's calls are collected in a list: it is handed the header of each fragment, whose
-- `offset` is the offset that it is also called with. The handler itself is not modelled.
pub mod Delivery
use caeron.Base.{
  ℕ, zero, suc, ◌*◌, ◌+◌, ◌/◌, ◌%◌, Bool, ◌&&◌, ◌==◌, if◌then◌else◌, List, [], ◌∷◌, Result, ok, err,
  Error, ◌>>=◌,
}
use caeron.Word.{add32, is_neg32, lt32, align}
use caeron.Buffer.{Buffer, get_i32}
use caeron.LogBuffer.Frame.{
  frame_alignment, frame_length, frame_term_id, frame_session_id, is_padding_frame,
}
use caeron.LogBuffer.Scanner.{pack}

pub record Header : Type 0 where
  pub offset : ℕ
  pub session_id : ℕ
  pub stream_id : ℕ
  pub term_id : ℕ
  pub position : ℕ

-- What a read leaves: the offset and the count that it packs, the header, and the calls made.
pub record Outcome : Type 0 where
  pub offset : ℕ
  pub fragments_read : ℕ
  pub header : Header
  pub calls : List Header

-- The fuel is the number of bytes of the term, plus one.
unfoldable pub read_loop : ℕ → Buffer → ℕ → ℕ → ℕ → Header → Result Outcome
read_loop zero b limit offset count header = err Error.fuel
read_loop (suc fuel) b limit offset count header =
    let stop : Outcome = record {
      offset = offset;
      fragments_read = count;
      header = header;
      calls = [];
    } in
    let body : Result Outcome = do
      frame_length ← frame_length b offset
      (if frame_length == 0 then ok stop else if is_neg32 frame_length then ok stop else do
        aligned_length ← align frame_length frame_alignment
        padding ← is_padding_frame b offset
        let skip = read_loop fuel b limit (add32 offset aligned_length) count header
        let fragment : Result Outcome = do
          term_id ← frame_term_id b offset
          session_id ← frame_session_id b offset
          stream_id ← get_i32 b (add32 offset 16)
          let header' : Header = record header {
            offset = offset;
            term_id = term_id;
            session_id = session_id;
            stream_id = stream_id;
          }
          rest ← read_loop fuel b limit (add32 offset aligned_length) (add32 count 1) header'
          ok (record rest { calls = header' ∷ rest.calls })
        (if padding then skip else fragment))
    in if lt32 count limit && lt32 offset b.capacity then body else ok stop

-- The packed outcome, the header after the read, and the calls of the handler.
-- (The count is never negative, so its sign extension sets no bit of the offset.)
unfoldable pub read : Buffer → ℕ → ℕ → Header → Result (ℕ × Header × List Header)
unfolding read_loop
read b term_offset fragments_limit header = do
  outcome ← read_loop (suc b.capacity) b fragments_limit term_offset 0 header
  ok (pack outcome.offset outcome.fragments_read, outcome.header, outcome.calls)

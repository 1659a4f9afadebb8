-- ===== src/Lib.antt =====
-- Caeron: the messaging core of a media driver, as functions on byte buffers.
--
-- The program keeps everything that its threads and processes share in flat memory. A buffer
-- (src/caeron/concurrent/unsafe_buffer.h) is a typed view of such memory; all other parts read and
-- write through it. A log is three term buffers and a metadata buffer: publishers claim space by
-- the packed tail counters of the metadata, frames are made visible by storing their length last,
-- and readers, scanners and the receiving side walk the frames of a term. Clients and the driver
-- exchange messages whose fields stand at fixed offsets: a client writes its commands into a ring
-- buffer through a proxy, and on the driver's side an adapter reads them and calls a handler.
--
-- Which file models which code:
--
--   Base, with Base/Bools, Base/Outcome, Base/Lists: the names that the others share; the results
--     of code that can throw, and whose asserts can fail (`Result`, `Error`).
--   Word, Word/Bounds: src/caeron/common/bit_util.h, and the arithmetic of i32 and i64. An
--     integer of w bits is the natural number below 2^w with the same bits; a wrap-around is
--     written out, comparisons are those of the signed values. The `checked` operations fail where
--     the signed result is out of range, which C++ leaves undefined.
--   Buffer: src/caeron/concurrent/unsafe_buffer.h. The memory is a function from offsets to bytes;
--     an operation that writes returns the new buffer. Buffer/Bytes has the loads and stores of
--     little-endian integers, Buffer/Laws says when an access succeeds.
--   Flyweight, Flyweight/Fields: what the classes called flyweights have in common, one getter
--     and one setter per field.
--   Protocol, with Protocol/Streams, Protocol/Control: src/caeron/protocol. Protocol/Codec: their
--     round trips. Protocol/Errors: the text and the group tag of error_flyweight.h.
--   Command, with Command/Requests, Command/Replies, Command/Channels, Command/Notices and
--     Command/Trailing: src/caeron/command. Command/Codec: their round trips.
--   LogBuffer/Frame: src/caeron/logbuffer/frame_descriptor.h; Frame/Term: a term as a sequence of
--     frames, which the theorems on the other parts share.
--   LogBuffer/Scanner: term_scanner.h (`scan_for_availability`) and term_block_scanner.h (`scan`).
--   LogBuffer/Reader: term_reader.h (`read`) and header.h.
--   LogBuffer/Descriptor: log_buffer_descriptor.h (packed tails, positions, `rotate_log`).
--   LogBuffer/Gap: term_gap_scanner.h (`scan_for_gap`) and term_gap_filler.h (`try_fill_gap`).
--   LogBuffer/Rebuilder: term_rebuilder.h (`insert`).
--   LogBuffer/Unblocker: term_unblocker.h (`unblock_term`) and log_buffer_unblocker.h (`unblock`).
--   Concurrent/SpscQueue: src/caeron/concurrent/one_to_one_concurrent_array_queue.h. Fifo: the
--     list that it stands for. Create: its constructor.
--   LogBuffer/Claim: buffer_claim.h (`put_payload`, `commit`, `abort`).
--   Concurrent/Counters: src/caeron/concurrent/counters_manager.h, atomic_counter.h, position.h;
--     Values, Slots, Fill, Allocate and Release are about its values and its metadata.
--   Concurrent/Records: the records that the ring buffer and the broadcast buffer have in common, in
--     a region that goes round: Layout (a sequence of records), Frame (what a write elsewhere leaves
--     alone), Written (the bytes of a new record).
--   Concurrent/RingBuffer: src/caeron/concurrent/many_to_one_ring_buffer.h. Contents: the records
--     that it holds. Rounds and Read: the loop of `read`. Claim, Publish and Write: the halves of
--     `write`. Order: sequences of calls.
--   Concurrent/Broadcast: src/caeron/concurrent/broadcast_transmitter.h (`transmit`) and
--     broadcast_receiver.h (`receive`).
--   Command/Revocation, Command/CounterRequest, Command/StaticCounterRequest:
--     src/caeron/command/remove_publication_flyweight.h, counter_message_flyweight.h and
--     static_counter_message_flyweight.h.
--   Cnc: the ids of src/caeron/command/control_protocol_events.h. Cnc/DriverProxy, with its child
--     Counters: src/caeron/cnc/driver_proxy.h. Cnc/ClientCommandAdapter:
--     src/caeron/cnc/client_command_adapter.h (`receive`, and one function for each case of
--     `dispatch`). Malformed and Receive: messages of any form. Requests and Delivery, with its
--     children: a command on its whole way from the proxy to the handler.
--   Tests: the theorems and the code at concrete inputs.
--
-- Fuel. The loops over a term take one more round than the term has bytes: each round moves by at
-- least one frame alignment, so the theorems that a loop returns hold with no condition on the fuel.
-- So does the loop over a ring buffer, where a round moves by at least four bytes.
-- The compare-and-set loops of `rotate_log` and of `write` have one round, which is enough where
-- nothing else writes between a load and its exchange.
--
-- Not modelled: memory orders and interference between the steps of one call (a call is one step
-- on the memory that it finds); handlers that throw anything but a std::exception; a build without
-- asserts, where a failed assert is undefined behaviour; sockets, mapped files, threads and clocks;
-- the replies of the driver, and the parsing of channels, which other modules would add.
pub mod Base
pub mod Word
pub mod Buffer
pub mod Flyweight
pub mod Protocol
pub mod Command
pub mod LogBuffer
pub mod Cnc
pub mod Concurrent
pub mod Tests

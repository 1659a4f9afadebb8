-- ===== src/LogBuffer.antt =====
-- caeron/logbuffer: the term buffers of a log and the functions that scan, fill and repair them.
pub mod Frame
pub mod Descriptor
pub mod Scanner
pub mod Reader
pub mod Gap
pub mod Rebuilder
pub mod Unblocker
pub mod Claim

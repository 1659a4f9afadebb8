-- ===== src/Tests.antt =====
-- The development at concrete inputs.
pub mod Inputs
pub mod Terms
pub mod Gaps
pub mod Logs
pub mod Messages
pub mod Queues
pub mod Rings
pub mod Commands
pub mod Counters
pub mod Claims

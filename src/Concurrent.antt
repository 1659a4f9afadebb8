-- ===== src/Concurrent.antt =====
-- caeron/concurrent: the queues and the counters that threads share.
pub mod SpscQueue
pub mod Counters
pub mod Records
pub mod RingBuffer
pub mod Broadcast

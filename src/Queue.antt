-- ===== src/Queue.antt =====
-- packages/queue: ids, the messages table, the broker, the delivery guard and the tick.
pub mod Ids
pub mod Message
pub mod Json
pub mod Table
pub mod Enqueue
pub mod Lease
pub mod Settle
pub mod Retain
pub mod WellFormed
pub mod Mailbox
pub mod Tick
pub mod Deliver
pub mod Codec
mod Tests

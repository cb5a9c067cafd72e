-- ===== src/Daemon.antt =====
-- packages/cli/src/daemon and the guards it asks: what is put to sleep, and when.
pub mod World
pub mod Hibernator
pub mod Backoff
pub mod Guard
pub mod Queues
pub mod Alarm
pub mod Crons
pub mod Reconcile
pub mod Wake
pub mod Loops
pub mod Shutdown
pub mod Delivery
mod Tests

-- ===== src/Core.antt =====
-- packages/core: the resource model that the other packages share.
pub mod Calendar
pub mod Cron
pub mod Types
pub mod Ports
pub mod StopSignal
pub mod Loop
mod Tests

-- ===== src/Proxy.antt =====
-- packages/proxy: the activity tracker and the routes of cancel requests.
pub mod Activity
pub mod Cancel
pub mod Bytes
pub mod Startup
pub mod Backend
mod Tests

-- ===== src/Capslock.antt =====
-- The crate capslock: capabilities and the report.
pub mod Caps
pub mod Report
mod Tests

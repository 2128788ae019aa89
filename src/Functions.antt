-- ===== src/Functions.antt =====
-- src/function.rs: the functions of a report.
pub mod Map
pub mod Names
pub mod Build
pub mod Tests

-- ===== src/Static.antt =====
-- src/static/: the static analysis of a project's bitcode.
pub mod Bitcode
pub mod Run
pub mod Table
pub mod Arcs
pub mod Meaning
pub mod Refused
pub mod Added
pub mod Means
pub mod Correct
pub mod Reported
pub mod Command
pub mod Tests

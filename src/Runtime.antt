-- ===== src/Runtime.antt =====
-- src/runtime/: the analysis of a running process, by its system calls.
pub mod Platform
pub mod Fd
pub mod Process
pub mod Syscall
pub mod Lookup
pub mod Events
pub mod Main
pub mod Signals
pub mod Tests

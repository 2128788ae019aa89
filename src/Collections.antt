-- ===== src/Collections.antt =====
-- The ordered collections of the Rust standard library that the program keeps its state in.
-- A hash map that is only read by key is an `OrdMap` too.
pub mod OrdMap
pub mod OrdSet
pub mod Entries

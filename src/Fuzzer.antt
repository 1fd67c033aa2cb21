-- ===== src/Fuzzer.antt =====
-- fuzzer/: the tables of open events and of mappings, and the operations on them.
mod Tests
pub mod State
pub mod Find
pub mod Random
pub mod Mmap
pub mod Setup
pub mod Close
pub mod Triple
pub mod Sound
pub mod Table
pub mod Steady
pub mod Runs
pub mod Unopened
pub mod Open
pub mod Overflow
pub mod Takes
pub mod Storm
pub mod Calm
pub mod Counted
pub mod Effect
pub mod LogAttr

-- ===== src/Report.antt =====
-- fuzzer/active_events.c: which events a fuzzer log leaves open and enabled.
mod Tests
pub mod Sscanf
pub mod Scan
pub mod Table
pub mod Main
pub mod Opened
pub mod Refines

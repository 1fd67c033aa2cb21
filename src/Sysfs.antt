-- ===== src/Sysfs.antt =====
-- tools/event_parser.c: the formats and events that the kernel lists under sysfs.
mod Tests
pub mod Chars
pub mod Format
pub mod Generic
pub mod Table
pub mod Dump
pub mod Words
pub mod Described
pub mod Whole

-- ===== src/Record.antt =====
-- lib/parse_record.c: the parser of the records in a perf mmap ring buffer.
mod Tests
pub mod Reader
pub mod Reads
pub mod Inversion
pub mod Forward
pub mod Hushed
pub mod ReadFormat
pub mod Ibs
pub mod RecordType
pub mod Sample
pub mod Mmap
pub mod Ring
pub mod Termination
pub mod Endless
pub mod Quiet
pub mod Layout
pub mod RoundTrip
pub mod TextRoundTrip
pub mod SampleLayout
pub mod SampleSpec
pub mod SampleRoundTrip
pub mod SamplePieces
pub mod SampleWhole
pub mod Event
pub mod EventRoundTrip
pub mod Header
pub mod Plain

-- ===== src/Replay.antt =====
-- fuzzer/replay_log.c: the log of the fuzzer is played again.
pub mod State
pub mod Handlers
pub mod Live
pub mod Reopens
pub mod Handler
mod Tests

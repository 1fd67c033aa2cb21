-- ===== src/Lib.antt =====
-- A model of perf_event_tests: the decoder of the perf_event ring buffer that the tests share, the
-- tables of events and mappings that the fuzzer keeps, the report on a fuzzer log and its replay, the
-- address filters it makes up, the test of the kernel's version, and the tool that reads the formats and events
-- of sysfs.
--
-- The parts of the program, and the modules that model them:
--
-- * lib/parse_record.c, `perf_mmap_read`: copies the new bytes of a ring buffer, prints its records
--   and gives the space back to the kernel. Record/Reader is the walk over the buffer (an offset,
--   `memcpy` at it, and the lines that are printed, as a monad whose `none` is undefined behaviour).
--   Record/ReadFormat is `handle_struct_read_format` and `print_regs`, Record/Ibs the two
--   `dump_raw_ibs_*`, Record/Header the printing of the header, Record/Plain the records of fixed
--   members, Record/Sample (with DataSource and Stack) the members of PERF_RECORD_SAMPLE, Record/Mmap
--   one record and the loop, Record/Ring the copy and the early returns. The parser calls nothing
--   but libc. A record's bytes are written by the kernel: Record/Layout, Record/SampleLayout,
--   Record/SampleSpec and Record/Event give the layout that include/perf_event.h documents, against
--   which the parser is proved. The parser is not told `sample_id_all` and takes a `sample_id` of one word
--   for AUX, LOST_SAMPLES and SWITCH records and none for the others, where the kernel writes 0 to 6; it knows no
--   member of a sample behind TRANSACTION, no PERF_FORMAT_LOST and no `hw_idx`. The theorems on whole
--   records are about the settings where the two agree.
--
-- * fuzzer/perf_fuzzer.c, fuzzer/fuzz_open.c, fuzzer/fuzz_mmap.c, fuzzer/fuzz_close.c and
--   fuzzer/fuzz_overflow.c: the tables `event_data` and `mmaps`, their counters, the operations that open,
--   map, unmap, read, trash and close, and the two signal handlers. Fuzzer/State is
--   the state, the world outside (`rand`, trinity's addresses, the system calls, the words that the
--   kernel writes) and the monad that passes both; Fuzzer/Find the searches, Fuzzer/Random the random
--   arguments, Fuzzer/Mmap the reads and the trashing, Fuzzer/Setup `setup_mmap`, `setup_mmap_aux`,
--   `unmap_mmap` and `mmap_random_event`, Fuzzer/Close `close_event`. `close_event` reaches the table of
--   mappings through the member `mmap` of an event. Fuzzer/Triple and Fuzzer/Table carry the invariant
--   of the mappings through the operations, Fuzzer/Sound has one proof for each.
--   Fuzzer/Open is `open_random_event`: what trinity makes up is a parameter, and its loop runs on fuel, since
--   the kernel may refuse forever; `running` says that the fuel is used up. `rand` and the errno of a call
--   come from the world, and `sigaction` is not seen to fail. Fuzzer/Overflow has `our_handler` and
--   `sigio_handler`; a handler runs between two operations, never inside one. Fuzzer/Calm finds the operations
--   that open and close no event, Fuzzer/Counted follows the counter of open events through the others.
--   Fuzzer/Steady finds the
--   operations that leave the mappings alone. The state keeps the calls of `close` and `munmap`, which Fuzzer/Effect
--   compares with what closing is meant to do; the answer of the disable `ioctl` may depend on them. Fuzzer/Storm
--   has the handler called over and over, on the total operations of Fuzzer/Takes, up to the close that ends a
--   storm.
--   Fuzzer/LogAttr prints the "O" line of an event, Fuzzer/LogAttr/Reads compares it with what the report
--   reads. The other fuzz_*.c, whose operations are arguments for one system call each, and the main loop are
--   not modelled.
--
-- * fuzzer/active_events.c and fuzzer/parse_log.c: Report/Sscanf reads numbers as `sscanf` does, Report/Scan
--   an "O" line as `parse_open_event` does, Report/Table has the tables and the handlers, Report/Main the
--   switch and the loop of `main` over the lines that `fgets` returned, and its two totals. Command line,
--   file and the printing of attributes are left out. Report/Refines compares the tables with the set of
--   open fds.
--
-- * fuzzer/replay_log.c plays the log again. Replay/State has its table from the fds of the log to those of
--   the kernel, and the system calls that were made; the kernel's answers are parameters that may depend on
--   the calls before. Replay/Handlers has the handlers of the lines that open, close, map, unmap, trash,
--   control and read events. Replay/Live follows the open fds, Replay/Reopens plays a line of the fuzzer.
--   Replay/Handler is the signal handler. Left out are the handlers of poll, affinity and access lines, and the
--   options and the switch of `main`.
--
-- * fuzzer/filter_address.c, up to the copy into the caller's buffer: Filters makes up an address filter from a stream of
--   `rand`; Filters/Bounds measures it. A number is printed with at most 64 digits. Of the two calls of `rand` in one expression the left one is
--   taken first.
--
-- * tools/event_parser.c, the whole program, on what sysfs holds: Sysfs/Chars has its strings, Sysfs/Format
--   is `parse_format`, Sysfs/Generic `separate_bits`, `update_configs` and `parse_generic`, Sysfs/Table
--   `init_pmus` with the two buffers that its rounds share, Sysfs/Dump `dump_pmus` and `main`. The strings
--   are buffers: a loop that passes the end of a string reads on. Sysfs/Described is what the documentation
--   of sysfs says of the files. Memory that runs out and messages to stderr are left out; the fuel of the two
--   loops is the length of the buffer and one more, of which each round takes one at least.
--
-- * lib/test_utils.c, `check_linux_version_newer` and `_older`: Version, on the release string of
--   `uname`; Version/Order compares them with the order of versions.
--
-- Machine integers are natural numbers below the power of two of their width; a signed number is
-- kept as its bit pattern, and each comparison of the source that is signed is written out on the
-- pattern. `debug` is the constant 0 of the source. The machine is a little-endian x86-64, so of
-- the three `reg_names` the one of `__x86_64__` is taken.
--
-- The loop of `perf_mmap_read` runs on fuel, one more than the new bytes: each round passes at
-- least the eight bytes of a header, as Record/Termination shows, if no raw data is sampled. With
-- raw data a negative length can move the offset back.
pub mod Base
pub mod Filters
pub mod Fuzzer
pub mod Record
pub mod Replay
pub mod Report
pub mod Sysfs
pub mod Version

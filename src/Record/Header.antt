-- ===== src/Record/Header.antt =====
-- lib/parse_record.c: the record types of include/perf_event.h and the line that shows a header.
use perf_event_tests.Base.{ℕ, ◌%◌, ◌||◌, false, [], ◌∷◌, ◌==◌, if◌then◌else◌, has_bit}
use perf_event_tests.Record.RecordType
use perf_event_tests.Record.Reader.{Reader, Done, ◌>>=◌, when, say}

-- `struct perf_event_header`.
pub record Header : Type 0 where
  pub type : ℕ
  pub misc : ℕ
  pub size : ℕ

unfoldable pub print_type : ℕ → ℕ → Reader Done
print_type type sample_type =
    if type == RecordType.mmap
    then say false "PERF_RECORD_MMAP" []
    else if type == RecordType.lost
    then say false "PERF_RECORD_LOST" []
    else if type == RecordType.comm
    then say false "PERF_RECORD_COMM" []
    else if type == RecordType.exit
    then say false "PERF_RECORD_EXIT" []
    else if type == RecordType.throttle
    then say false "PERF_RECORD_THROTTLE" []
    else if type == RecordType.unthrottle
    then say false "PERF_RECORD_UNTHROTTLE" []
    else if type == RecordType.fork
    then say false "PERF_RECORD_FORK" []
    else if type == RecordType.read
    then say false "PERF_RECORD_READ" []
    else if type == RecordType.sample
    then say false "PERF_RECORD_SAMPLE [%x]" (sample_type ∷ [])
    else if type == RecordType.mmap2
    then say false "PERF_RECORD_MMAP2" []
    else if type == RecordType.aux
    then say false "PERF_RECORD_AUX" []
    else if type == RecordType.itrace_start
    then say false "PERF_RECORD_ITRACE_START" []
    else if type == RecordType.lost_samples
    then say false "PERF_RECORD_LOST_SAMPLES" []
    else if type == RecordType.switch
    then say false "PERF_RECORD_SWITCH" []
    else if type == RecordType.switch_cpu_wide
    then say false "PERF_RECORD_SWITCH_CPU_WIDE" []
    else say false "UNKNOWN %d" (type ∷ [])

unfoldable pub print_cpumode : ℕ → Reader Done
print_cpumode misc =
    let mode = misc % 8 in
    if mode == 0
    then say false "PERF_RECORD_MISC_CPUMODE_UNKNOWN" []
    else if mode == 1
    then say false "PERF_RECORD_MISC_KERNEL" []
    else if mode == 2
    then say false "PERF_RECORD_MISC_USER" []
    else if mode == 3
    then say false "PERF_RECORD_MISC_HYPERVISOR" []
    else if mode == 4
    then say false "PERF_RECORD_MISC_GUEST_KERNEL" []
    else if mode == 5
    then say false "PERF_RECORD_MISC_GUEST_USER" []
    else say false "Unknown %d!\n" (misc ∷ [])

-- Bit 13 of `misc` has a meaning that depends on the record's type.
unfoldable pub print_alias : ℕ → Reader Done
print_alias type =
    if type == RecordType.mmap
    then say false ",PERF_RECORD_MISC_MMAP_DATA " []
    else if type == RecordType.comm
    then say false ",PERF_RECORD_MISC_COMM_EXEC " []
    else if (type == RecordType.switch) || (type == RecordType.switch_cpu_wide)
    then say false ",PERF_RECORD_MISC_SWITCH_OUT " []
    else say false "UNKNOWN ALIAS!!! " []

-- The first line of a record, when the parser is not quiet.
unfoldable pub print_header : Header → ℕ → Reader Done
unfolding print_type print_cpumode print_alias
print_header event sample_type = do
  _ ← print_type event.type sample_type
  _ ← say false ", MISC=%d (" (event.misc ∷ [])
  _ ← print_cpumode event.misc
  _ ← when (has_bit event.misc 13) (print_alias event.type)
  _ ← when (has_bit event.misc 14) (say false ",PERF_RECORD_MISC_EXACT_IP " [])
  _ ← when (has_bit event.misc 15) (say false ",PERF_RECORD_MISC_EXT_RESERVED " [])
  say false "), Size=%d\n" (event.size ∷ [])

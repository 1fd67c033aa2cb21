-- ===== src/Record/Mmap.antt =====
-- lib/parse_record.c: one record of any type, and `perf_mmap_read`, which copies the ring buffer
-- and parses all that is new in it.
use perf_event_tests.Base.{
  ℕ, zero, suc, ◌||◌, true, false, not, none, some, List, [], ◌∷◌, ◌++◌, ltb, ◌==◌, if◌then◌else◌,
  has_bit,
}
use perf_event_tests.Record.Reader.{
  Line, Reader, Done, pure, ◌>>=◌, when, peek, skip, jump, say, field,
}
use perf_event_tests.Record.RecordType
use perf_event_tests.Record.Header.{Header, print_header}
use perf_event_tests.Record.Plain
use perf_event_tests.Record.Sample
use perf_event_tests.Record.Sample.{Settings}
use perf_event_tests.Record.Sample.DataSource.{data_source}
use perf_event_tests.Record.Sample.Stack.{stack_user}

-- One word of a sample, if its bit of `sample_type` is set.
abbrev sampled : Settings → ℕ → Reader Done → Reader Done
sampled s k m = when (has_bit s.sample_type k) m

unfoldable pub sample_head : Settings → Reader Done
sample_head s = do
  _ ← sampled s 0 (do _ ← field s.quiet 8 "\tPERF_SAMPLE_IP, IP: %llx\n"; pure tt)
  _ ← sampled s 1 (Sample.tid s.quiet s.validate)
  _ ← sampled s 2 (do _ ← field s.quiet 8 "\tPERF_SAMPLE_TIME, time: %lld\n"; pure tt)
  _ ← sampled s 3 (do _ ← field s.quiet 8 "\tPERF_SAMPLE_ADDR, addr: %llx\n"; pure tt)
  _ ← sampled s 6 (do _ ← field s.quiet 8 "\tPERF_SAMPLE_ID, sample_id: %lld\n"; pure tt)
  _ ←
      sampled s 9
        (do _ ← field s.quiet 8 "\tPERF_SAMPLE_STREAM_ID, sample_stream_id: %lld\n"; pure tt)
  _ ← sampled s 7 (Sample.cpu s.quiet)
  sampled s 8 (do _ ← field s.quiet 8 "\tPERF_SAMPLE_PERIOD, period: %lld\n"; pure tt)

unfoldable pub sample_blocks : Settings → Reader Done
sample_blocks s = do
  _ ← sampled s 4 (Sample.read_values s.quiet s.read_format s.validate)
  _ ← sampled s 5 (Sample.callchain s.quiet)
  _ ← sampled s 10 (Sample.raw s.quiet s.raw_type)
  _ ← sampled s 11 (Sample.branch_stack s.quiet s.validate)
  _ ← sampled s 12 (Sample.regs_user s.quiet s.reg_mask)
  _ ← sampled s 18 (Sample.regs_intr s.quiet s.reg_mask)
  sampled s 13 (stack_user s.quiet)

unfoldable pub sample_tail : Settings → Reader Done
sample_tail s = do
  _ ←
      sampled s 14
        (do _ ← field s.quiet 8 "\tPERF_SAMPLE_WEIGHT, Weight: %lld "; say s.quiet "\n" [])
  _ ← sampled s 15 (do
    src ← field s.quiet 8 "\tPERF_SAMPLE_DATA_SRC, Raw: %llx\n"
    _ ← data_source s.quiet src
    say s.quiet "\n" [])
  _ ←
      sampled s 16
        (do _ ← field s.quiet 8 "\tPERF_SAMPLE_IDENTIFIER, Raw length: %lld\n"; say s.quiet "\n" [])
  sampled s 17
      (do _ ← field s.quiet 8 "\tPERF_SAMPLE_TRANSACTION, Raw length: %lld\n"; say s.quiet "\n" [])

unfoldable pub sample : Settings → Reader Done
unfolding sample_head sample_blocks sample_tail
sample s = do _ ← sample_head s; _ ← sample_blocks s; sample_tail s

-- The switch over the record's type. A type that it does not know ends the parse: the offset
-- jumps to `size`, the end of the new bytes.
unfoldable pub details : Settings → ℕ → Header → Reader Done
unfolding sample
details s size event =
    let q = s.quiet in
    let t = event.type in
    if t == RecordType.lost
    then Plain.lost q
    else if t == RecordType.comm
    then Plain.comm q event.size
    else if t == RecordType.fork
    then Plain.fork q
    else if t == RecordType.mmap
    then Plain.mmap q event.size
    else if t == RecordType.mmap2
    then Plain.mmap2 q event.size
    else if t == RecordType.exit
    then Plain.exit q
    else if (t == RecordType.throttle) || (t == RecordType.unthrottle)
    then Plain.throttle q
    else if t == RecordType.sample
    then sample s
    else if t == RecordType.aux
    then Plain.aux q
    else if t == RecordType.itrace_start
    then Plain.itrace_start q
    else if t == RecordType.lost_samples
    then Plain.lost_samples q
    else if t == RecordType.switch
    then Plain.switch q
    else if t == RecordType.switch_cpu_wide
    then Plain.switch_cpu_wide q
    else (do _ ← say q "\tUnknown type %d\n" (t ∷ []); jump size)

-- One round of the loop.
unfoldable pub record_at : Settings → ℕ → Reader Done
unfolding details
record_at s size = do
  t ← peek 0 4
  misc ← peek 4 2
  n ← peek 6 2
  let event : Header = record { type = t; misc = misc; size = n }
  _ ← when (not s.quiet) (print_header event s.sample_type)
  _ ← skip 8
  details s size event

-- `finished events log`: the loop ended by its test after that many records.
pub data Parse : Type 0 where
  finished : ℕ → List Line → Parse
  fault out_of_fuel : Parse

abbrev pub one_more : List Line → Parse → Parse
one_more log (finished n more) = finished (suc n) (log ++ more)
one_more log fault = fault
one_more log out_of_fuel = out_of_fuel

-- `while(offset<size)`.
unfoldable pub parse_loop : Settings → ℕ → ℕ → List ℕ → ℕ → Parse
unfolding record_at
parse_loop s size zero buf off = out_of_fuel
parse_loop s size (suc fuel) buf off = elim (ltb off size) [
  | false ↦ finished 0 []
  | true ↦ elim (record_at s size buf off) [
    | none ↦ fault
    | some (done, off', log) ↦ one_more log (parse_loop s size fuel buf off')
  ]
]

-- ===== src/Record/SampleWhole.antt =====
-- A whole sample is read back as the kernel wrote it.
use perf_event_tests.Base.{ℕ, Bool, false, [], has_bit}
use perf_event_tests.Record.Reader.{◌>>=◌, when}
use perf_event_tests.Record.Reads.{Reads, Reads-bind}
use perf_event_tests.Record.Sample
use perf_event_tests.Record.Sample.{Settings}
use perf_event_tests.Record.Sample.Stack.{stack_user}
use perf_event_tests.Record.Mmap.{sample, sample_head, sample_blocks, sample_tail}
use perf_event_tests.Record.SampleLayout.{SampleData, SampleFits}
use perf_event_tests.Record.SampleSpec.{
  loud, IsPlain, sample_bytes, sample_lines, head_bytes, head_lines, block_bytes, block_lines,
  tail_bytes, tail_lines,
}
use perf_event_tests.Record.SampleRoundTrip.{
  Reads-when, Reads-word, callchain-Reads, branch_stack-Reads,
}
use perf_event_tests.Record.SamplePieces.{
  Reads-off, Reads-last, values-Reads, tid-Reads, cpu-Reads, word_then, word_line,
  data_source-Reads, raw-Reads,
}

module _ (s : Settings) (d : SampleData) (fit : SampleFits d) (plain : IsPlain s) where
  abbrev asks : ℕ → Bool
  asks k = has_bit s.sample_type k

  head-Reads : Reads (sample_head (loud s)) (head_bytes s d) tt (head_lines s d)
  unfolding sample_head
  head-Reads = Reads-bind _ (Reads-when (asks 0) (Reads-word _ d.ip fit.ip)) (
      Reads-bind _ (Reads-when (asks 1) (tid-Reads s.validate d.pid d.thread fit.pid fit.thread)) (
        Reads-bind _ (Reads-when (asks 2) (Reads-word _ d.time fit.time)) (
          Reads-bind _ (Reads-when (asks 3) (Reads-word _ d.addr fit.addr)) (
            Reads-bind _ (Reads-when (asks 6) (Reads-word _ d.id fit.id)) (
              Reads-bind _ (Reads-when (asks 9) (Reads-word _ d.stream_id fit.stream_id)) (
                Reads-bind _ (Reads-when (asks 7) (cpu-Reads d.cpu d.reserved fit.cpu fit.reserved))
                  (Reads-when (asks 8) (Reads-word _ d.period fit.period))))))))

  none_follow :
      Reads
        (when (asks 12) (Sample.regs_user false s.reg_mask) >>= λ _.
          when (asks 18) (Sample.regs_intr false s.reg_mask) >>= λ _.
          when (asks 13) (stack_user false))
        []
        tt
        []
  none_follow =
      Reads-bind _ (Reads-off _ plain.regs_user)
        (Reads-bind _ (Reads-off _ plain.regs_intr) (Reads-off _ plain.stack_user))

  blocks-Reads : Reads (sample_blocks (loud s)) (block_bytes s d) tt (block_lines s d)
  unfolding sample_blocks
  blocks-Reads =
      Reads-bind _ (Reads-when (asks 4) (values-Reads s.read_format s.validate d.values fit.values))
        (Reads-bind _ (Reads-when (asks 5) (callchain-Reads d.ips fit.ips fit.ips_length)) (
          Reads-bind _ (Reads-when (asks 10) (raw-Reads d.raw fit.raw_length)) (
            Reads-last _
              (Reads-when (asks 11)
                (branch_stack-Reads s.validate d.branches fit.branches fit.branches_length))
              none_follow)))

  tail-Reads : Reads (sample_tail (loud s)) (tail_bytes s d) tt (tail_lines s d)
  unfolding sample_tail
  tail-Reads = Reads-bind _ (Reads-when (asks 14) (word_line _ d.weight fit.weight)) (
      Reads-bind _
        (Reads-when (asks 15) (word_then _ d.source _ fit.source (data_source-Reads d.source)))
        (Reads-bind _ (Reads-off _ plain.identifier)
          (Reads-when (asks 17) (word_line _ d.transaction fit.transaction))))

  pub sample-Reads : Reads (sample (loud s)) (sample_bytes s d) tt (sample_lines s d)
  unfolding sample
  sample-Reads = Reads-bind _ head-Reads (Reads-bind _ blocks-Reads tail-Reads)

-- ===== src/Record/SampleSpec.antt =====
-- A whole sample: its bytes in the order of include/perf_event.h, and the lines that show it.
use Prim.Native.Nat.{bit_and}
use perf_event_tests.Base.{
  ℕ, ◌^◌, ◌<◌, ◌≡◌, ◌++◌, String, false, not, List, [], ◌∷◌, ◌==◌, has_bit, length,
}
use perf_event_tests.Base.Bytes.{le_bytes}
use perf_event_tests.Record.Reader.{Line, printed}
use perf_event_tests.Record.Sample.{Settings}
use perf_event_tests.Record.Sample.DataSource.{tests}
use perf_event_tests.Record.SampleLayout.{
  optional, words, SampleData, read_bytes, read_lines, chain_lines, raw_lines, branches_bytes,
  branches_lines, pid_lines,
}

-- The settings of a parser that prints, and whose raw data is no IBS data.
abbrev pub loud : Settings → Settings
loud s = record s { quiet = false; raw_type = 0 }

-- None of the members is asked for that the parser has in another place than the kernel, or whose
-- size it takes from elsewhere (the registers, the stack and IDENTIFIER), and none that it does not know:
-- those behind TRANSACTION, which are bit 18 and more, and PERF_FORMAT_LOST.
pub record IsPlain (s : Settings) : Type 0 where
  pub regs_user : has_bit s.sample_type 12 ≡ false
  pub stack_user : has_bit s.sample_type 13 ≡ false
  pub identifier : has_bit s.sample_type 16 ≡ false
  pub regs_intr : has_bit s.sample_type 18 ≡ false
  pub known : s.sample_type < 2 ^ 18
  pub no_lost : has_bit s.read_format 4 ≡ false

abbrev pub source_lines : List (ℕ × String) → ℕ → List Line
source_lines [] src = []
source_lines ((mask, text) ∷ more) src =
    optional (not (bit_and src mask == 0)) (printed text [] ∷ []) ++ source_lines more src

module _ (s : Settings) (d : SampleData) where
  abbrev asked : ℕ → List ℕ → List ℕ
  asked k bytes = optional (has_bit s.sample_type k) bytes

  abbrev shown : ℕ → List Line → List Line
  shown k lines = optional (has_bit s.sample_type k) lines

  abbrev pub head_bytes : List ℕ
  head_bytes =
      asked 0 (le_bytes 8 d.ip)
      ++ (asked 1 (le_bytes 4 d.pid ++ le_bytes 4 d.thread)
          ++ (asked 2 (le_bytes 8 d.time)
              ++ (asked 3 (le_bytes 8 d.addr)
                  ++ (asked 6 (le_bytes 8 d.id)
                      ++ (asked 9 (le_bytes 8 d.stream_id)
                          ++ (asked 7 (le_bytes 4 d.cpu ++ le_bytes 4 d.reserved)
                              ++ asked 8 (le_bytes 8 d.period)))))))

  abbrev pub block_bytes : List ℕ
  block_bytes =
      asked 4 (read_bytes s.read_format d.values)
      ++ (asked 5 (le_bytes 8 (length d.ips) ++ words d.ips)
          ++ (asked 10 (le_bytes 4 (length d.raw) ++ d.raw)
              ++ asked 11 (le_bytes 8 (length d.branches) ++ branches_bytes d.branches)))

  abbrev pub tail_bytes : List ℕ
  tail_bytes =
      asked 14 (le_bytes 8 d.weight)
      ++ (asked 15 (le_bytes 8 d.source) ++ asked 17 (le_bytes 8 d.transaction))

  -- `struct { header; … }` of PERF_RECORD_SAMPLE, behind the header. The branch stack has no `hw_idx`, which
  -- PERF_SAMPLE_BRANCH_HW_INDEX of another member of the attributes asks for.
  abbrev pub sample_bytes : List ℕ
  sample_bytes = head_bytes ++ (block_bytes ++ tail_bytes)

  abbrev pub head_lines : List Line
  head_lines =
      shown 0 (printed "\tPERF_SAMPLE_IP, IP: %llx\n" (d.ip ∷ []) ∷ [])
      ++ (shown 1 (
            pid_lines s.validate d.pid
            ++ (printed "\tPERF_SAMPLE_TID, pid: %d  tid %d\n" (d.pid ∷ d.thread ∷ []) ∷ []))
          ++ (shown 2 (printed "\tPERF_SAMPLE_TIME, time: %lld\n" (d.time ∷ []) ∷ [])
              ++ (shown 3 (printed "\tPERF_SAMPLE_ADDR, addr: %llx\n" (d.addr ∷ []) ∷ [])
                  ++ (shown 6 (printed "\tPERF_SAMPLE_ID, sample_id: %lld\n" (d.id ∷ []) ∷ [])
                      ++ (shown 9 (
                            printed "\tPERF_SAMPLE_STREAM_ID, sample_stream_id: %lld\n"
                              (d.stream_id ∷ [])
                            ∷ [])
                          ++ (shown 7 (
                                printed "\tPERF_SAMPLE_CPU, cpu: %d  res %d\n"
                                  (d.cpu ∷ d.reserved ∷ [])
                                ∷ [])
                              ++ shown 8 (
                                  printed "\tPERF_SAMPLE_PERIOD, period: %lld\n" (d.period ∷ [])
                                  ∷ [])))))))

  abbrev pub block_lines : List Line
  block_lines =
      shown 4 (
        printed "\tPERF_SAMPLE_READ, read_format\n" []
        ∷ read_lines s.read_format s.validate d.values)
      ++ (shown 5 (
            printed "\tPERF_SAMPLE_CALLCHAIN, callchain length: %lld\n" (length d.ips ∷ [])
            ∷ chain_lines 0 d.ips)
          ++ (shown 10 (
                printed "\tPERF_SAMPLE_RAW, Raw length: %d\n" (length d.raw ∷ [])
                ∷ (printed "\t\t" [] ∷ (raw_lines d.raw ++ (printed "\n" [] ∷ []))))
              ++ shown 11 (
                  printed "\tPERF_SAMPLE_BRANCH_STACK, branch_stack entries: %lld\n"
                    (length d.branches ∷ [])
                  ∷ branches_lines s.validate 0 d.branches)))

  abbrev pub tail_lines : List Line
  tail_lines =
      shown 14
        (printed "\tPERF_SAMPLE_WEIGHT, Weight: %lld " (d.weight ∷ []) ∷ printed "\n" [] ∷ [])
      ++ (shown 15 (
            printed "\tPERF_SAMPLE_DATA_SRC, Raw: %llx\n" (d.source ∷ [])
            ∷ (optional (not (d.source == 0)) (printed "\t\t" [] ∷ [])
                ++ (source_lines tests d.source ++ (printed "\n" [] ∷ []))))
          ++ shown 17 (
              printed "\tPERF_SAMPLE_TRANSACTION, Raw length: %lld\n" (d.transaction ∷ [])
              ∷ printed "\n" []
              ∷ []))

  abbrev pub sample_lines : List Line
  sample_lines = head_lines ++ (block_lines ++ tail_lines)

-- ===== src/Record/Ibs.antt =====
-- lib/parse_record.c: the dumps of raw AMD IBS data. Both run only when the parser is not quiet,
-- read at the offset and do not move it.
use Prim.Native.Nat.{bit_and, bit_or}
use perf_event_tests.Base.{
  ℕ, ◌*◌, ◌/◌, ◌%◌, ◌^◌, ◌+◌, ◌&&◌, String, Bool, false, [], ◌∷◌, ltb, ◌==◌, if◌then◌else◌, has_bit,
}
use perf_event_tests.Record.Reader.{Reader, Done, ◌>>=◌, when, peek, say}

-- `printf(fmt, !!(m & 1ULL<<k))`.
abbrev flag : ℕ → ℕ → String → Reader Done
flag m k fmt = say false fmt (m / 2 ^ k % 2 ∷ [])

-- `(m>>k) & 0xffff`.
abbrev half_word : ℕ → ℕ → ℕ
half_word m k = m / 2 ^ k % 2 ^ 16

-- `msrs[i]`, behind the header word.
abbrev msr : ℕ → Reader ℕ
msr i = peek (4 + 8 * i) 8

-- `size>k` for an `int` that is given by its pattern.
abbrev above : ℕ → ℕ → Bool
above k size = ltb k size && ltb size (2 ^ 31)

unfoldable pub page_size : ℕ → String
page_size n =
    if n == 0 then "4kB\n" else if n == 1 then "2MB\n" else if n == 2 then "1GB\n" else "Resreved\n"

unfoldable pub fetch_control : ℕ → Reader Done
unfolding page_size
fetch_control m = do
  _ ← say false "\t\tMSR IBS_FETCH_CONTROL %llx\n" (m ∷ [])
  _ ← flag m 57 "\t\t\tIBS_RAND_EN: %d\n"
  _ ← flag m 56 "\t\t\tL2 iTLB Miss: %d\n"
  _ ← flag m 55 "\t\t\tL1 iTLB Miss: %d\n"
  _ ← say false "\t\t\tL1TLB page size: " []
  _ ← say false (page_size (m / 2 ^ 53 % 4)) []
  _ ← flag m 52 "\t\t\tFetch Physical Address Valid: %d\n"
  _ ← flag m 51 "\t\t\ticache miss: %d\n"
  _ ← flag m 50 "\t\t\tInstruction Fetch Complete: %d\n"
  _ ← flag m 49 "\t\t\tInstruction Fetch Valid: %d\n"
  _ ← flag m 48 "\t\t\tInstruction Fetch Enabled: %d\n"
  _ ← say false "\t\t\tInstruction Fetch Latency: %lld\n" (half_word m 32 ∷ [])
  _ ← say false "\t\t\tInstruction Fetch Count: %lld\n" (half_word m 16 * 16 ∷ [])
  say false "\t\t\tInstruction Fetch Max Count: %lld\n" (half_word m 0 * 16 ∷ [])

unfoldable pub dump_raw_ibs_fetch : ℕ → Reader Done
unfolding fetch_control
dump_raw_ibs_fetch size = do
  header ← peek 0 4
  _ ← say false "\t\tHeader: %x\n" (header ∷ [])
  control ← msr 0
  _ ← fetch_control control
  linear ← msr 1
  _ ← say false "\t\tMSR IBS_FETCH_LINEAR_ADDRESS %llx\n" (linear ∷ [])
  physical ← msr 2
  _ ← say false "\t\tMSR IBS_FETCH_PHYSICAL_ADDRESS %llx\n" (physical ∷ [])
  when (above 24 size) (do target ← msr 3; say false "\t\tMSR IBS_BRTARGET %llx\n" (target ∷ []))

unfoldable pub op_control : ℕ → Reader Done
op_control m = do
  _ ← say false "\t\tMSR IBS_EXECUTION_CONTROL %llx\n" (m ∷ [])
  _ ← say false "\t\t\tIbsOpCurCnt: %lld\n" (m / 2 ^ 32 % 2 ^ 26 ∷ [])
  _ ← flag m 19 "\t\t\tIBS OpCntCtl: %d\n"
  _ ← flag m 18 "\t\t\tIBS OpVal: %d\n"
  _ ← flag m 17 "\t\t\tIBS OpEn: %d\n"
  say false "\t\t\tIbsOpMaxCnt: %lld\n" (bit_or (m % 2 ^ 16 * 16) (bit_and m 0x3f00000) ∷ [])

unfoldable pub op_data : ℕ → Reader Done
op_data m = do
  _ ← say false "\t\tMSR IBS_OP_DATA %llx\n" (m ∷ [])
  _ ← flag m 38 "\t\t\tRIP Invalid: %d\n"
  _ ← flag m 37 "\t\t\tBranch Retired: %d\n"
  _ ← flag m 36 "\t\t\tBranch Mispredicted: %d\n"
  _ ← flag m 35 "\t\t\tBranch Taken: %d\n"
  _ ← flag m 34 "\t\t\tReturn uop: %d\n"
  _ ← flag m 33 "\t\t\tMispredicted Return uop: %d\n"
  _ ← say false "\t\t\tTag to Retire Cycles: %lld\n" (half_word m 16 ∷ [])
  say false "\t\t\tCompletion to Retire Cycles: %lld\n" (half_word m 0 ∷ [])

unfoldable pub northbridge_source : ℕ → String
northbridge_source n =
    if n == 0
    then "No valid status\n"
    else if n == 1
    then "L3\n"
    else if n == 2
    then "Cache from another compute unit\n"
    else if n == 3
    then "DRAM\n"
    else if n == 4
    then "Reserved remote cache\n"
    else if n == 5
    then "Reserved\n"
    else if n == 6
    then "Reserved\n"
    else "Other: MMIO/config/PCI/APIC\n"

unfoldable pub op_data2 : ℕ → Reader Done
unfolding northbridge_source
op_data2 m = do
  _ ← say false "\t\tMSR IBS_OP_DATA2 (Northbridge) %llx\n" (m ∷ [])
  _ ← say false "\t\t\tCache Hit State: %c\n" ((if has_bit m 5 then b'O' else b'M') ∷ [])
  _ ← say false "\t\t\tRequest destination node: " []
  _ ← say false (if has_bit m 4 then "Same\n" else "Different\n") []
  _ ← say false "\t\t\tNorthbridge data source: " []
  say false (northbridge_source (m % 8)) []

unfoldable pub op_data3 : ℕ → Reader Done
op_data3 m = do
  _ ← say false "\t\tMSR IBS_OP_DATA3 (cache) %llx\n" (m ∷ [])
  _ ← say false "\t\t\tData Cache Miss Latency: %lld\n" (half_word m 32 ∷ [])
  _ ← flag m 19 "\t\t\tL2TLB data hit in 1GB page: %d\n"
  _ ← flag m 18 "\t\t\tData cache physical addr valid: %d\n"
  _ ← flag m 17 "\t\t\tData cache linear addr valid: %d\n"
  _ ← flag m 16 "\t\t\tMAB hit: %d\n"
  _ ← flag m 15 "\t\t\tData cache locked operation: %d\n"
  _ ← flag m 14 "\t\t\tUncachable memory operation: %d\n"
  _ ← flag m 13 "\t\t\tWrite-combining memory operation: %d\n"
  _ ← flag m 12 "\t\t\tData forwarding store to load canceled: %d\n"
  _ ← flag m 11 "\t\t\tData forwarding store to load operation: %d\n"
  _ ← flag m 9 "\t\t\tBank conflict on load operation: %d\n"
  _ ← flag m 8 "\t\t\tMisaligned access: %d\n"
  _ ← flag m 7 "\t\t\tData cache miss: %d\n"
  _ ← flag m 6 "\t\t\tData cache L2TLB hit in 2M: %d\n"
  _ ← flag m 5 "\t\t\tData cache L2TLB hit in 1G: %d\n"
  _ ← flag m 4 "\t\t\tData cache L1TLB hit in 2M: %d\n"
  _ ← flag m 3 "\t\t\tData cache L2TLB miss: %d\n"
  _ ← flag m 2 "\t\t\tData cache L1TLB miss: %d\n"
  _ ← flag m 1 "\t\t\tOperation is a store: %d\n"
  flag m 0 "\t\t\tOperation is a load: %d\n"

unfoldable pub dump_raw_ibs_op : ℕ → Reader Done
unfolding op_control op_data op_data2 op_data3
dump_raw_ibs_op size = do
  header ← peek 0 4
  _ ← say false "\t\tHeader: %x\n" (header ∷ [])
  control ← msr 0
  _ ← op_control control
  logical ← msr 1
  _ ← say false "\t\tMSR IBS_OP_LOGICAL_ADDRESS %llx\n" (logical ∷ [])
  data1 ← msr 2
  _ ← op_data data1
  data2 ← msr 3
  _ ← op_data2 data2
  data3 ← msr 4
  _ ← op_data3 data3
  _ ←
      when (has_bit data3 17)
        (do linear ← msr 5; say false "\t\tMSR IBS_DC_LINEAR_ADDRESS %llx\n" (linear ∷ []))
  _ ←
      when (has_bit data3 18)
        (do physical ← msr 6; say false "\t\tMSR IBS_DC_PHYSICAL_ADDRESS %llx\n" (physical ∷ []))
  when (above 64 size) (do data4 ← msr 7; say false "\t\tMSR IBS_OP_DATA4 %llx\n" (data4 ∷ []))

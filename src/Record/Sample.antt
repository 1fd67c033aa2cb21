-- ===== src/Record/Sample.antt =====
-- lib/parse_record.c: PERF_RECORD_SAMPLE, one reader for each bit of `sample_type` that is tested.
pub mod DataSource
pub mod Stack
use perf_event_tests.Base.{
  ℕ, zero, suc, ◌+◌, ◌-◌, ◌*◌, ◌/◌, ◌%◌, ◌^◌, ◌&&◌, String, Bool, true, false, not, Option, none,
  some, List, [], ◌∷◌, ltb, ◌==◌, if◌then◌else◌, has_bit,
}
use perf_event_tests.Record.Reader.{
  Reader, Done, pure, fail, ◌>>=◌, ◌>>◌, when, peek, peek_bytes, skip, skip_signed, complain, say,
  field,
}
use perf_event_tests.Record.ReadFormat.{Validate, rounds, handle_struct_read_format, print_regs}
use perf_event_tests.Record.Ibs.{dump_raw_ibs_fetch, dump_raw_ibs_op}

-- The arguments of `perf_mmap_read` that a sample depends on. `raw_type` is RAW_NONE 0,
-- RAW_IBS_FETCH 1 or RAW_IBS_OP 2.
pub record Settings : Type 0 where
  pub sample_type : ℕ
  pub read_format : ℕ
  pub reg_mask : ℕ
  pub validate : Option Validate
  pub quiet : Bool
  pub raw_type : ℕ

-- A member that is copied, printed and passed.
abbrev word : Bool → String → Reader Done
word quiet fmt = do _ ← field quiet 8 fmt; pure tt

unfoldable pub check_pid : Option Validate → ℕ → Reader Done
check_pid none pid = pure tt
check_pid (some v) pid =
    when (not (v.pid == pid)) (complain "Error, pid %d != %d\n" (v.pid ∷ pid ∷ []))

unfoldable pub tid : Bool → Option Validate → Reader Done
unfolding check_pid
tid quiet validate = do
  pid ← peek 0 4
  t ← peek 4 4
  _ ← check_pid validate pid
  _ ← say quiet "\tPERF_SAMPLE_TID, pid: %d  tid %d\n" (pid ∷ t ∷ [])
  skip 8

unfoldable pub cpu : Bool → Reader Done
cpu quiet = do
  c ← peek 0 4
  res ← peek 4 4
  _ ← say quiet "\tPERF_SAMPLE_CPU, cpu: %d  res %d\n" (c ∷ res ∷ [])
  skip 8

unfoldable pub read_values : Bool → ℕ → Option Validate → Reader Done
read_values quiet read_format validate = do
  _ ← say quiet "\tPERF_SAMPLE_READ, read_format\n" []
  handle_struct_read_format quiet read_format validate

unfoldable pub chain_loop : Bool → (left i : ℕ) → Reader Done
chain_loop quiet zero i = pure tt
chain_loop quiet (suc left) i = do
  ip ← field true 8 ""
  _ ← say quiet "\t\t ip[%d]: %llx\n" (i ∷ ip ∷ [])
  chain_loop quiet left (i + 1)

unfoldable pub callchain : Bool → Reader Done
unfolding chain_loop
callchain quiet = do
  nr ← field quiet 8 "\tPERF_SAMPLE_CALLCHAIN, callchain length: %lld\n"
  chain_loop quiet (rounds nr) 0

unfoldable pub raw_bytes : (left i : ℕ) → Reader Done
raw_bytes zero i = pure tt
raw_bytes (suc left) i = do b ← peek i 1; _ ← say false "%d " (b ∷ []); raw_bytes left (i + 1)

-- `size` is an `int`: a negative one prints no byte.
unfoldable pub raw_plain : ℕ → Reader Done
unfolding raw_bytes
raw_plain size = do
  _ ← say false "\t\t" []
  _ ← raw_bytes (if ltb size (2 ^ 31) then size else 0) 0
  say false "\n" []

unfoldable pub dump_raw : ℕ → ℕ → Reader Done
unfolding raw_plain
dump_raw raw_type size =
    if raw_type == 1
    then dump_raw_ibs_fetch size
    else if raw_type == 2
    then dump_raw_ibs_op size
    else raw_plain size

-- A negative `size` moves the offset back.
unfoldable pub raw : Bool → ℕ → Reader Done
unfolding dump_raw
raw quiet raw_type = do
  size ← field quiet 4 "\tPERF_SAMPLE_RAW, Raw length: %d\n"
  _ ← when (not quiet) (dump_raw raw_type size)
  skip_signed size

unfoldable pub check_branch : Option Validate → ℕ → Reader Done
check_branch none from = pure tt
check_branch (some v) from =
    when (ltb from v.branch_low) (complain "Error! branch out of bounds!\n" [])

-- `flags&=~2`.
abbrev without_2 : ℕ → ℕ
without_2 flags = if has_bit flags 1 then flags - 2 else flags

-- A mispredicted branch clears bit 1, the one that is tested next. The bits cleared after their
-- own test are not read again.
unfoldable pub branch_flags : Bool → ℕ → Reader Done
branch_flags true flags = pure tt
branch_flags false flags = do
  let rest = if has_bit flags 0 then without_2 flags else flags
  _ ← when (flags == 0) (say false "0" [])
  _ ← when (has_bit flags 0) (say false "MISPREDICTED " [])
  _ ← when (has_bit rest 1) (say false "PREDICTED " [])
  _ ← when (has_bit rest 2) (say false "IN_TRANSACTION " [])
  _ ← when (has_bit rest 3) (say false "TRANSACTION_ABORT " [])
  say false "\n" []

unfoldable pub branch_loop : Bool → Option Validate → (left i : ℕ) → Reader Done
unfolding check_branch branch_flags
branch_loop quiet validate zero i = pure tt
branch_loop quiet validate (suc left) i = do
  from ← field true 8 ""
  _ ← check_branch validate from
  to ← field true 8 ""
  _ ← say quiet "\t\t lbr[%d]: %llx %llx " (i ∷ from ∷ to ∷ [])
  flags ← field true 8 ""
  _ ← branch_flags quiet flags
  branch_loop quiet validate left (i + 1)

unfoldable pub branch_stack : Bool → Option Validate → Reader Done
unfolding branch_loop
branch_stack quiet validate = do
  bnr ← field quiet 8 "\tPERF_SAMPLE_BRANCH_STACK, branch_stack entries: %lld\n"
  branch_loop quiet validate (rounds bnr) 0

unfoldable pub print_abi : Bool → String → ℕ → Reader Done
print_abi quiet fmt abi = do
  _ ← say quiet fmt []
  _ ← when (abi == 0) (say quiet "PERF_SAMPLE_REGS_ABI_NONE" [])
  _ ← when (abi == 1) (say quiet "PERF_SAMPLE_REGS_ABI_32" [])
  _ ← when (abi == 2) (say quiet "PERF_SAMPLE_REGS_ABI_64" [])
  say quiet "\n" []

unfoldable pub regs_user : Bool → ℕ → Reader Done
unfolding print_abi
regs_user quiet reg_mask = do
  abi ← field true 8 ""
  _ ← print_abi quiet "\tPERF_SAMPLE_REGS_USER, ABI: " abi
  _ ← print_regs quiet reg_mask
  say quiet "\n" []

unfoldable pub regs_intr : Bool → ℕ → Reader Done
unfolding print_abi
regs_intr quiet reg_mask = do
  abi ← field true 8 ""
  _ ← print_abi quiet "\tPERF_SAMPLE_REGS_INTR, ABI: " abi
  _ ← print_regs quiet reg_mask
  say quiet "\n" []

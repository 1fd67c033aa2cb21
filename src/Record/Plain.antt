-- ===== src/Record/Plain.antt =====
-- lib/parse_record.c: the records with a fixed layout, one reader for each case of the switch.
use perf_event_tests.Base.{
  ℕ, zero, suc, ◌-◌, String, Bool, true, false, Option, none, some, List, [], ◌∷◌, ltb,
  if◌then◌else◌, has_bit,
}
use perf_event_tests.Record.Reader.{
  Reader, Done, pure, fail, ◌>>=◌, when, peek_bytes, skip, say, field,
}

unfoldable pub lost : Bool → Reader Done
lost quiet = do _ ← field quiet 8 "\tID: %lld\n"; _ ← field quiet 8 "\tLOST: %lld\n"; pure tt

-- What `%s` shows of a buffer: the bytes before the first NUL. With no NUL it reads on past the end.
abbrev pub c_string : List ℕ → Option (List ℕ)
c_string [] = none
c_string (zero ∷ s) = some []
c_string (suc c ∷ s) = elim (c_string s) [ none ↦ none | some t ↦ some (suc c ∷ t) ]

unfoldable pub print_string : Bool → String → List ℕ → Reader Done
print_string true fmt bytes = pure tt
print_string false fmt bytes = elim (c_string bytes) [ none ↦ fail | some s ↦ say false fmt s ]

-- The text that ends a record. Its size is what the header's size leaves behind `fixed` bytes; a
-- negative size makes `memcpy` run off the buffer.
unfoldable pub text : Bool → ℕ → ℕ → String → Reader Done
unfolding print_string
text quiet size fixed fmt = if ltb size fixed then fail else (do
  bytes ← peek_bytes (size - fixed)
  _ ← print_string quiet fmt bytes
  skip (size - fixed))

unfoldable pub comm : Bool → ℕ → Reader Done
comm quiet size = do
  _ ← field quiet 4 "\tPID: %d\n"
  _ ← field quiet 4 "\tTID: %d\n"
  text quiet size 16 "\tcomm: %s\n"

-- FORK and EXIT have one layout.
unfoldable pub fork : Bool → Reader Done
fork quiet = do
  _ ← field quiet 4 "\tPID: %d\n"
  _ ← field quiet 4 "\tPPID: %d\n"
  _ ← field quiet 4 "\tTID: %d\n"
  _ ← field quiet 4 "\tPTID: %d\n"
  _ ← field quiet 8 "\tTime: %lld\n"
  pure tt

unfoldable pub exit : Bool → Reader Done
exit quiet = do
  _ ← field quiet 4 "\tPID: %d\n"
  _ ← field quiet 4 "\tPPID: %d\n"
  _ ← field quiet 4 "\tTID: %d\n"
  _ ← field quiet 4 "\tPTID: %d\n"
  _ ← field quiet 8 "\tTime: %lld\n"
  pure tt

unfoldable pub mmap : Bool → ℕ → Reader Done
mmap quiet size = do
  _ ← field quiet 4 "\tPID: %d\n"
  _ ← field quiet 4 "\tTID: %d\n"
  _ ← field quiet 8 "\tAddress: %llx\n"
  _ ← field quiet 8 "\tLength: %llx\n"
  _ ← field quiet 8 "\tPage Offset: %llx\n"
  text quiet size 40 "\tFilename: %s\n"

unfoldable pub mmap2 : Bool → ℕ → Reader Done
mmap2 quiet size = do
  _ ← field quiet 4 "\tPID: %d\n"
  _ ← field quiet 4 "\tTID: %d\n"
  _ ← field quiet 8 "\tAddress: %llx\n"
  _ ← field quiet 8 "\tLength: %llx\n"
  _ ← field quiet 8 "\tPage Offset: %llx\n"
  _ ← field quiet 4 "\tMajor: %d\n"
  _ ← field quiet 4 "\tMinor: %d\n"
  _ ← field quiet 8 "\tIno: %llx\n"
  _ ← field quiet 8 "\tIno generation: %llx\n"
  _ ← field quiet 4 "\tProt: %d\n"
  _ ← field quiet 4 "\tFlags: %d\n"
  text quiet size 72 "\tFilename: %s\n"

-- THROTTLE and UNTHROTTLE share their case.
unfoldable pub throttle : Bool → Reader Done
throttle quiet = do
  _ ← field quiet 8 "\tTime: %lld\n"
  _ ← field quiet 8 "\tID: %lld\n"
  _ ← field quiet 8 "\tStream ID: %lld\n"
  pure tt

unfoldable pub aux_flags : Bool → ℕ → Reader Done
aux_flags quiet flags = do
  _ ← say quiet "\tFLAGS: %llx " (flags ∷ [])
  _ ← when (has_bit flags 0) (say quiet "FLAG_TRUNCATED " [])
  _ ← when (has_bit flags 1) (say quiet "FLAG_OVERWRITE " [])
  say quiet "\n" []

unfoldable pub aux : Bool → Reader Done
unfolding aux_flags
aux quiet = do
  _ ← field quiet 8 "\tAUX_OFFSET: %lld\n"
  _ ← field quiet 8 "\tAUX_SIZE: %lld\n"
  flags ← field true 8 ""
  _ ← aux_flags quiet flags
  _ ← field quiet 8 "\tSAMPLE_ID: %lld\n"
  pure tt

unfoldable pub itrace_start : Bool → Reader Done
itrace_start quiet = do _ ← field quiet 4 "\tPID: %d\n"; _ ← field quiet 4 "\tTID: %d\n"; pure tt

unfoldable pub lost_samples : Bool → Reader Done
lost_samples quiet = do
  _ ← field quiet 8 "\tLOST: %lld\n"
  _ ← field quiet 8 "\tSAMPLE_ID: %lld\n"
  pure tt

unfoldable pub switch : Bool → Reader Done
switch quiet = do _ ← field quiet 8 "\tSAMPLE_ID: %lld\n"; pure tt

unfoldable pub switch_cpu_wide : Bool → Reader Done
switch_cpu_wide quiet = do
  _ ← field quiet 4 "\tPREV_PID: %d\n"
  _ ← field quiet 4 "\tPREV_TID: %d\n"
  _ ← field quiet 8 "\tSAMPLE_ID: %lld\n"
  pure tt

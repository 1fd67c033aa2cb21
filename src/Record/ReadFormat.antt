-- ===== src/Record/ReadFormat.antt =====
-- lib/parse_record.c: the nested `read_format` structure and the register dump of a sample.
use perf_event_tests.Base.{
  ℕ, zero, suc, ◌+◌, ◌-◌, ◌^◌, String, Bool, true, false, not, Option, none, some, List, [], ◌∷◌,
  ltb, ◌==◌, if◌then◌else◌, has_bit, get_elem?,
}
use perf_event_tests.Record.Reader.{
  Reader, Done, pure, ◌>>=◌, when, peek, skip, complain, say, field,
}

-- What the caller expects: `struct validate_values`, its `int` members as 32-bit patterns. The
-- members that the parser never reads are left out.
pub record Validate : Type 0 where
  pub pid : ℕ
  pub events : ℕ
  pub branch_low : ℕ

-- An `int` widened to `long long`, by its pattern.
abbrev pub widen : ℕ → ℕ
widen w = if ltb w (2 ^ 31) then w else w + 2 ^ 64 - 2 ^ 32

-- The rounds of `for(i=0;i<nr;i++)` for a signed 64-bit `nr`. A count past the end of the buffer
-- is a read out of range long before `i` could overflow.
abbrev pub rounds : ℕ → ℕ
rounds nr = if ltb nr (2 ^ 63) then nr else 0

unfoldable pub check_events : Option Validate → ℕ → Reader Done
check_events none nr = pure tt
check_events (some v) nr =
    when (not (widen v.events == nr))
      (complain "Error!  Wrong number of events %d != %lld\n" (v.events ∷ nr ∷ []))

-- `quiet` and the tests of the `read_format` bits are fixed over the loop.
unfoldable pub group_values : Bool → Bool → ℕ → Reader Done
group_values quiet ids zero = pure tt
group_values quiet ids (suc n) = do
  _ ← field quiet 8 "\t\t\tValue: %lld "
  _ ← when ids (do _ ← field quiet 8 "id: %lld "; pure tt)
  _ ← say quiet "\n" []
  group_values quiet ids n

unfoldable pub times : Bool → ℕ → Reader Done
times quiet read_format = do
  _ ← when (has_bit read_format 0) (do _ ← field quiet 8 "enabled: %lld "; pure tt)
  when (has_bit read_format 1) (do _ ← field quiet 8 "running: %lld "; pure tt)

unfoldable pub group_format : Bool → ℕ → Option Validate → Reader Done
unfolding group_values check_events times
group_format quiet read_format validation = do
  nr ← field quiet 8 "\t\tNumber: %lld "
  _ ← check_events validation nr
  _ ← times quiet read_format
  _ ← say quiet "\n" []
  group_values quiet (has_bit read_format 2) (rounds nr)

unfoldable pub single_format : Bool → ℕ → Reader Done
unfolding times
single_format quiet read_format = do
  _ ← field quiet 8 "\t\tValue: %lld "
  _ ← times quiet read_format
  _ ← when (has_bit read_format 2) (do _ ← field quiet 8 "id: %lld "; pure tt)
  say quiet "\n" []

-- The function returns how far it moved, and its caller adds that to the offset: here it moves.
unfoldable pub handle_struct_read_format : Bool → ℕ → Option Validate → Reader Done
unfolding group_format single_format
handle_struct_read_format quiet read_format validation =
    if has_bit read_format 3
    then group_format quiet read_format validation
    else single_format quiet read_format

-- The table of an x86-64 build.
abbrev pub reg_names : List String
reg_names =
    "RAX" ∷ "RBX" ∷ "RCX" ∷ "RDX" ∷ "RSI" ∷ "RDI" ∷ "RBP" ∷ "RSP" ∷ "RIP" ∷ "RFLAGS" ∷ "CS" ∷ "SS"
    ∷ "DS" ∷ "ES" ∷ "FS" ∷ "GS" ∷ "R8" ∷ "R9" ∷ "R10" ∷ "R11" ∷ "R12" ∷ "R13" ∷ "R14" ∷ "R15" ∷ []

-- What is printed before " : ".
abbrev pub reg_name : ℕ → String
reg_name i = elim (get_elem? reg_names i) [ none ↦ "???" | some name ↦ name ]

unfoldable pub print_reg : Bool → ℕ → Reader Done
print_reg true i = pure tt
print_reg false i = do
  v ← peek 0 8
  _ ← say false "\t\t" []
  _ ← say false (reg_name i) []
  say false " : %llx\n" (v ∷ [])

-- The registers from number `i` on, with `left` rounds to go.
unfoldable pub reg_loop : Bool → ℕ → (left i : ℕ) → Reader Done
unfolding print_reg
reg_loop quiet reg_mask zero i = pure tt
reg_loop quiet reg_mask (suc left) i = do
  _ ← when (has_bit reg_mask i) (do _ ← print_reg quiet i; skip 8)
  reg_loop quiet reg_mask left (i + 1)

unfoldable pub print_regs : Bool → ℕ → Reader Done
unfolding reg_loop
print_regs quiet reg_mask = do
  _ ← say quiet "\t\tReg mask %llx\n" (reg_mask ∷ [])
  reg_loop quiet reg_mask 64 0

-- ===== src/Fuzzer/State.antt =====
-- fuzzer/perf_fuzzer.h, fuzzer/fuzz_mmap.c: the tables of events and of mappings, their counters,
-- and what the fuzzer asks of the C library and the kernel.
use perf_event_tests.Base.{
  ℕ, suc, ◌+◌, ◌-◌, ◌%◌, ◌^◌, String, Bool, Option, none, some, List, [], ◌∷◌, ◌++◌, get_elem?, set,
  if◌then◌else◌,
}

-- The members of `struct event_data_t` that the modelled functions read, with those of its `attr`.
pub record Event : Type 0 where
  pub active : Bool
  pub fd : ℕ
  pub type : ℕ
  pub sample_period : ℕ
  pub pid : ℕ
  pub cpu : ℕ
  pub group_fd : ℕ
  pub flags : ℕ
  pub mmap : ℕ
  pub config : ℕ
  pub read_format : ℕ
  pub read_size : ℕ
  pub number_in_group : ℕ
  pub last_refresh : ℕ
  pub overflows : ℕ
  pub throttles : ℕ

-- `struct our_mmap_t`. Addresses are 64-bit patterns.
pub record OurMmap : Type 0 where
  pub active : Bool
  pub addr : ℕ
  pub size : ℕ
  pub fd : ℕ
  pub prot : ℕ
  pub flags : ℕ
  pub head : ℕ
  pub aux_head : ℕ
  pub aux : Bool
  pub parent_mmap : ℕ
  pub which_event : ℕ

-- `MAP_FAILED`, `(void *)-1`.
abbrev pub map_failed : ℕ
map_failed = 2 ^ 64 - 1

-- An element of the arrays of statistics that `open_random_event` counts up.
pub data OpenCount : Type 0 where
  type_success trinity_type_success errno_count type_fail trinity_type_fail : ℕ → OpenCount

-- The arrays are kept as the list of what was counted.
pub record Stats : Type 0 where
  pub open_attempts : ℕ
  pub open_successful : ℕ
  pub open_counts : List OpenCount
  pub overflows : ℕ
  pub already_overflows : ℕ
  pub sigios : ℕ
  pub total_syscalls : ℕ
  pub current_open : ℕ
  pub close_attempts : ℕ
  pub close_successful : ℕ
  pub mmap_attempts : ℕ
  pub mmap_successful : ℕ
  pub mmap_trash_attempts : ℕ
  pub mmap_trash_successful : ℕ
  pub mmap_unmap_attempts : ℕ
  pub mmap_unmap_successful : ℕ
  pub mmap_read_attempts : ℕ
  pub mmap_read_successful : ℕ
  pub mmap_aux_read_attempts : ℕ
  pub mmap_aux_read_successful : ℕ
  pub mmap_aux_attempts : ℕ
  pub mmap_aux_successful : ℕ

-- A line of the log, a line on the terminal, or a call of `perf_log_attr` or of one of the printers of
-- fuzzer/perf_attr_print.c.
pub data Output : Type 0 where
  logged printed pretty : String → List ℕ → Output

-- A store to the first page of a mapping: its address, which member, and the value.
pub data Store : Type 0 where
  data_tail aux_tail aux_offset aux_size first_byte : (addr value : ℕ) → Store

-- A call of `close` or of `munmap`.
pub data Call : Type 0 where
  closing : (fd : ℕ) → Call
  unmapping : (addr size : ℕ) → Call

pub record State : Type 0 where
  pub events : List Event
  pub mmaps : List OurMmap
  pub active_events : ℕ
  pub active_mmaps : ℕ
  pub stats : Stats
  pub output : List Output
  pub stores : List Store
  pub calls : List Call
  pub clock : ℕ
  pub already_handling : Bool
  pub last_fd : ℕ
  pub next_refresh : ℕ

-- What trinity makes up for `perf_event_open`, as far as it is looked at.
pub record Sanitised : Type 0 where
  pub trinity_type : ℕ
  pub type : ℕ
  pub config : ℕ
  pub sample_period : ℕ
  pub read_format : ℕ
  pub pid : ℕ
  pub group_fd : ℕ
  pub flags : ℕ

-- What the fuzzer is not the author of: `rand`, the addresses of trinity, the system calls and the
-- memory that the kernel writes. The first argument is the number of calls that were made before.
pub record World : Type 0 where
  pub rand : ℕ → ℕ
  pub get_address : ℕ → ℕ
  pub mmap : ℕ → (addr size prot flags fd offset : ℕ) → ℕ
  pub munmap : ℕ → (addr size : ℕ) → Bool
  pub close : ℕ → (fd : ℕ) → Bool
  pub aux_head : ℕ → (addr : ℕ) → ℕ
  pub data_head : ℕ → (addr : ℕ) → ℕ
  pub segfaults : ℕ → (addr : ℕ) → Bool
  pub sanitise : ℕ → Sanitised
  pub get_cpu : ℕ → ℕ
  pub perf_event_open : ℕ → (attr : Sanitised) → (config pid cpu group_fd flags : ℕ) → ℕ
  pub errno : ℕ → ℕ
  pub fcntl : ℕ → (fd : ℕ) → Bool
  pub disable : List Call → ℕ → (fd : ℕ) → Bool
  pub refresh : ℕ → (fd count : ℕ) → Bool
  pub kprobe_id : ℕ
  pub page_size : ℕ

-- `ignore_but_dont_skip` and the bits of `logging`.
pub record Config : Type 0 where
  pub ignore_open : Bool
  pub ignore_overflow : Bool
  pub ignore_close : Bool
  pub ignore_mmap : Bool
  pub ignore_trash_mmap : Bool
  pub logging : Bool
  pub log_open : Bool
  pub log_overflow : Bool
  pub log_close : Bool
  pub log_mmap : Bool
  pub log_trash_mmap : Bool

-- `none` is an index outside of its table.
abbrev pub Fuzz : Type 0 → Type 0
Fuzz A = State → Option (A × State)

abbrev pub Done : Type 0
Done = Unit {0}

unfoldable pub pure : {A : Type 0} → A → Fuzz A
pure a s = some (a, s)

infixl 5 ◌>>=◌
unfoldable pub ◌>>=◌ : {A B : Type 0} → Fuzz A → (A → Fuzz B) → Fuzz B
(m >>= f) s = elim (m s) [ none ↦ none | some (a, s') ↦ f a s' ]

abbrev pub when : Bool → Fuzz Done → Fuzz Done
when b m = if b then m else pure tt

-- `if (i<0) …; else …` for an index that a search returned.
unfoldable pub if_found : {A : Type 0} → Option ℕ → (missing : Fuzz A) → (ℕ → Fuzz A) → Fuzz A
if_found none missing go_on = missing
if_found (some i) missing go_on = go_on i

-- A member of the state, and a change of it.
unfoldable pub ask : {A : Type 0} → (State → A) → Fuzz A
ask f s = some (f s, s)

unfoldable pub change : (State → State) → Fuzz Done
change f s = some (tt, f s)

-- `event_data[i]` and `mmaps[i]`.
unfoldable pub event_at : ℕ → Fuzz Event
event_at i s = elim (get_elem? s.events i) [ none ↦ none | some e ↦ some (e, s) ]

unfoldable pub mmap_at : ℕ → Fuzz OurMmap
mmap_at i s = elim (get_elem? s.mmaps i) [ none ↦ none | some m ↦ some (m, s) ]

unfoldable pub change_event : ℕ → (Event → Event) → Fuzz Done
change_event i f s = elim (get_elem? s.events i) [
  | none ↦ none
  | some e ↦ some (tt, record s { events = set s.events i (f e) })
]

unfoldable pub change_mmap : ℕ → (OurMmap → OurMmap) → Fuzz Done
change_mmap i f s = elim (get_elem? s.mmaps i) [
  | none ↦ none
  | some m ↦ some (tt, record s { mmaps = set s.mmaps i (f m) })
]

-- One call out of the program.
unfoldable pub call : {A : Type 0} → (ℕ → A) → Fuzz A
call f s = some (f s.clock, record s { clock = suc s.clock })

-- The same, and the call is kept.
unfoldable pub made : {A : Type 0} → Call → (ℕ → A) → Fuzz A
made k f s = some (f s.clock, record s { clock = suc s.clock; calls = s.calls ++ (k ∷ []) })

-- `rand()%n`.
abbrev pub random : World → ℕ → Fuzz ℕ
random w n = call (λ t. w.rand t % n)

abbrev pub count_stat : (Stats → Stats) → Fuzz Done
count_stat f = change (λ s. record s { stats = f s.stats })

abbrev pub put : Output → Fuzz Done
put o = change (λ s. record s { output = s.output ++ (o ∷ []) })

abbrev pub store : Store → Fuzz Done
store x = change (λ s. record s { stores = s.stores ++ (x ∷ []) })

-- `active_mmaps++` and the like, on the pattern of an `int`.
abbrev pub plus_one : ℕ → ℕ
plus_one n = (n + 1) % 2 ^ 32

abbrev pub minus_one : ℕ → ℕ
minus_one n = (n + 2 ^ 32 - 1) % 2 ^ 32

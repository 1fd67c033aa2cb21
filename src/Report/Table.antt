-- ===== src/Report/Table.antt =====
-- fuzzer/active_events.c: the two tables and the handler of each kind of line.
use perf_event_tests.Base.{
  ℕ, String, Bool, true, false, not, ◌||◌, Option, none, some, List, [], ◌∷◌, ◌++◌, leb, ◌==◌,
  if◌then◌else◌, get_elem?, set,
}
use perf_event_tests.Report.Sscanf.{decimal, sscanf}
use perf_event_tests.Report.Scan.{Attr, parse_open_event, ◌>>=◌}

-- `struct event_info_t`: the flags are 0 or 1.
pub record EventInfo : Type 0 where
  pub opened : Bool
  pub enabled : Bool
  pub mmap : Bool
  pub signal_handler : Bool
  pub pid : ℕ
  pub cpu : ℕ
  pub group_fd : ℕ
  pub flags : ℕ
  pub attr : Attr

pub record MmapInfo : Type 0 where
  pub valid : Bool
  pub size : ℕ

pub data Output : Type 0 where
  printed error : String → List ℕ → Output

pub record State : Type 0 where
  pub event_info : List EventInfo
  pub mmap_info : List MmapInfo
  pub line_num : ℕ
  pub original_pid : ℕ
  pub output : List Output

abbrev pub max_events : ℕ
max_events = 8192

abbrev pub say : Output → State → State
say o s = record s { output = s.output ++ (o ∷ []) }

abbrev pub set_event : ℕ → EventInfo → State → State
set_event fd e s = record s { event_info = set s.event_info fd e }

-- An index outside of its table is `none`: no handler but `open_event` tests the fd.
unfoldable pub mmap_event : List ℕ → State → Option State
mmap_event line s = do
  let v = sscanf (decimal 32 ∷ decimal 32 ∷ []) line
  size ← get_elem? v 0
  fd ← get_elem? v 1
  e ← get_elem? s.event_info fd
  if not e.opened
      then some
          (say (error "Line %lld Skipping mmap as fd %d not valid\n" (s.line_num ∷ fd ∷ [])) s)
      else (do
        m ← get_elem? s.mmap_info fd
        some (record (set_event fd (record e { mmap = true }) s) {
          mmap_info = set s.mmap_info fd (record { valid = true; size = size });
        }))

unfoldable pub munmap_event : List ℕ → State → Option State
munmap_event line s = do
  fd ← get_elem? (sscanf (decimal 32 ∷ decimal 32 ∷ []) line) 0
  m ← get_elem? s.mmap_info fd
  if not m.valid
      then some
          (say (error "Line: %lld Skipping munmap as fd %d is invalid\n" (s.line_num ∷ fd ∷ [])) s)
      else some (record s { mmap_info = set s.mmap_info fd (record { valid = false; size = 0 }) })

-- The members of `pe` that are copied; the others of `attr` stay as they were.
abbrev pub copied : (old pe : Attr) → Attr
copied old pe = record pe {
  comm_exec = old.comm_exec;
  use_clockid = old.use_clockid;
  context_switch = old.context_switch;
  write_backward = old.write_backward;
  namespaces = old.namespaces;
  ksymbol = old.ksymbol;
  bpf_event = old.bpf_event;
  aux_output = old.aux_output;
  cgroup = old.cgroup;
  text_poke = old.text_poke;
  build_id = old.build_id;
  inherit_thread = old.inherit_thread;
  remove_on_exec = old.remove_on_exec;
  sigtrap = old.sigtrap;
  clockid = old.clockid;
  sample_regs_intr = old.sample_regs_intr;
  aux_watermark = old.aux_watermark;
  sample_max_stack = old.sample_max_stack;
  aux_sample_size = old.aux_sample_size;
}

unfoldable pub open_event : List ℕ → State → Option State
unfolding parse_open_event
open_event line s = do
  o ← parse_open_event line
  if leb max_events o.orig_fd
      then some (say (error "Error! fd %d out of range\n" (o.orig_fd ∷ [])) s)
      else (do
        e ← get_elem? s.event_info o.orig_fd
        some (
            set_event o.orig_fd
              (record {
                opened = true;
                enabled = not (o.attr.enable_on_exec == 0);
                mmap = false;
                signal_handler = false;
                pid = o.pid;
                cpu = o.cpu;
                group_fd = o.group_fd;
                flags = o.flags;
                attr = copied e.attr o.attr;
              })
              s))

unfoldable pub close_event : List ℕ → State → Option State
close_event line s = do
  fd ← get_elem? (sscanf (decimal 32 ∷ []) line) 0
  e ← get_elem? s.event_info fd
  if not e.opened
      then some
          (say (error "Line %lld Skipping close as fd %d not valid\n" (s.line_num ∷ fd ∷ [])) s)
      else some (
          set_event fd
            (record e { opened = false; enabled = false; mmap = false; signal_handler = false }) s)

-- PERF_EVENT_IOC_ENABLE is 0x2400 and PERF_EVENT_IOC_DISABLE 0x2401. The fd indexes for these two only.
unfoldable pub ioctl_event : List ℕ → State → Option State
ioctl_event line s = do
  let v = sscanf (decimal 32 ∷ decimal 32 ∷ decimal 32 ∷ []) line
  arg ← get_elem? v 1
  fd ← get_elem? v 0
  if (arg == 0x2400) || (arg == 0x2401)
      then (do
        e ← get_elem? s.event_info fd
        some (set_event fd (record e { enabled = arg == 0x2400 }) s))
      else some s

abbrev pub switch_all : Bool → List EventInfo → List EventInfo
switch_all b [] = []
switch_all b (e ∷ es) = record e { enabled = if e.opened then b else e.enabled } ∷ switch_all b es

-- A number that is missing leaves `enable` at 0.
abbrev or_zero : Option ℕ → ℕ
or_zero none = 0
or_zero (some n) = n

unfoldable pub prctl_event : List ℕ → State → Option State
prctl_event line s =
    let enable = or_zero (get_elem? (sscanf (decimal 32 ∷ []) line) 0) in
    some (record s { event_info = switch_all (not (enable == 0)) s.event_info })

unfoldable pub setup_overflow : List ℕ → State → Option State
setup_overflow line s = do
  fd ← get_elem? (sscanf (decimal 32 ∷ []) line) 0
  e ← get_elem? s.event_info fd
  some (set_event fd (record e { signal_handler = true }) s)

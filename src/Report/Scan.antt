-- ===== src/Report/Scan.antt =====
-- fuzzer/parse_log.c: `parse_open_event`.
use perf_event_tests.Base.{ℕ, ◌%◌, Option, none, some, List, [], ◌∷◌, get_elem?}
use perf_event_tests.Report.Sscanf.{Conversion, decimal, hex, scan_all, sscanf}

-- The conversions of an "O" line.
abbrev pub open_format : List Conversion
open_format =
    decimal 32
    ∷ decimal 32
    ∷ decimal 32
    ∷ decimal 32
    ∷ hex 64
    ∷ hex 32
    ∷ hex 32
    ∷ hex 64
    ∷ hex 64
    ∷ hex 64
    ∷ hex 64
    ∷ decimal 32
    ∷ decimal 32
    ∷ decimal 32
    ∷ decimal 32
    ∷ decimal 32
    ∷ decimal 32
    ∷ decimal 32
    ∷ decimal 32
    ∷ decimal 32
    ∷ decimal 32
    ∷ decimal 32
    ∷ decimal 32
    ∷ decimal 32
    ∷ decimal 32
    ∷ decimal 32
    ∷ decimal 32
    ∷ decimal 32
    ∷ decimal 32
    ∷ decimal 32
    ∷ decimal 32
    ∷ decimal 32
    ∷ decimal 32
    ∷ decimal 32
    ∷ decimal 32
    ∷ decimal 32
    ∷ decimal 32
    ∷ decimal 32
    ∷ decimal 32
    ∷ decimal 32
    ∷ decimal 32
    ∷ decimal 32
    ∷ decimal 32
    ∷ decimal 32
    ∷ decimal 32
    ∷ decimal 32
    ∷ decimal 32
    ∷ decimal 32
    ∷ decimal 32
    ∷ decimal 32
    ∷ hex 64
    ∷ hex 64
    ∷ decimal 64
    ∷ decimal 64
    ∷ decimal 32
    ∷ decimal 32
    ∷ decimal 64
    ∷ decimal 32
    ∷ decimal 16
    ∷ decimal 32
    ∷ []

-- The members of `struct perf_event_attr` that the line has.
pub record Attr : Type 0 where
  pub type : ℕ
  pub size : ℕ
  pub config : ℕ
  pub sample_period : ℕ
  pub sample_type : ℕ
  pub read_format : ℕ
  pub wakeup_events : ℕ
  pub bp_type : ℕ
  pub config1 : ℕ
  pub config2 : ℕ
  pub branch_sample_type : ℕ
  pub sample_regs_user : ℕ
  pub sample_stack_user : ℕ
  pub disabled : ℕ
  pub inherit : ℕ
  pub pinned : ℕ
  pub exclusive : ℕ
  pub exclude_user : ℕ
  pub exclude_kernel : ℕ
  pub exclude_hv : ℕ
  pub exclude_idle : ℕ
  pub mmap : ℕ
  pub comm : ℕ
  pub freq : ℕ
  pub inherit_stat : ℕ
  pub enable_on_exec : ℕ
  pub task : ℕ
  pub watermark : ℕ
  pub precise_ip : ℕ
  pub mmap_data : ℕ
  pub sample_id_all : ℕ
  pub exclude_host : ℕ
  pub exclude_guest : ℕ
  pub exclude_callchain_user : ℕ
  pub exclude_callchain_kernel : ℕ
  pub mmap2 : ℕ
  pub comm_exec : ℕ
  pub use_clockid : ℕ
  pub context_switch : ℕ
  pub write_backward : ℕ
  pub namespaces : ℕ
  pub ksymbol : ℕ
  pub bpf_event : ℕ
  pub aux_output : ℕ
  pub cgroup : ℕ
  pub text_poke : ℕ
  pub build_id : ℕ
  pub inherit_thread : ℕ
  pub remove_on_exec : ℕ
  pub sigtrap : ℕ
  pub clockid : ℕ
  pub sample_regs_intr : ℕ
  pub aux_watermark : ℕ
  pub sample_max_stack : ℕ
  pub aux_sample_size : ℕ

pub record Opened : Type 0 where
  pub orig_fd : ℕ
  pub pid : ℕ
  pub cpu : ℕ
  pub group_fd : ℕ
  pub flags : ℕ
  pub attr : Attr

infixl 5 ◌>>=◌
abbrev pub ◌>>=◌ : {A B : Type 0} → Option A → (A → Option B) → Option B
o >>= f = elim o [ none ↦ none | some a ↦ f a ]

-- A value that was not read is indeterminate: its use is `none`. A bit field keeps one bit, and
-- `precise_ip` two.
abbrev pub opened_of : List ℕ → Option Opened
opened_of v = do
  orig_fd' ← get_elem? v 0
  pid' ← get_elem? v 1
  cpu' ← get_elem? v 2
  group_fd' ← get_elem? v 3
  flags' ← get_elem? v 4
  type' ← get_elem? v 5
  size' ← get_elem? v 6
  config' ← get_elem? v 7
  sample_period' ← get_elem? v 8
  sample_type' ← get_elem? v 9
  read_format' ← get_elem? v 10
  disabled' ← get_elem? v 11
  inherit' ← get_elem? v 12
  pinned' ← get_elem? v 13
  exclusive' ← get_elem? v 14
  exclude_user' ← get_elem? v 15
  exclude_kernel' ← get_elem? v 16
  exclude_hv' ← get_elem? v 17
  exclude_idle' ← get_elem? v 18
  mmap' ← get_elem? v 19
  comm' ← get_elem? v 20
  freq' ← get_elem? v 21
  inherit_stat' ← get_elem? v 22
  enable_on_exec' ← get_elem? v 23
  task' ← get_elem? v 24
  watermark' ← get_elem? v 25
  precise_ip' ← get_elem? v 26
  mmap_data' ← get_elem? v 27
  sample_id_all' ← get_elem? v 28
  exclude_host' ← get_elem? v 29
  exclude_guest' ← get_elem? v 30
  exclude_callchain_kernel' ← get_elem? v 31
  exclude_callchain_user' ← get_elem? v 32
  mmap2' ← get_elem? v 33
  comm_exec' ← get_elem? v 34
  use_clockid' ← get_elem? v 35
  context_switch' ← get_elem? v 36
  write_backward' ← get_elem? v 37
  namespaces' ← get_elem? v 38
  ksymbol' ← get_elem? v 39
  bpf_event' ← get_elem? v 40
  aux_output' ← get_elem? v 41
  cgroup' ← get_elem? v 42
  text_poke' ← get_elem? v 43
  build_id' ← get_elem? v 44
  inherit_thread' ← get_elem? v 45
  remove_on_exec' ← get_elem? v 46
  sigtrap' ← get_elem? v 47
  wakeup_events' ← get_elem? v 48
  bp_type' ← get_elem? v 49
  config1' ← get_elem? v 50
  config2' ← get_elem? v 51
  branch_sample_type' ← get_elem? v 52
  sample_regs_user' ← get_elem? v 53
  sample_stack_user' ← get_elem? v 54
  clockid' ← get_elem? v 55
  sample_regs_intr' ← get_elem? v 56
  aux_watermark' ← get_elem? v 57
  sample_max_stack' ← get_elem? v 58
  aux_sample_size' ← get_elem? v 59
  some (record {
    orig_fd = orig_fd';
    pid = pid';
    cpu = cpu';
    group_fd = group_fd';
    flags = flags';
    attr = record {
      type = type';
      size = size';
      config = config';
      sample_period = sample_period';
      sample_type = sample_type';
      read_format = read_format';
      wakeup_events = wakeup_events';
      bp_type = bp_type';
      config1 = config1';
      config2 = config2';
      branch_sample_type = branch_sample_type';
      sample_regs_user = sample_regs_user';
      sample_stack_user = sample_stack_user';
      disabled = disabled' % 2;
      inherit = inherit' % 2;
      pinned = pinned' % 2;
      exclusive = exclusive' % 2;
      exclude_user = exclude_user' % 2;
      exclude_kernel = exclude_kernel' % 2;
      exclude_hv = exclude_hv' % 2;
      exclude_idle = exclude_idle' % 2;
      mmap = mmap' % 2;
      comm = comm' % 2;
      freq = freq' % 2;
      inherit_stat = inherit_stat' % 2;
      enable_on_exec = enable_on_exec' % 2;
      task = task' % 2;
      watermark = watermark' % 2;
      precise_ip = precise_ip' % 4;
      mmap_data = mmap_data' % 2;
      sample_id_all = sample_id_all' % 2;
      exclude_host = exclude_host' % 2;
      exclude_guest = exclude_guest' % 2;
      exclude_callchain_user = exclude_callchain_user' % 2;
      exclude_callchain_kernel = exclude_callchain_kernel' % 2;
      mmap2 = mmap2' % 2;
      comm_exec = comm_exec' % 2;
      use_clockid = use_clockid' % 2;
      context_switch = context_switch' % 2;
      write_backward = write_backward' % 2;
      namespaces = namespaces' % 2;
      ksymbol = ksymbol' % 2;
      bpf_event = bpf_event' % 2;
      aux_output = aux_output' % 2;
      cgroup = cgroup' % 2;
      text_poke = text_poke' % 2;
      build_id = build_id' % 2;
      inherit_thread = inherit_thread' % 2;
      remove_on_exec = remove_on_exec' % 2;
      sigtrap = sigtrap' % 2;
      clockid = clockid';
      sample_regs_intr = sample_regs_intr';
      aux_watermark = aux_watermark';
      sample_max_stack = sample_max_stack';
      aux_sample_size = aux_sample_size';
    };
  })

unfoldable pub parse_open_event : List ℕ → Option Opened
unfolding scan_all
parse_open_event line = opened_of (sscanf open_format line)

-- ===== src/Report/Tests.antt =====
-- The report on a log of four lines, with two fds open at its start.
use perf_event_tests.Base.{ℕ, ◌≡◌, refl, true, false, Bool, List, [], ◌∷◌, length, ◌+◌}
use perf_event_tests.Report.Sscanf.{scan_all, convert, scan_signed, scan_unsigned, scan_digits}
use perf_event_tests.Report.Scan.{Attr}
use perf_event_tests.Report.Table.{
  EventInfo, MmapInfo, State, error, close_event, prctl_event, mmap_event,
}
use perf_event_tests.Report.Main.{finished, loop, dispatch, progress, total_opened, total_active}
use perf_event_tests.Report.Opened.{is_opened}
use perf_event_tests.Report.Refines.{all_say, loop-says}

abbrev no_attr : Attr
no_attr = record {
  comm_exec = 0;
  use_clockid = 0;
  context_switch = 0;
  write_backward = 0;
  namespaces = 0;
  ksymbol = 0;
  bpf_event = 0;
  aux_output = 0;
  cgroup = 0;
  text_poke = 0;
  build_id = 0;
  inherit_thread = 0;
  remove_on_exec = 0;
  sigtrap = 0;
  clockid = 0;
  sample_regs_intr = 0;
  aux_watermark = 0;
  sample_max_stack = 0;
  aux_sample_size = 0;
  type = 0;
  size = 0;
  config = 0;
  sample_period = 0;
  sample_type = 0;
  read_format = 0;
  wakeup_events = 0;
  bp_type = 0;
  config1 = 0;
  config2 = 0;
  branch_sample_type = 0;
  sample_regs_user = 0;
  sample_stack_user = 0;
  disabled = 0;
  inherit = 0;
  pinned = 0;
  exclusive = 0;
  exclude_user = 0;
  exclude_kernel = 0;
  exclude_hv = 0;
  exclude_idle = 0;
  mmap = 0;
  comm = 0;
  freq = 0;
  inherit_stat = 0;
  enable_on_exec = 0;
  task = 0;
  watermark = 0;
  precise_ip = 0;
  mmap_data = 0;
  sample_id_all = 0;
  exclude_host = 0;
  exclude_guest = 0;
  exclude_callchain_user = 0;
  exclude_callchain_kernel = 0;
  mmap2 = 0;
}

abbrev row : Bool → EventInfo
row enabled = record {
  opened = true;
  enabled = enabled;
  mmap = false;
  signal_handler = false;
  pid = 0;
  cpu = 0;
  group_fd = 0;
  flags = 0;
  attr = no_attr;
}

abbrev no_map : MmapInfo
no_map = record { valid = false; size = 0 }

abbrev two_open : State
two_open = record {
  event_info = row false ∷ row false ∷ [];
  mmap_info = no_map ∷ no_map ∷ [];
  line_num = 0;
  original_pid = 0;
  output = [];
}

-- "C 1", "P 1", "M 2 0" and "C 1" again.
abbrev log : List (List ℕ)
log =
    (b'C' ∷ 32 ∷ b'1' ∷ 10 ∷ [])
    ∷ (b'P' ∷ 32 ∷ b'1' ∷ 10 ∷ [])
    ∷ (b'M' ∷ 32 ∷ b'2' ∷ 32 ∷ b'0' ∷ 10 ∷ [])
    ∷ (b'C' ∷ 32 ∷ b'1' ∷ 10 ∷ [])
    ∷ []

abbrev one_open : State
one_open = record {
  event_info = record (row true) { mmap = true } ∷ record (row false) { opened = false } ∷ [];
  mmap_info = record { valid = true; size = 2 } ∷ no_map ∷ [];
  line_num = 4;
  original_pid = 0;
  output = error "Line %lld Skipping close as fd %d not valid\n" (4 ∷ 1 ∷ []) ∷ [];
}

runs : loop log 0 0 two_open ≡ finished 4 4 one_open
unfolding loop dispatch progress close_event prctl_event mmap_event scan_all convert scan_signed
    scan_unsigned scan_digits
runs = refl

loop-says_example : (is_opened 1 one_open ≡ all_say log 1 true) × (4 ≡ 0 + length log)
loop-says_example = loop-says log 1 0 0 4 4 two_open one_open runs

counts : (total_opened one_open.event_info ≡ 1) × (total_active one_open.event_info ≡ 1)
counts = (refl, refl)

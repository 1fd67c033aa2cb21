-- ===== src/Fuzzer/LogAttr/Tests.antt =====
-- A line of the log.
use perf_event_tests.Base.{◌-◌, ◌^◌, ◌≡◌, refl, some, arith}
use perf_event_tests.Base.Digits.{signed_text}
use perf_event_tests.Sysfs.Chars.{codes}
use perf_event_tests.Report.Scan.{parse_open_event}
use perf_event_tests.Fuzzer.LogAttr.{PerfEventAttr, open_line}
use perf_event_tests.Fuzzer.LogAttr.Kept.{AttrFits, kept}
use perf_event_tests.Fuzzer.LogAttr.Reads.{parse_open_event-open_line}

abbrev pub sampling : PerfEventAttr
sampling = record {
  type = 4;
  size = 136;
  config = 439;
  sample_period = 100000;
  sample_type = 31;
  read_format = 3;
  disabled = 1;
  inherit = 0;
  pinned = 0;
  exclusive = 0;
  exclude_user = 0;
  exclude_kernel = 1;
  exclude_hv = 0;
  exclude_idle = 0;
  mmap = 0;
  comm = 0;
  freq = 0;
  inherit_stat = 0;
  enable_on_exec = 0;
  task = 0;
  watermark = 0;
  precise_ip = 2;
  mmap_data = 0;
  sample_id_all = 0;
  exclude_host = 0;
  exclude_guest = 0;
  exclude_callchain_kernel = 0;
  exclude_callchain_user = 0;
  mmap2 = 0;
  comm_exec = 0;
  use_clockid = 0;
  context_switch = 0;
  write_backward = 0;
  namespaces = 0;
  ksymbol = 0;
  bpf_event = 0;
  aux_output = 0;
  cgroup = 0;
  text_poke = 0;
  build_id = 0;
  inherit_thread = 0;
  remove_on_exec = 0;
  sigtrap = 0;
  wakeup_events = 1;
  bp_type = 0;
  config1 = 0;
  config2 = 0;
  branch_sample_type = 0;
  sample_regs_user = 0;
  sample_stack_user = 0;
  clockid = 2 ^ 32 - 1;
  sample_regs_intr = 0;
  aux_watermark = 0;
  sample_max_stack = 0;
  aux_sample_size = 0;
}

pub sampling-AttrFits : AttrFits sampling
sampling-AttrFits = record {
  type = omega arith;
  size = omega arith;
  config = omega arith;
  sample_period = omega arith;
  sample_type = omega arith;
  read_format = omega arith;
  disabled = omega arith;
  inherit = omega arith;
  pinned = omega arith;
  exclusive = omega arith;
  exclude_user = omega arith;
  exclude_kernel = omega arith;
  exclude_hv = omega arith;
  exclude_idle = omega arith;
  mmap = omega arith;
  comm = omega arith;
  freq = omega arith;
  inherit_stat = omega arith;
  enable_on_exec = omega arith;
  task = omega arith;
  watermark = omega arith;
  precise_ip = omega arith;
  mmap_data = omega arith;
  sample_id_all = omega arith;
  exclude_host = omega arith;
  exclude_guest = omega arith;
  exclude_callchain_kernel = omega arith;
  exclude_callchain_user = omega arith;
  mmap2 = omega arith;
  comm_exec = omega arith;
  use_clockid = omega arith;
  context_switch = omega arith;
  write_backward = omega arith;
  namespaces = omega arith;
  ksymbol = omega arith;
  bpf_event = omega arith;
  aux_output = omega arith;
  cgroup = omega arith;
  text_poke = omega arith;
  build_id = omega arith;
  inherit_thread = omega arith;
  remove_on_exec = omega arith;
  sigtrap = omega arith;
  wakeup_events = omega arith;
  bp_type = omega arith;
  config1 = omega arith;
  config2 = omega arith;
  branch_sample_type = omega arith;
  sample_regs_user = omega arith;
  sample_stack_user = omega arith;
  clockid = omega arith;
  sample_regs_intr = omega arith;
  aux_watermark = omega arith;
  sample_max_stack = omega arith;
  aux_sample_size = omega arith;
}

-- "-1" for every process.
minus_one : signed_text 32 (2 ^ 32 - 1) ≡ codes "-1"
minus_one = refl

parse_open_event-open_line_example :
    parse_open_event (open_line 3 (2 ^ 32 - 1) 0 (2 ^ 32 - 1) 0 sampling)
    ≡ some (record {
      orig_fd = 3;
      pid = 2 ^ 32 - 1;
      cpu = 0;
      group_fd = 2 ^ 32 - 1;
      flags = 0;
      attr = kept sampling;
    })
parse_open_event-open_line_example =
    parse_open_event-open_line 3 (2 ^ 32 - 1) 0 (2 ^ 32 - 1) 0 sampling (omega arith) (omega arith)
      (omega arith) (omega arith) (omega arith) sampling-AttrFits

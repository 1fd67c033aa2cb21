-- ===== src/Fuzzer/LogAttr/Kept.antt =====
-- The attributes that fit into their types, and what a line of the log has of them.
use perf_event_tests.Base.{◌^◌, ◌<◌}
use perf_event_tests.Report.Scan.{Attr}
use perf_event_tests.Fuzzer.LogAttr.{PerfEventAttr}

-- The members of the attributes fit into their types; a flag is a bit, and `precise_ip` has two.
pub record AttrFits (a : PerfEventAttr) : Type 0 where
  pub type : a.type < 2 ^ 32
  pub size : a.size < 2 ^ 32
  pub config : a.config < 2 ^ 64
  pub sample_period : a.sample_period < 2 ^ 64
  pub sample_type : a.sample_type < 2 ^ 64
  pub read_format : a.read_format < 2 ^ 64
  pub disabled : a.disabled < 2
  pub inherit : a.inherit < 2
  pub pinned : a.pinned < 2
  pub exclusive : a.exclusive < 2
  pub exclude_user : a.exclude_user < 2
  pub exclude_kernel : a.exclude_kernel < 2
  pub exclude_hv : a.exclude_hv < 2
  pub exclude_idle : a.exclude_idle < 2
  pub mmap : a.mmap < 2
  pub comm : a.comm < 2
  pub freq : a.freq < 2
  pub inherit_stat : a.inherit_stat < 2
  pub enable_on_exec : a.enable_on_exec < 2
  pub task : a.task < 2
  pub watermark : a.watermark < 2
  pub precise_ip : a.precise_ip < 4
  pub mmap_data : a.mmap_data < 2
  pub sample_id_all : a.sample_id_all < 2
  pub exclude_host : a.exclude_host < 2
  pub exclude_guest : a.exclude_guest < 2
  pub exclude_callchain_kernel : a.exclude_callchain_kernel < 2
  pub exclude_callchain_user : a.exclude_callchain_user < 2
  pub mmap2 : a.mmap2 < 2
  pub comm_exec : a.comm_exec < 2
  pub use_clockid : a.use_clockid < 2
  pub context_switch : a.context_switch < 2
  pub write_backward : a.write_backward < 2
  pub namespaces : a.namespaces < 2
  pub ksymbol : a.ksymbol < 2
  pub bpf_event : a.bpf_event < 2
  pub aux_output : a.aux_output < 2
  pub cgroup : a.cgroup < 2
  pub text_poke : a.text_poke < 2
  pub build_id : a.build_id < 2
  pub inherit_thread : a.inherit_thread < 2
  pub remove_on_exec : a.remove_on_exec < 2
  pub sigtrap : a.sigtrap < 2
  pub wakeup_events : a.wakeup_events < 2 ^ 32
  pub bp_type : a.bp_type < 2 ^ 32
  pub config1 : a.config1 < 2 ^ 64
  pub config2 : a.config2 < 2 ^ 64
  pub branch_sample_type : a.branch_sample_type < 2 ^ 64
  pub sample_regs_user : a.sample_regs_user < 2 ^ 64
  pub sample_stack_user : a.sample_stack_user < 2 ^ 32
  pub clockid : a.clockid < 2 ^ 32
  pub sample_regs_intr : a.sample_regs_intr < 2 ^ 64
  pub aux_watermark : a.aux_watermark < 2 ^ 32
  pub sample_max_stack : a.sample_max_stack < 2 ^ 16
  pub aux_sample_size : a.aux_sample_size < 2 ^ 32

-- The attributes as they are read again: all that are logged.
abbrev pub kept : PerfEventAttr → Attr
kept a = record {
  type = a.type;
  size = a.size;
  config = a.config;
  sample_period = a.sample_period;
  sample_type = a.sample_type;
  read_format = a.read_format;
  wakeup_events = a.wakeup_events;
  bp_type = a.bp_type;
  config1 = a.config1;
  config2 = a.config2;
  branch_sample_type = a.branch_sample_type;
  sample_regs_user = a.sample_regs_user;
  sample_stack_user = a.sample_stack_user;
  disabled = a.disabled;
  inherit = a.inherit;
  pinned = a.pinned;
  exclusive = a.exclusive;
  exclude_user = a.exclude_user;
  exclude_kernel = a.exclude_kernel;
  exclude_hv = a.exclude_hv;
  exclude_idle = a.exclude_idle;
  mmap = a.mmap;
  comm = a.comm;
  freq = a.freq;
  inherit_stat = a.inherit_stat;
  enable_on_exec = a.enable_on_exec;
  task = a.task;
  watermark = a.watermark;
  precise_ip = a.precise_ip;
  mmap_data = a.mmap_data;
  sample_id_all = a.sample_id_all;
  exclude_host = a.exclude_host;
  exclude_guest = a.exclude_guest;
  exclude_callchain_user = a.exclude_callchain_user;
  exclude_callchain_kernel = a.exclude_callchain_kernel;
  mmap2 = a.mmap2;
  comm_exec = a.comm_exec;
  use_clockid = a.use_clockid;
  context_switch = a.context_switch;
  write_backward = a.write_backward;
  namespaces = a.namespaces;
  ksymbol = a.ksymbol;
  bpf_event = a.bpf_event;
  aux_output = a.aux_output;
  cgroup = a.cgroup;
  text_poke = a.text_poke;
  build_id = a.build_id;
  inherit_thread = a.inherit_thread;
  remove_on_exec = a.remove_on_exec;
  sigtrap = a.sigtrap;
  clockid = a.clockid;
  sample_regs_intr = a.sample_regs_intr;
  aux_watermark = a.aux_watermark;
  sample_max_stack = a.sample_max_stack;
  aux_sample_size = a.aux_sample_size;
}

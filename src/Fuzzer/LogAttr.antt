-- ===== src/Fuzzer/LogAttr.antt =====
-- fuzzer/fuzz_open.c, `perf_log_attr`, and the "O" line that `open_random_event` logs.
use perf_event_tests.Base.{ℕ, List, [], ◌∷◌, ◌++◌}
use perf_event_tests.Base.Digits.{signed_text, hex_text}
use perf_event_tests.Report.Sscanf.{Conversion, decimal, hex}
pub mod Tests
pub mod Pieces
pub mod Kept
pub mod Fits
pub mod Reads

-- The members of `struct perf_event_attr` that are logged, signed ones as bit patterns.
pub record PerfEventAttr : Type 0 where
  pub type : ℕ
  pub size : ℕ
  pub config : ℕ
  pub sample_period : ℕ
  pub sample_type : ℕ
  pub read_format : ℕ
  pub disabled : ℕ
  pub inherit : ℕ
  pub pinned : ℕ
  pub exclusive : ℕ
  pub exclude_user : ℕ
  pub exclude_kernel : ℕ
  pub exclude_hv : ℕ
  pub exclude_idle : ℕ
  pub mmap : ℕ
  pub comm : ℕ
  pub freq : ℕ
  pub inherit_stat : ℕ
  pub enable_on_exec : ℕ
  pub task : ℕ
  pub watermark : ℕ
  pub precise_ip : ℕ
  pub mmap_data : ℕ
  pub sample_id_all : ℕ
  pub exclude_host : ℕ
  pub exclude_guest : ℕ
  pub exclude_callchain_kernel : ℕ
  pub exclude_callchain_user : ℕ
  pub mmap2 : ℕ
  pub comm_exec : ℕ
  pub use_clockid : ℕ
  pub context_switch : ℕ
  pub write_backward : ℕ
  pub namespaces : ℕ
  pub ksymbol : ℕ
  pub bpf_event : ℕ
  pub aux_output : ℕ
  pub cgroup : ℕ
  pub text_poke : ℕ
  pub build_id : ℕ
  pub inherit_thread : ℕ
  pub remove_on_exec : ℕ
  pub sigtrap : ℕ
  pub wakeup_events : ℕ
  pub bp_type : ℕ
  pub config1 : ℕ
  pub config2 : ℕ
  pub branch_sample_type : ℕ
  pub sample_regs_user : ℕ
  pub sample_stack_user : ℕ
  pub clockid : ℕ
  pub sample_regs_intr : ℕ
  pub aux_watermark : ℕ
  pub sample_max_stack : ℕ
  pub aux_sample_size : ℕ

-- A number and the conversion that prints it.
pub data Piece : Type 0 where
  piece : Conversion → ℕ → Piece

abbrev pub piece_text : Piece → List ℕ
piece_text (piece (decimal bits) v) = signed_text bits v
piece_text (piece (hex bits) v) = hex_text v

-- A space stands behind each number.
abbrev pub pieces_text : List Piece → List ℕ
pieces_text [] = []
pieces_text (p ∷ ps) = piece_text p ++ b' ' ∷ pieces_text ps

abbrev pub members : PerfEventAttr → List Piece
members a =
    piece (hex 32) a.type
    ∷ piece (hex 32) a.size
    ∷ piece (hex 64) a.config
    ∷ piece (hex 64) a.sample_period
    ∷ piece (hex 64) a.sample_type
    ∷ piece (hex 64) a.read_format
    ∷ piece (decimal 32) a.disabled
    ∷ piece (decimal 32) a.inherit
    ∷ piece (decimal 32) a.pinned
    ∷ piece (decimal 32) a.exclusive
    ∷ piece (decimal 32) a.exclude_user
    ∷ piece (decimal 32) a.exclude_kernel
    ∷ piece (decimal 32) a.exclude_hv
    ∷ piece (decimal 32) a.exclude_idle
    ∷ piece (decimal 32) a.mmap
    ∷ piece (decimal 32) a.comm
    ∷ piece (decimal 32) a.freq
    ∷ piece (decimal 32) a.inherit_stat
    ∷ piece (decimal 32) a.enable_on_exec
    ∷ piece (decimal 32) a.task
    ∷ piece (decimal 32) a.watermark
    ∷ piece (decimal 32) a.precise_ip
    ∷ piece (decimal 32) a.mmap_data
    ∷ piece (decimal 32) a.sample_id_all
    ∷ piece (decimal 32) a.exclude_host
    ∷ piece (decimal 32) a.exclude_guest
    ∷ piece (decimal 32) a.exclude_callchain_kernel
    ∷ piece (decimal 32) a.exclude_callchain_user
    ∷ piece (decimal 32) a.mmap2
    ∷ piece (decimal 32) a.comm_exec
    ∷ piece (decimal 32) a.use_clockid
    ∷ piece (decimal 32) a.context_switch
    ∷ piece (decimal 32) a.write_backward
    ∷ piece (decimal 32) a.namespaces
    ∷ piece (decimal 32) a.ksymbol
    ∷ piece (decimal 32) a.bpf_event
    ∷ piece (decimal 32) a.aux_output
    ∷ piece (decimal 32) a.cgroup
    ∷ piece (decimal 32) a.text_poke
    ∷ piece (decimal 32) a.build_id
    ∷ piece (decimal 32) a.inherit_thread
    ∷ piece (decimal 32) a.remove_on_exec
    ∷ piece (decimal 32) a.sigtrap
    ∷ piece (decimal 32) a.wakeup_events
    ∷ piece (decimal 32) a.bp_type
    ∷ piece (hex 64) a.config1
    ∷ piece (hex 64) a.config2
    ∷ piece (decimal 64) a.branch_sample_type
    ∷ piece (decimal 64) a.sample_regs_user
    ∷ piece (decimal 32) a.sample_stack_user
    ∷ piece (decimal 32) a.clockid
    ∷ piece (decimal 64) a.sample_regs_intr
    ∷ piece (decimal 32) a.aux_watermark
    ∷ piece (decimal 16) a.sample_max_stack
    ∷ piece (decimal 32) a.aux_sample_size
    ∷ []

abbrev pub perf_log_attr : PerfEventAttr → List ℕ
perf_log_attr a = pieces_text (members a) ++ b'\n' ∷ []

abbrev pub head : (fd pid cpu group_fd flags : ℕ) → List Piece
head fd pid cpu group_fd flags =
    piece (decimal 32) fd
    ∷ piece (decimal 32) pid
    ∷ piece (decimal 32) cpu
    ∷ piece (decimal 32) group_fd
    ∷ piece (hex 64) flags
    ∷ []

-- "O %d %d %d %d %lx ", and the members of `attr`.
abbrev pub open_line : (fd pid cpu group_fd flags : ℕ) → PerfEventAttr → List ℕ
open_line fd pid cpu group_fd flags a =
    b'O' ∷ (b' ' ∷ (pieces_text (head fd pid cpu group_fd flags) ++ perf_log_attr a))

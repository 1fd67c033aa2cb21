-- ===== src/Replay/State.antt =====
-- fuzzer/replay_log.c: the table of the fds that the log names, and the system calls that were made.
use perf_event_tests.Base.{
  ℕ, String, Bool, true, Option, none, some, List, [], ◌∷◌, ◌++◌, ◌^◌, ◌-◌, set,
}
use perf_event_tests.Report.Scan.{Attr}

-- `struct event_type`: the fd that the kernel gave now, -1 if there is none, and the mapping.
pub record EventType : Type 0 where
  pub fd_remap : ℕ
  pub mmap_remap : ℕ
  pub size : ℕ

-- The third argument of `ioctl`: a number, the address of a variable with that number, or of one that the
-- kernel writes.
pub data Argument : Type 0 where
  number pointer_to : ℕ → Argument
  written_back : Argument

-- A system call, with the result where a later one depends on it. A write goes into a mapping.
pub data Call : Type 0 where
  opened : Attr → (pid cpu group_fd flags result : ℕ) → Call
  closed : (fd : ℕ) → Call
  mapped : (fd size result : ℕ) → Call
  unmapped : (addr size : ℕ) → Call
  controlled : (fd arg : ℕ) → Argument → Call
  read_from : (fd size : ℕ) → Call
  signals_on : (fd : ℕ) → Call
  wrote : (addr value size : ℕ) → Call
  forked : (result : ℕ) → Call
  killed : (pid : ℕ) → Call
  enabled_all disabled_all : Call

pub data Output : Type 0 where
  printed error : String → List ℕ → Output

-- `calls` has the last one first.
pub record State : Type 0 where
  pub event : List EventType
  pub fd_overflows : List ℕ
  pub fd_throttles : List ℕ
  pub line_num : ℕ
  pub original_pid : ℕ
  pub forked_pid : ℕ
  pub overflows : ℕ
  pub has_error : Bool
  pub calls : List Call
  pub output : List Output

-- The kernel answers as it does after the calls before. Numbers are bit patterns.
pub record World : Type 0 where
  pub perf_event_open : List Call → Attr → (pid cpu group_fd flags : ℕ) → ℕ
  pub is_too_big : List Call → Bool
  pub kernel_size : List Call → ℕ
  pub close : List Call → (fd : ℕ) → Bool
  pub mmap : List Call → (size fd : ℕ) → ℕ
  pub munmap : List Call → (addr size : ℕ) → Bool
  pub ioctl : List Call → (fd arg : ℕ) → Argument → Bool
  pub read : List Call → (fd size : ℕ) → Bool
  pub fork : List Call → ℕ
  pub getpid : ℕ

-- `FD_REMAP_SIZE`.
abbrev pub fd_remap_size : ℕ
fd_remap_size = 2048

abbrev pub map_failed : ℕ
map_failed = 2 ^ 64 - 1

-- -1 for an `int`.
abbrev pub minus_one : ℕ
minus_one = 2 ^ 32 - 1

abbrev pub say : Output → State → State
say o s = record s { output = s.output ++ (o ∷ []) }

-- `error=1` and a message.
abbrev pub fail : Output → State → State
fail o s = record s { output = s.output ++ (o ∷ []); has_error = true }

abbrev pub set_event : ℕ → EventType → State → State
set_event fd e s = record s { event = set s.event fd e }

abbrev pub made : Call → State → State
made c s = record s { calls = c ∷ s.calls }

infixl 5 ◌>>=◌
unfoldable pub ◌>>=◌ : {A B : Type 0} → Option A → (A → Option B) → Option B
none >>= f = none
some a >>= f = f a

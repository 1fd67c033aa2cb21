-- ===== src/Replay/Reopens.antt =====
-- The "O" line that the fuzzer logs makes the replay open the event again.
use perf_event_tests.Base.{ℕ, ◌≡◌, some, [], ◌∷◌, ◌++◌, ◌==◌, if◌then◌else◌, get_elem?, set}
use perf_event_tests.Report.Scan.{Opened}
use perf_event_tests.Fuzzer.LogAttr.{PerfEventAttr}
use perf_event_tests.Fuzzer.LogAttr.Kept.{kept}
use perf_event_tests.Replay.State.{EventType, opened, State, World, map_failed, error}

-- The pid that is replayed.
abbrev pub replayed_pid : World → State → ℕ → ℕ
replayed_pid w s pid = if pid == s.original_pid then w.getpid else pid

-- An event was opened for entry `fd` of the table.
pub record Reopened (w : World) (s t : State) (fd pid cpu group flags : ℕ) (a : PerfEventAttr)
    (r : ℕ) : Type 0 where
  pub calls : t.calls ≡ opened (kept a) (replayed_pid w s pid) cpu group flags r ∷ s.calls
  pub entry : EventType
  pub here : get_elem? t.event fd ≡ some entry
  pub fd_remap : entry.fd_remap ≡ r
  pub unmapped : entry.mmap_remap ≡ map_failed
  pub no_error : t.has_error ≡ s.has_error

module _ (w : World) (s : State) (fd pid cpu group_fd flags group r : ℕ) (a : PerfEventAttr)
    (e : EventType) (m n : ℕ) where
  abbrev line_read : Opened
  line_read = record {
    orig_fd = fd;
    pid = pid;
    cpu = cpu;
    group_fd = group_fd;
    flags = flags;
    attr = kept a;
  }

  abbrev after : State
  after = record s {
    event = set s.event fd (record e { fd_remap = r; mmap_remap = map_failed });
    fd_overflows = set s.fd_overflows r 0;
    fd_throttles = set s.fd_throttles r 0;
    calls = opened (kept a) (replayed_pid w s pid) cpu group flags r ∷ s.calls;
    output = s.output ++ (error "VMW OPEN %d (remapped %d)\n" (fd ∷ (r ∷ [])) ∷ []);
  }

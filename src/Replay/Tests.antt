-- ===== src/Replay/Tests.antt =====
-- An event of the log is opened, and closed again.
use perf_event_tests.Base.{
  ℕ, zero, suc, get_elem?, set, ◌-◌, ◌^◌, ◌<◌, ◌≡◌, refl, ap, ◌∙◌, true, false, some, List, [], ◌∷◌,
  arith, leb, if◌then◌else◌,
}
use perf_event_tests.Report.Scan.{Opened}
use perf_event_tests.Report.Sscanf.{scan_all, convert, scan_signed, scan_unsigned, scan_digits}
use perf_event_tests.Sysfs.Chars.{codes}
use perf_event_tests.Fuzzer.LogAttr.{open_line}
use perf_event_tests.Fuzzer.LogAttr.Kept.{kept}
use perf_event_tests.Fuzzer.LogAttr.Reads.{parse_open_event-open_line}
use perf_event_tests.Fuzzer.LogAttr.Tests.{sampling, sampling-AttrFits}
use perf_event_tests.Replay.State.{
  EventType, Call, opened, closed, mapped, unmapped, controlled, read_from, signals_on, wrote,
  forked, killed, enabled_all, disabled_all, State, World, map_failed, minus_one, error, ◌>>=◌,
}
use perf_event_tests.Replay.Handlers.{open_event, open_parsed, close_event, close_fd}
use perf_event_tests.Replay.Handler.{our_handler, our_handler-stale}
use perf_event_tests.Replay.Live.{is_open}
use perf_event_tests.Replay.Live.Events.{Good}
use perf_event_tests.Replay.Live.Opens.{Fresh}
use perf_event_tests.Replay.Live.Runs.{start, opens, closes, Replayed-Good}

abbrev larger : (a b : ℕ) → ℕ
larger a b = if leb a b then b else a

-- The greatest fd that was given out.
abbrev greatest : List Call → ℕ
greatest [] = 2
greatest (opened _ _ _ _ _ result ∷ cs) = larger result (greatest cs)
greatest (closed _ ∷ cs) = greatest cs
greatest (mapped _ _ _ ∷ cs) = greatest cs
greatest (unmapped _ _ ∷ cs) = greatest cs
greatest (controlled _ _ _ ∷ cs) = greatest cs
greatest (read_from _ _ ∷ cs) = greatest cs
greatest (signals_on _ ∷ cs) = greatest cs
greatest (wrote _ _ _ ∷ cs) = greatest cs
greatest (forked _ ∷ cs) = greatest cs
greatest (killed _ ∷ cs) = greatest cs
greatest (enabled_all ∷ cs) = greatest cs
greatest (disabled_all ∷ cs) = greatest cs

-- A kernel that counts on.
abbrev counting : World
counting = record {
  perf_event_open = λ cs pe pid cpu group_fd flags. suc (greatest cs);
  is_too_big = λ cs. false;
  kernel_size = λ cs. 0;
  close = λ cs fd. true;
  mmap = λ cs size fd. 4096;
  munmap = λ cs addr size. true;
  ioctl = λ cs fd arg arg2. true;
  read = λ cs fd size. true;
  fork = λ cs. 100;
  getpid = 99;
}

is_open-greatest : (m : ℕ) (cs : List Call) → greatest cs < m → is_open m cs ≡ false
is_open-greatest m [] h = refl
is_open-greatest m (opened _ _ _ _ _ result ∷ cs) h =
    ground (arith, h, is_open-greatest m cs (ground (arith, h)))
is_open-greatest m (closed g ∷ cs) h = ground (arith, is_open-greatest m cs h)
is_open-greatest m (mapped _ _ _ ∷ cs) h = is_open-greatest m cs h
is_open-greatest m (unmapped _ _ ∷ cs) h = is_open-greatest m cs h
is_open-greatest m (controlled _ _ _ ∷ cs) h = is_open-greatest m cs h
is_open-greatest m (read_from _ _ ∷ cs) h = is_open-greatest m cs h
is_open-greatest m (signals_on _ ∷ cs) h = is_open-greatest m cs h
is_open-greatest m (wrote _ _ _ ∷ cs) h = is_open-greatest m cs h
is_open-greatest m (forked _ ∷ cs) h = is_open-greatest m cs h
is_open-greatest m (killed _ ∷ cs) h = is_open-greatest m cs h
is_open-greatest m (enabled_all ∷ cs) h = is_open-greatest m cs h
is_open-greatest m (disabled_all ∷ cs) h = is_open-greatest m cs h

counting-Fresh : Fresh counting
counting-Fresh = record {
  fresh = λ cs pe pid cpu group flags low. is_open-greatest (suc (greatest cs)) cs (omega arith);
}

abbrev unused : ℕ → List EventType
unused zero = []
unused (suc n) = record { fd_remap = minus_one; mmap_remap = map_failed; size = 0 } ∷ unused n

abbrev zeros : ℕ → List ℕ
zeros zero = []
zeros (suc n) = 0 ∷ zeros n

abbrev begun : State
begun = record {
  event = unused 2048;
  fd_overflows = zeros 2048;
  fd_throttles = zeros 2048;
  line_num = 3;
  original_pid = 77;
  forked_pid = 0;
  overflows = 0;
  has_error = false;
  calls = [];
  output = [];
}

abbrev parsed : Opened
parsed = record {
  orig_fd = 5;
  pid = 77;
  cpu = 0;
  group_fd = 2 ^ 32 - 1;
  flags = 0;
  attr = kept sampling;
}

-- The event is replayed for the process itself.
abbrev one_open : State
one_open = record begun {
  event = set (unused 2048) 5 (record { fd_remap = 3; mmap_remap = map_failed; size = 0 });
  fd_overflows = set (zeros 2048) 3 0;
  fd_throttles = set (zeros 2048) 3 0;
  calls = opened (kept sampling) 99 0 minus_one 0 3 ∷ [];
  output = error "VMW OPEN %d (remapped %d)\n" (5 ∷ (3 ∷ [])) ∷ [];
}

opens_parsed : open_parsed counting parsed begun ≡ some one_open
unfolding open_parsed ◌>>=◌
opens_parsed = refl

opens_line : open_event counting (open_line 5 77 0 (2 ^ 32 - 1) 0 sampling) begun ≡ some one_open
unfolding open_event ◌>>=◌
opens_line =
    ap (λ o. o >>= λ p. open_parsed counting p begun)
      (parse_open_event-open_line 5 77 0 (2 ^ 32 - 1) 0 sampling (omega arith) (omega arith)
        (omega arith) (omega arith) (omega arith) sampling-AttrFits)
    ∙ opens_parsed

abbrev closed_again : State
closed_again = record one_open {
  event = set (unused 2048) 5 (record { fd_remap = minus_one; mmap_remap = map_failed; size = 0 });
  calls = closed 3 ∷ one_open.calls;
  output =
      error "VMW OPEN %d (remapped %d)\n" (5 ∷ (3 ∷ []))
      ∷ (error "VMW CLOSE %d (%d)\n" (5 ∷ (3 ∷ [])) ∷ []);
}

closes_line : close_event counting (codes "C 5\n") one_open ≡ some closed_again
unfolding close_event close_fd ◌>>=◌ scan_all convert scan_signed scan_unsigned scan_digits
closes_line = refl

Replayed-Good_example : Good closed_again
Replayed-Good_example = Replayed-Good counting closed_again counting-Fresh (
    closes one_open closed_again (codes "C 5\n")
      (opens begun one_open (open_line 5 77 0 (2 ^ 32 - 1) 0 sampling) (start begun refl refl)
        opens_line)
      closes_line)

abbrev unused_entry : EventType
unused_entry = record { fd_remap = minus_one; mmap_remap = map_failed; size = 0 }

abbrev entry : EventType
entry = record { fd_remap = 3; mmap_remap = map_failed; size = 0 }

-- Event 5 is fd 3 of the kernel, and fd 3 of the log is another event.
abbrev stormy : State
stormy = record one_open {
  event = set (set (unused 2048) 5 entry) 3 (record entry { fd_remap = 4 });
  fd_overflows = set (zeros 2048) 3 10000;
  fd_throttles = set (zeros 2048) 3 20;
}

our_handler-stale_example :
    (t : State) × (our_handler 3 stormy ≡ some t)
    × (get_elem? t.event 5 ≡ some entry)
    × (is_open 3 t.calls ≡ false)
    × (get_elem? t.event 3 ≡ some unused_entry)
our_handler-stale_example =
    our_handler-stale stormy 5 3 entry (record entry { fd_remap = 4 })
      (λ e. absurd (omega (arith, e))) refl refl refl refl refl

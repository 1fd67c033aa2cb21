-- ===== src/Fuzzer/Counted/Tests.antt =====
-- An event is opened from the start of the program on.
use perf_event_tests.Base.{
  ℕ, zero, suc, ◌^◌, ◌-◌, ◌≡◌, refl, true, false, some, List, [], ◌∷◌, set, arith,
}
use perf_event_tests.Fuzzer.State.{
  Event, State, ◌>>=◌, call, pure, ask, change, change_event, event_at, if_found, logged, pretty,
  type_success, trinity_type_success,
}
use perf_event_tests.Fuzzer.Calm.{activity}
use perf_event_tests.Fuzzer.Tests.{small, all_logged, no_stats, running}
use perf_event_tests.Fuzzer.Find.{find_empty_event, find_random_active_event, lookup_event}
use perf_event_tests.Fuzzer.Open.{
  returned, open_random_event, open_loop, attempt, take_over, join_group, try_kprobe, try_open,
  after_open, log_open, update_group, activate_event,
}
use perf_event_tests.Fuzzer.Counted.{Right}
use perf_event_tests.Fuzzer.Counted.Runs.{start, opens, Running-Right}

abbrev zero_event : Event
zero_event = record {
  active = false;
  fd = 0;
  type = 0;
  sample_period = 0;
  pid = 0;
  cpu = 0;
  group_fd = 0;
  flags = 0;
  mmap = 0;
  config = 0;
  read_format = 0;
  read_size = 0;
  number_in_group = 0;
  last_refresh = 0;
  overflows = 0;
  throttles = 0;
}

abbrev zero_events : ℕ → List Event
zero_events zero = []
zero_events (suc n) = zero_event ∷ zero_events n

abbrev static : State
static = record running {
  events = zero_events 3;
  active_events = 0;
  mmaps = [];
  active_mmaps = 0;
  clock = 1;
}

abbrev first_open : State
first_open = record static {
  events = set (zero_events 3) 0 (record zero_event {
    active = true;
    fd = 4;
    type = 1;
    sample_period = 1000;
    group_fd = 2 ^ 32 - 1;
    number_in_group = 1;
    read_size = 8;
  });
  active_events = 1;
  stats = record no_stats {
    total_syscalls = 1;
    open_attempts = 1;
    open_successful = 1;
    open_counts = trinity_type_success 0 ∷ (type_success 1 ∷ []);
    current_open = 2;
  };
  output =
      logged "O %d %d %d %d %lx " (4 ∷ (0 ∷ (0 ∷ ((2 ^ 32 - 1) ∷ (0 ∷ [])))))
      ∷ (pretty "perf_log_attr" (0 ∷ []) ∷ []);
  clock = 5;
}

opens_first : open_random_event 1 small all_logged false false static ≡ some (returned, first_open)
unfolding open_random_event open_loop attempt take_over join_group try_kprobe try_open after_open
    log_open update_group activate_event ◌>>=◌ call pure ask change change_event event_at
    find_empty_event find_random_active_event lookup_event if_found
opens_first = refl

Running-Right_example : Right (activity first_open.events) 1
Running-Right_example = Running-Right small all_logged first_open (
    opens static first_open 1 false false returned (start static 3 (omega arith) refl refl)
      opens_first)

-- ===== src/Fuzzer/Tests.antt =====
-- The fuzzer's tables on a small world: `mmap` refuses a length of 0 and gives one address to all others.
use perf_event_tests.Base.{
  ℕ, zero, suc, ap, subst, get_elem?, set, ◌≡◌, ◌^◌, ◌-◌, refl, true, false, not, none, some, [],
  ◌∷◌, arith, ◌==◌, if◌then◌else◌, Bool-cases, inl, inr,
}
use perf_event_tests.Fuzzer.State.{
  closing, unmapping, made, Event, OurMmap, Stats, State, World, Config, map_failed, logged, ◌>>=◌,
  call, pure, change_event, event_at, change, mmap_at, change_mmap,
}
use perf_event_tests.Fuzzer.Find.{find_random_active_event, find_random_active_mmap}
use perf_event_tests.Fuzzer.Find.Search.{Found}
use perf_event_tests.Fuzzer.Find.Active.{
  is_open, find_random_active_event-Found, find_random_active_mmap-Found,
}
use perf_event_tests.Fuzzer.Setup.{mmap_random_event, unmap_mmap, unmap_mapped}
use perf_event_tests.Fuzzer.Close.{close_event, close_fd, close_active}
use perf_event_tests.Fuzzer.Runs.{Runs}
use perf_event_tests.Fuzzer.Unopened.{mmap_random_event-faults}
use perf_event_tests.Fuzzer.Effect.{Closed, close_event_lem}
use perf_event_tests.Fuzzer.Table.{SlotFits, Sound, is_active}
use perf_event_tests.Fuzzer.Sound.Unmap.{Unmaps}
use perf_event_tests.Fuzzer.Sound.Reachable.{zero_mmap, zero_mmaps, start, closes, Reachable-Sound}

abbrev pub small : World
small = record {
  rand = λ t. t;
  get_address = λ t. 8192;
  mmap = λ t addr size prot flags fd offset. if size == 0 then map_failed else 4096;
  munmap = λ t addr size. not (size == 0);
  close = λ t fd. true;
  aux_head = λ t addr. 64;
  data_head = λ t addr. 32;
  segfaults = λ t addr. false;
  sanitise = λ t. record {
    trinity_type = 0;
    type = 1;
    config = 0;
    sample_period = 1000;
    read_format = 0;
    pid = 0;
    group_fd = 2 ^ 32 - 1;
    flags = 0;
  };
  get_cpu = λ t. 0;
  perf_event_open =
      λ t attr config pid cpu group_fd flags. if attr.type == 0 then 2 ^ 32 - 1 else 4;
  errno = λ t. 22;
  fcntl = λ t fd. true;
  disable = λ cs t fd. true;
  refresh = λ t fd n. true;
  kprobe_id = 77;
  page_size = 4096;
}

abbrev Sized : ℕ → ℕ → Type 0
Sized addr size = (size == 0) ≡ false

small-Unmaps : Unmaps small Sized
small-Unmaps = record {
  maps = λ t addr size prot flags fd offset ok. elim (Bool-cases (size == 0)) [
    | inl empty ↦ absurd (ok (ground (arith, empty)))
    | inr sized ↦ sized
  ];
  unmaps = λ t addr size sized. ground (arith, sized);
  refuses = λ t addr. refl;
}

abbrev pub all_logged : Config
all_logged = record {
  ignore_open = false;
  ignore_overflow = false;
  ignore_close = false;
  ignore_mmap = false;
  ignore_trash_mmap = false;
  logging = true;
  log_open = true;
  log_overflow = true;
  log_close = true;
  log_mmap = true;
  log_trash_mmap = true;
}

abbrev pub no_stats : Stats
no_stats = record {
  open_attempts = 0;
  open_successful = 0;
  open_counts = [];
  overflows = 0;
  already_overflows = 0;
  sigios = 0;
  total_syscalls = 0;
  current_open = 1;
  close_attempts = 0;
  close_successful = 0;
  mmap_attempts = 0;
  mmap_successful = 0;
  mmap_trash_attempts = 0;
  mmap_trash_successful = 0;
  mmap_unmap_attempts = 0;
  mmap_unmap_successful = 0;
  mmap_read_attempts = 0;
  mmap_read_successful = 0;
  mmap_aux_read_attempts = 0;
  mmap_aux_read_successful = 0;
  mmap_aux_attempts = 0;
  mmap_aux_successful = 0;
}

abbrev pub opened : Event
opened = record {
  active = true;
  fd = 3;
  type = 0;
  sample_period = 1000;
  pid = 0;
  cpu = 0;
  group_fd = 0;
  flags = 0;
  mmap = 0;
  config = 0;
  read_format = 0;
  read_size = 8;
  number_in_group = 1;
  last_refresh = 0;
  overflows = 0;
  throttles = 0;
}

-- One event is open, and one mapping of it is active.
abbrev pub mapping : OurMmap
mapping = record {
  active = true;
  addr = 4096;
  size = 8192;
  fd = 3;
  prot = 3;
  flags = 1;
  head = 0;
  aux_head = 0;
  aux = false;
  parent_mmap = 0;
  which_event = 0;
}

abbrev pub running : State
running = record {
  events = opened ∷ [];
  mmaps = mapping ∷ [];
  active_events = 1;
  active_mmaps = 1;
  stats = no_stats;
  output = [];
  stores = [];
  calls = [];
  clock = 12;
  already_handling = false;
  last_fd = 0;
  next_refresh = 0;
}

abbrev fresh : State
fresh = record running { mmaps = zero_mmaps 1024; active_mmaps = 0 }

only_mapping : (k : ℕ) (m : OurMmap) → get_elem? (mapping ∷ []) k ≡ some m → SlotFits Sized m
only_mapping zero m h =
    let same : mapping ≡ m = ap (λ o. elim o [ none ↦ mapping | some x ↦ x ]) h in
    subst (SlotFits Sized) same (record {
      used = λ u. (refl, λ e. absurd (omega (arith, e)));
      free = λ u. absurd (ground (arith, u));
    })
only_mapping (suc k) m h = absurd (ground (arith, h))

running-Sound : Sound Sized running.mmaps 1
running-Sound = record { counted = refl; few = omega arith; slots = only_mapping }

abbrev closed : State
closed = record running {
  events = record opened { active = false } ∷ [];
  mmaps = record mapping { active = false; addr = map_failed } ∷ [];
  active_events = 0;
  active_mmaps = 0;
  stats = record no_stats {
    total_syscalls = 1;
    current_open = 0;
    close_attempts = 1;
    close_successful = 1;
    mmap_unmap_attempts = 1;
    mmap_unmap_successful = 1;
  };
  calls = closing 3 ∷ (unmapping 4096 8192 ∷ []);
  output = logged "C %d\n" (3 ∷ []) ∷ (logged "U %d %d %p\n" (3 ∷ 8192 ∷ 4096 ∷ []) ∷ []);
  clock = 15;
}

runs : close_event small all_logged 0 false running ≡ some (tt, closed)
unfolding close_event ◌>>=◌ call made pure change_event event_at close_fd unmap_mmap change mmap_at
    unmap_mapped change_mmap close_active
runs = refl

abbrev fresh_closed : State
fresh_closed = record fresh {
  events = record opened { active = false } ∷ [];
  mmaps = set (zero_mmaps 1024) 0 (record zero_mmap { addr = map_failed });
  active_events = 0;
  stats = record no_stats {
    total_syscalls = 1;
    current_open = 0;
    close_attempts = 1;
    close_successful = 1;
    mmap_unmap_attempts = 1;
  };
  calls = closing 3 ∷ (unmapping 0 0 ∷ []);
  output = logged "C %d\n" (3 ∷ []) ∷ (logged "U %d %d %p\n" (0 ∷ 0 ∷ 0 ∷ []) ∷ []);
  clock = 15;
}

closes_fresh : close_event small all_logged 0 false fresh ≡ some (tt, fresh_closed)
unfolding close_event ◌>>=◌ call made pure change_event event_at close_fd unmap_mmap change mmap_at
    unmap_mapped change_mmap close_active
closes_fresh = refl

Reachable-Sound_example : Sound Sized fresh_closed.mmaps 0
Reachable-Sound_example =
    Reachable-Sound small Sized all_logged fresh_closed small-Unmaps refl
      (closes fresh fresh_closed 0 false (start fresh refl refl) closes_fresh)

find_random_active_event-Found_example :
    (i : ℕ) × (find_random_active_event small running
      ≡ some (some i, record running { clock = 13 }))
    × Found is_open running.events i 0
find_random_active_event-Found_example =
    find_random_active_event-Found small running refl (omega arith) (omega arith)

find_random_active_mmap-Found_example :
    (i : ℕ) × (find_random_active_mmap small running ≡ some (some i, record running { clock = 13 }))
    × Found is_active running.mmaps i 0
find_random_active_mmap-Found_example =
    find_random_active_mmap-Found small Sized running running-Sound (omega arith)

close_event_lem_example :
    Runs
      (close_event small all_logged 0 false)
      running
      (λ _. Closed small all_logged false 0 opened mapping (record running { clock = 13 }))
close_event_lem_example =
    close_event_lem small all_logged 0 false opened mapping running refl (omega arith) (omega arith)
      refl refl

-- Nothing is open, and the one slot for a mapping is free.
abbrev nothing : State
nothing = record running {
  events = [];
  mmaps = zero_mmap ∷ [];
  active_events = 0;
  active_mmaps = 0;
}

mmap_random_event-faults_example : mmap_random_event small all_logged false nothing ≡ none
mmap_random_event-faults_example =
    mmap_random_event-faults small all_logged false nothing refl refl refl (omega arith) refl

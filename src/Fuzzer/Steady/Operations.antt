-- ===== src/Fuzzer/Steady/Operations.antt =====
-- The parts of opening an event and of the signal handlers that leave the table of mappings alone.
use perf_event_tests.Base.{ℕ, zero, suc}
use perf_event_tests.Fuzzer.State.{World, Config, Sanitised, Fuzz, pure}
use perf_event_tests.Fuzzer.Triple.{Steady, Steady-bind, Steady-pure, steady}
use perf_event_tests.Fuzzer.Steady.{find_event-Steady}
use perf_event_tests.Fuzzer.Find
use perf_event_tests.Fuzzer.Open
use perf_event_tests.Fuzzer.Overflow

module _ (w : World) where
  pub find_empty-Steady : Steady Find.find_empty_event
  unfolding Find.find_empty_event
  find_empty-Steady = search steady depth 20

  pub lookup-Steady : (fd : ℕ) → Steady (Find.lookup_event fd)
  unfolding Find.lookup_event
  lookup-Steady fd = search steady depth 20

  control-Steady : (fd : ℕ) → Steady (Open.control w fd)
  unfolding Open.control
  control-Steady fd = search steady depth 20

  join_group-Steady : (i : ℕ) → Steady (Open.join_group w i)
  unfolding Open.join_group
  join_group-Steady i = search (steady, find_event-Steady) depth 20

  kprobe-Steady : (i : ℕ) → Steady (Open.try_kprobe w i)
  unfolding Open.try_kprobe
  kprobe-Steady i = search steady depth 20

  failure-Steady : (i : ℕ) → Steady (Open.print_failure i)
  unfolding Open.print_failure
  failure-Steady i = search steady depth 20

  count_failure-Steady : (i t k : ℕ) → Steady (Open.count_failure w i t k)
  unfolding Open.count_failure
  count_failure-Steady i t k = search (steady, failure-Steady) depth 30

  try_open-Steady : (i : ℕ) (a : Sanitised) → Steady (Open.try_open w i a)
  unfolding Open.try_open
  try_open-Steady i a = search (steady, failure-Steady, count_failure-Steady) depth 30

  pub update_group-Steady : (i : ℕ) → Steady (Open.update_group i)
  unfolding Open.update_group
  update_group-Steady i = search (steady, lookup-Steady) depth 30

  module _ (c : Config) where
    pub attempt-Steady : (i : ℕ) → Steady (Open.attempt w c i)
    unfolding Open.attempt
    attempt-Steady i = search (steady, join_group-Steady, kprobe-Steady, try_open-Steady) depth 30

    pub log_open-Steady : (i fd : ℕ) → Steady (Open.log_open c i fd)
    unfolding Open.log_open
    log_open-Steady i fd = search steady depth 20

    pub setup_overflow-Steady : (i : ℕ) → Steady (Open.setup_overflow w c i)
    unfolding Open.setup_overflow
    setup_overflow-Steady i = search (steady, control-Steady) depth 30

    pub throttle-Steady : (i : ℕ) → Steady (Overflow.throttle w c i)
    unfolding Overflow.throttle
    throttle-Steady i = search steady depth 40

    next-Steady :
        (m : Fuzz Open.Attempt)
        → Steady m
        → (r : Open.Attempt)
        → Steady (elim r [
          | Open.again ↦ m
          | Open.opened fd ↦ pure (Open.opened fd)
          | Open.gave_up ↦ pure Open.gave_up
          | Open.exited ↦ pure Open.exited
        ])
    next-Steady m h Open.again = h
    next-Steady m h (Open.opened fd) = Steady-pure (Open.opened fd)
    next-Steady m h Open.gave_up = Steady-pure Open.gave_up
    next-Steady m h Open.exited = Steady-pure Open.exited

    pub open_loop-Steady : (fuel i : ℕ) → Steady (Open.open_loop fuel w c i)
    unfolding Open.open_loop
    open_loop-Steady zero i = Steady-pure Open.again
    open_loop-Steady (suc fuel) i =
        Steady-bind _ (attempt-Steady i)
          (next-Steady (Open.open_loop fuel w c i) (open_loop-Steady fuel i))

    pub activate_event-Steady : (i fd : ℕ) → Steady (Open.activate_event i fd)
    unfolding Open.activate_event
    activate_event-Steady i fd = search steady depth 20

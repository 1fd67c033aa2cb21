-- ===== src/Fuzzer/Calm/Operations.antt =====
-- The operations that are calm.
use perf_event_tests.Base.{ℕ, Bool}
use perf_event_tests.Fuzzer.State.{OurMmap, World, Config, Sanitised}
use perf_event_tests.Fuzzer.Calm.{Calm, calm}
use perf_event_tests.Fuzzer.Find
use perf_event_tests.Fuzzer.Random
use perf_event_tests.Fuzzer.Mmap
use perf_event_tests.Fuzzer.Setup
use perf_event_tests.Fuzzer.Close
use perf_event_tests.Fuzzer.Open
use perf_event_tests.Fuzzer.Overflow

module _ (w : World) where
  prot-Calm : Calm (Random.mmap_random_prot w)
  unfolding Random.mmap_random_prot
  prot-Calm = search calm depth 20

  size-Calm : (n : ℕ) → Calm (Random.mmap_random_size w n)
  unfolding Random.mmap_random_size
  size-Calm n = search calm depth 20

  flags-Calm : Calm (Random.mmap_random_flags w)
  unfolding Random.mmap_random_flags
  flags-Calm = search calm depth 60

  pub find_event-Calm : Calm (Find.find_random_active_event w)
  unfolding Find.find_random_active_event
  find_event-Calm = search calm depth 20

  find_mmap-Calm : Calm (Find.find_random_active_mmap w)
  unfolding Find.find_random_active_mmap
  find_mmap-Calm = search calm depth 20

  aux_read-Calm : (i : ℕ) → Calm (Mmap.perf_mmap_aux_read w i)
  unfolding Mmap.perf_mmap_aux_read
  aux_read-Calm i = search calm depth 40

  read-Calm : (i : ℕ) → Calm (Mmap.perf_mmap_read w i)
  unfolding Mmap.perf_mmap_read
  read-Calm i = search (calm, aux_read-Calm) depth 40

  segfault-Calm : (i : ℕ) (m : OurMmap) → Calm (Mmap.print_segfault i m)
  unfolding Mmap.print_segfault
  segfault-Calm i m = search calm depth 20

  pub find_empty-Calm : Calm Find.find_empty_event
  unfolding Find.find_empty_event
  find_empty-Calm = search calm depth 20

  find_empty_mmap-Calm : Calm Find.find_empty_mmap
  unfolding Find.find_empty_mmap
  find_empty_mmap-Calm = search calm depth 20

  lookup-Calm : (fd : ℕ) → Calm (Find.lookup_event fd)
  unfolding Find.lookup_event
  lookup-Calm fd = search calm depth 20

  control-Calm : (fd : ℕ) → Calm (Open.control w fd)
  unfolding Open.control
  control-Calm fd = search calm depth 20

  take_over-Calm : (i : ℕ) (a : Sanitised) (cpu : ℕ) → Calm (Open.take_over i a cpu)
  unfolding Open.take_over
  take_over-Calm i a cpu = search calm depth 20

  join_group-Calm : (i : ℕ) → Calm (Open.join_group w i)
  unfolding Open.join_group
  join_group-Calm i = search (calm, find_event-Calm) depth 20

  kprobe-Calm : (i : ℕ) → Calm (Open.try_kprobe w i)
  unfolding Open.try_kprobe
  kprobe-Calm i = search calm depth 20

  failure-Calm : (i : ℕ) → Calm (Open.print_failure i)
  unfolding Open.print_failure
  failure-Calm i = search calm depth 20

  count_failure-Calm : (i t k : ℕ) → Calm (Open.count_failure w i t k)
  unfolding Open.count_failure
  count_failure-Calm i t k = search (calm, failure-Calm) depth 30

  try_open-Calm : (i : ℕ) (a : Sanitised) → Calm (Open.try_open w i a)
  unfolding Open.try_open
  try_open-Calm i a = search (calm, failure-Calm, count_failure-Calm) depth 30

  pub update_group-Calm : (i : ℕ) → Calm (Open.update_group i)
  unfolding Open.update_group
  update_group-Calm i = search (calm, lookup-Calm) depth 30

  read_and_refresh-Calm : (i fd : ℕ) → Calm (Overflow.read_and_refresh w i fd)
  unfolding Overflow.read_and_refresh
  read_and_refresh-Calm i fd = search (calm, read-Calm) depth 30

  module _ (c : Config) where
    overwrite-Calm : (i v : ℕ) (m : OurMmap) → Calm (Mmap.overwrite w c i v m)
    unfolding Mmap.overwrite
    overwrite-Calm i v m = search (calm, segfault-Calm) depth 20

    trash-Calm : Calm (Mmap.trash_random_mmap w c)
    unfolding Mmap.trash_random_mmap
    trash-Calm = search (calm, find_mmap-Calm, overwrite-Calm) depth 20

    map_aux-Calm : (i e m n p f : ℕ) → Calm (Setup.map_aux w c i e m n p f)
    unfolding Setup.map_aux
    map_aux-Calm i e m n p f = search calm depth 40

    prepare-Calm : (i n p f : ℕ) → Calm (Setup.prepare i n p f)
    unfolding Setup.prepare
    prepare-Calm i n p f = search calm depth 20

    prepare_aux-Calm : (i m n p f : ℕ) → Calm (Setup.prepare_aux i m n p f)
    unfolding Setup.prepare_aux
    prepare_aux-Calm i m n p f = search calm depth 20

    activate-Calm : (i : ℕ) → Calm (Setup.activate i)
    unfolding Setup.activate
    activate-Calm i = search calm depth 20

    ruleset mapping = (
      calm, size-Calm, prot-Calm, flags-Calm, find_empty_mmap-Calm, prepare-Calm, prepare_aux-Calm,
      activate-Calm, map_aux-Calm,
    )

    setup_aux-Calm : (e m : ℕ) → Calm (Setup.setup_mmap_aux w c e m)
    unfolding Setup.setup_mmap_aux
    setup_aux-Calm e m = search mapping depth 40

    map_event-Calm : (i e n p f : ℕ) → Calm (Setup.map_event w c i e n p f)
    unfolding Setup.map_event
    map_event-Calm i e n p f = search calm depth 40

    maybe_aux-Calm : (e i : ℕ) → Calm (Setup.maybe_aux w c e i)
    unfolding Setup.maybe_aux
    maybe_aux-Calm e i = search (calm, setup_aux-Calm) depth 20

    pub setup-Calm : (e : ℕ) → Calm (Setup.setup_mmap w c e)
    unfolding Setup.setup_mmap
    setup-Calm e = search (mapping, map_event-Calm, maybe_aux-Calm) depth 40

    unmap_mapped-Calm : (i : ℕ) (b : Bool) (m : OurMmap) → Calm (Setup.unmap_mapped w c i b m)
    unfolding Setup.unmap_mapped
    unmap_mapped-Calm i b m = search calm depth 30

    pub unmap-Calm : (i : ℕ) (b : Bool) → Calm (Setup.unmap_mmap w c i b)
    unfolding Setup.unmap_mmap
    unmap-Calm i b = search (calm, unmap_mapped-Calm) depth 30

    pub mmap_random_event-Calm : (trash : Bool) → Calm (Setup.mmap_random_event w c trash)
    unfolding Setup.mmap_random_event
    mmap_random_event-Calm trash =
        search
          (calm, find_event-Calm, find_mmap-Calm, setup-Calm, unmap-Calm, read-Calm, trash-Calm)
          depth 30

    pub close_fd-Calm : (fd : ℕ) (b : Bool) → Calm (Close.close_fd w c fd b)
    unfolding Close.close_fd
    close_fd-Calm fd b = search calm depth 20

    pub attempt-Calm : (i : ℕ) → Calm (Open.attempt w c i)
    unfolding Open.attempt
    attempt-Calm i =
        search (calm, take_over-Calm, join_group-Calm, kprobe-Calm, try_open-Calm) depth 30

    pub log_open-Calm : (i fd : ℕ) → Calm (Open.log_open c i fd)
    unfolding Open.log_open
    log_open-Calm i fd = search calm depth 20

    pub setup_overflow-Calm : (i : ℕ) → Calm (Open.setup_overflow w c i)
    unfolding Open.setup_overflow
    setup_overflow-Calm i = search (calm, control-Calm) depth 30

    throttle-Calm : (i : ℕ) → Calm (Overflow.throttle w c i)
    unfolding Overflow.throttle
    throttle-Calm i = search calm depth 40

    overflowed-Calm : (i fd : ℕ) → Calm (Overflow.overflowed w c i fd)
    unfolding Overflow.overflowed
    overflowed-Calm i fd = search (calm, throttle-Calm, read_and_refresh-Calm) depth 30

    pub our_handler-Calm : (fd : ℕ) → Calm (Overflow.our_handler w c fd)
    unfolding Overflow.our_handler
    our_handler-Calm fd = search (calm, lookup-Calm, overflowed-Calm) depth 40

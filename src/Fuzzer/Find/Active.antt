-- ===== src/Fuzzer/Find/Active.antt =====
-- fuzzer/perf_fuzzer.c and fuzzer/fuzz_mmap.c: a random active entry is found while the counter is
-- right.
use perf_event_tests.Base.{ℕ, suc, ◌%◌, ◌^◌, ◌<◌, ◌≡◌, Bool, false, some, arith, length}
use native.Mathlib.Nat.{mod-lt}
use perf_event_tests.Fuzzer.State.{Event, State, World, pure, ◌>>=◌, ask, call, if_found}
use perf_event_tests.Fuzzer.Find.{less_than_one, find_random_active_event, find_random_active_mmap}
use perf_event_tests.Fuzzer.Find.Search.{count, count-le-length, Found, nth_where-drawn}
use perf_event_tests.Fuzzer.Table.{Sound, is_active}

abbrev pub is_open : Event → Bool
is_open e = e.active

more_than_zero : (n : ℕ) → 0 < n → n < 2 ^ 31 → less_than_one n ≡ false
more_than_zero n low high = ground arith

-- With a right counter of active events, of which there is one at least, the search returns the event
-- whose number among the active ones is the number drawn.
pub find_random_active_event-Found :
    (w : World) (s : State)
    → s.active_events ≡ count is_open s.events
    → length s.events < 2 ^ 31
    → 0 < s.active_events
    → (i : ℕ) × (find_random_active_event w s ≡ some (some i, record s { clock = suc s.clock }))
      × Found is_open s.events i (w.rand s.clock % s.active_events)
unfolding find_random_active_event ◌>>=◌ ask call pure
find_random_active_event-Found w s counted few some_open =
    let small = count-le-length is_open s.events in
    let x = w.rand s.clock % s.active_events in
    let below : x < s.active_events = mod-lt (w.rand s.clock) some_open in
    let (i, found, at) = nth_where-drawn is_open x s.events (omega (arith, counted, below)) in
    let open_one = more_than_zero s.active_events some_open (omega (arith, counted, few, small)) in
    (i, ground (arith, open_one, found), at)

-- In a sound table with a counter that is not 0 the search returns the mapping whose number among the
-- active ones is the number drawn: it never fails.
pub find_random_active_mmap-Found :
    (w : World) (Accepted : ℕ → ℕ → Type 0) (s : State)
    → Sound Accepted s.mmaps s.active_mmaps
    → 0 < s.active_mmaps
    → (i : ℕ) × (find_random_active_mmap w s ≡ some (some i, record s { clock = suc s.clock }))
      × Found is_active s.mmaps i (w.rand s.clock % s.active_mmaps)
unfolding find_random_active_mmap ◌>>=◌ ask call pure if_found
find_random_active_mmap-Found w Accepted s sound some_active =
    let small = count-le-length is_active s.mmaps in
    let x = w.rand s.clock % s.active_mmaps in
    let below : x < s.active_mmaps = mod-lt (w.rand s.clock) some_active in
    let (i, found, at) =
      nth_where-drawn is_active x s.mmaps (omega (arith, sound.counted, below)) in
    let open_one =
      more_than_zero s.active_mmaps some_active (omega (arith, sound.counted, sound.few, small)) in
    (i, ground (arith, open_one, found), at)

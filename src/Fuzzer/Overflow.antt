-- ===== src/Fuzzer/Overflow.antt =====
-- fuzzer/fuzz_overflow.c: the two signal handlers.
use perf_event_tests.Base.{
  ℕ, zero, suc, ◌^◌, Bool, true, false, not, ◌&&◌, [], ◌∷◌, ltb, ◌==◌, if◌then◌else◌, length,
}
use perf_event_tests.Fuzzer.State.{
  made, closing, Event, World, Config, Fuzz, Done, printed, pure, ◌>>=◌, when, ask, change,
  event_at, change_event, call, count_stat, put, plus_one, if_found,
}
use perf_event_tests.Fuzzer.Find.{lookup_event}
use perf_event_tests.Fuzzer.Mmap.{perf_mmap_read}
use perf_event_tests.Fuzzer.Close.{close_event}
use perf_event_tests.Fuzzer.Open.{one_more}

-- `n > k` for an `int` and a small constant.
abbrev pub exceeds : (n k : ℕ) → Bool
exceeds n k = ltb k n && ltb n (2 ^ 31)

-- `MAX_THROTTLES`: the file descriptor of an event that was throttled more than 10 times is closed.
abbrev pub given_up : World → Event → Fuzz Done
given_up w e = when (exceeds e.throttles 10) (do
  _ ← put (
      printed "Stuck in a signal storm w/o forward progress; Max throttle count hit, giving up\n"
        [])
  _ ← made (closing e.fd) (λ t. w.close t e.fd)
  pure tt)

-- More than 10000 overflows: the event is left disabled, and given up after 10 times.
unfoldable pub throttle : World → Config → (i : ℕ) → Fuzz Done
throttle w c i = do
  e ← event_at i
  _ ← when (not c.logging) (
      put (
        printed "Throttling event %d fd %d, last_refresh=%d, period=%llu, type=%d throttles %d\n"
          (i ∷ (e.fd ∷ (e.last_refresh ∷ (e.sample_period ∷ (e.type ∷ (e.throttles ∷ []))))))))
  _ ← change_event i (λ x. record x { overflows = 0 })
  _ ← change_event i (λ x. record x { throttles = plus_one x.throttles })
  _ ← change (λ s. record s { next_refresh = 0 })
  e' ← event_at i
  given_up w e'

-- The event goes on: its mapping is read, and it is enabled for the next overflows.
unfoldable pub read_and_refresh : World → (i fd : ℕ) → Fuzz Done
read_and_refresh w i fd = do
  e ← event_at i
  _ ← perf_mmap_read w e.mmap
  n ← ask (λ s. s.next_refresh)
  success ← call (λ t. w.refresh t fd n)
  when success (change_event i (λ x. record x { last_refresh = n }))

unfoldable pub overflowed : World → Config → (i fd : ℕ) → Fuzz Done
unfolding throttle read_and_refresh
overflowed w c i fd = do
  _ ← change_event i (λ x. record x { overflows = plus_one x.overflows })
  e ← event_at i
  if exceeds e.overflows 10000 then throttle w c i else read_and_refresh w i fd

-- `already_handling` is set while the handler runs.
unfoldable pub our_handler : World → Config → (fd : ℕ) → Fuzz Done
unfolding overflowed
our_handler w c fd = do
  busy ← ask (λ s. s.already_handling)
  if busy
      then count_stat (λ x. record x { already_overflows = one_more x.already_overflows })
      else (do
        _ ← change (λ s. record s { already_handling = true })
        _ ← count_stat (λ x. record x { overflows = one_more x.overflows })
        cs ← ask (λ s. s.calls)
        success ← call (λ t. w.disable cs t fd)
        _ ←
            if success
            then (do found ← lookup_event fd; if_found found (pure tt) λ i. overflowed w c i fd)
            else (do
              last ← ask (λ s. s.last_fd)
              when (not (fd == last)) (do
                _ ← put (printed "Signal from invalid fd %d %s\n" (fd ∷ []))
                change (λ s. record s { last_fd = fd })))
        change (λ s. record s { already_handling = false }))

-- Every open event is closed, from index `i` on for `n` rounds.
unfoldable pub close_all : World → Config → (n i : ℕ) → Fuzz Done
close_all w c zero i = pure tt
close_all w c (suc n) i = do
  e ← event_at i
  _ ← when e.active (close_event w c i true)
  close_all w c n (suc i)

-- A full signal queue (`SI_KERNEL`), or a signal of a file descriptor.
unfoldable pub sigio_handler :
    World → Config → (from_kernel : Bool) → (fd band code : ℕ) → Fuzz Done
unfolding close_all
sigio_handler w c from_kernel fd band code = do
  _ ←
      if from_kernel
      then (do
        _ ← when (not c.logging) (put (printed "SIGIO due to RT queue overflow\n" []))
        n ← ask (λ s. length s.events)
        close_all w c n 0)
      else put (printed "SIGIO from fd %d band %lx code %d\n" (fd ∷ (band ∷ (code ∷ []))))
  count_stat (λ x. record x { sigios = one_more x.sigios })

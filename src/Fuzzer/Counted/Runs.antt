-- ===== src/Fuzzer/Counted/Runs.antt =====
-- The states that the fuzzer reaches with events opened and closed, and with its signal handlers in between.
use perf_event_tests.Base.{
  ℕ, zero, suc, ◌^◌, ◌<◌, ◌≡◌, refl, sym, ap, subst, Bool, false, some, List, [], ◌∷◌, arith,
  length,
}
use perf_event_tests.Fuzzer.State.{State, World, Config}
use perf_event_tests.Fuzzer.Calm.{activity}
use perf_event_tests.Fuzzer.Calm.Operations.{mmap_random_event-Calm, our_handler-Calm}
use perf_event_tests.Fuzzer.Setup.{mmap_random_event}
use perf_event_tests.Fuzzer.Close.{close_random_event}
use perf_event_tests.Fuzzer.Open.{Ended, open_random_event}
use perf_event_tests.Fuzzer.Overflow.{our_handler, sigio_handler}
use perf_event_tests.Fuzzer.Counted.{Right, Ensures-Calm, trues}
use perf_event_tests.Fuzzer.Counted.Operations.{
  open_random_event-Right, close_random_event-Right, sigio_handler-Right,
}

abbrev pub closed : ℕ → List Bool
closed zero = []
closed (suc n) = false ∷ closed n

-- `event_data` is static memory, which is zero; `size` is NUM_EVENTS, 100000 in the source. A signal is handled between two
-- operations. `other` is any step that leaves the activity of the events and the counter alone.
pub data Running (w : World) (c : Config) : State → Type 0 where
  start :
      (s : State) (size : ℕ)
      → size < 2 ^ 31
      → activity s.events ≡ closed size
      → s.active_events ≡ 0
      → Running w c s
  opens :
      (s s' : State) (fuel : ℕ) (mmap_enabled overflow_enabled : Bool) (ended : Ended)
      → Running w c s
      → open_random_event fuel w c mmap_enabled overflow_enabled s ≡ some (ended, s')
      → Running w c s'
  closes :
      (s s' : State) → Running w c s → close_random_event w c s ≡ some (tt, s') → Running w c s'
  maps_or_unmaps :
      (s s' : State) (trash : Bool)
      → Running w c s
      → mmap_random_event w c trash s ≡ some (tt, s')
      → Running w c s'
  overflows :
      (s s' : State) (fd : ℕ)
      → Running w c s
      → our_handler w c fd s ≡ some (tt, s')
      → Running w c s'
  signals :
      (s s' : State) (from_kernel : Bool) (fd band code : ℕ)
      → Running w c s
      → sigio_handler w c from_kernel fd band code s ≡ some (tt, s')
      → Running w c s'
  other :
      (s s' : State)
      → Running w c s
      → activity s'.events ≡ activity s.events
      → s'.active_events ≡ s.active_events
      → Running w c s'

length-closed : (n : ℕ) → length (closed n) ≡ n
length-closed zero = refl
length-closed (suc n) = ap suc (length-closed n)

trues-closed : (n : ℕ) → trues (closed n) ≡ 0
trues-closed zero = refl
trues-closed (suc n) = omega (arith, trues-closed n)

-- In every state that the fuzzer reaches from a table of closed events by opening, closing and mapping
-- events and by its signal handlers in between, `active_events` is the number of the events that are open,
-- and the table is still shorter than 2^31.
pub Running-Right :
    (w : World) (c : Config) (s : State) → Running w c s → Right (activity s.events) s.active_events
Running-Right w c s (start _ size h e n) =
    subst (λ l. Right l s.active_events) (sym e)
      (omega (arith, n, trues-closed size), omega (arith, h, length-closed size))
Running-Right w c s (opens t _ fuel m o ended r e) =
    (open_random_event-Right w c fuel m o).run t ended s (Running-Right w c t r) e
Running-Right w c s (closes t _ r e) =
    (close_random_event-Right w c).run t tt s (Running-Right w c t r) e
Running-Right w c s (maps_or_unmaps t _ trash r e) =
    (Ensures-Calm Right (mmap_random_event-Calm w c trash)).run t tt s (Running-Right w c t r) e
Running-Right w c s (overflows t _ fd r e) =
    (Ensures-Calm Right (our_handler-Calm w c fd)).run t tt s (Running-Right w c t r) e
Running-Right w c s (signals t _ from_kernel fd band code r e) =
    (sigio_handler-Right w c from_kernel fd band code).run t tt s (Running-Right w c t r) e
Running-Right w c s (other t _ r e n) =
    subst (λ l. Right l s.active_events) (sym e)
      (subst (λ k. Right (activity t.events) k) (sym n) (Running-Right w c t r))

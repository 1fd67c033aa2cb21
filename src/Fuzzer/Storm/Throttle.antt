-- ===== src/Fuzzer/Storm/Throttle.antt =====
-- What the branches of `overflowed` do to the counts of the event.
use perf_event_tests.Base.{ℕ, ◌<◌, List, [], ◌∷◌, ◌++◌, ◌≡◌, refl, sym, ap, subst, Bool, arith}
use perf_event_tests.Fuzzer.State.{
  Call, closing, made, OurMmap, Event, State, World, Config, plus_one,
}
use perf_event_tests.Fuzzer.Mmap.{perf_mmap_read}
use perf_event_tests.Fuzzer.Overflow.{exceeds, given_up, throttle, read_and_refresh}
use perf_event_tests.Fuzzer.Takes.{
  Takes, Keeps, Takes-bind, Keeps-bind, Takes-if, Keeps-if, Keeps-pure, Keeps-ask, Takes-given,
  Takes-ask,
}
use perf_event_tests.Fuzzer.Storm.{
  Signalled, made-Takes, signals, change_event-Takes, change-Takes, change-Keeps, call-Keeps,
  call-Takes, event_at-Takes, event_at-Keeps, mmap_at-Takes, change_mmap-Keeps, lookup_event-Takes,
}

pub same_events : (s : State) → s.events ≡ s.events
same_events s = refl

pub same_mmaps : (s : State) → s.mmaps ≡ s.mmaps
same_mmaps s = refl

pub same_number : (s : State) → s.active_events ≡ s.active_events
same_number s = refl

pub same_handling : (s : State) → s.already_handling ≡ s.already_handling
same_handling s = refl

pub same_calls : (s : State) → s.calls ≡ s.calls
same_calls s = refl

pub same_aux : (m : OurMmap) → m.aux ≡ m.aux
same_aux m = refl

pub ruleset keeping = (
  Keeps-bind, Keeps-if, Keeps-pure, change-Keeps, call-Keeps, event_at-Keeps, change_mmap-Keeps,
  same_events, same_mmaps, same_number, same_handling, same_calls, same_aux,
)

module _ (w : World) (c : Config) (i fd which : ℕ) (cs : List Call) where
  read-Keeps :
      (a b : ℕ) (busy : Bool) → Keeps (Signalled i fd which cs a b busy) (perf_mmap_read w which)
  unfolding perf_mmap_read
  read-Keeps a b busy = Takes-bind _ _ (mmap_at-Takes i fd which cs a b busy) λ m.
      Takes-given λ no_aux.
        Takes-if m.aux (λ aux. absurd (ground (arith, aux, no_aux))) λ _. search keeping depth 40

  pub refresh-Keeps :
      (a b : ℕ) (busy : Bool) → Keeps (Signalled i fd which cs a b busy) (read_and_refresh w i fd)
  unfolding read_and_refresh
  refresh-Keeps a b busy = Takes-bind _ _ (event_at-Takes i fd which cs a b busy) λ e.
      Takes-given λ said.
        Keeps-bind _
          (subst (λ k. Keeps (Signalled i fd which cs a b busy) (perf_mmap_read w k)) (sym said.1)
            (read-Keeps a b busy))
          λ _. Keeps-bind _ (Keeps-ask _) λ n. Keeps-bind _ (search keeping) λ ok.
            Keeps-if ok
              (change_event-Takes i fd which cs a b a b busy (λ x. record x { last_refresh = n })
                (λ e. (refl, refl, refl)) (λ e h. h) (λ e h. h))
              (Keeps-pure tt)

  -- More than 10000: counted anew, and throttled once more.
  throttle-Takes :
      (cs' : List Call) (a b : ℕ) (busy : Bool)
      → ((e : Event)
          → (e.fd ≡ fd)
          → (e.throttles ≡ plus_one b)
          → Takes
              (Signalled i fd which cs 0 (plus_one b) busy)
              (given_up w e)
              (λ _. Signalled i fd which cs' 0 (plus_one b) busy))
      → Takes
          (Signalled i fd which cs a b busy)
          (throttle w c i)
          (λ _. Signalled i fd which cs' 0 (plus_one b) busy)
  unfolding throttle
  throttle-Takes cs' a b busy ends =
      Takes-bind _ (λ _. Signalled i fd which cs a b busy) (search keeping)
        λ _.
          Takes-bind _ (λ _. Signalled i fd which cs a b busy) (search keeping)
            λ _.
              Takes-bind _ (λ _. Signalled i fd which cs 0 b busy)
                (change_event-Takes i fd which cs a b 0 b busy _ (λ e. (refl, refl, refl))
                  (λ e h. refl) (λ e h. h))
                λ _.
                  Takes-bind _ (λ _. Signalled i fd which cs 0 (plus_one b) busy)
                    (change_event-Takes i fd which cs 0 b 0 (plus_one b) busy _
                      (λ e. (refl, refl, refl)) (λ e h. h) (λ e h. ap plus_one h))
                    λ _.
                      Takes-bind _ (λ _. Signalled i fd which cs 0 (plus_one b) busy)
                        (search keeping)
                        λ _.
                          Takes-bind _ _ (event_at-Takes i fd which cs 0 (plus_one b) busy)
                            λ e. Takes-given λ said. ends e said.2 said.3

  pub throttle-goes_on :
      (a b : ℕ) (busy : Bool)
      → b < 10
      → Takes
          (Signalled i fd which cs a b busy)
          (throttle w c i)
          (λ _. Signalled i fd which cs 0 (plus_one b) busy)
  throttle-goes_on a b busy few = throttle-Takes cs a b busy λ e fds throttles.
      Takes-if (exceeds e.throttles 10) (λ many. absurd (ground (arith, many, throttles, few)))
        λ _. Keeps-pure tt

  -- The eleventh time: the file descriptor is closed.
  pub throttle-gives_up :
      (a : ℕ) (busy : Bool)
      → Takes
          (Signalled i fd which cs a 10 busy)
          (throttle w c i)
          (λ _. Signalled i fd which (cs ++ (closing fd ∷ [])) 0 11 busy)
  throttle-gives_up a busy = throttle-Takes (cs ++ (closing fd ∷ [])) a 10 busy λ e fds throttles.
      Takes-if (exceeds e.throttles 10)
        (λ _.
          Takes-bind _ (λ _. Signalled i fd which cs 0 11 busy) (search keeping)
            λ _.
              Takes-bind _ (λ _. Signalled i fd which (cs ++ (closing fd ∷ [])) 0 11 busy)
                (subst
                  (λ k.
                    Takes (Signalled i fd which cs 0 11 busy) (made (closing k) (λ t. w.close t k))
                      (λ _. Signalled i fd which (cs ++ (closing fd ∷ [])) 0 11 busy))
                  (sym fds) (made-Takes i fd which cs 0 11 busy (closing fd) (λ t. w.close t fd)))
                λ _. Keeps-pure tt)
        λ few. absurd (ground (arith, few, throttles))

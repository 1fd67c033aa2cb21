-- ===== src/Fuzzer/Sound/Handlers.antt =====
-- fuzzer/fuzz_open.c and fuzzer/fuzz_overflow.c keep the table of mappings and its counter sound.
use perf_event_tests.Base.{ℕ, zero, suc, ◌≡◌, Bool, true, false}
use perf_event_tests.Fuzzer.State.{World, Config, pure, ◌>>=◌}
use perf_event_tests.Fuzzer.Close.{close_random_event}
use perf_event_tests.Fuzzer.Open.{
  Attempt, opened, gave_up, exited, again, after_open, open_random_event, returned, stopped,
  running,
}
use perf_event_tests.Fuzzer.Overflow.{
  read_and_refresh, overflowed, our_handler, close_all, sigio_handler,
}
use perf_event_tests.Fuzzer.Triple.{
  Table, Triple, Triple-bind, Triple-Steady, Triple-pure, Triple-if, Triple-if_found, steady,
}
use perf_event_tests.Fuzzer.Steady.{find_event-Steady}
use perf_event_tests.Fuzzer.Steady.Operations
use perf_event_tests.Fuzzer.Table.{Sound}
use perf_event_tests.Fuzzer.Sound.Unmap.{Unmaps}
use perf_event_tests.Fuzzer.Sound.Setup.{setup_mmap-Sound}
use perf_event_tests.Fuzzer.Sound.{close_event-Sound, perf_mmap_read-Sound}

module _ (w : World) (Accepted : ℕ → ℕ → Type 0) (kernel : Unmaps w Accepted) (c : Config)
    (maps : c.ignore_mmap ≡ false) where
  abbrev Good : Table
  Good = Sound Accepted

  after_open-Sound : (m o : Bool) (i fd : ℕ) → Triple Good (after_open w c m o i fd) (λ _. Good)
  unfolding after_open
  after_open-Sound m o i fd =
      Triple-bind _ (λ _. Good) (Triple-Steady _ (search steady))
        λ _.
          Triple-bind _ (λ _. Good) (Triple-Steady _ (search steady))
            λ _.
              Triple-bind _ (λ _. Good) (Triple-Steady _ (Operations.log_open-Steady w c i fd))
                λ _.
                  Triple-bind _ (λ _. Good)
                    (Triple-Steady _ (Operations.activate_event-Steady w c i fd))
                    λ _.
                      Triple-bind _ (λ _. Good)
                        (Triple-Steady _ (Operations.update_group-Steady w i))
                        λ _.
                          Triple-bind _ (λ _. Good)
                            (Triple-if m
                              (Triple-bind _ (λ _. Good)
                                (setup_mmap-Sound w Accepted kernel c maps i)
                                λ _. Triple-pure tt {Q = λ _. Good})
                              (Triple-pure tt {Q = λ _. Good}))
                            λ _.
                              Triple-bind _ (λ _. Good)
                                (Triple-if o
                                  (Triple-Steady _ (Operations.setup_overflow-Steady w c i))
                                  (Triple-pure tt {Q = λ _. Good}))
                                λ _. Triple-Steady _ (search steady depth 20)

  ending-Sound :
      (m o : Bool) (i : ℕ) (r : Attempt)
      → Triple Good
          (elim r [
            | opened fd ↦ (do _ ← after_open w c m o i fd; pure returned)
            | gave_up ↦ pure returned
            | exited ↦ pure stopped
            | again ↦ pure running
          ])
          (λ _. Good)
  ending-Sound m o i (opened fd) =
      Triple-bind _ (λ _. Good) (after_open-Sound m o i fd) λ _. Triple-pure returned
  ending-Sound m o i gave_up = Triple-pure returned
  ending-Sound m o i exited = Triple-pure stopped
  ending-Sound m o i again = Triple-pure running

  pub open_random_event-Sound :
      (fuel : ℕ) (m o : Bool) → Triple Good (open_random_event fuel w c m o) (λ _. Good)
  unfolding open_random_event
  open_random_event-Sound fuel m o =
      Triple-bind _ (λ _. Good) (Triple-Steady _ (Operations.find_empty-Steady w))
        λ found.
          Triple-if_found found (λ _. Triple-pure returned)
            λ i _.
              Triple-bind _ (λ _. Good) (Triple-Steady _ (search steady))
                λ _.
                  Triple-bind _ (λ _. Good) (Triple-Steady _ (search steady))
                    λ _.
                      Triple-bind _ (λ _. Good)
                        (Triple-Steady _ (Operations.open_loop-Steady w c fuel i))
                        λ r. ending-Sound m o i r

  pub close_random_event-Sound : Triple Good (close_random_event w c) (λ _. Good)
  unfolding close_random_event
  close_random_event-Sound =
      Triple-bind _ (λ _. Good) (Triple-Steady _ (find_event-Steady w))
        λ found. close_event-Sound w Accepted kernel c maps _ false

  read_and_refresh-Sound : (i fd : ℕ) → Triple Good (read_and_refresh w i fd) (λ _. Good)
  unfolding read_and_refresh
  read_and_refresh-Sound i fd =
      Triple-bind _ (λ _. Good) (Triple-Steady _ (search steady))
        λ e.
          Triple-bind _ (λ _. Good) (perf_mmap_read-Sound w Accepted kernel c maps e.mmap)
            λ _. Triple-Steady _ (search steady depth 20)

  overflowed-Sound : (i fd : ℕ) → Triple Good (overflowed w c i fd) (λ _. Good)
  unfolding overflowed
  overflowed-Sound i fd =
      Triple-bind _ (λ _. Good) (Triple-Steady _ (search steady))
        λ _.
          Triple-bind _ (λ _. Good) (Triple-Steady _ (search steady))
            λ e.
              Triple-if _ (Triple-Steady _ (Operations.throttle-Steady w c i))
                (read_and_refresh-Sound i fd)

  pub our_handler-Sound : (fd : ℕ) → Triple Good (our_handler w c fd) (λ _. Good)
  unfolding our_handler
  our_handler-Sound fd =
      Triple-bind _ (λ _. Good) (Triple-Steady _ (search steady))
        λ busy. Triple-if busy (Triple-Steady _ (search steady)) (
          Triple-bind _ (λ _. Good) (Triple-Steady _ (search steady))
            λ _.
              Triple-bind _ (λ _. Good) (Triple-Steady _ (search steady))
                λ _.
                  Triple-bind _ (λ _. Good) (Triple-Steady _ (search steady))
                    λ cs.
                      Triple-bind _ (λ _. Good) (Triple-Steady _ (search steady))
                        λ success.
                          Triple-bind _ (λ _. Good)
                            (Triple-if success
                              (Triple-bind _ (λ _. Good)
                                (Triple-Steady _ (Operations.lookup-Steady w fd))
                                λ found.
                                  Triple-if_found found (λ _. Triple-pure tt)
                                    λ i _. overflowed-Sound i fd)
                              (Triple-Steady _ (search steady depth 20)))
                            λ _. Triple-Steady _ (search steady))

  close_all-Sound : (n i : ℕ) → Triple Good (close_all w c n i) (λ _. Good)
  unfolding close_all
  close_all-Sound zero i = Triple-pure tt
  close_all-Sound (suc n) i =
      Triple-bind _ (λ _. Good) (Triple-Steady _ (search steady))
        λ e.
          Triple-bind _ (λ _. Good)
            (Triple-if e.active (close_event-Sound w Accepted kernel c maps i true)
              (Triple-pure tt))
            λ _. close_all-Sound n (suc i)

  pub sigio_handler-Sound :
      (from_kernel : Bool) (fd band code : ℕ)
      → Triple Good (sigio_handler w c from_kernel fd band code) (λ _. Good)
  unfolding sigio_handler
  sigio_handler-Sound from_kernel fd band code =
      Triple-bind _ (λ _. Good)
        (Triple-if from_kernel
          (Triple-bind _ (λ _. Good) (Triple-Steady _ (search steady))
            λ _.
              Triple-bind _ (λ _. Good) (Triple-Steady _ (search steady)) λ n. close_all-Sound n 0)
          (Triple-Steady _ (search steady)))
        λ _. Triple-Steady _ (search steady)

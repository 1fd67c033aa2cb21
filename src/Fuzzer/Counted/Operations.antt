-- ===== src/Fuzzer/Counted/Operations.antt =====
-- Opening and closing keep the counter of open events right.
use perf_event_tests.Base.{
  ℕ, zero, suc, ◌≡◌, refl, Bool, true, false, not, Option, none, some, List, ◌==◌,
}
use perf_event_tests.Fuzzer.State.{World, Config, Fuzz, pure, ◌>>=◌, when}
use perf_event_tests.Fuzzer.Calm.{Calm, Calm-bind, Calm-pure, calm}
use perf_event_tests.Fuzzer.Calm.Operations
use perf_event_tests.Fuzzer.Setup.{to_int, is_negative}
use perf_event_tests.Fuzzer.Close.{close_active, close_event, close_random_event}
use perf_event_tests.Fuzzer.Open.{
  Attempt, opened, gave_up, exited, again, open_loop, activate_event, after_open, open_random_event,
  returned, stopped, running,
}
use perf_event_tests.Fuzzer.Overflow.{close_all, sigio_handler}
use perf_event_tests.Fuzzer.Counted.{
  Ensures, Right, At, Early, Late, Ensures-bind, Ensures-Calm, Ensures-weaken, Ensures-test,
  Ensures-if_found, Ensures-open, Ensures-close, Ensures-count_up, Ensures-count_down,
  Ensures-event_at,
}
use perf_event_tests.Fuzzer.Counted.Search.{FoundAt, find_empty-FoundAt, find_active-FoundAt}

still_right :
    {A : Type 0} {i : ℕ} {b : Bool} {m : Fuzz A} → Calm m → Ensures (At i b) m (λ _. Right)
still_right {i} {b} h = Ensures-weaken (λ bs n p. p) (λ _ bs n p. p.0) (Ensures-Calm (At i b) h)

module _ (w : World) where
  module _ (c : Config) where
    next-Calm :
        (m : Fuzz Attempt)
        → Calm m
        → (r : Attempt)
        → Calm (elim r [
          | again ↦ m
          | opened fd ↦ pure (opened fd)
          | gave_up ↦ pure gave_up
          | exited ↦ pure exited
        ])
    next-Calm m h again = h
    next-Calm m h (opened fd) = Calm-pure (opened fd)
    next-Calm m h gave_up = Calm-pure gave_up
    next-Calm m h exited = Calm-pure exited

    open_loop-Calm : (fuel i : ℕ) → Calm (open_loop fuel w c i)
    unfolding open_loop
    open_loop-Calm zero i = Calm-pure again
    open_loop-Calm (suc fuel) i =
        Calm-bind _ (Operations.attempt-Calm w c i)
          (next-Calm (open_loop fuel w c i) (open_loop-Calm fuel i))

    activate-Right : (i fd : ℕ) → Ensures (At i false) (activate_event i fd) (λ _. Right)
    unfolding activate_event
    activate-Right i fd =
        Ensures-bind _ (λ _. At i false) (Ensures-Calm (At i false) (search calm))
          λ _. Ensures-bind _ (λ _. Early) (Ensures-open i _ (λ e. refl)) λ _. Ensures-count_up

    close_active-Right :
        (i : ℕ) (b u : Bool) → Ensures (At i true) (close_active w c i b u) (λ _. Right)
    unfolding close_active
    close_active-Right i b u =
        Ensures-bind _ (λ _. Late) (Ensures-close i _ (λ e. refl))
          λ _.
            Ensures-bind _ (λ _. Late) (Ensures-Calm Late (search calm))
              λ e.
                Ensures-bind _ (λ _. Late)
                  (Ensures-Calm Late (search (calm, Operations.unmap-Calm)))
                  λ _.
                    Ensures-bind _ (λ _. Late)
                      (Ensures-Calm Late (Operations.close_fd-Calm w c e.fd b))
                      λ _.
                        Ensures-bind _ (λ _. Late)
                          (Ensures-Calm Late (search (calm, Operations.unmap-Calm)))
                          λ _. Ensures-count_down

    pub close_event-Right :
        (i : ℕ) (b : Bool) → Ensures (At i true) (close_event w c i b) (λ _. Right)
    unfolding close_event
    close_event-Right i b =
        Ensures-test (is_negative i) (λ _. still_right (search calm))
          λ _.
            Ensures-bind _ (λ _. At i true) (Ensures-Calm (At i true) (search calm))
              λ r.
                Ensures-test c.ignore_close (λ _. still_right (search calm))
                  λ _. close_active-Right i b (not (r == 0))

    after_open-Right :
        (mmap_enabled overflow_enabled : Bool) (i fd : ℕ)
        → Ensures (At i false) (after_open w c mmap_enabled overflow_enabled i fd) (λ _. Right)
    unfolding after_open
    after_open-Right mmap_enabled overflow_enabled i fd =
        Ensures-bind _ (λ _. At i false) (Ensures-Calm (At i false) (search calm))
          λ _.
            Ensures-bind _ (λ _. At i false) (Ensures-Calm (At i false) (search calm))
              λ _.
                Ensures-bind _ (λ _. At i false)
                  (Ensures-Calm (At i false) (Operations.log_open-Calm w c i fd))
                  λ _.
                    Ensures-bind _ (λ _. Right) (activate-Right i fd)
                      λ _. Ensures-Calm Right (
                        search
                          (
                            calm, Operations.update_group-Calm, Operations.setup-Calm,
                            Operations.setup_overflow-Calm,
                          )
                          depth 40)

    ending-Right :
        (mmap_enabled overflow_enabled : Bool) (i : ℕ) (r : Attempt)
        → Ensures
            (At i false)
            (elim r [
              | opened fd ↦ (do
                _ ← after_open w c mmap_enabled overflow_enabled i fd
                pure returned)
              | gave_up ↦ pure returned
              | exited ↦ pure stopped
              | again ↦ pure running
            ])
            (λ _. Right)
    ending-Right mmap_enabled overflow_enabled i (opened fd) =
        Ensures-bind _ (λ _. Right) (after_open-Right mmap_enabled overflow_enabled i fd)
          λ _. Ensures-Calm Right (Calm-pure returned)
    ending-Right mmap_enabled overflow_enabled i gave_up = still_right (Calm-pure returned)
    ending-Right mmap_enabled overflow_enabled i exited = still_right (Calm-pure stopped)
    ending-Right mmap_enabled overflow_enabled i again = still_right (Calm-pure running)

    found_right :
        (b : Bool) (i : ℕ) (o : Option ℕ)
        → o ≡ some i
        → (bs : List Bool) (n : ℕ) → FoundAt b o bs n
        → At i b bs n
    found_right b i o e bs n h = (h.0, h.1 i e)

    pub open_random_event-Right :
        (fuel : ℕ) (mmap_enabled overflow_enabled : Bool)
        → Ensures Right (open_random_event fuel w c mmap_enabled overflow_enabled) (λ _. Right)
    unfolding open_random_event
    open_random_event-Right fuel mmap_enabled overflow_enabled =
        Ensures-bind _ (FoundAt false) find_empty-FoundAt λ o.
          Ensures-if_found o
            (λ _.
              Ensures-weaken (λ bs n p. p.0) (λ _ bs n p. p)
                (Ensures-Calm Right (Calm-pure returned)))
            λ i e.
              Ensures-weaken (found_right false i o e) (λ _ bs n p. p)
                (Ensures-bind _ (λ _. At i false) (Ensures-Calm (At i false) (search calm depth 20))
                  λ _.
                    Ensures-bind _ (λ _. At i false)
                      (Ensures-Calm (At i false) (search calm depth 20))
                      λ _.
                        Ensures-bind _ (λ _. At i false)
                          (Ensures-Calm (At i false) (open_loop-Calm fuel i))
                          λ r. ending-Right mmap_enabled overflow_enabled i r)

    close_open-Right :
        (i : ℕ) (b : Bool) → Ensures (At i b) (when b (close_event w c i true)) (λ _. Right)
    close_open-Right i true = close_event-Right i true
    close_open-Right i false = still_right (Calm-pure tt)

    close_all-Right : (n i : ℕ) → Ensures Right (close_all w c n i) (λ _. Right)
    unfolding close_all
    close_all-Right zero i = Ensures-Calm Right (Calm-pure tt)
    close_all-Right (suc n) i =
        Ensures-bind _ (λ e. At i e.active) (Ensures-event_at i Right)
          λ e.
            Ensures-bind _ (λ _. Right) (close_open-Right i e.active) λ _. close_all-Right n (suc i)

    close_found-Right :
        (o : Option ℕ) → Ensures (FoundAt true o) (close_event w c (to_int o) false) (λ _. Right)
    unfolding close_event
    close_found-Right none =
        Ensures-weaken (λ bs n p. p.0) (λ _ bs n p. p) (Ensures-Calm Right (Calm-pure tt))
    close_found-Right (some i) =
        Ensures-weaken (λ bs n h. (h.0, h.1 i refl)) (λ _ bs n p. p) (close_event-Right i false)

    pub close_random_event-Right : Ensures Right (close_random_event w c) (λ _. Right)
    unfolding close_random_event
    close_random_event-Right =
        Ensures-bind _ (FoundAt true) (find_active-FoundAt w) close_found-Right

    pub sigio_handler-Right :
        (from_kernel : Bool) (fd band code : ℕ)
        → Ensures Right (sigio_handler w c from_kernel fd band code) (λ _. Right)
    unfolding sigio_handler
    sigio_handler-Right from_kernel fd band code =
        Ensures-bind _ (λ _. Right)
          (Ensures-test from_kernel
            (λ _.
              Ensures-bind _ (λ _. Right) (Ensures-Calm Right (search calm depth 20))
                λ _.
                  Ensures-bind _ (λ _. Right) (Ensures-Calm Right (search calm))
                    λ n. close_all-Right n 0)
            (λ _. Ensures-Calm Right (search calm depth 20)))
          λ _. Ensures-Calm Right (search calm depth 20)

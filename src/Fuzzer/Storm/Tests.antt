-- ===== src/Fuzzer/Storm/Tests.antt =====
-- 10003 signals of one event, which throttle it once, and the 110011 that make the handler give it up.
use perf_event_tests.Base.{refl, false, [], ◌∷◌, ◌++◌, arith}
use perf_event_tests.Fuzzer.State.{closing}
use perf_event_tests.Fuzzer.Runs.{Runs}
use perf_event_tests.Fuzzer.Tests.{small, all_logged, opened, mapping, running}
use perf_event_tests.Fuzzer.Storm.{Signalled, signals}
use perf_event_tests.Fuzzer.Storm.Handler.{signals_lem}

running-Signalled : Signalled 0 3 0 [] 0 0 false running
running-Signalled = record {
  event = opened;
  here = refl;
  found = refl;
  some_open = refl;
  event_overflows = refl;
  event_throttles = refl;
  event_mmap = refl;
  event_fd = refl;
  since = refl;
  handling = refl;
  mapping = mapping;
  slot = refl;
  no_aux = refl;
}

signals_lem_example :
    Runs (signals small all_logged 10003 3) running (λ _. Signalled 0 3 0 [] 2 1 false)
    × Runs
        (signals small all_logged 110011 3)
        running
        (λ _. Signalled 0 3 0 ([] ++ (closing 3 ∷ [])) 0 11 false)
signals_lem_example =
    signals_lem small all_logged 0 3 0 10003 running (λ t. refl) running-Signalled (omega arith)

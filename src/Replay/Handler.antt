-- ===== src/Replay/Handler.antt =====
-- fuzzer/replay_log.c, `our_handler`: the handler of the signals on an overflow.
use perf_event_tests.Base.{
  ℕ, ◌≡◌, ◌≢◌, ◌∙◌, false, Option, some, [], ◌∷◌, ◌++◌, arith, if◌then◌else◌, get_elem?, set,
}
use perf_event_tests.Fuzzer.State.{plus_one}
use perf_event_tests.Fuzzer.Overflow.{exceeds}
use perf_event_tests.Fuzzer.Table.{get_elem?-set, get_elem?-set_other}
use perf_event_tests.Replay.State.{
  number, EventType, closed, controlled, printed, State, minus_one, set_event, say, made, ◌>>=◌,
}
use perf_event_tests.Replay.Live.{is_open}

-- PERF_EVENT_IOC_DISABLE is 0x2401, PERF_EVENT_IOC_REFRESH 0x2402; their results are not looked at.
abbrev pub disabled_first : (fd : ℕ) → State → State
disabled_first fd s =
    made (controlled fd 0x2401 (number 0)) (record s { overflows = plus_one s.overflows })

-- MAX_THROTTLES is 20. The fd is the kernel's, and so is the index of `event`.
abbrev pub given_up : (fd : ℕ) → State → Option State
given_up fd s = do
  e ← get_elem? s.event fd
  some (
      set_event fd (record e { fd_remap = minus_one })
        (made (closed fd) (say (printed "Hit max throttles\n" []) s)))

unfoldable pub our_handler : (fd : ℕ) → State → Option State
our_handler fd s = do
  let t = disabled_first fd s
  n ← get_elem? t.fd_overflows fd
  if exceeds (plus_one n) 10000
      then (do
        k ← get_elem? t.fd_throttles fd
        let told = say (printed "Throttling event %d\n" (fd ∷ [])) t
        let u = record told {
          fd_overflows = set t.fd_overflows fd 0;
          fd_throttles = set t.fd_throttles fd (plus_one k);
        }
        if exceeds (plus_one k) 20 then given_up fd u else some u)
      else some (
          made (controlled fd 0x2402 (number 1))
            (record t { fd_overflows = set t.fd_overflows fd (plus_one n) }))

-- The last throttle of an event whose fd in the log is not its fd in the kernel: the handler closes the fd, and
-- the table still names it for the event, while the entry of another fd is given up.
pub our_handler-stale :
    (s : State) (i fd : ℕ) (e other : EventType)
    → i ≢ fd
    → get_elem? s.event i ≡ some e
    → e.fd_remap ≡ fd
    → get_elem? s.event fd ≡ some other
    → get_elem? s.fd_overflows fd ≡ some 10000
    → get_elem? s.fd_throttles fd ≡ some 20
    → (t : State) × (our_handler fd s ≡ some t)
      × (get_elem? t.event i ≡ some e)
      × (is_open e.fd_remap t.calls ≡ false)
      × (get_elem? t.event fd ≡ some (record other { fd_remap = minus_one }))
unfolding our_handler ◌>>=◌
our_handler-stale s i fd e other apart here named there overflows throttles =
    let t : State = record s {
      event = set s.event fd (record other { fd_remap = minus_one });
      fd_overflows = set s.fd_overflows fd 0;
      fd_throttles = set s.fd_throttles fd 21;
      overflows = plus_one s.overflows;
      calls = closed fd ∷ (controlled fd 0x2401 (number 0) ∷ s.calls);
      output =
          (s.output ++ (printed "Throttling event %d\n" (fd ∷ []) ∷ []))
          ++ (printed "Hit max throttles\n" [] ∷ []);
    } in
    (
      t,
      rw (overflows, throttles, there),
      get_elem?-set_other s.event fd i (record other { fd_remap = minus_one }) apart ∙ here,
      ground (arith, named),
      get_elem?-set s.event fd other (record other { fd_remap = minus_one }) there,
    )

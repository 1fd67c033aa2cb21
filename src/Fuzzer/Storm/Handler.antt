-- ===== src/Fuzzer/Storm/Handler.antt =====
-- What a signal does to the counts of its event.
use perf_event_tests.Base.{
  ℕ, zero, suc, ◌/◌, ◌%◌, ◌≤◌, ◌<◌, ◌∙◌, List, [], ◌∷◌, ◌++◌, ◌≡◌, refl, sym, ap, subst, Bool, true,
  false, arith,
}
use native.Mathlib.Decide.{dec_lt}
use perf_event_tests.Fuzzer.State.{
  Call, closing, pure, Fuzz, State, World, Config, Done, plus_one, if_found,
}
use perf_event_tests.Fuzzer.Overflow.{exceeds, throttle, overflowed, our_handler}
use perf_event_tests.Fuzzer.Runs.{Runs}
use perf_event_tests.Fuzzer.Takes.{Takes, Takes-bind, Takes-if, Keeps-pure, Takes-given, Takes-ask}
use perf_event_tests.Fuzzer.Storm.{
  Signalled, signals, change_event-Takes, change-Takes, call-Takes, event_at-Takes,
  lookup_event-Takes,
}
use perf_event_tests.Fuzzer.Storm.Throttle.{
  same_events, same_mmaps, same_number, same_calls, keeping, refresh-Keeps, throttle-goes_on,
  throttle-gives_up,
}

module _ (w : World) (c : Config) (i fd which : ℕ) (cs : List Call) where
  overflowed-Takes :
      (a b : ℕ) (busy : Bool)
      → a < 10000
      → Takes
          (Signalled i fd which cs a b busy)
          (overflowed w c i fd)
          (λ _. Signalled i fd which cs (suc a) b busy)
  unfolding overflowed
  overflowed-Takes a b busy few =
      Takes-bind _ (λ _. Signalled i fd which cs (suc a) b busy)
        (change_event-Takes i fd which cs a b (suc a) b busy _ (λ e. (refl, refl, refl))
          (λ e h. omega (arith, h)) (λ e h. h))
        λ _. Takes-bind _ _ (event_at-Takes i fd which cs (suc a) b busy) λ e. Takes-given λ said.
          Takes-if (exceeds e.overflows 10000) (λ many. absurd (ground (arith, many, said.0, few)))
            λ _. refresh-Keeps w c i fd which cs (suc a) b busy

  overflowed-throttles :
      (cs' : List Call) (b b' : ℕ) (busy : Bool)
      → Takes
          (Signalled i fd which cs 10001 b busy)
          (throttle w c i)
          (λ _. Signalled i fd which cs' 0 b' busy)
      → Takes
          (Signalled i fd which cs 10000 b busy)
          (overflowed w c i fd)
          (λ _. Signalled i fd which cs' 0 b' busy)
  unfolding overflowed
  overflowed-throttles cs' b b' busy throttles =
      Takes-bind _ (λ _. Signalled i fd which cs 10001 b busy)
        (change_event-Takes i fd which cs 10000 b 10001 b busy _ (λ e. (refl, refl, refl))
          (λ e h. omega (arith, h)) (λ e h. h))
        λ _. Takes-bind _ _ (event_at-Takes i fd which cs 10001 b busy) λ e. Takes-given λ said.
          Takes-if (exceeds e.overflows 10000) (λ _. throttles)
            λ few. absurd (ground (arith, few, said.0))

  -- The guard is taken before the event is looked up, and given back behind it.
  handler-Takes :
      (cs' : List Call) (a b a' b' : ℕ)
      → ((t : ℕ) → w.disable cs t fd ≡ true)
      → Takes
          (Signalled i fd which cs a b true)
          (overflowed w c i fd)
          (λ _. Signalled i fd which cs' a' b' true)
      → Takes
          (Signalled i fd which cs a b false)
          (our_handler w c fd)
          (λ _. Signalled i fd which cs' a' b' false)
  unfolding our_handler if_found
  handler-Takes cs' a b a' b' disables counts =
      Takes-bind _ (λ busy s. Signalled i fd which cs a b false s × (busy ≡ false))
        (Takes-ask _ _ (λ s h. (h, h.handling)))
        λ busy. Takes-given λ idle.
          Takes-if busy (λ taken. absurd (ground (arith, taken, idle)))
            λ _.
              Takes-bind _ (λ _. Signalled i fd which cs a b true)
                (change-Takes i fd which cs a b false true _ same_events same_mmaps same_number
                  (λ s h. refl) same_calls)
                λ _.
                  Takes-bind _ (λ _. Signalled i fd which cs a b true) (search keeping)
                    λ _.
                      Takes-bind _ (λ k s. Signalled i fd which cs a b true s × (k ≡ cs))
                        (Takes-ask _ _ (λ s h. (h, h.since)))
                        λ k. Takes-given λ same.
                          Takes-bind _ (λ ok s. Signalled i fd which cs a b true s × (ok ≡ true))
                            (call-Takes i fd which cs a b true _ (λ ok. ok ≡ true)
                              (λ t. ap (λ l. w.disable l t fd) same ∙ disables t))
                            λ ok. Takes-given λ disabled.
                              Takes-bind _ (λ _. Signalled i fd which cs' a' b' true)
                                (Takes-if ok
                                  (λ _.
                                    Takes-bind _ _ (lookup_event-Takes i fd which cs a b true) λ o.
                                      Takes-given λ here.
                                        subst
                                          (λ o.
                                            Takes (Signalled i fd which cs a b true)
                                              (if_found o (pure tt) λ j. overflowed w c j fd)
                                              (λ _. Signalled i fd which cs' a' b' true))
                                          (sym here) counts)
                                  (λ no. absurd (ground (arith, no, disabled))))
                                λ _.
                                  change-Takes i fd which cs' a' b' true false _ same_events
                                    same_mmaps same_number (λ s h. refl) same_calls

  retold :
      (a b a' b' : ℕ) {P : State → Type 0} {m : Fuzz Done}
      → a ≡ a'
      → b ≡ b'
      → Takes P m (λ _. Signalled i fd which cs a b false)
      → Takes P m (λ _. Signalled i fd which cs a' b' false)
  retold a b a' b' {P} {m} same_a same_b h =
      subst (λ k. Takes P m (λ _. Signalled i fd which cs k b' false)) same_a
        (subst (λ k. Takes P m (λ _. Signalled i fd which cs a k false)) same_b h)

  module _ (disables : (t : ℕ) → w.disable cs t fd ≡ true) where
    after_one :
        (n : ℕ)
        → n < 110010
        → Takes
            (Signalled i fd which cs (n % 10001) (n / 10001) false)
            (our_handler w c fd)
            (λ _. Signalled i fd which cs (suc n % 10001) (suc n / 10001) false)
    after_one n low = elim (dec_lt (n % 10001) 10000) [
      | yes few ↦
          retold (suc (n % 10001)) (n / 10001) _ _ (omega (arith, few)) (omega (arith, few))
            (handler-Takes cs (n % 10001) (n / 10001) _ _ disables (overflowed-Takes _ _ true few))
      | no full ↦
          let last : 10000 ≡ n % 10001 = omega (arith, full) in
          retold 0 (plus_one (n / 10001)) _ _ (omega (arith, full)) (omega (arith, full, low)) (
            subst
              (λ k.
                Takes (Signalled i fd which cs k (n / 10001) false) (our_handler w c fd)
                  (λ _. Signalled i fd which cs 0 (plus_one (n / 10001)) false))
              last
              (handler-Takes cs 10000 (n / 10001) _ _ disables (
                overflowed-throttles cs (n / 10001) _ true (
                  throttle-goes_on w c i fd which cs 10001 (n / 10001) true
                    (omega (arith, full, low))))))
    ]

    signals-Signalled :
        (n : ℕ)
        → n ≤ 110010
        → Takes
            (Signalled i fd which cs 0 0 false)
            (signals w c n fd)
            (λ _. Signalled i fd which cs (n % 10001) (n / 10001) false)
    unfolding signals
    signals-Signalled zero low = Keeps-pure tt
    signals-Signalled (suc n) low =
        Takes-bind _ (λ _. Signalled i fd which cs (n % 10001) (n / 10001) false)
          (signals-Signalled n (omega (arith, low))) λ _. after_one n (omega (arith, low))

    storm-gives_up :
        (n : ℕ)
        → n ≡ 110010
        → Takes
            (Signalled i fd which cs 0 0 false)
            (signals w c (suc n) fd)
            (λ _. Signalled i fd which (cs ++ (closing fd ∷ [])) 0 11 false)
    unfolding signals
    storm-gives_up n last =
        Takes-bind _ (λ _. Signalled i fd which cs 10000 10 false)
          (retold (n % 10001) (n / 10001) 10000 10 (omega (arith, last)) (omega (arith, last))
            (signals-Signalled n (omega (arith, last))))
          λ _. handler-Takes (cs ++ (closing fd ∷ [])) 10000 10 0 11 disables (
            overflowed-throttles (cs ++ (closing fd ∷ [])) 10 11 true
              (throttle-gives_up w c i fd which cs 10001 true))

-- Signals of an open event whose counts are 0 and whose mapping has no aux area, where the kernel
-- disables the event as long as `close` and `munmap` are not called. Up to 110010 signals are all
-- handled to the end: after `n` of them the event has n % 10001 overflows, it was throttled n / 10001
-- times, nothing was closed or unmapped, and the guard is free. The signal 110011 throttles the event
-- the 11th time and closes its file descriptor, the only call of the two kinds; the event is still
-- open in the table.
pub signals_lem :
    (w : World) (c : Config) (i fd which n : ℕ) (s : State)
    → ((t : ℕ) → w.disable s.calls t fd ≡ true)
    → Signalled i fd which s.calls 0 0 false s
    → n ≤ 110010
    → Runs (signals w c n fd) s (λ _. Signalled i fd which s.calls (n % 10001) (n / 10001) false)
      × Runs
          (signals w c 110011 fd)
          s
          (λ _. Signalled i fd which (s.calls ++ (closing fd ∷ [])) 0 11 false)
signals_lem w c i fd which n s disables h low = (
  (signals-Signalled w c i fd which s.calls disables n low).run s h,
  (storm-gives_up w c i fd which s.calls disables 110010 refl).run s h,
)

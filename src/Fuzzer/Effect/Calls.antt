-- ===== src/Fuzzer/Effect/Calls.antt =====
-- fuzzer/fuzz_mmap.c, `unmap_mmap` and the call of `close` in fuzzer/fuzz_close.c: what they change.
use perf_event_tests.Base.{
  ℕ, suc, ◌^◌, ◌<◌, ◌≡◌, refl, ap, subst, ◌∙◌, Bool, true, false, not, some, List, [], ◌∷◌, ◌++◌,
  arith, ◌==◌, if◌then◌else◌, get_elem?, set,
}
use perf_event_tests.Fuzzer.State.{
  Call, closing, unmapping, made, OurMmap, State, World, Config, Output, put, when, map_failed,
  change, change_mmap, mmap_at, minus_one,
}
use perf_event_tests.Fuzzer.Runs.{Runs, Runs-bind, Runs-then, Runs-pure, Runs-test}
use perf_event_tests.Fuzzer.Table.{get_elem?-set}
use perf_event_tests.Fuzzer.Setup.{unmap_mapped, unmap_mmap}
use perf_event_tests.Fuzzer.Close.{close_fd}

-- What an unmapped slot holds.
abbrev pub unmapped : OurMmap → OurMmap
unmapped m = if m.addr == map_failed then m else record m { active = false; addr = map_failed }

-- The calls of `close` and of `munmap`, the number of calls out of the program, and `active_mmaps`.
pub record Past : Type 0 where
  pub calls : List Call
  pub clock : ℕ
  pub active_mmaps : ℕ

abbrev pub past : State → Past
past s = record { calls = s.calls; clock = s.clock; active_mmaps = s.active_mmaps }

-- `munmap` of an address that is one, and one mapping less where the kernel does it.
abbrev pub unmapping_past : World → OurMmap → Past → Past
unmapping_past w m p = if m.addr == map_failed then p else record {
  calls = p.calls ++ (unmapping m.addr m.size ∷ []);
  clock = suc p.clock;
  active_mmaps =
      if w.munmap p.clock m.addr m.size then minus_one p.active_mmaps else p.active_mmaps;
}

abbrev pub closing_past : (fd : ℕ) → Past → Past
closing_past fd p = record p { calls = p.calls ++ (closing fd ∷ []); clock = suc p.clock }

-- Since `s`, slot `i` has come to hold `v`, and the events and their counter are as they were.
pub record Since (i : ℕ) (v : OurMmap) (p : Past) (s t : State) : Type 0 where
  pub here : get_elem? t.mmaps i ≡ some v
  pub events : t.events ≡ s.events
  pub active_events : t.active_events ≡ s.active_events
  pub calls : t.calls ≡ p.calls
  pub clock : t.clock ≡ p.clock
  pub active_mmaps : t.active_mmaps ≡ p.active_mmaps

change_mmap-Since :
    (i : ℕ) (v : OurMmap) (p : Past) (f : OurMmap → OurMmap) (s t : State)
    → Since i v p s t
    → Runs (change_mmap i f) t (λ _. Since i (f v) p s)
unfolding change_mmap
change_mmap-Since i v p f s t h = record {
  result = tt;
  after = record t { mmaps = set t.mmaps i (f v) };
  run = ground (arith, h.here);
  holds = record {
    here = get_elem?-set t.mmaps i v (f v) h.here;
    events = h.events;
    active_events = h.active_events;
    calls = h.calls;
    clock = h.clock;
    active_mmaps = h.active_mmaps;
  };
}

-- A state that differs in nothing that is looked at.
Since-alike :
    (i : ℕ) (v : OurMmap) (p : Past) (s t u : State)
    → u.mmaps ≡ t.mmaps
    → u.events ≡ t.events
    → u.active_events ≡ t.active_events
    → past u ≡ past t
    → Since i v p s t
    → Since i v p s u
Since-alike i v p s t u mmaps events number same h = record {
  here = ap (λ l. get_elem? l i) mmaps ∙ h.here;
  events = events ∙ h.events;
  active_events = number ∙ h.active_events;
  calls = ap (λ (q : Past). q.calls) same ∙ h.calls;
  clock = ap (λ (q : Past). q.clock) same ∙ h.clock;
  active_mmaps = ap (λ (q : Past). q.active_mmaps) same ∙ h.active_mmaps;
}

put-Since :
    (b : Bool) (o : Output) (i : ℕ) (v : OurMmap) (p : Past) (s t : State)
    → Since i v p s t
    → Runs (when b (put o)) t (λ _. Since i v p s)
unfolding change
put-Since true o i v p s t h = record {
  result = tt;
  after = record t { output = t.output ++ (o ∷ []) };
  run = refl;
  holds = Since-alike i v p s t (record t { output = t.output ++ (o ∷ []) }) refl refl refl refl h;
}
put-Since false o i v p s t h = Runs-pure tt t h

Since-as :
    (i : ℕ) (v v' : OurMmap) (p p' : Past) (s t : State)
    → v ≡ v'
    → p ≡ p'
    → Since i v p s t
    → Since i v' p' s t
Since-as i v v' p p' s t same_v same_p h =
    subst (λ q. Since i v' q s t) same_p (subst (λ x. Since i x p s t) same_v h)

module _ (w : World) (c : Config) where
  unmap_mapped_lem :
      (i : ℕ) (b : Bool) (m : OurMmap) (p : Past) (s t : State)
      → Since i m p s t
      → (m.addr == map_failed) ≡ false
      → Runs (unmap_mapped w c i b m) t (λ _. Since i (unmapped m) (unmapping_past w m p) s)
  unfolding unmap_mapped made change
  unmap_mapped_lem i b m p s t here mapped =
      Runs-then _ _ t (change_mmap-Since i m p (λ x. record x { active = false }) s t here)
        λ _ t1 h1.
          let u : State = record t1 {
            clock = suc t1.clock;
            calls = t1.calls ++ (unmapping m.addr m.size ∷ []);
          } in
          let q : Past = record p {
            clock = suc p.clock;
            calls = p.calls ++ (unmapping m.addr m.size ∷ []);
          } in
          Runs-bind _ _ t1 (w.munmap t1.clock m.addr m.size) u refl (
            Runs-then _ _ _
              (put-Since _ _ i (record m { active = false }) q s u
                (record {
                  here = h1.here;
                  events = h1.events;
                  active_events = h1.active_events;
                  calls = ap (λ l. l ++ (unmapping m.addr m.size ∷ [])) h1.calls;
                  clock = ap suc h1.clock;
                  active_mmaps = h1.active_mmaps;
                }))
              λ _ t2 h2.
                Runs-then _ _ t2
                  (change_mmap-Since i (record m { active = false }) q
                    (λ x. record x { addr = map_failed }) s t2 h2)
                  λ _ t3 h3.
                    Runs-test (w.munmap t1.clock m.addr m.size) t3
                      (λ done. Runs-bind _ _ t3 tt _ refl (record {
                        result = tt;
                        after = record t3 {
                          stats = record t3.stats {
                            mmap_unmap_successful = suc t3.stats.mmap_unmap_successful;
                          };
                          active_mmaps = minus_one t3.active_mmaps;
                        };
                        run = refl;
                        holds =
                            Since-as i _ _ (record q { active_mmaps = minus_one p.active_mmaps }) _
                              s _ (ground (arith, mapped)) (ground (arith, mapped, done, h1.clock))
                              (record {
                                here = h3.here;
                                events = h3.events;
                                active_events = h3.active_events;
                                calls = h3.calls;
                                clock = h3.clock;
                                active_mmaps = ap minus_one h3.active_mmaps;
                              });
                      }))
                      (λ refused. Runs-pure tt t3 (
                        Since-as i _ _ q _ s t3 (ground (arith, mapped))
                          (ground (arith, mapped, refused, h1.clock)) h3)))

  pub unmap_mmap_lem :
      (i : ℕ) (b : Bool) (m : OurMmap) (p : Past) (s t : State)
      → i < 2 ^ 31
      → Since i m p s t
      → Runs (unmap_mmap w c i b) t (λ _. Since i (unmapped m) (unmapping_past w m p) s)
  unfolding unmap_mmap change mmap_at
  unmap_mmap_lem i b m p s t low here = Runs-bind _ _ t tt _ refl (
      Runs-bind _ _ _ tt _ refl (
        Runs-then _ _ _ (put-Since _ _ i m p s _ (Since-alike i m p s t _ refl refl refl refl here))
          λ _ t1 h1. Runs-bind _ _ t1 m t1 (ground (arith, h1.here)) (
            Runs-test (not (m.addr == map_failed)) t1
              (λ mapped. unmap_mapped_lem i b m p s t1 h1 (ground (arith, mapped)))
              (λ failed.
                Runs-pure tt t1
                  (Since-as i m _ p _ s t1 (ground (arith, failed)) (ground (arith, failed)) h1)))))

  pub close_fd-Since :
      (fd i : ℕ) (b : Bool) (v : OurMmap) (p : Past) (s t : State)
      → Since i v p s t
      → Runs (close_fd w c fd b) t (λ _. Since i v (closing_past fd p) s)
  unfolding close_fd change made
  close_fd-Since fd i b v p s t h =
      let after : Since i v (closing_past fd p) s
          (record t { clock = suc t.clock; calls = t.calls ++ (closing fd ∷ []) }) =
        record {
          here = h.here;
          events = h.events;
          active_events = h.active_events;
          calls = ap (λ l. l ++ (closing fd ∷ [])) h.calls;
          clock = ap suc h.clock;
          active_mmaps = h.active_mmaps;
        } in
      Runs-bind _ _ t tt _ refl (
        Runs-bind _ _ _ (w.close t.clock fd) _ refl (
          Runs-then {P = λ _. Since i v (closing_past fd p) s} _ _ _
            (Runs-test (w.close t.clock fd) _
              (λ _. record {
                result = tt;
                after = _;
                run = refl;
                holds = Since-alike i v _ s _ _ refl refl refl refl after;
              })
              (λ _. Runs-pure tt _ (Since-alike i v _ s _ _ refl refl refl refl after)))
            λ _ t1 h1. put-Since _ _ i v (closing_past fd p) s t1 h1))

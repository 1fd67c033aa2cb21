-- ===== src/Fuzzer/Unopened.antt =====
-- fuzzer/fuzz_mmap.c, `mmap_random_event`: the index -1 when no event is open.
use perf_event_tests.Base.{
  ℕ, suc, ◌%◌, ◌≡◌, ◌<◌, refl, ap, ◌∙◌, Bool, true, false, not, Option, none, some, arith,
  if◌then◌else◌, get_elem?, set,
}
use perf_event_tests.Fuzzer.State.{
  OurMmap, map_failed, State, Stats, World, Config, Fuzz, pure, count_stat, ◌>>=◌, call, change,
  event_at, change_mmap, ask, if_found, random,
}
use perf_event_tests.Fuzzer.Find.{find_random_active_event, find_empty_mmap}
use perf_event_tests.Fuzzer.Find.Search.{count, first_where-finds}
use perf_event_tests.Fuzzer.Random.{mmap_random_prot, mmap_random_size, mmap_random_flags}
use perf_event_tests.Fuzzer.Setup.{to_int, prepare, map_event, setup_mmap, mmap_random_event}

-- From every state the operation gets through and leaves the two tables as they are.
record Keeps {A : Type 0} (m : Fuzz A) : Type 0 where
  run :
      (s : State)
      → (a : A) × (t : State) × (m s ≡ some (a, t)) × (t.events ≡ s.events) × (t.mmaps ≡ s.mmaps)

module _ {A B : Type 0} where
  Keeps-bind : {m : Fuzz A} (f : A → Fuzz B) → Keeps m → ((a : A) → Keeps (f a)) → Keeps (m >>= f)
  unfolding ◌>>=◌
  Keeps-bind {m} f hm hf = record {
    run = λ s.
        let (a, t, e, ev, mm) = hm.run s in
        let (b, u, e', ev', mm') = (hf a).run t in
        (b, u, ground (arith, e, e'), ev' ∙ ev, mm' ∙ mm);
  }

  -- What follows an operation that gets through is a fault in every state with the same tables.
  faults-bind :
      (m : Fuzz A) (f : A → Fuzz B) (s : State)
      → Keeps m
      → ((a : A) (t : State) → t.events ≡ s.events → t.mmaps ≡ s.mmaps → f a t ≡ none)
      → (m >>= f) s ≡ none
  unfolding ◌>>=◌
  faults-bind m f s hm hf = let (a, t, e, ev, mm) = hm.run s in ground (arith, e, hf a t ev mm)

  faults-next :
      (m : Fuzz A) (f : A → Fuzz B) (s : State) (a : A) (t : State)
      → m s ≡ some (a, t)
      → f a t ≡ none
      → (m >>= f) s ≡ none
  unfolding ◌>>=◌
  faults-next m f s a t e h = ground (arith, e, h)

  faults-first : (m : Fuzz A) (f : A → Fuzz B) (s : State) → m s ≡ none → (m >>= f) s ≡ none
  unfolding ◌>>=◌
  faults-first m f s e = ground (arith, e)

module _ {A : Type 0} where
  if_found-faults :
      (o : Option ℕ) (p : Fuzz A) (q : ℕ → Fuzz A) (i : ℕ) (s : State)
      → o ≡ some i
      → q i s ≡ none
      → if_found o p q s ≡ none
  unfolding if_found
  if_found-faults none p q i s e h = absurd (ground (arith, e))
  if_found-faults (some k) p q i s e h = ap (λ o. if_found o p q s) e ∙ h

  if-faults :
      (b : Bool) (p q : Fuzz A) (s : State) → b ≡ false → q s ≡ none → (if b then p else q) s ≡ none
  if-faults true p q s e h = absurd (ground (arith, e))
  if-faults false p q s e h = h

  Keeps-pure : (a : A) → Keeps (pure a)
  unfolding pure
  Keeps-pure a = record { run = λ s. (a, s, refl, refl, refl) }

  Keeps-call : (f : ℕ → A) → Keeps (call f)
  unfolding call
  Keeps-call f = record {
    run = λ s. (f s.clock, record s { clock = suc s.clock }, refl, refl, refl);
  }

  Keeps-if : (b : Bool) {p q : Fuzz A} → Keeps p → Keeps q → Keeps (if b then p else q)
  Keeps-if true hp hq = hp
  Keeps-if false hp hq = hq

Keeps-stats : (f : Stats → Stats) → Keeps (count_stat f)
unfolding change
Keeps-stats f = record { run = λ s. (tt, record s { stats = f s.stats }, refl, refl, refl) }

ruleset keeps = (Keeps-bind, Keeps-pure, Keeps-call, Keeps-if, Keeps-stats)

module _ (w : World) where
  prot-Keeps : Keeps (mmap_random_prot w)
  unfolding mmap_random_prot
  prot-Keeps = search keeps depth 20

  size-Keeps : (n : ℕ) → Keeps (mmap_random_size w n)
  unfolding mmap_random_size
  size-Keeps n = search keeps depth 20

  flags-Keeps : Keeps (mmap_random_flags w)
  unfolding mmap_random_flags
  flags-Keeps = search keeps depth 60

  map_event-faults :
      (c : Config) (i which size prot flags : ℕ) (s : State)
      → get_elem? s.events which ≡ none
      → map_event w c i which size prot flags s ≡ none
  unfolding map_event event_at
  map_event-faults c i which size prot flags s gone = faults-bind _ _ s (search keeps) λ r t1 e1 _.
      faults-bind _ _ t1 (search keeps) λ hint t2 e2 _.
        faults-bind _ _ t2 (search keeps) λ _ t3 e3 _.
          faults-bind _ _ t3 (search keeps)
            λ _ t4 e4 _. faults-first _ _ t4 (ground (arith, e1, e2, e3, e4, gone))

  setup_mmap-faults :
      (c : Config) (which : ℕ) (s : State)
      → c.ignore_mmap ≡ false
      → 0 < count (λ (m : OurMmap). not m.active) s.mmaps
      → get_elem? s.events which ≡ none
      → setup_mmap w c which s ≡ none
  unfolding setup_mmap find_empty_mmap ask pure prepare change_mmap ◌>>=◌
  setup_mmap-faults c which s maps free gone =
      let (i, found, at) = first_where-finds (λ (m : OurMmap). not m.active) 0 s.mmaps free in
      if_found-faults _ _ _ i s (found ∙ ap some (omega arith)) (
        faults-bind _ _ s (size-Keeps 1) λ size t1 e1 m1.
          faults-bind _ _ t1 prot-Keeps λ prot t2 e2 m2.
            faults-bind _ _ t2 flags-Keeps λ flags t3 e3 m3.
              let here : get_elem? t3.mmaps i ≡ some at.entry =
                ap (λ l. get_elem? l i) (m3 ∙ m2 ∙ m1) ∙ at.here in
              let t4 : State = record t3 {
                mmaps = set t3.mmaps i (record at.entry {
                  addr = map_failed;
                  prot = prot;
                  flags = flags;
                  size = size;
                  aux = false;
                });
              } in
              faults-next (prepare i size prot flags) _ t3 tt t4 (ground (arith, here)) (
                faults-first
                  (if c.ignore_mmap then pure true else map_event w c i which size prot flags) _ t4
                  (if-faults c.ignore_mmap (pure true) (map_event w c i which size prot flags) t4
                    maps
                    (map_event-faults c i which size prot flags t4
                      (ap (λ l. get_elem? l which) (e3 ∙ e2 ∙ e1) ∙ gone)))))

  nothing_open : (s : State) → s.active_events ≡ 0 → find_random_active_event w s ≡ some (none, s)
  unfolding find_random_active_event ask pure ◌>>=◌
  nothing_open s no_event = ground (arith, no_event)

  draws :
      (s : State) (r : ℕ)
      → w.rand s.clock % 6 ≡ r
      → random w 6 s ≡ some (r, record s { clock = suc s.clock })
  unfolding call
  draws s r e = ground (arith, e)

  -- When no event is open, a slot of `mmaps` is free, mappings are not ignored and index -1 is outside
  -- `event_data`, `mmap_random_event` on the draw of 0 has no result: it accesses `event_data[-1]`.
  pub mmap_random_event-faults :
      (c : Config) (trash : Bool) (s : State)
      → s.active_events ≡ 0
      → w.rand s.clock % 6 ≡ 0
      → c.ignore_mmap ≡ false
      → 0 < count (λ (m : OurMmap). not m.active) s.mmaps
      → get_elem? s.events (to_int none) ≡ none
      → mmap_random_event w c trash s ≡ none
  unfolding mmap_random_event
  mmap_random_event-faults c trash s no_event draw maps free gone =
      let t : State = record s { clock = suc s.clock } in
      faults-next (random w 6) _ s 0 t (draws s 0 draw) (
        faults-next (find_random_active_event w) _ t none t (nothing_open t no_event) (
          faults-first (setup_mmap w c (to_int none)) _ t
            (setup_mmap-faults c (to_int none) t maps free gone)))

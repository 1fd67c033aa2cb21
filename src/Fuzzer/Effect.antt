-- ===== src/Fuzzer/Effect.antt =====
-- fuzzer/fuzz_close.c, `close_event`: what it changes.
pub mod Calls
use perf_event_tests.Base.{
  ℕ, suc, ◌%◌, ◌^◌, ◌<◌, ◌≡◌, refl, ap, subst, ◌∙◌, Bool, true, false, not, some, List, [], ◌∷◌,
  ◌++◌, arith, ◌==◌, if◌then◌else◌, get_elem?, set,
}
use perf_event_tests.Fuzzer.State.{
  Call, closing, unmapping, made, Event, OurMmap, State, World, Config, Output, put, when,
  map_failed, ◌>>=◌, call, change, change_event, change_mmap, event_at, mmap_at, minus_one,
}
use perf_event_tests.Fuzzer.Runs.{Runs, Runs-bind, Runs-then, Runs-pure, Runs-test}
use perf_event_tests.Fuzzer.Table.{get_elem?-set}
use perf_event_tests.Fuzzer.Setup.{is_negative, unmap_mapped, unmap_mmap}
use perf_event_tests.Fuzzer.Close.{close_fd, close_active, close_event}
use perf_event_tests.Fuzzer.Effect.Calls.{
  Since, Past, past, unmapped, unmapping_past, closing_past, unmap_mmap_lem, close_fd-Since,
}

module _ (w : World) (c : Config) where
  -- The event is marked as closed.
  abbrev shut_at : ℕ → Event → State → State
  shut_at i e s = record s { events = set s.events i (record e { active = false }) }

  -- Whether `munmap` comes before `close`, as the first draw from `s` has it.
  abbrev pub unmaps_first : State → Bool
  unmaps_first s = not (w.rand s.clock % 2 == 0)

  -- The calls that closing makes, in the order that was drawn.
  abbrev pub closed_past : (first : Bool) (fd : ℕ) (m : OurMmap) → Past → Past
  closed_past first fd m p =
      if first
      then closing_past fd (unmapping_past w m p)
      else unmapping_past w m (closing_past fd p)

  -- What closing leaves behind.
  abbrev pub Closed : (first : Bool) (i : ℕ) (e : Event) (m : OurMmap) (s t : State) → Type 0
  Closed first i e m s t =
      let q = closed_past first e.fd m (past s) in
      (t.events ≡ set s.events i (record e { active = false }))
      × (t.active_events ≡ minus_one s.active_events)
      × (get_elem? t.mmaps e.mmap ≡ some (unmapped m))
      × (t.calls ≡ q.calls)
      × (t.active_mmaps ≡ q.active_mmaps)

  counted_down :
      (first : Bool) (i : ℕ) (e : Event) (m : OurMmap) (s t : State)
      → Since e.mmap (unmapped m) (closed_past first e.fd m (past s)) (shut_at i e s) t
      → Runs
          (change (λ x. record x { active_events = minus_one x.active_events }))
          t
          (λ _. Closed first i e m s)
  unfolding change
  counted_down first i e m s t h = record {
    result = tt;
    after = record t { active_events = minus_one t.active_events };
    run = refl;
    holds = (h.events, ap minus_one h.active_events, h.here, h.calls, h.active_mmaps);
  }

  close_active_lem :
      (first : Bool) (i : ℕ) (b : Bool) (e : Event) (m : OurMmap) (s : State)
      → e.mmap < 2 ^ 31
      → get_elem? s.events i ≡ some e
      → get_elem? s.mmaps e.mmap ≡ some m
      → Runs (close_active w c i b first) s (λ _. Closed first i e m s)
  unfolding close_active change_event event_at
  close_active_lem first i b e m s low here slot =
      let s2 = shut_at i e s in
      let shut = get_elem?-set s.events i e (record e { active = false }) here in
      Runs-bind _ _ s tt s2 (ground (arith, here)) (
        Runs-bind _ _ s2 (record e { active = false }) s2 (ground (arith, shut))
          (go first s2 (record {
            here = slot;
            events = refl;
            active_events = refl;
            calls = refl;
            clock = refl;
            active_mmaps = refl;
          })))
    where
      go :
          (first : Bool) (t : State)
          → Since e.mmap m (past s) (shut_at i e s) t
          → Runs
              (do
                _ ← when first (unmap_mmap w c e.mmap b)
                _ ← close_fd w c e.fd b
                _ ← when (not first) (unmap_mmap w c e.mmap b)
                change (λ s. record s { active_events = minus_one s.active_events }))
              t
              (λ _. Closed first i e m s)
      go true t h =
          Runs-then _ _ t (unmap_mmap_lem w c e.mmap b m _ (shut_at i e s) t low h) λ _ t3 h3.
            Runs-then _ _ t3 (close_fd-Since w c e.fd e.mmap b _ _ (shut_at i e s) t3 h3) λ _ t4 h4.
              Runs-then _ _ t4 (Runs-pure tt t4 h4) λ _ t5 h5. counted_down true i e m s t5 h5
      go false t h = Runs-then _ _ t (Runs-pure tt t h) λ _ t3 h3.
          Runs-then _ _ t3 (close_fd-Since w c e.fd e.mmap b _ _ (shut_at i e s) t3 h3) λ _ t4 h4.
            Runs-then _ _ t4 (unmap_mmap_lem w c e.mmap b m _ (shut_at i e s) t4 low h4)
              λ _ t5 h5. counted_down false i e m s t5 h5

  -- Closing an event whose `mmap` is a slot of the table gets through. The event is marked as closed,
  -- the other events stay as they are, the counter is one less, and the slot is left inactive and
  -- without an address, unless it had no address before. `close` of the event's file descriptor is called
  -- once, `munmap` of the slot's address and size once if the slot has an address, in the order
  -- that was drawn, and no other call of the two; `active_mmaps` is one less exactly if the kernel
  -- unmaps the slot.
  pub close_event_lem :
      (i : ℕ) (from_sigio : Bool) (e : Event) (m : OurMmap) (s : State)
      → c.ignore_close ≡ false
      → i < 2 ^ 31
      → e.mmap < 2 ^ 31
      → get_elem? s.events i ≡ some e
      → get_elem? s.mmaps e.mmap ≡ some m
      → Runs
          (close_event w c i from_sigio)
          s
          (λ _. Closed (unmaps_first s) i e m (record s { clock = suc s.clock }))
  unfolding close_event call
  close_event_lem i b e m s closes low mmap_low here slot =
      let s1 = record s { clock = suc s.clock } in
      Runs-test (is_negative i) s (λ high. absurd (ground (arith, low, high)))
        λ _. Runs-bind _ _ s (w.rand s.clock % 2) s1 refl (
          Runs-test c.ignore_close s1 (λ ignored. absurd (ground (arith, closes, ignored)))
            λ _. close_active_lem _ i b e m s1 mmap_low here slot)

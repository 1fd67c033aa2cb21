-- ===== src/Fuzzer/Sound/Reachable.antt =====
-- The states of the table of mappings that the fuzzer's operations and handlers reach from its zeros on.
use perf_event_tests.Base.{
  ℕ, zero, suc, ◌≡◌, refl, sym, ap, subst, inr, Bool, false, none, some, List, [], ◌∷◌, arith,
  length, get_elem?,
}
use perf_event_tests.Fuzzer.State.{OurMmap, State, World, Config}
use perf_event_tests.Fuzzer.Find.Search.{count}
use perf_event_tests.Fuzzer.Setup.{setup_mmap, mmap_random_event}
use perf_event_tests.Fuzzer.Close.{close_event, close_random_event}
use perf_event_tests.Fuzzer.Open.{Ended, open_random_event}
use perf_event_tests.Fuzzer.Overflow.{our_handler, sigio_handler}
use perf_event_tests.Fuzzer.Table.{SlotFits, Sound, is_active}
use perf_event_tests.Fuzzer.Sound.Unmap.{Unmaps}
use perf_event_tests.Fuzzer.Sound.Setup.{setup_mmap-Sound}
use perf_event_tests.Fuzzer.Sound.Handlers.{
  open_random_event-Sound, close_random_event-Sound, our_handler-Sound, sigio_handler-Sound,
}
use perf_event_tests.Fuzzer.Sound.{close_event-Sound, mmap_random_event-Sound}

-- `mmaps` before `main`: static memory is zero.
abbrev pub zero_mmap : OurMmap
zero_mmap = record {
  active = false;
  addr = 0;
  size = 0;
  fd = 0;
  prot = 0;
  flags = 0;
  head = 0;
  aux_head = 0;
  aux = false;
  parent_mmap = 0;
  which_event = 0;
}

abbrev pub zero_mmaps : ℕ → List OurMmap
zero_mmaps zero = []
zero_mmaps (suc n) = zero_mmap ∷ zero_mmaps n

-- The operations that the main loop draws, with the signal handlers between two of them, and `close_event`
-- and `setup_mmap` of any event. `other` is any step that leaves the table of mappings and the counter
-- alone.
pub data Reachable (w : World) (c : Config) : State → Type 0 where
  start : (s : State) → s.mmaps ≡ zero_mmaps 1024 → s.active_mmaps ≡ 0 → Reachable w c s
  opens :
      (s s' : State) (fuel : ℕ) (mmap_enabled overflow_enabled : Bool) (ended : Ended)
      → Reachable w c s
      → open_random_event fuel w c mmap_enabled overflow_enabled s ≡ some (ended, s')
      → Reachable w c s'
  closes_some :
      (s s' : State) → Reachable w c s → close_random_event w c s ≡ some (tt, s') → Reachable w c s'
  maps_or_unmaps :
      (s s' : State) (trash : Bool)
      → Reachable w c s
      → mmap_random_event w c trash s ≡ some (tt, s')
      → Reachable w c s'
  overflows :
      (s s' : State) (fd : ℕ)
      → Reachable w c s
      → our_handler w c fd s ≡ some (tt, s')
      → Reachable w c s'
  signals :
      (s s' : State) (from_kernel : Bool) (fd band code : ℕ)
      → Reachable w c s
      → sigio_handler w c from_kernel fd band code s ≡ some (tt, s')
      → Reachable w c s'
  maps :
      (s s' : State) (which : ℕ) (ok : Bool)
      → Reachable w c s
      → setup_mmap w c which s ≡ some (ok, s')
      → Reachable w c s'
  closes :
      (s s' : State) (i : ℕ) (from_sigio : Bool)
      → Reachable w c s
      → close_event w c i from_sigio s ≡ some (tt, s')
      → Reachable w c s'
  other :
      (s s' : State)
      → Reachable w c s
      → s'.mmaps ≡ s.mmaps
      → s'.active_mmaps ≡ s.active_mmaps
      → Reachable w c s'

length-zero_mmaps : (n : ℕ) → length (zero_mmaps n) ≡ n
length-zero_mmaps zero = refl
length-zero_mmaps (suc n) = ap suc (length-zero_mmaps n)

count-zero_mmaps : (n : ℕ) → count is_active (zero_mmaps n) ≡ 0
count-zero_mmaps zero = refl
count-zero_mmaps (suc n) = omega (arith, count-zero_mmaps n)

module _ (w : World) (Accepted : ℕ → ℕ → Type 0) where
  zero_mmaps-fit :
      (n k : ℕ) (m : OurMmap) → get_elem? (zero_mmaps n) k ≡ some m → SlotFits Accepted m
  zero_mmaps-fit zero k m h = absurd (ground (arith, h))
  zero_mmaps-fit (suc n) zero m h =
      let same : zero_mmap ≡ m = ap (λ o. elim o [ none ↦ zero_mmap | some x ↦ x ]) h in
      subst (SlotFits Accepted) same
        (record { used = λ u. absurd (ground (arith, u)); free = λ _. inr (refl, refl) })
  zero_mmaps-fit (suc n) (suc k) m h = zero_mmaps-fit n k m h

  -- Where mappings are not ignored and `mmap` and `munmap` answer as their manual says (`munmap` takes each
  -- address and length that `mmap` gave, at any later time, and refuses a length of 0), in every state that
  -- is reached from the zeros at the start of the program by `open_random_event`, `close_random_event`,
  -- `mmap_random_event`, `our_handler`, `sigio_handler`, `setup_mmap`, `close_event` and steps that leave the
  -- table alone, each run to its end, the counter is the number of active slots, an active slot has
  -- an address, not MAP_FAILED, and a length that `munmap` takes, and an inactive slot has MAP_FAILED, or
  -- 0 for both.
  pub Reachable-Sound :
      (c : Config) (s : State)
      → Unmaps w Accepted
      → c.ignore_mmap ≡ false
      → Reachable w c s
      → Sound Accepted s.mmaps s.active_mmaps
  Reachable-Sound c s kernel on (start _ e n) =
      subst (λ l. Sound Accepted l s.active_mmaps) (sym e)
        (record {
          counted = ground (arith, n, count-zero_mmaps 1024);
          few = omega (arith, length-zero_mmaps 1024);
          slots = zero_mmaps-fit 1024;
        })
  Reachable-Sound c s kernel on (maps_or_unmaps t _ trash r e) =
      (mmap_random_event-Sound w Accepted kernel c on trash).run t tt s
        (Reachable-Sound c t kernel on r) e
  Reachable-Sound c s kernel on (maps t _ which ok r e) =
      (setup_mmap-Sound w Accepted kernel c on which).run t ok s (Reachable-Sound c t kernel on r) e
  Reachable-Sound c s kernel on (closes t _ i b r e) =
      (close_event-Sound w Accepted kernel c on i b).run t tt s (Reachable-Sound c t kernel on r) e
  Reachable-Sound c s kernel on (opens t _ fuel m o ended r e) =
      (open_random_event-Sound w Accepted kernel c on fuel m o).run t ended s
        (Reachable-Sound c t kernel on r) e
  Reachable-Sound c s kernel on (closes_some t _ r e) =
      (close_random_event-Sound w Accepted kernel c on).run t tt s (Reachable-Sound c t kernel on r)
        e
  Reachable-Sound c s kernel on (overflows t _ fd r e) =
      (our_handler-Sound w Accepted kernel c on fd).run t tt s (Reachable-Sound c t kernel on r) e
  Reachable-Sound c s kernel on (signals t _ from_kernel fd band code r e) =
      (sigio_handler-Sound w Accepted kernel c on from_kernel fd band code).run t tt s
        (Reachable-Sound c t kernel on r) e
  Reachable-Sound c s kernel on (other t _ r e n) =
      subst (λ l. Sound Accepted l s.active_mmaps) (sym e)
        (subst (Sound Accepted t.mmaps) (sym n) (Reachable-Sound c t kernel on r))

-- ===== src/Fuzzer/Sound.antt =====
-- fuzzer/fuzz_mmap.c and fuzzer/fuzz_close.c keep the table of mappings and its counter sound.
pub mod Unmap
pub mod Ready
pub mod Setup
pub mod Handlers
pub mod Reachable
use perf_event_tests.Base.{
  ℕ, zero, suc, ◌+◌, ◌*◌, ◌%◌, ◌^◌, ◌≡◌, ◌≢◌, refl, sym, ap, ◌∙◌, subst, inl, inr, ◌⊎◌, Bool, true,
  false, not, ◌&&◌, Bool-cases, Option, Option-cases, none, some, List, [], arith, ◌==◌, ==→eq,
  if◌then◌else◌, get_elem?, has_bit,
}
use perf_event_tests.Fuzzer.State.{
  OurMmap, State, World, Config, Fuzz, Done, map_failed, pure, change_mmap, when, call, random, ask,
  ◌>>=◌, count_stat, change, minus_one, if_found,
}
use perf_event_tests.Fuzzer.Find.{
  find_empty_mmap, first_where, find_random_active_event, find_random_active_mmap,
}
use perf_event_tests.Fuzzer.Find.Search.{one_if, first_where-some}
use perf_event_tests.Fuzzer.Mmap.{perf_mmap_aux_read, perf_mmap_read, trash_random_mmap}
use perf_event_tests.Fuzzer.Setup.{
  to_int, is_negative, prepare, prepare_aux, map_aux, activate, setup_mmap_aux, map_event,
  maybe_aux, setup_mmap, unmap_mapped, unmap_mmap, mmap_random_event,
}
use perf_event_tests.Fuzzer.Close.{close_fd, close_active, close_event, close_random_event}
use perf_event_tests.Fuzzer.Triple.{
  Table, Triple, Triple-bind, Triple-Steady, Triple-pure, Triple-weaken, Triple-if, Triple-given,
  Triple-exists, Triple-call, Triple-lands, Triple-test, Triple-if_found, Steady-active_events,
  steady,
}
use perf_event_tests.Fuzzer.Steady.{
  prot-Steady, size-Steady, flags-Steady, find_event-Steady, find_mmap-Steady, trash-Steady,
  close_fd-Steady,
}
use perf_event_tests.Fuzzer.Table.{
  failed_slot, SlotFits, Sound, Open, open_slot, close_slot, Triple-change_mmap,
  Triple-one_more_mmap, Triple-one_less_mmap, Triple-mmap_at, is_active,
}
use perf_event_tests.Fuzzer.Sound.Unmap.{Unmaps, unmap_mmap-Sound}
use perf_event_tests.Fuzzer.Sound.Setup.{setup_mmap-Sound}

module _ (w : World) (Accepted : ℕ → ℕ → Type 0) (kernel : Unmaps w Accepted) (c : Config)
    (maps : c.ignore_mmap ≡ false) where
  abbrev Good : Table
  Good = Sound Accepted

  -- `close_event` keeps the table and the counter sound.
  pub close_event-Sound :
      (i : ℕ) (from_sigio : Bool) → Triple Good (close_event w c i from_sigio) (λ _. Good)
  unfolding close_event close_active
  close_event-Sound i b = Triple-if (is_negative i) (Triple-pure tt) (
      Triple-bind _ (λ _. Good) (Triple-Steady _ (search steady))
        λ r. Triple-if c.ignore_close (Triple-pure tt) (
          Triple-bind _ (λ _. Good) (Triple-Steady _ (search steady))
            λ _.
              Triple-bind _ (λ _. Good) (Triple-Steady _ (search steady))
                λ e.
                  Triple-bind _ (λ _. Good)
                    (Triple-if _ (unmap_mmap-Sound w Accepted kernel c e.mmap b) (Triple-pure tt))
                    λ _.
                      Triple-bind _ (λ _. Good) (Triple-Steady _ (close_fd-Steady w c e.fd b))
                        λ _.
                          Triple-bind _ (λ _. Good)
                            (Triple-if _ (unmap_mmap-Sound w Accepted kernel c e.mmap b)
                              (Triple-pure tt))
                            λ _. Triple-Steady _ (Steady-active_events minus_one)))

  no_slot :
      (which : ℕ) (f : OurMmap → OurMmap) (s : State) (a : Done) (s' : State)
      → get_elem? s.mmaps which ≡ none
      → change_mmap which f s ≢ some (a, s')
  unfolding change_mmap
  no_slot which f s a s' gone e = ground (arith, gone, e)

  kept :
      (m m' : OurMmap)
      → (m'.active ≡ m.active) × (m'.addr ≡ m.addr) × (m'.size ≡ m.size)
      → SlotFits Accepted m
      → SlotFits Accepted m'
  kept m m' (a, b, d) fits = record {
    used = λ u.
        let (is_mapped, ne) = fits.used (sym a ∙ u) in
        (
          subst (λ x. Accepted x m'.size) (sym b) (subst (Accepted m.addr) (sym d) is_mapped),
          λ e. ne (sym b ∙ e),
        );
    free =
        λ u. elim (fits.free (sym a ∙ u)) [ inl e ↦ inl (b ∙ e) | inr (e, g) ↦ inr (b ∙ e, d ∙ g) ];
  }

  -- The head of slot `which` is stored.
  head-Good :
      (which : ℕ) (f : OurMmap → OurMmap)
      → ((m : OurMmap) → ((f m).active ≡ m.active) × ((f m).addr ≡ m.addr) × ((f m).size ≡ m.size))
      → Triple Good (change_mmap which f) (λ _. Good)
  head-Good which f same = record {
    run = λ s a s' good e. elim (Option-cases (get_elem? s.mmaps which)) [
      | inl gone ↦ absurd (no_slot which f s a s' gone e)
      | inr (m, here) ↦
          let d = one_if m.active in
          let o =
            (Triple-change_mmap Accepted which m d f).run s a s'
              (open_slot Accepted which m s.mmaps s.active_mmaps good here) e in
          close_slot Accepted which (f m) d s'.mmaps s'.active_mmaps o (ap one_if (sym (same m).0))
            (kept m (f m) (same m) (good.slots which m here))
    ];
  }

  -- `perf_mmap_read` keeps the table and the counter sound.
  pub perf_mmap_read-Sound : (which : ℕ) → Triple Good (perf_mmap_read w which) (λ _. Good)
  unfolding perf_mmap_read perf_mmap_aux_read
  perf_mmap_read-Sound which =
      Triple-bind _ (λ _. Good) (Triple-Steady _ (search steady))
        λ m.
          Triple-if m.aux
            (Triple-bind _ (λ _. Good) (Triple-Steady _ (search steady))
              λ m'.
                Triple-bind _ (λ _. Good) (Triple-Steady _ (search steady))
                  λ _.
                    Triple-if _
                      (Triple-bind _ (λ _. Good) (Triple-Steady _ (search steady))
                        λ parent.
                          Triple-if _
                            (Triple-if _ (Triple-pure _) (
                              Triple-bind _ (λ _. Good) (Triple-Steady _ (search steady))
                                λ head.
                                  Triple-bind _ (λ _. Good)
                                    (Triple-if _
                                      (Triple-bind _ (λ _. Good) (Triple-Steady _ (search steady))
                                        λ _. head-Good which _ (λ x. (refl, refl, refl)))
                                      (Triple-pure tt))
                                    λ _. Triple-Steady _ (search steady)))
                            (Triple-pure 0))
                      (Triple-pure 0))
            (Triple-bind _ (λ _. Good) (Triple-Steady _ (search steady))
              λ _.
                Triple-if _
                  (Triple-if _ (Triple-pure _) (
                    Triple-bind _ (λ _. Good) (Triple-Steady _ (search steady))
                      λ head.
                        Triple-bind _ (λ _. Good)
                          (Triple-if _
                            (Triple-bind _ (λ _. Good) (Triple-Steady _ (search steady))
                              λ _. head-Good which _ (λ x. (refl, refl, refl)))
                            (Triple-pure tt))
                          λ _. Triple-Steady _ (search steady)))
                  (Triple-pure 0))

  -- Every operation that `mmap_random_event` may draw keeps the table of mappings and its counter
  -- sound.
  pub mmap_random_event-Sound :
      (trash : Bool) → Triple Good (mmap_random_event w c trash) (λ _. Good)
  unfolding mmap_random_event
  mmap_random_event-Sound trash =
      Triple-bind _ (λ _. Good) (Triple-Steady _ (search steady))
        λ r.
          Triple-if (r == 0)
            (Triple-bind _ (λ _. Good) (Triple-Steady _ (find_event-Steady w))
              λ which.
                Triple-bind _ (λ _. Good) (setup_mmap-Sound w Accepted kernel c maps (to_int which))
                  λ _. Triple-pure tt)
            (Triple-if (r == 2)
              (Triple-bind _ (λ _. Good) (Triple-Steady _ (find_mmap-Steady w))
                λ which.
                  Triple-if_found which (λ _. Triple-pure tt)
                    λ i _. unmap_mmap-Sound w Accepted kernel c i false)
              (Triple-if (r == 3)
                (Triple-bind _ (λ _. Good) (Triple-Steady _ (find_mmap-Steady w))
                  λ which.
                    Triple-if_found which (λ _. Triple-pure tt)
                      λ i _. Triple-bind _ (λ _. Good) (perf_mmap_read-Sound i) λ _. Triple-pure tt)
                (Triple-if _ (Triple-Steady _ (trash-Steady w c))
                  (Triple-pure tt {Q = λ _. Good}))))

-- ===== src/Fuzzer/Sound/Setup.antt =====
-- fuzzer/fuzz_mmap.c, `setup_mmap` and `setup_mmap_aux`: what they do to the table and to its counter.
use perf_event_tests.Base.{
  ℕ, ◌≡◌, refl, subst, Bool, true, false, not, Option, some, List, arith, ◌==◌, if◌then◌else◌,
  get_elem?,
}
use perf_event_tests.Fuzzer.State.{
  OurMmap, World, Config, Fuzz, map_failed, pure, ask, ◌>>=◌, if_found,
}
use perf_event_tests.Fuzzer.Find.{find_empty_mmap, first_where}
use perf_event_tests.Fuzzer.Find.Search.{first_where-some}
use perf_event_tests.Fuzzer.Setup.{
  prepare, prepare_aux, activate, setup_mmap_aux, maybe_aux, setup_mmap,
}
use perf_event_tests.Fuzzer.Triple.{
  Table, Triple, Triple-bind, Triple-Steady, Triple-pure, Triple-weaken, Triple-if, Triple-lands,
  Triple-test, Triple-if_found, steady,
}
use perf_event_tests.Fuzzer.Steady.{prot-Steady, size-Steady, flags-Steady}
use perf_event_tests.Fuzzer.Table.{Sound, Open, open_slot, Triple-change_mmap}
use perf_event_tests.Fuzzer.Sound.Unmap.{Unmaps}
use perf_event_tests.Fuzzer.Sound.Ready.{Ready, activate-Good, map_aux-Ready, map_event-Ready}

module _ (w : World) (Accepted : ℕ → ℕ → Type 0) (kernel : Unmaps w Accepted) (c : Config) where
  abbrev Good : Table
  Good = Sound Accepted

  find_empty-Good : Triple Good find_empty_mmap (λ o l n.
      ((i : ℕ) → o ≡ some i → (v : OurMmap) × (v.active ≡ false) × (get_elem? l i ≡ some v))
      × Good l n)
  unfolding find_empty_mmap ◌>>=◌ ask pure
  find_empty-Good = Triple-lands λ s good. (
    first_where (λ (m : OurMmap). not m.active) 0 s.mmaps,
    s,
    refl,
    (
      (λ i e.
          let (j, v, k, here, free) =
            first_where-some (λ (m : OurMmap). not m.active) 0 i s.mmaps e in
          let same : j ≡ i = omega (arith, k) in
          (v, ground (arith, free), subst (λ q. get_elem? s.mmaps q ≡ some v) same here)),
      good,
    ),
  )

  abbrev Empty : ℕ → Table
  Empty i l n = (v : OurMmap) × (v.active ≡ false) × (get_elem? l i ≡ some v) × Good l n

  abbrev Prepared : ℕ → ℕ → Table
  Prepared i size l n =
      (v : OurMmap) × ((v.active ≡ false) × (v.size ≡ size)) × Open Accepted i v 0 l n

  opened :
      (i : ℕ) (v : OurMmap) (l : List OurMmap) (n : ℕ)
      → v.active ≡ false
      → get_elem? l i ≡ some v
      → Good l n
      → Open Accepted i v 0 l n
  opened i v l n free here good =
      subst (λ d. Open Accepted i v d l n) (ground (arith, free))
        (open_slot Accepted i v l n good here)

  prepare-Prepared :
      (i size prot flags : ℕ) → Triple (Empty i) (prepare i size prot flags) (λ _. Prepared i size)
  unfolding prepare
  prepare-Prepared i size prot flags = record {
    run = λ s a s' p e.
        let (v, free, here, good) = p in
        let f = λ (m : OurMmap). record m {
          addr = map_failed;
          prot = prot;
          flags = flags;
          size = size;
          aux = false;
        } in
        (
          f v,
          (free, refl),
          (Triple-change_mmap Accepted i v 0 f).run s a s'
              (opened i v s.mmaps s.active_mmaps free here good) e,
        );
  }

  prepare_aux-Prepared :
      (i parent size prot flags : ℕ)
      → Triple (Empty i) (prepare_aux i parent size prot flags) (λ _. Prepared i size)
  unfolding prepare_aux
  prepare_aux-Prepared i parent size prot flags = record {
    run = λ s a s' p e.
        let (v, free, here, good) = p in
        let f = λ (m : OurMmap). record m {
          addr = map_failed;
          prot = prot;
          flags = flags;
          size = size;
          aux = true;
          parent_mmap = parent;
        } in
        (
          f v,
          (free, refl),
          (Triple-change_mmap Accepted i v 0 f).run s a s'
              (opened i v s.mmaps s.active_mmaps free here good) e,
        );
  }

  found_empty :
      {A : Type 0} (found : Option ℕ) (m : ℕ → Fuzz A) (b : A)
      → ((i : ℕ) → Triple (Empty i) (m i) (λ _. Good))
      → Triple
          (λ l n.
            ((i : ℕ)
              → found ≡ some i
              → (v : OurMmap) × (v.active ≡ false) × (get_elem? l i ≡ some v))
            × Good l n)
          (if_found found (pure b) m)
          (λ _. Good)
  found_empty found m b h =
      Triple-if_found found (λ _. Triple-weaken (λ l n p. p.1) (λ _ l n good. good) (Triple-pure b))
        (λ i e.
          Triple-weaken (λ l n p. let (v, free, here) = p.0 i e in (v, free, here, p.1))
            (λ _ l n good. good) (h i))

  finish_aux :
      (i : ℕ) (go_on : Bool)
      → Triple
          (Ready Accepted i go_on)
          (if go_on then (do _ ← activate i; pure true) else pure false)
          (λ _. Good)
  finish_aux i true =
      Triple-bind _ (λ _. Good) (activate-Good w Accepted kernel c i) λ _. Triple-pure true
  finish_aux i false = Triple-pure false

  module _ (maps : c.ignore_mmap ≡ false) where
    unless_ignored :
        (i size : ℕ) (m : Fuzz Bool)
        → ((v : OurMmap)
            → v.active ≡ false
            → v.size ≡ size
            → Triple (Open Accepted i v 0) m (Ready Accepted i))
        → Triple (Prepared i size) (if c.ignore_mmap then pure true else m) (Ready Accepted i)
    unless_ignored i size m h =
        Triple-test c.ignore_mmap (λ ignored. absurd (ground (arith, maps, ignored)))
          (λ _. record { run = λ s a s' p e. (h p.0 p.1.0 p.1.1).run s a s' p.2 e })

    setup_mmap_aux-Sound :
        (which_fd which_mmap : ℕ) → Triple Good (setup_mmap_aux w c which_fd which_mmap) (λ _. Good)
    unfolding setup_mmap_aux
    setup_mmap_aux-Sound which_fd which_mmap = Triple-bind _ _ find_empty-Good λ found.
        found_empty found _ false λ i.
          Triple-bind _ (λ _. Empty i) (Triple-Steady _ (size-Steady w 0))
            λ size.
              Triple-bind _ (λ _. Empty i) (Triple-Steady _ (prot-Steady w))
                λ prot.
                  Triple-bind _ (λ _. Empty i) (Triple-Steady _ (flags-Steady w))
                    λ flags.
                      Triple-bind _ (λ _. Prepared i size)
                        (prepare_aux-Prepared i which_mmap size prot flags)
                        λ _.
                          Triple-bind _ (Ready Accepted i)
                            (unless_ignored i size _ (
                              map_aux-Ready w Accepted kernel c i which_fd which_mmap size prot
                                flags))
                            λ go_on. finish_aux i go_on

    maybe_aux-Sound : (which i : ℕ) → Triple Good (maybe_aux w c which i) (λ _. Good)
    unfolding maybe_aux
    maybe_aux-Sound which i =
        Triple-bind _ (λ _. Good) (Triple-Steady _ (search steady))
          λ r.
            Triple-if (r == 0)
              (Triple-bind _ (λ _. Good) (setup_mmap_aux-Sound which i) λ _. Triple-pure tt)
              (Triple-pure tt)

    finish :
        (which i : ℕ) (go_on : Bool)
        → Triple
            (Ready Accepted i go_on)
            (if go_on
              then (do _ ← activate i; _ ← maybe_aux w c which i; pure true)
              else pure false)
            (λ _. Good)
    finish which i true =
        Triple-bind _ (λ _. Good) (activate-Good w Accepted kernel c i)
          λ _. Triple-bind _ (λ _. Good) (maybe_aux-Sound which i) λ _. Triple-pure true
    finish which i false = Triple-pure false

    -- `setup_mmap`, with the aux area that may follow, keeps the table and the counter sound.
    pub setup_mmap-Sound : (which : ℕ) → Triple Good (setup_mmap w c which) (λ _. Good)
    unfolding setup_mmap
    setup_mmap-Sound which = Triple-bind _ _ find_empty-Good λ found. found_empty found _ false λ i.
        Triple-bind _ (λ _. Empty i) (Triple-Steady _ (size-Steady w 1))
          λ size.
            Triple-bind _ (λ _. Empty i) (Triple-Steady _ (prot-Steady w))
              λ prot.
                Triple-bind _ (λ _. Empty i) (Triple-Steady _ (flags-Steady w))
                  λ flags.
                    Triple-bind _ (λ _. Prepared i size) (prepare-Prepared i size prot flags)
                      λ _.
                        Triple-bind _ (Ready Accepted i)
                          (unless_ignored i size _
                            (map_event-Ready w Accepted kernel c i which size prot flags))
                          λ go_on. finish which i go_on

-- ===== src/Fuzzer/Sound/Unmap.antt =====
-- fuzzer/fuzz_mmap.c, `unmap_mmap`: what it does to the table and to its counter.
use perf_event_tests.Base.{
  ℕ, suc, ◌≡◌, ◌≢◌, refl, sym, ap, ◌∙◌, subst, inl, inr, Bool, true, false, not, Bool-cases, some,
  arith, ◌==◌, get_elem?,
}
use perf_event_tests.Fuzzer.State.{
  unmapping, OurMmap, World, Config, map_failed, when, ◌>>=◌, count_stat, change, minus_one,
}
use perf_event_tests.Fuzzer.Find.Search.{one_if}
use perf_event_tests.Fuzzer.Setup.{unmap_mapped, unmap_mmap}
use perf_event_tests.Fuzzer.Triple.{
  Table, Triple, Triple-bind, Triple-Steady, Triple-pure, Triple-weaken, Triple-given, Triple-made,
  Triple-test, steady,
}
use perf_event_tests.Fuzzer.Table.{
  failed_slot, SlotFits, Sound, Open, open_slot, close_slot, Triple-change_mmap,
  Triple-one_less_mmap, Triple-mmap_at,
}

-- What the manual page of `mmap` and `munmap` says: a mapping that was given can be unmapped, and a
-- length of 0 is refused.
pub record Unmaps (w : World) (Accepted : ℕ → ℕ → Type 0) : Type 0 where
  pub maps :
      (t addr size prot flags fd offset : ℕ)
      → w.mmap t addr size prot flags fd offset ≢ map_failed
      → Accepted (w.mmap t addr size prot flags fd offset) size
  pub unmaps : (t addr size : ℕ) → Accepted addr size → w.munmap t addr size ≡ true
  pub refuses : (t addr : ℕ) → w.munmap t addr 0 ≡ false

module _ (w : World) (Accepted : ℕ → ℕ → Type 0) (kernel : Unmaps w Accepted) (c : Config) where
  abbrev Good : Table
  Good = Sound Accepted

  -- Slot `i` is unmapped: the answer of `munmap` is what the counter has for it.
  answer :
      (m : OurMmap)
      → SlotFits Accepted m
      → (m.addr == map_failed) ≡ false
      → (t : ℕ) → w.munmap t m.addr m.size ≡ m.active
  answer m fits there t = elim (Bool-cases m.active) [
    | inl used ↦ kernel.unmaps t m.addr m.size (fits.used used).0 ∙ sym used
    | inr free ↦ elim (fits.free free) [
      | inl failed ↦ absurd (ground (arith, there, failed))
      | inr (_, empty) ↦ ap (w.munmap t m.addr) empty ∙ kernel.refuses t m.addr ∙ sym free
    ]
  ]

  settle :
      (ok : Bool) (i : ℕ) (v : OurMmap)
      → v.active ≡ false
      → v.addr ≡ map_failed
      → Triple
          (Open Accepted i v (one_if ok))
          (when ok (do
            _ ← count_stat (λ x. record x { mmap_unmap_successful = suc x.mmap_unmap_successful })
            change (λ s. record s { active_mmaps = minus_one s.active_mmaps })))
          (λ _. Good)
  settle true i v free e =
      Triple-bind _ (λ _. Open Accepted i v 1) (Triple-Steady _ (search steady))
        λ _.
          Triple-weaken (λ l n o. o)
            (λ _ l n o.
              close_slot Accepted i v 0 l n o (ground (arith, free))
                (failed_slot Accepted v free e))
            (Triple-one_less_mmap Accepted i v free)
  settle false i v free e =
      Triple-weaken
        (λ l n o.
          close_slot Accepted i v 0 l n o (ground (arith, free)) (failed_slot Accepted v free e))
        (λ _ l n o. o) (Triple-pure tt)

  unmap_mapped-Good :
      (i : ℕ) (b : Bool) (m : OurMmap)
      → (m.addr == map_failed) ≡ false
      → SlotFits Accepted m
      → Triple (Open Accepted i m (one_if m.active)) (unmap_mapped w c i b m) (λ _. Good)
  unfolding unmap_mapped
  unmap_mapped-Good i b m there fits =
      let d = one_if m.active in
      let dead = record m { active = false; addr = map_failed } in
      Triple-bind _ (λ _. Open Accepted i (record m { active = false }) d)
        (Triple-change_mmap Accepted i m d (λ x. record x { active = false }))
        λ _.
          Triple-bind _
            (λ (ok : Bool) l n.
              (ok ≡ m.active) × Open Accepted i (record m { active = false }) d l n)
            (Triple-made (unmapping m.addr m.size) (λ t. w.munmap t m.addr m.size)
              (λ ok. ok ≡ m.active) _ (answer m fits there))
            λ ok. Triple-given λ same.
              Triple-bind _ (λ _. Open Accepted i (record m { active = false }) d)
                (Triple-Steady _ (search steady depth 9))
                λ _.
                  Triple-bind _ (λ _. Open Accepted i dead d)
                    (Triple-change_mmap Accepted i (record m { active = false }) d
                      (λ x. record x { addr = map_failed }))
                    λ _.
                      Triple-weaken
                        (λ l n o. subst (λ k. Open Accepted i dead k l n) (ap one_if (sym same)) o)
                        (λ _ l n good. good) (settle ok i dead refl refl)

  mapped :
      (i : ℕ) (b : Bool) (m : OurMmap)
      → (m.addr == map_failed) ≡ false
      → Triple (λ l n. (get_elem? l i ≡ some m) × Good l n) (unmap_mapped w c i b m) (λ _. Good)
  mapped i b m there = record {
    run = λ s a s' p e.
        (unmap_mapped-Good i b m there (p.1.slots i m p.0)).run s a s'
          (open_slot Accepted i m s.mmaps s.active_mmaps p.1 p.0) e;
  }

  -- `unmap_mmap` keeps the table and the counter sound.
  pub unmap_mmap-Sound :
      (i : ℕ) (from_sigio : Bool) → Triple Good (unmap_mmap w c i from_sigio) (λ _. Good)
  unfolding unmap_mmap
  unmap_mmap-Sound i from_sigio =
      Triple-bind _ (λ _. Good) (Triple-Steady _ (search steady))
        λ _.
          Triple-bind _ (λ _. Good) (Triple-Steady _ (search steady))
            λ _.
              Triple-bind _ (λ _. Good) (Triple-Steady _ (search steady))
                λ _. Triple-bind _ _ (Triple-mmap_at Accepted i) λ m.
                  Triple-test (not (m.addr == map_failed))
                    (λ there. mapped i from_sigio m (ground (arith, there)))
                    (λ _. Triple-weaken (λ l n p. p.1) (λ _ l n good. good) (Triple-pure tt))

-- ===== src/Fuzzer/Sound/Ready.antt =====
-- fuzzer/fuzz_mmap.c: the two calls of `mmap`, and the slot that they leave to be activated.
use perf_event_tests.Base.{ℕ, ◌≡◌, ◌≢◌, refl, sym, subst, Bool, true, false, arith, ◌==◌, ==→eq}
use perf_event_tests.Fuzzer.State.{OurMmap, World, Config, map_failed, pure}
use perf_event_tests.Fuzzer.Setup.{map_aux, activate, map_event}
use perf_event_tests.Fuzzer.Triple.{
  Table, Triple, Triple-bind, Triple-Steady, Triple-pure, Triple-weaken, Triple-given, Triple-call,
  Triple-test, steady,
}
use perf_event_tests.Fuzzer.Table.{
  failed_slot, Sound, Open, close_slot, Triple-change_mmap, Triple-one_more_mmap,
}
use perf_event_tests.Fuzzer.Sound.Unmap.{Unmaps}

-- What `map_event` and `map_aux` leave behind, when the caller goes on and when it does not.
abbrev pub Ready : (ℕ → ℕ → Type 0) → ℕ → Bool → Table
Ready Accepted i true l n =
    (v : OurMmap) × (v.active ≡ false)
    × Accepted v.addr v.size
    × (v.addr ≢ map_failed)
    × Open Accepted i v 1 l n
Ready Accepted i false l n = Sound Accepted l n

module _ (w : World) (Accepted : ℕ → ℕ → Type 0) (kernel : Unmaps w Accepted) (c : Config) where
  abbrev Good : Table
  Good = Sound Accepted

  pub activate-Good : (i : ℕ) → Triple (Ready Accepted i true) (activate i) (λ _. Good)
  unfolding activate
  activate-Good i = record {
    run = λ s a s' p e.
        let (v, free, is_mapped, ne, o) = p in
        let v' = record v { active = true } in
        let o' =
          (Triple-change_mmap Accepted i v 1 (λ x. record x { active = true })).run s a s' o e in
        close_slot Accepted i v' 1 s'.mmaps s'.active_mmaps o' refl
          (record { used = λ _. (is_mapped, ne); free = λ f. absurd (ground (arith, f)) });
  }

  -- The address is stored, and the call failed or the counter is raised.
  failed-Good :
      (i : ℕ) (v : OurMmap) (addr : ℕ)
      → v.active ≡ false
      → (addr == map_failed) ≡ true
      → Triple (Open Accepted i (record v { addr = addr }) 0) (pure false) (Ready Accepted i)
  failed-Good i v addr free failed =
      Triple-weaken
        (λ l n o.
          close_slot Accepted i (record v { addr = addr }) 0 l n o (ground (arith, free))
            (failed_slot Accepted (record v { addr = addr }) free (==→eq addr map_failed failed)))
        (λ _ l n good. good) (Triple-pure false {Q = Ready Accepted i})

  ready :
      (i : ℕ) (v : OurMmap)
      → v.active ≡ false
      → Accepted v.addr v.size
      → v.addr ≢ map_failed
      → Triple (Open Accepted i v 1) (pure true) (Ready Accepted i)
  ready i v free is_mapped ne =
      Triple-weaken (λ l n o. (v, free, is_mapped, ne, o)) (λ _ l n r. r)
        (Triple-pure true {Q = Ready Accepted i})

  there-ne : (addr : ℕ) → (addr == map_failed) ≡ false → addr ≢ map_failed
  there-ne addr h e = ground (arith, h, e)

  pub map_aux-Ready :
      (i which_fd which_mmap size prot flags : ℕ) (v : OurMmap)
      → v.active ≡ false
      → v.size ≡ size
      → Triple
          (Open Accepted i v 0)
          (map_aux w c i which_fd which_mmap size prot flags)
          (Ready Accepted i)
  unfolding map_aux
  map_aux-Ready i which_fd which_mmap size prot flags v free e =
      Triple-bind _ (λ _. Open Accepted i v 0) (Triple-Steady _ (search steady))
        λ _.
          Triple-bind _ (λ _. Open Accepted i v 0) (Triple-Steady _ (search steady))
            λ parent.
              Triple-bind _ (λ _. Open Accepted i v 0) (Triple-Steady _ (search steady depth 9))
                λ _.
                  Triple-bind _ (λ _. Open Accepted i v 0) (Triple-Steady _ (search steady))
                    λ ev.
                      Triple-bind _
                        (λ addr l n.
                          (addr ≢ map_failed → Accepted addr size) × Open Accepted i v 0 l n)
                        (Triple-call _ (λ addr. addr ≢ map_failed → Accepted addr size) _
                          (λ t. kernel.maps t 0 size prot flags ev.fd parent.size))
                        λ addr. Triple-given λ maps.
                          Triple-bind _ (λ _. Open Accepted i (record v { addr = addr }) 0)
                            (Triple-change_mmap Accepted i v 0 (λ m. record m { addr = addr }))
                            λ _.
                              Triple-test (addr == map_failed) (failed-Good i v addr free) λ there.
                                Triple-bind _ (λ _. Open Accepted i (record v { addr = addr }) 1)
                                  (Triple-one_more_mmap Accepted i (record v { addr = addr }) free)
                                  λ _.
                                    Triple-bind _
                                      (λ _. Open Accepted i (record v { addr = addr }) 1)
                                      (Triple-Steady _ (search steady))
                                      λ _.
                                        Triple-bind _
                                          (λ _.
                                            Open Accepted i (record v { addr = addr; fd = ev.fd })
                                              1)
                                          (Triple-change_mmap Accepted i (record v { addr = addr })
                                            1 (λ m. record m { fd = ev.fd }))
                                          λ _.
                                            Triple-bind _
                                              (λ _.
                                                Open Accepted i
                                                  (record v { addr = addr; fd = ev.fd }) 1)
                                              (Triple-Steady _ (search steady))
                                              λ _.
                                                Triple-bind _
                                                  (λ _.
                                                    Open Accepted i
                                                      (record v { addr = addr; fd = ev.fd }) 1)
                                                  (Triple-Steady _ (search steady))
                                                  λ _.
                                                    ready i (record v { addr = addr; fd = ev.fd })
                                                      free
                                                      (subst (Accepted addr) (sym e)
                                                        (maps (there-ne addr there)))
                                                      (there-ne addr there)

  pub map_event-Ready :
      (i which size prot flags : ℕ) (v : OurMmap)
      → v.active ≡ false
      → v.size ≡ size
      → Triple (Open Accepted i v 0) (map_event w c i which size prot flags) (Ready Accepted i)
  unfolding map_event
  map_event-Ready i which size prot flags v free e =
      Triple-bind _ (λ _. Open Accepted i v 0) (Triple-Steady _ (search steady))
        λ r.
          Triple-bind _ (λ _. Open Accepted i v 0) (Triple-Steady _ (search steady))
            λ hint.
              Triple-bind _ (λ _. Open Accepted i v 0) (Triple-Steady _ (search steady))
                λ _.
                  Triple-bind _ (λ _. Open Accepted i v 0) (Triple-Steady _ (search steady))
                    λ _.
                      Triple-bind _ (λ _. Open Accepted i v 0) (Triple-Steady _ (search steady))
                        λ ev.
                          Triple-bind _
                            (λ addr l n.
                              (addr ≢ map_failed → Accepted addr size) × Open Accepted i v 0 l n)
                            (Triple-call _ (λ addr. addr ≢ map_failed → Accepted addr size) _
                              (λ t. kernel.maps t hint size prot flags ev.fd 0))
                            λ addr. Triple-given λ maps.
                              Triple-bind _ (λ _. Open Accepted i (record v { addr = addr }) 0)
                                (Triple-change_mmap Accepted i v 0 (λ m. record m { addr = addr }))
                                λ _.
                                  Triple-test (addr == map_failed) (failed-Good i v addr free)
                                    λ there.
                                      Triple-bind _
                                        (λ _. Open Accepted i (record v { addr = addr }) 1)
                                        (Triple-one_more_mmap Accepted i (record v { addr = addr })
                                          free)
                                        λ _.
                                          Triple-bind _
                                            (λ _. Open Accepted i (record v { addr = addr }) 1)
                                            (Triple-Steady _ (search steady))
                                            λ _.
                                              Triple-bind _
                                                (λ _.
                                                  Open Accepted i
                                                    (record v {
                                                      addr = addr;
                                                      fd = ev.fd;
                                                      which_event = which;
                                                    })
                                                    1)
                                                (Triple-change_mmap Accepted i
                                                  (record v { addr = addr }) 1
                                                  (λ m. record m {
                                                    fd = ev.fd;
                                                    which_event = which;
                                                  }))
                                                λ _.
                                                  Triple-bind _
                                                    (λ _.
                                                      Open Accepted i
                                                        (record v {
                                                          addr = addr;
                                                          fd = ev.fd;
                                                          which_event = which;
                                                        })
                                                        1)
                                                    (Triple-Steady _ (search steady))
                                                    λ _.
                                                      Triple-bind _
                                                        (λ _.
                                                          Open Accepted i
                                                            (record v {
                                                            addr = addr;
                                                            fd = ev.fd;
                                                            which_event = which;
                                                            })
                                                            1)
                                                        (Triple-Steady _ (search steady))
                                                        λ _.
                                                          ready i
                                                            (record v {
                                                            addr = addr;
                                                            fd = ev.fd;
                                                            which_event = which;
                                                            })
                                                            free
                                                            (subst (Accepted addr) (sym e)
                                                            (maps (there-ne addr there)))
                                                            (there-ne addr there)

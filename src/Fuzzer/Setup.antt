-- ===== src/Fuzzer/Setup.antt =====
-- fuzzer/fuzz_mmap.c: `setup_mmap`, `setup_mmap_aux`, `unmap_mmap` and `mmap_random_event`.
use perf_event_tests.Base.{
  ℕ, suc, ◌^◌, ◌-◌, Bool, true, false, not, ◌&&◌, Option, none, some, [], ◌∷◌, leb, ◌==◌,
  if◌then◌else◌, has_bit,
}
use perf_event_tests.Fuzzer.State.{
  made, unmapping, OurMmap, World, Config, Fuzz, Done, logged, printed, aux_offset, aux_size,
  map_failed, pure, ◌>>=◌, when, change, event_at, mmap_at, change_event, change_mmap, call, random,
  count_stat, put, store, plus_one, minus_one, if_found,
}
use perf_event_tests.Fuzzer.Find.{
  find_empty_mmap, find_random_active_mmap, find_random_active_event,
}
use perf_event_tests.Fuzzer.Random.{mmap_random_prot, mmap_random_size, mmap_random_flags}
use perf_event_tests.Fuzzer.Mmap.{perf_mmap_read, trash_random_mmap}

-- An index that was searched for, as an `int`: -1 where there is none. It is outside every table.
abbrev pub to_int : Option ℕ → ℕ
to_int none = 2 ^ 32 - 1
to_int (some i) = i

abbrev pub is_negative : ℕ → Bool
is_negative i = leb (2 ^ 31) i

-- `active_mmaps++`.
abbrev pub one_more_mmap : Fuzz Done
one_more_mmap = change (λ s. record s { active_mmaps = plus_one s.active_mmaps })

abbrev log_mapping : Config → (size fd addr : ℕ) → Fuzz Done
log_mapping c size fd addr = when c.log_mmap (put (logged "M %d %d %p\n" (size ∷ fd ∷ addr ∷ [])))

-- The slot as it stands before the system call.
unfoldable pub prepare : (i size prot flags : ℕ) → Fuzz Done
prepare i size prot flags =
    change_mmap i
      (λ m. record m { addr = map_failed; prot = prot; flags = flags; size = size; aux = false })

unfoldable pub prepare_aux : (i which_mmap size prot flags : ℕ) → Fuzz Done
prepare_aux i which_mmap size prot flags = change_mmap i (λ m. record m {
  addr = map_failed;
  prot = prot;
  flags = flags;
  size = size;
  aux = true;
  parent_mmap = which_mmap;
})

-- The call of `mmap` for the aux area. `false` is an early return of -1.
unfoldable pub map_aux : World → Config → (i which_fd which_mmap size prot flags : ℕ) → Fuzz Bool
map_aux w c i which_fd which_mmap size prot flags = do
  _ ← count_stat (λ x. record x { mmap_aux_attempts = suc x.mmap_aux_attempts })
  parent ← mmap_at which_mmap
  _ ←
      when (not (parent.addr == 0) && has_bit parent.prot 1)
        (do _ ← store (aux_offset parent.addr parent.size); store (aux_size parent.addr size))
  e ← event_at which_fd
  addr ← call (λ t. w.mmap t 0 size prot flags e.fd parent.size)
  _ ← change_mmap i (λ m. record m { addr = addr })
  if addr == map_failed then pure false else (do
    _ ← one_more_mmap
    _ ← change_event which_fd (λ x. record x { mmap = i })
    _ ← change_mmap i (λ m. record m { fd = e.fd })
    _ ← log_mapping c size e.fd addr
    _ ← count_stat (λ x. record x { mmap_aux_successful = suc x.mmap_aux_successful })
    pure true)

-- `mmaps[i].active=1`.
unfoldable pub activate : ℕ → Fuzz Done
activate i = change_mmap i (λ m. record m { active = true })

-- `false` is -1, and `true` is 0.
unfoldable pub setup_mmap_aux : World → Config → (which_fd which_mmap : ℕ) → Fuzz Bool
unfolding prepare_aux map_aux activate
setup_mmap_aux w c which_fd which_mmap = do
  found ← find_empty_mmap
  if_found found (pure false) λ i. do
    size ← mmap_random_size w 0
    prot ← mmap_random_prot w
    flags ← mmap_random_flags w
    _ ← prepare_aux i which_mmap size prot flags
    go_on ← if c.ignore_mmap then pure true else map_aux w c i which_fd which_mmap size prot flags
    if go_on then (do _ ← activate i; pure true) else pure false

-- The call of `mmap`. `false` is an early return of -1.
unfoldable pub map_event : World → Config → (i which size prot flags : ℕ) → Fuzz Bool
map_event w c i which size prot flags = do
  r ← random w 20
  hint ← if r == 0 then call w.get_address else pure 0
  _ ← count_stat (λ x. record x { mmap_attempts = suc x.mmap_attempts })
  _ ← count_stat (λ x. record x { total_syscalls = suc x.total_syscalls })
  e ← event_at which
  addr ← call (λ t. w.mmap t hint size prot flags e.fd 0)
  _ ← change_mmap i (λ m. record m { addr = addr })
  if addr == map_failed then pure false else (do
    _ ← one_more_mmap
    _ ← change_event which (λ x. record x { mmap = i })
    _ ← change_mmap i (λ m. record m { fd = e.fd; which_event = which })
    _ ← log_mapping c size e.fd addr
    _ ← count_stat (λ x. record x { mmap_successful = suc x.mmap_successful })
    pure true)

-- `if (rand()%4==0) setup_mmap_aux(which,i);`
unfoldable pub maybe_aux : World → Config → (which i : ℕ) → Fuzz Done
maybe_aux w c which i = do
  r ← random w 4
  when (r == 0) (do _ ← setup_mmap_aux w c which i; pure tt)

unfoldable pub setup_mmap : World → Config → (which : ℕ) → Fuzz Bool
unfolding prepare map_event activate maybe_aux
setup_mmap w c which = do
  found ← find_empty_mmap
  if_found found (pure false) λ i. do
    size ← mmap_random_size w 1
    prot ← mmap_random_prot w
    flags ← mmap_random_flags w
    _ ← prepare i size prot flags
    go_on ← if c.ignore_mmap then pure true else map_event w c i which size prot flags
    if go_on then (do _ ← activate i; _ ← maybe_aux w c which i; pure true) else pure false

-- The part behind the test for MAP_FAILED.
unfoldable pub unmap_mapped : World → Config → (i : ℕ) → (from_sigio : Bool) → OurMmap → Fuzz Done
unmap_mapped w c i from_sigio m = do
  _ ← change_mmap i (λ x. record x { active = false })
  success ← made (unmapping m.addr m.size) (λ t. w.munmap t m.addr m.size)
  _ ←
      when (not from_sigio && c.log_mmap)
        (put (logged "U %d %d %p\n" (m.fd ∷ m.size ∷ m.addr ∷ [])))
  _ ← change_mmap i (λ x. record x { addr = map_failed })
  when success (do
    _ ← count_stat (λ x. record x { mmap_unmap_successful = suc x.mmap_unmap_successful })
    change (λ s. record s { active_mmaps = minus_one s.active_mmaps }))

unfoldable pub unmap_mmap : World → Config → (i : ℕ) → (from_sigio : Bool) → Fuzz Done
unfolding unmap_mapped
unmap_mmap w c i from_sigio = do
  _ ← count_stat (λ x. record x { mmap_unmap_attempts = suc x.mmap_unmap_attempts })
  _ ← count_stat (λ x. record x { total_syscalls = suc x.total_syscalls })
  _ ← when (is_negative i) (put (printed "ERROR! Invalid mmap index %d\n" (i ∷ [])))
  m ← mmap_at i
  when (not (m.addr == map_failed)) (unmap_mapped w c i from_sigio m)

unfoldable pub mmap_random_event : World → Config → (trash : Bool) → Fuzz Done
unfolding setup_mmap
mmap_random_event w c trash = do
  r ← random w 6
  if r == 0
      then (do which ← find_random_active_event w; _ ← setup_mmap w c (to_int which); pure tt)
      else if r == 2
      then (do
        which ← find_random_active_mmap w
        if_found which (pure tt) λ i. unmap_mmap w c i false)
      else if r == 3
      then (do
        which ← find_random_active_mmap w
        if_found which (pure tt) λ i. do _ ← perf_mmap_read w i; pure tt)
      else when (r == 4 && trash) (trash_random_mmap w c)

-- ===== src/Fuzzer/Mmap.antt =====
-- fuzzer/fuzz_mmap.c: the operations on the table of mappings.
use perf_event_tests.Base.{
  ℕ, suc, ◌%◌, ◌^◌, ◌-◌, Bool, not, ◌&&◌, [], ◌∷◌, ◌==◌, if◌then◌else◌, has_bit,
}
use perf_event_tests.Fuzzer.State.{
  OurMmap, World, Config, Fuzz, Done, logged, printed, pretty, data_tail, aux_tail, first_byte,
  map_failed, pure, ◌>>=◌, when, event_at, mmap_at, change_mmap, call, count_stat, put, store,
  if_found,
}
use perf_event_tests.Fuzzer.Find.{find_random_active_mmap}

-- `prot&PROT_READ` and `prot&PROT_WRITE`.
abbrev readable : OurMmap → Bool
readable m = has_bit m.prot 0

abbrev writable : OurMmap → Bool
writable m = has_bit m.prot 1

-- A guard `if (!b) return 0;` and what follows.
abbrev or_zero : Bool → Fuzz ℕ → Fuzz ℕ
or_zero b m = if b then m else pure 0

-- `(long long)-1`.
abbrev failure : ℕ
failure = 2 ^ 64 - 1

unfoldable pub perf_mmap_aux_read : World → ℕ → Fuzz ℕ
perf_mmap_aux_read w which = do
  m ← mmap_at which
  _ ← count_stat (λ c. record c { mmap_aux_read_attempts = suc c.mmap_aux_read_attempts })
  or_zero (readable m) (do
    parent ← mmap_at m.parent_mmap
    or_zero
        (readable parent
          && (parent.active && (not (parent.addr == map_failed) && not (parent.size == 0))))
        (if parent.addr == 0 then pure failure else (do
          head ← call (λ t. w.aux_head t parent.addr)
          _ ← when (writable parent) (do
            _ ← store (aux_tail parent.addr head)
            change_mmap which (λ x. record x { aux_head = head }))
          _ ←
              count_stat
                (λ c. record c { mmap_aux_read_successful = suc c.mmap_aux_read_successful })
          pure head)))

unfoldable pub perf_mmap_read : World → ℕ → Fuzz ℕ
unfolding perf_mmap_aux_read
perf_mmap_read w which = do
  m ← mmap_at which
  if m.aux then perf_mmap_aux_read w which else (do
    _ ← count_stat (λ c. record c { mmap_read_attempts = suc c.mmap_read_attempts })
    or_zero (readable m && (m.active && (not (m.addr == map_failed) && not (m.size == 0)))) (
        if m.addr == 0 then pure failure else (do
          head ← call (λ t. w.data_head t m.addr)
          _ ← when (writable m) (do
            _ ← store (data_tail m.addr head)
            change_mmap which (λ x. record x { head = head }))
          _ ← count_stat (λ c. record c { mmap_read_successful = suc c.mmap_read_successful })
          pure head)))

-- What the handler of the segmentation fault prints.
unfoldable pub print_segfault : ℕ → OurMmap → Fuzz Done
print_segfault i m = do
  _ ← put (printed "Memset of mmap#%d at %p caused segfault!\n" (i ∷ m.addr ∷ []))
  _ ← put (pretty "perf_pretty_print_mmap_flags" (m.flags ∷ []))
  _ ← put (pretty "perf_pretty_print_mmap_prot" (m.prot ∷ []))
  _ ← put (printed "size %d fd %d\n" (m.size ∷ m.fd ∷ []))
  e ← event_at m.which_event
  _ ← put (
      printed "event: cpu=%d pid=%d group_fd=%d flags=%ld "
        (e.cpu ∷ e.pid ∷ e.group_fd ∷ e.flags ∷ []))
  put (pretty "perf_pretty_print_attr" (m.which_event ∷ m.fd ∷ []))

-- `memset` of one byte at the start of the mapping, and the log.
unfoldable pub overwrite : World → Config → (i value : ℕ) → OurMmap → Fuzz Done
unfolding print_segfault
overwrite w c i value m = do
  fault ← call (λ t. w.segfaults t m.addr)
  _ ← if fault then print_segfault i m else store (first_byte m.addr (value % 256))
  _ ← when c.log_trash_mmap (put (logged "Q %d %d %d\n" (value ∷ w.page_size ∷ m.fd ∷ [])))
  count_stat (λ x. record x { mmap_trash_successful = suc x.mmap_trash_successful })

unfoldable pub trash_random_mmap : World → Config → Fuzz Done
unfolding overwrite
trash_random_mmap w c = do
  _ ← count_stat (λ x. record x { mmap_trash_attempts = suc x.mmap_trash_attempts })
  found ← find_random_active_mmap w
  if_found found (pure tt) λ i. do
    value ← call w.rand
    if c.ignore_trash_mmap then pure tt else (do
      m ← mmap_at i
      when (writable m && not (m.aux && writable m)) (overwrite w c i value m))

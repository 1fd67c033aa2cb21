-- ===== src/Fuzzer/Random.antt =====
-- fuzzer/fuzz_mmap.c: the random protection, size and flags of a mapping.
use Prim.Native.Nat.{bit_or}
use perf_event_tests.Base.{ℕ, ◌+◌, ◌*◌, ◌^◌, not, ◌==◌, if◌then◌else◌}
use perf_event_tests.Fuzzer.State.{World, Fuzz, pure, ◌>>=◌, random}

-- `if (rand()%2) x|=bits;`
abbrev maybe : World → (bits x : ℕ) → Fuzz ℕ
maybe w bits x = do r ← random w 2; pure (if r == 0 then x else bit_or x bits)

-- PROT_READ is 1, PROT_WRITE 2 and PROT_EXEC 4.
unfoldable pub mmap_random_prot : World → Fuzz ℕ
mmap_random_prot w = do
  r ← random w 10
  if not (r == 0)
      then pure (bit_or 1 2)
      else (do prot ← maybe w 4 0; prot ← maybe w 1 prot; maybe w 2 prot)

-- `notaux` is 1 for the first mapping of an event and 0 for its aux area.
unfoldable pub mmap_random_size : World → (notaux : ℕ) → Fuzz ℕ
mmap_random_size w notaux = do
  which ← random w 3
  if which == 0
      then (do r ← random w 64; pure (r * w.page_size))
      else if which == 1
      then (do r ← random w 10; pure ((notaux + 2 ^ r) * w.page_size))
      else random w 65535

-- The values of an x86-64 Linux: MAP_SHARED is 1 and MAP_PRIVATE 2.
unfoldable pub mmap_random_flags : World → Fuzz ℕ
mmap_random_flags w = do
  r ← random w 10
  if not (r == 0) then pure 1 else (do
    private ← random w 2
    flags ← maybe w 0x40 (if private == 0 then 2 else 1)
    flags ← maybe w 0x800 flags
    flags ← maybe w 0x1000 flags
    flags ← maybe w 0 flags
    flags ← maybe w 0x10 flags
    flags ← maybe w 0x100 flags
    flags ← maybe w 0x40000 flags
    flags ← maybe w 0x2000 flags
    flags ← maybe w 0x10000 flags
    flags ← maybe w 0x4000 flags
    flags ← maybe w 0x8000 flags
    maybe w 0x20000 flags)

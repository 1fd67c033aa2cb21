-- ===== src/Record/Sample/DataSource.antt =====
-- lib/parse_record.c: the words that a PERF_SAMPLE_DATA_SRC value is printed as.
use Prim.Native.Nat.{bit_and}
use perf_event_tests.Base.{ℕ, ◌*◌, ◌^◌, ◌-◌, String, Bool, true, false, not, List, [], ◌∷◌, ◌==◌}
use perf_event_tests.Record.Reader.{Reader, Done, pure, ◌>>=◌, when, say}

-- The masks in the order of the tests. `PERF_MEM_TLB_WK<<PERF_MEM_TLB_SHIFT` is the `int` 0x20<<26,
-- which is negative: as a `long long` all its bits from 31 up are set.
abbrev pub tests : List (ℕ × String)
tests =
    (1, "Op Not available ")
    ∷ (2, "Load ")
    ∷ (4, "Store ")
    ∷ (8, "Prefetch ")
    ∷ (0x10, "Executable code ")
    ∷ (0x01 * 2 ^ 5, "Level Not available ")
    ∷ (0x02 * 2 ^ 5, "Hit ")
    ∷ (0x04 * 2 ^ 5, "Miss ")
    ∷ (0x08 * 2 ^ 5, "L1 cache ")
    ∷ (0x10 * 2 ^ 5, "Line fill buffer ")
    ∷ (0x20 * 2 ^ 5, "L2 cache ")
    ∷ (0x40 * 2 ^ 5, "L3 cache ")
    ∷ (0x80 * 2 ^ 5, "Local DRAM ")
    ∷ (0x100 * 2 ^ 5, "Remote DRAM 1 hop ")
    ∷ (0x200 * 2 ^ 5, "Remote DRAM 2 hops ")
    ∷ (0x400 * 2 ^ 5, "Remote cache 1 hop ")
    ∷ (0x800 * 2 ^ 5, "Remote cache 2 hops ")
    ∷ (0x1000 * 2 ^ 5, "I/O memory ")
    ∷ (0x2000 * 2 ^ 5, "Uncached memory ")
    ∷ (0x01 * 2 ^ 19, "Not available ")
    ∷ (0x02 * 2 ^ 19, "No snoop ")
    ∷ (0x04 * 2 ^ 19, "Snoop hit ")
    ∷ (0x08 * 2 ^ 19, "Snoop miss ")
    ∷ (0x10 * 2 ^ 19, "Snoop hit modified ")
    ∷ (0x01 * 2 ^ 24, "Not available ")
    ∷ (0x02 * 2 ^ 24, "Locked transaction ")
    ∷ (0x01 * 2 ^ 26, "Not available ")
    ∷ (0x02 * 2 ^ 26, "Hit ")
    ∷ (0x04 * 2 ^ 26, "Miss ")
    ∷ (0x08 * 2 ^ 26, "Level 1 TLB ")
    ∷ (0x10 * 2 ^ 26, "Level 2 TLB ")
    ∷ (2 ^ 64 - 2 ^ 31, "Hardware walker ")
    ∷ (0x40 * 2 ^ 26, "OS fault handler ")
    ∷ []

unfoldable pub print_matches : List (ℕ × String) → ℕ → Reader Done
print_matches [] src = pure tt
print_matches ((mask, text) ∷ more) src = do
  _ ← when (not (bit_and src mask == 0)) (say false text [])
  print_matches more src

unfoldable pub data_source : Bool → ℕ → Reader Done
unfolding print_matches
data_source true src = pure tt
data_source false src = do _ ← when (not (src == 0)) (say false "\t\t" []); print_matches tests src

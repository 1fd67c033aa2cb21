-- ===== src/Record/Ring.antt =====
-- lib/parse_record.c: `perf_mmap_read`, which copies the new bytes out of the ring buffer, parses
-- them and gives the space back to the kernel.
pub mod Copy
pub mod Whole
use perf_event_tests.Base.{
  ℕ, suc, ◌+◌, ◌-◌, ◌*◌, ◌%◌, ◌^◌, ◌&&◌, String, Bool, true, false, not, Option, none, some, List,
  [], ◌∷◌, ◌++◌, ltb, ◌==◌, if◌then◌else◌, take?, drop,
}
use perf_event_tests.Record.Reader.{Line, printed, error}
use perf_event_tests.Record.Sample.{Settings}
use perf_event_tests.Record.Mmap.{Parse, finished, fault, out_of_fuel, parse_loop}

-- What `perf_mmap_read` sees of the mapping: the data pages, `mmap_size` in pages, `data_head`, and
-- whether the pointer is null and the allocation succeeds. Heads are 64-bit patterns.
pub record Mapping : Type 0 where
  pub ring : List ℕ
  pub pages : ℕ
  pub page_size : ℕ
  pub data_head : ℕ
  pub is_null : Bool
  pub malloc_succeeds : Bool

pub data Outcome : Type 0 where
  -- an early return, which stores nothing: the value, a pattern of 64 bits, and what was printed
  returned : ℕ → List Line → Outcome
  -- the head, which is returned and stored in `data_tail`, `*events_read`, and what was printed
  parsed : ℕ → ℕ → List Line → Outcome
  undefined endless : Outcome

-- `(long long)-1`.
abbrev minus_one : ℕ
minus_one = 2 ^ 64 - 1

-- `size=head-prev_head` cut to 32 bits.
abbrev pub new_bytes : ℕ → ℕ → ℕ
new_bytes head prev_head = (head + 2 ^ 64 - prev_head) % 2 ^ 32

-- `prev_head%bytesize` for a signed 64-bit head. A negative remainder makes the first `memcpy`
-- overrun its block.
abbrev pub wrap : ℕ → ℕ → Option ℕ
wrap prev_head bytesize =
    if ltb prev_head (2 ^ 63)
    then some (prev_head % bytesize)
    else if (2 ^ 64 - prev_head) % bytesize == 0
    then some 0
    else none

-- The two `memcpy`: from the old head to the end of the ring, and then its start.
unfoldable pub copy_ring : List ℕ → (bytesize at : ℕ) → Option (List ℕ)
copy_ring ring bytesize at = elim (take? (bytesize - at) (drop at ring)) [
  | none ↦ none
  | some front ↦ elim (take? at ring) [ none ↦ none | some back ↦ some (front ++ back) ]
]

unfoldable pub conclude : ℕ → List Line → Parse → Outcome
conclude head log (finished events more) = parsed head events (log ++ more)
conclude head log fault = undefined
conclude head log out_of_fuel = endless

-- A negative `size` makes no round. The loop has a round for each byte, and one for its last test.
unfoldable pub parse_new : Settings → ℕ → ℕ → List ℕ → List Line → Outcome
unfolding conclude parse_loop
parse_new s head size buf log =
    conclude head log
      (if ltb size (2 ^ 31) then parse_loop s size (suc size) buf 0 else finished 0 [])

-- `printf` of the overflow is not guarded by `quiet`, and the parse goes on.
unfoldable pub overflow_log : (size bytesize : ℕ) → List Line
overflow_log size bytesize =
    if ltb bytesize size && ltb size (2 ^ 31)
    then printed "error!  we overflowed the mmap buffer %d>%lld bytes\n" (size ∷ bytesize ∷ []) ∷ []
    else []

unfoldable pub copy_and_parse : Settings → Mapping → (prev_head bytesize size : ℕ) → Outcome
copy_and_parse s m prev_head bytesize size =
    if not m.malloc_succeeds
    then returned minus_one (overflow_log size bytesize)
    else elim (wrap prev_head bytesize) [
      | none ↦ undefined
      | some at ↦ elim (copy_ring m.ring bytesize at) [
        | none ↦ undefined
        | some buf ↦ parse_new s m.data_head size buf (overflow_log size bytesize)
      ]
    ]

unfoldable pub perf_mmap_read : Settings → Mapping → (prev_head : ℕ) → Outcome
perf_mmap_read s m prev_head =
    if m.pages == 0
    then returned 0 []
    else if m.is_null
    then returned minus_one (error "ERROR mmap page NULL\n" [] ∷ [])
    else copy_and_parse s m prev_head (m.pages * m.page_size) (new_bytes m.data_head prev_head)

-- ===== src/Record/Ring/Whole.antt =====
-- `perf_mmap_read` on a ring that holds whole records between the old head and the new one.
use perf_event_tests.Base.{
  ℕ, suc, ◌+◌, ◌*◌, ◌%◌, ◌^◌, ◌≤◌, ◌<◌, ◌≡◌, refl, ap, ◌∙◌, true, false, inl, inr, Bool-cases,
  ==→eq, lt→ltb, some, List, [], ◌∷◌, ◌++◌, arith, ltb, ◌==◌, length, length-append, get_elem?,
  drop,
}
use native.Mathlib.Nat.{mod-lt}
use perf_event_tests.Record.Ring.{
  Mapping, parsed, new_bytes, copy_ring, conclude, parse_new, overflow_log, copy_and_parse,
  perf_mmap_read,
}
use perf_event_tests.Record.Ring.Copy.{copy_ring_total, copy_ring-get_elem?}
use perf_event_tests.Record.Sample.{Settings}
use perf_event_tests.Record.SampleSpec.{loud}
use perf_event_tests.Record.Event.{Event, event_bytes, all_bytes, all_lines, AllEventsFit}
use perf_event_tests.Record.EventRoundTrip.{event-length, loop-Reads}

prefix_of :
    (xs ys : List ℕ)
    → ((k : ℕ) → k < length xs → get_elem? ys k ≡ get_elem? xs k)
    → ys ≡ xs ++ drop (length xs) ys
prefix_of [] ys h = refl
prefix_of (x ∷ xs) [] h = absurd (ground (arith, h 0 (omega arith)))
prefix_of (x ∷ xs) (y ∷ ys) h =
    ground (arith, h 0 (omega arith), prefix_of xs ys (λ k lt. h (suc k) (omega arith)))

length-le-all_bytes : (s : Settings) (es : List Event) → length es ≤ length (all_bytes s es)
length-le-all_bytes s [] = omega arith
length-le-all_bytes s (e ∷ es) = omega (
  arith,
  length-append (event_bytes s e) (all_bytes s es),
  event-length s e,
  length-le-all_bytes s es,
)

-- The kernel has written whole records from the old head on, round the end of the ring.
pub record Holds (s : Settings) (m : Mapping) (prev_head : ℕ) (es : List Event) : Type 0 where
  pub mapped : m.is_null ≡ false
  pub allocated : m.malloc_succeeds ≡ true
  pub whole : length m.ring ≡ m.pages * m.page_size
  pub not_empty : 0 < m.pages * m.page_size
  pub small : m.pages * m.page_size < 2 ^ 31
  pub old : prev_head < 2 ^ 63
  pub head : m.data_head ≡ prev_head + length (all_bytes s es)
  pub fits : length (all_bytes s es) ≤ m.pages * m.page_size
  pub events : AllEventsFit s es
  pub written :
      (k : ℕ)
      → k < length (all_bytes s es)
      → get_elem? m.ring ((prev_head + k) % (m.pages * m.page_size)) ≡ get_elem? (all_bytes s es) k

module _ (s : Settings) (m : Mapping) (prev_head : ℕ) (es : List Event)
    (h : Holds s m prev_head es) where
  abbrev total : ℕ
  total = length (all_bytes s es)

  size-eq-total : new_bytes m.data_head prev_head ≡ total
  size-eq-total = omega (arith, h.head, h.old, h.small, h.fits)

  no_overflow : overflow_log total (m.pages * m.page_size) ≡ []
  unfolding overflow_log
  no_overflow = ground (arith, h.fits)

  pages-ne-zero : (m.pages == 0) ≡ false
  pages-ne-zero = elim (Bool-cases (m.pages == 0)) [
    | inr no_pages ↦ no_pages
    | inl all_gone ↦
        let e : m.pages ≡ 0 = ==→eq m.pages 0 all_gone in
        absurd (omega (arith, h.not_empty, ap (λ (n : ℕ). n * m.page_size) e))
  ]

  abbrev at : ℕ
  at = prev_head % (m.pages * m.page_size)

  below : at < m.pages * m.page_size
  below = mod-lt prev_head h.not_empty

  parsed_copy :
      (buf : List ℕ)
      → copy_ring m.ring (m.pages * m.page_size) at ≡ some buf
      → parse_new (loud s) m.data_head total buf []
        ≡ parsed m.data_head (length es) (all_lines s es)
  unfolding parse_new conclude
  parsed_copy buf copied =
      let bytes = λ (k : ℕ) (lt : k < total).
        copy_ring-get_elem? m.ring (m.pages * m.page_size) prev_head k buf copied
          (omega (arith, h.fits))
        ∙ h.written k lt in
      let front = prefix_of (all_bytes s es) buf bytes in
      let loop =
        loop-Reads s total es (suc total) 0 buf (drop total buf) h.events front (omega arith)
          (omega (arith, length-le-all_bytes s es)) in
      let small : ltb total (2 ^ 31) ≡ true = lt→ltb _ _ (omega (arith, h.fits, h.small)) in
      rw small (rw loop)

  copied_and_parsed :
      copy_and_parse (loud s) m prev_head (m.pages * m.page_size) total
      ≡ parsed m.data_head (length es) (all_lines s es)
  unfolding copy_and_parse
  copied_and_parsed =
      let (buf, copied, full) = copy_ring_total m.ring (m.pages * m.page_size) at h.whole below in
      let old : ltb prev_head (2 ^ 63) ≡ true = lt→ltb _ _ h.old in
      ground (arith, h.allocated, old, copied, no_overflow, parsed_copy buf copied)

  -- Where the ring holds whole records from the old head to the new one, wrapped round its end or not (of the
  -- kinds that `Body` has, samples of plain settings, each `sample_id` as long as the one the parser takes),
  -- `perf_mmap_read` counts each record, prints their lines in order, and returns and stores the new head.
  pub perf_mmap_read-Holds :
      perf_mmap_read (loud s) m prev_head ≡ parsed m.data_head (length es) (all_lines s es)
  unfolding perf_mmap_read
  perf_mmap_read-Holds = ground (arith, pages-ne-zero, h.mapped, size-eq-total, copied_and_parsed)

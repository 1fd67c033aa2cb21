-- ===== src/Fuzzer/Close.antt =====
-- fuzzer/fuzz_close.c.
use perf_event_tests.Base.{
  ℕ, suc, ◌+◌, ◌-◌, ◌^◌, ◌%◌, Bool, false, not, ◌&&◌, [], ◌∷◌, ◌==◌, if◌then◌else◌,
}
use perf_event_tests.Fuzzer.State.{
  made, closing, World, Config, Fuzz, Done, logged, pure, ◌>>=◌, when, change, event_at,
  change_event, random, count_stat, put, minus_one,
}
use perf_event_tests.Fuzzer.Find.{find_random_active_event}
use perf_event_tests.Fuzzer.Setup.{to_int, is_negative, unmap_mmap}

-- `current_open--` on the pattern of a `long long`.
abbrev pub one_less : ℕ → ℕ
one_less n = (n + 2 ^ 64 - 1) % 2 ^ 64

-- `close`, its statistics and its log.
unfoldable pub close_fd : World → Config → (fd : ℕ) → (from_sigio : Bool) → Fuzz Done
close_fd w c fd from_sigio = do
  _ ← count_stat (λ x. record x { close_attempts = suc x.close_attempts })
  success ← made (closing fd) (λ t. w.close t fd)
  _ ← when success (
      count_stat (λ x. record x {
        close_successful = suc x.close_successful;
        current_open = one_less x.current_open;
      }))
  when (not from_sigio && c.log_close) (put (logged "C %d\n" (fd ∷ [])))

-- The event is marked as closed before anything else.
unfoldable pub close_active :
    World → Config → (i : ℕ) → (from_sigio unmap_before_close : Bool) → Fuzz Done
unfolding close_fd unmap_mmap
close_active w c i from_sigio unmap_before_close = do
  _ ← change_event i (λ x. record x { active = false })
  e ← event_at i
  _ ← when unmap_before_close (unmap_mmap w c e.mmap from_sigio)
  _ ← close_fd w c e.fd from_sigio
  _ ← when (not unmap_before_close) (unmap_mmap w c e.mmap from_sigio)
  change (λ s. record s { active_events = minus_one s.active_events })

unfoldable pub close_event : World → Config → (i : ℕ) → (from_sigio : Bool) → Fuzz Done
unfolding close_active
close_event w c i from_sigio = if is_negative i then pure tt else (do
  r ← random w 2
  if c.ignore_close then pure tt else close_active w c i from_sigio (not (r == 0)))

unfoldable pub close_random_event : World → Config → Fuzz Done
unfolding close_event
close_random_event w c = do found ← find_random_active_event w; close_event w c (to_int found) false

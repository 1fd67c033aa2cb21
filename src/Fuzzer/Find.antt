-- ===== src/Fuzzer/Find.antt =====
-- fuzzer/perf_fuzzer.c and fuzzer/fuzz_mmap.c: the searches of the two tables. `none` is -1.
pub mod Search
pub mod Active
use perf_event_tests.Base.{
  ℕ, zero, suc, ◌+◌, ◌%◌, ◌^◌, ◌*◌, String, Bool, true, false, not, ◌&&◌, ◌||◌, Option, none, some,
  List, [], ◌∷◌, ltb, leb, ◌==◌, if◌then◌else◌,
}
use perf_event_tests.Fuzzer.State.{
  Event, OurMmap, State, World, Fuzz, Done, pure, ◌>>=◌, ask, call, random, put, printed, if_found,
}

-- `if (p) { if (j==x) return i; j++; }` over the table, from index `i` on.
abbrev pub nth_where : {A : Type 0} → (A → Bool) → (x i j : ℕ) → List A → Option ℕ
nth_where p x i j [] = none
nth_where p x i j (a ∷ as') =
    let rest = nth_where p x (i + 1) (if p a then j + 1 else j) as' in
    if p a && (j == x) then some i else rest

-- `if (p) return i;` over the table.
abbrev pub first_where : {A : Type 0} → (A → Bool) → (i : ℕ) → List A → Option ℕ
first_where p i [] = none
first_where p i (a ∷ as') = let rest = first_where p (i + 1) as' in if p a then some i else rest

-- `n<1` for an `int`.
abbrev pub less_than_one : ℕ → Bool
less_than_one n = (n == 0) || leb (2 ^ 31) n

unfoldable pub find_random_active_event : World → Fuzz (Option ℕ)
find_random_active_event w = do
  n ← ask (λ s. s.active_events)
  if less_than_one n then pure none else (do
    x ← random w n
    events ← ask (λ s. s.events)
    pure (nth_where (λ (e : Event). e.active) x 0 0 events))

unfoldable pub find_random_active_sampling_event : World → Fuzz (Option ℕ)
find_random_active_sampling_event w = do
  n ← ask (λ s. s.active_events)
  if less_than_one n then pure none else (do
    x ← random w n
    events ← ask (λ s. s.events)
    pure (nth_where (λ (e : Event). e.active && not (e.sample_period == 0)) x 0 0 events))

-- PERF_TYPE_BREAKPOINT is 5.
unfoldable pub find_random_active_breakpoint_event : World → Fuzz (Option ℕ)
find_random_active_breakpoint_event w = do
  n ← ask (λ s. s.active_events)
  if less_than_one n then pure none else (do
    x ← random w n
    events ← ask (λ s. s.events)
    pure (nth_where (λ (e : Event). e.active && (e.type == 5)) x 0 0 events))

unfoldable pub lookup_event : ℕ → Fuzz (Option ℕ)
lookup_event fd = do
  n ← ask (λ s. s.active_events)
  if less_than_one n then pure none else (do
    events ← ask (λ s. s.events)
    pure (first_where (λ (e : Event). e.active && (e.fd == fd)) 0 events))

unfoldable pub find_empty_event : Fuzz (Option ℕ)
find_empty_event = do
  events ← ask (λ s. s.events)
  pure (first_where (λ (e : Event). not e.active) 0 events)

unfoldable pub find_empty_mmap : Fuzz (Option ℕ)
find_empty_mmap = do
  mmaps ← ask (λ s. s.mmaps)
  pure (first_where (λ (m : OurMmap). not m.active) 0 mmaps)

unfoldable pub find_random_active_mmap : World → Fuzz (Option ℕ)
find_random_active_mmap w = do
  n ← ask (λ s. s.active_mmaps)
  if less_than_one n then pure none else (do
    x ← random w n
    mmaps ← ask (λ s. s.mmaps)
    let found = nth_where (λ (m : OurMmap). m.active) x 0 0 mmaps
    if_found found (do _ ← put (printed "Fail random mmaps\n" []); pure none) λ i. pure (some i))

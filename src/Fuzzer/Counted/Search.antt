-- ===== src/Fuzzer/Counted/Search.antt =====
-- The searches return an index whose activity is known.
use perf_event_tests.Base.{
  ℕ, suc, ◌%◌, ◌≡◌, refl, sym, ap, ◌∙◌, inl, inr, Bool, true, false, not, Option, none, some, arith,
  Bool-cases, get_elem?,
}
use perf_event_tests.Fuzzer.State.{Event, State, World, pure, ◌>>=◌, ask, call}
use perf_event_tests.Fuzzer.Find.{
  first_where, nth_where, less_than_one, find_empty_event, find_random_active_event,
}
use perf_event_tests.Fuzzer.Find.Search.{first_where-some, nth_where-some}
use perf_event_tests.Fuzzer.Calm.{activity, get_elem?-activity}
use perf_event_tests.Fuzzer.Counted.{Condition, Ensures, Right, Ensures-lands}

-- An index that a search returned, with the activity of its event.
abbrev pub FoundAt : Bool → Option ℕ → Condition
FoundAt b o bs n = Right bs n × ((i : ℕ) → o ≡ some i → get_elem? bs i ≡ some b)

empty_first :
    (s : State) (o : Option ℕ)
    → o ≡ first_where (λ (e : Event). not e.active) 0 s.events
    → (i : ℕ) → o ≡ some i
    → get_elem? (activity s.events) i ≡ some false
empty_first s o h i e =
    let (j, event, at, here, passes) =
      first_where-some (λ (e : Event). not e.active) 0 i s.events (sym h ∙ e) in
    let same : j ≡ i = omega arith in
    ap (get_elem? (activity s.events)) (sym same)
    ∙ get_elem?-activity s.events j event here
    ∙ ground (arith, passes)

pub find_empty-FoundAt : Ensures Right find_empty_event (FoundAt false)
unfolding find_empty_event ask pure ◌>>=◌
find_empty-FoundAt = Ensures-lands λ s a s' p h. (
  first_where (λ (e : Event). not e.active) 0 s.events,
  s,
  refl,
  (p, empty_first s (first_where (λ (e : Event). not e.active) 0 s.events) refl),
)

active_nth :
    (s : State) (x i : ℕ)
    → nth_where (λ (e : Event). e.active) x 0 0 s.events ≡ some i
    → get_elem? (activity s.events) i ≡ some true
active_nth s x i h =
    let (j, event, at, here, passes) =
      nth_where-some (λ (e : Event). e.active) x 0 0 i s.events h in
    let same : j ≡ i = omega arith in
    ap (get_elem? (activity s.events)) (sym same)
    ∙ get_elem?-activity s.events j event here
    ∙ ap some passes

module _ (w : World) where
  pub find_active-FoundAt : Ensures Right (find_random_active_event w) (FoundAt true)
  unfolding find_random_active_event ask pure call ◌>>=◌
  find_active-FoundAt = Ensures-lands λ s a s' p h.
      elim (Bool-cases (less_than_one s.active_events)) [
        | inl few ↦ (none, s, rw few, (p, λ i e. absurd (ground (arith, e))))
        | inr some_open ↦
            let x = w.rand s.clock % s.active_events in
            (
              nth_where (λ (e : Event). e.active) x 0 0 s.events,
              record s { clock = suc s.clock },
              rw some_open,
              (p, λ i e. active_nth s x i e),
            )
      ]

-- ===== src/Fuzzer/Calm.antt =====
-- The parts of the fuzzer that open and close no event: which events are active, and their number, stay
-- as they are.
pub mod Operations
use perf_event_tests.Base.{
  ℕ, zero, suc, ◌≡◌, refl, sym, ap, ◌∙◌, inl, inr, Bool, true, false, Option, Option-cases, none,
  some, List, [], ◌∷◌, arith, get_elem?, set, if◌then◌else◌,
}
use perf_event_tests.Fuzzer.State.{
  Call, made, Event, OurMmap, State, Stats, Output, Store, World, Config, Fuzz, Done, pure, ◌>>=◌,
  ask, change, event_at, mmap_at, change_event, change_mmap, call, count_stat, put, store, if_found,
}
use perf_event_tests.Fuzzer.Triple.{steps}

abbrev pub activity : List Event → List Bool
activity [] = []
activity (e ∷ es) = e.active ∷ activity es

pub activity-set :
    (es : List Event) (i : ℕ) (e : Event) → activity (set es i e) ≡ set (activity es) i e.active
activity-set [] i e = refl
activity-set (x ∷ es) zero e = refl
activity-set (x ∷ es) (suc i) e = ap (λ l. x.active ∷ l) (activity-set es i e)

pub get_elem?-activity :
    (es : List Event) (i : ℕ) (e : Event)
    → get_elem? es i ≡ some e
    → get_elem? (activity es) i ≡ some e.active
get_elem?-activity [] i e h = absurd (ground (arith, h))
get_elem?-activity (x ∷ es) zero e h = ap (λ o. elim o [ none ↦ none | some y ↦ some y.active ]) h
get_elem?-activity (x ∷ es) (suc i) e h = get_elem?-activity es i e h

set_same : (bs : List Bool) (i : ℕ) (b : Bool) → get_elem? bs i ≡ some b → set bs i b ≡ bs
set_same [] i b h = refl
set_same (c ∷ bs) zero b h = ap (λ d. d ∷ bs) (ap (λ o. elim o [ none ↦ b | some d ↦ d ]) (sym h))
set_same (c ∷ bs) (suc i) b h = ap (λ l. c ∷ l) (set_same bs i b h)

-- Nothing is opened or closed on the way to the result.
pub record Calm {A : Type 0} (m : Fuzz A) : Type 0 where
  pub run :
      (s : State) (a : A) (s' : State)
      → m s ≡ some (a, s')
      → (activity s'.events ≡ activity s.events) × (s'.active_events ≡ s.active_events)

module _ {A B : Type 0} where
  pub Calm-bind : {m : Fuzz A} (f : A → Fuzz B) → Calm m → ((a : A) → Calm (f a)) → Calm (m >>= f)
  Calm-bind {m} f hm hf = record {
    run = λ s b s' e.
        let t = steps m f s b s' e in
        let u = hm.run s t.a t.mid t.first in
        let v = (hf t.a).run t.mid b s' t.second in (v.0 ∙ u.0, v.1 ∙ u.1);
  }

-- A change of the state that keeps the events and their number.
pub Calm-change :
    (f : State → State)
    → ((s : State) → (f s).events ≡ s.events)
    → ((s : State) → (f s).active_events ≡ s.active_events)
    → Calm (change f)
unfolding change
Calm-change f same_events same_number = record {
  run = λ s a s' e.
      let here : f s ≡ s' = ap (λ o. elim o [ none ↦ f s | some t ↦ t.1 ]) e in
      (
        ap (λ (t : State). activity t.events) (sym here) ∙ ap activity (same_events s),
        ap (λ (t : State). t.active_events) (sym here) ∙ same_number s,
      );
}

-- A change of an event that leaves it open or closed.
pub Calm-change_event :
    (i : ℕ) (f : Event → Event) → ((e : Event) → (f e).active ≡ e.active) → Calm (change_event i f)
unfolding change_event
Calm-change_event i f keeps = record {
  run = λ s a s' h. elim (Option-cases (get_elem? s.events i)) [
    | inl gone ↦ absurd (ground (arith, h, gone))
    | inr (e, here) ↦
        let t : State = record s { events = set s.events i (f e) } in
        let known : change_event i f s ≡ some (tt, t) = rw (change_event, here) in
        let same : t ≡ s' =
          ap (λ (o : Option (Done × State)). elim o [ none ↦ t | some u ↦ u.1 ]) (sym known ∙ h) in
        (
          ap (λ (u : State). activity u.events) (sym same)
              ∙ activity-set s.events i (f e)
              ∙ ap (λ b. set (activity s.events) i b) (keeps e)
              ∙ set_same (activity s.events) i e.active (get_elem?-activity s.events i e here),
          ap (λ (u : State). u.active_events) (sym same),
        )
  ];
}

module _ {A : Type 0} where
  pub Calm-pure : (a : A) → Calm (pure a)
  unfolding pure
  Calm-pure a = record { run = λ s b s' e. ground (arith, e) }

  pub Calm-if : (b : Bool) {p q : Fuzz A} → Calm p → Calm q → Calm (if b then p else q)
  Calm-if true hp hq = hp
  Calm-if false hp hq = hq

  pub Calm-if_found :
      (o : Option ℕ) {p : Fuzz A} {q : ℕ → Fuzz A}
      → Calm p
      → ((i : ℕ) → Calm (q i))
      → Calm (if_found o p q)
  unfolding if_found
  Calm-if_found none hp hq = hp
  Calm-if_found (some i) hp hq = hq i

  pub Calm-ask : (f : State → A) → Calm (ask f)
  unfolding ask
  Calm-ask f = record { run = λ s b s' e. ground (arith, e) }

  pub Calm-call : (f : ℕ → A) → Calm (call f)
  unfolding call
  Calm-call f = record { run = λ s b s' e. ground (arith, e) }

pub Calm-made : {A : Type 0} (k : Call) (f : ℕ → A) → Calm (made k f)
unfolding made
Calm-made k f = record { run = λ s b s' e. ground (arith, e) }

pub Calm-event_at : (i : ℕ) → Calm (event_at i)
unfolding event_at
Calm-event_at i = record { run = λ s b s' e. ground (arith, e) }

pub Calm-mmap_at : (i : ℕ) → Calm (mmap_at i)
unfolding mmap_at
Calm-mmap_at i = record { run = λ s b s' e. ground (arith, e) }

pub Calm-change_mmap : (i : ℕ) (f : OurMmap → OurMmap) → Calm (change_mmap i f)
unfolding change_mmap
Calm-change_mmap i f = record { run = λ s b s' e. ground (arith, e) }

pub event_refl : (e : Event) → e.active ≡ e.active
event_refl e = refl

pub events_refl : (s : State) → s.events ≡ s.events
events_refl s = refl

pub number_refl : (s : State) → s.active_events ≡ s.active_events
number_refl s = refl

pub ruleset calm = (
  Calm-bind, Calm-pure, Calm-if, Calm-if_found, Calm-ask, Calm-call, Calm-made, Calm-event_at,
  Calm-mmap_at, Calm-change_mmap, Calm-change_event, Calm-change, event_refl, events_refl,
  number_refl,
)

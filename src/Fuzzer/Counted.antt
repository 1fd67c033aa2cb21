-- ===== src/Fuzzer/Counted.antt =====
-- The counter of open events is right: what an operation does to the activity of the events and to it.
pub mod Search
pub mod Operations
pub mod Runs
pub mod Tests
use perf_event_tests.Base.{
  ℕ, zero, suc, ◌+◌, ◌^◌, ◌<◌, ◌≡◌, refl, sym, ap, ◌∙◌, subst, inl, inr, Bool, true, false, Option,
  Option-cases, none, some, List, [], ◌∷◌, arith, length, get_elem?, set, if◌then◌else◌,
}
use perf_event_tests.Fuzzer.State.{
  Event, State, Fuzz, Done, pure, ◌>>=◌, change, event_at, change_event, plus_one, minus_one,
  if_found,
}
use perf_event_tests.Fuzzer.Find.Search.{count, count-set, count-le-length, one_if}
use perf_event_tests.Fuzzer.Triple.{steps}
use perf_event_tests.Fuzzer.Table.{get_elem?-set, length-set}
use perf_event_tests.Fuzzer.Calm.{Calm, activity, activity-set, get_elem?-activity}

-- A condition on the activity of the events and on the counter.
abbrev pub Condition : Type 1
Condition = List Bool → ℕ → Type 0

pub record Ensures {A : Type 0} (P : Condition) (m : Fuzz A) (Q : A → Condition) : Type 0 where
  pub run :
      (s : State) (a : A) (s' : State)
      → P (activity s.events) s.active_events
      → m s ≡ some (a, s')
      → Q a (activity s'.events) s'.active_events

abbrev pub trues : List Bool → ℕ
trues bs = count (λ (b : Bool). b) bs

-- The counter is the number of open events.
abbrev pub Right : Condition
Right bs n = (n ≡ trues bs) × (length bs < 2 ^ 31)

-- The same, and whether event `i` is open.
abbrev pub At : ℕ → Bool → Condition
At i b bs n = Right bs n × (get_elem? bs i ≡ some b)

-- An event was closed, or opened, and is not counted yet.
abbrev pub Late : Condition
Late bs n = (n ≡ suc (trues bs)) × (length bs < 2 ^ 31)

abbrev pub Early : Condition
Early bs n = (suc n ≡ trues bs) × (length bs < 2 ^ 31)

module _ {A B : Type 0} where
  pub Ensures-bind :
      {m : Fuzz A} (f : A → Fuzz B) {P : Condition} (Q : A → Condition) {R : B → Condition}
      → Ensures P m Q
      → ((a : A) → Ensures (Q a) (f a) R)
      → Ensures P (m >>= f) R
  Ensures-bind {m} f Q hm hf = record {
    run = λ s b s' p e.
        let t = steps m f s b s' e in
        (hf t.a).run t.mid b s' (hm.run s t.a t.mid p t.first) t.second;
  }

module _ {A : Type 0} where
  pub Ensures-Calm : {m : Fuzz A} (P : Condition) → Calm m → Ensures P m (λ _. P)
  Ensures-Calm P h = record {
    run = λ s a s' p e.
        let t = h.run s a s' e in
        subst (λ l. P l s'.active_events) (sym t.0)
          (subst (λ n. P (activity s.events) n) (sym t.1) p);
  }

  pub Ensures-weaken :
      {P P' : Condition} {m : Fuzz A} {Q Q' : A → Condition}
      → ((bs : List Bool) (n : ℕ) → P' bs n → P bs n)
      → ((a : A) (bs : List Bool) (n : ℕ) → Q a bs n → Q' a bs n)
      → Ensures P m Q
      → Ensures P' m Q'
  Ensures-weaken before after h = record {
    run = λ s a s' p e.
        after a (activity s'.events) s'.active_events
          (h.run s a s' (before (activity s.events) s.active_events p) e);
  }

  pub Ensures-test :
      (b : Bool) {P : Condition} {p q : Fuzz A} {Q : A → Condition}
      → (b ≡ true → Ensures P p Q)
      → (b ≡ false → Ensures P q Q)
      → Ensures P (if b then p else q) Q
  Ensures-test true hp hq = hp refl
  Ensures-test false hp hq = hq refl

  pub Ensures-if_found :
      {P : Condition} (o : Option ℕ) {p : Fuzz A} {q : ℕ → Fuzz A} {Q : A → Condition}
      → (o ≡ none → Ensures P p Q)
      → ((i : ℕ) → o ≡ some i → Ensures P (q i) Q)
      → Ensures P (if_found o p q) Q
  unfolding if_found
  Ensures-if_found none hp hq = hp refl
  Ensures-if_found (some i) hp hq = hq i refl

  -- An operation whose result is known.
  pub Ensures-lands :
      {P : Condition} {m : Fuzz A} {Q : A → Condition}
      → ((s : State) (a : A) (s' : State)
          → P (activity s.events) s.active_events
          → m s ≡ some (a, s')
          → (b : A) × (t : State) × (m s ≡ some (b, t)) × Q b (activity t.events) t.active_events)
      → Ensures P m Q
  Ensures-lands {m} {Q} h = record {
    run = λ s a s' p e.
        let (b, t, known, q) = h s a s' p e in
        let same : (b, t) ≡ (a, s') =
          ap (λ o. elim o [ none ↦ (b, t) | some u ↦ u ]) (sym known ∙ e) in
        subst (λ (u : A × State). Q u.0 (activity u.1.events) u.1.active_events) same q;
  }

-- The event is opened or closed.
pub Ensures-set :
    (i : ℕ) (b : Bool) (f : Event → Event) (P : Condition) (Q : Condition)
    → ((e : Event) → (f e).active ≡ b)
    → ((bs : List Bool) (n : ℕ) → P bs n → Q (set bs i b) n)
    → Ensures P (change_event i f) (λ _. Q)
unfolding change_event
Ensures-set i b f P Q sets after = Ensures-lands λ s a s' p h.
    elim (Option-cases (get_elem? s.events i)) [
      | inl gone ↦ absurd (ground (arith, h, gone))
      | inr (e, here) ↦ (
        tt,
        record s { events = set s.events i (f e) },
        rw (change_event, here),
        subst (λ l. Q l s.active_events)
            (sym (activity-set s.events i (f e) ∙ ap (λ c. set (activity s.events) i c) (sets e)))
            (after (activity s.events) s.active_events p),
      )
    ]

opened_early : (i : ℕ) (bs : List Bool) (n : ℕ) → At i false bs n → Early (set bs i true) n
opened_early i bs n h = (
  ground (arith, h, count-set (λ (b : Bool). b) bs i false true h.1),
  omega (arith, h, length-set bs i true),
)

closed_late : (i : ℕ) (bs : List Bool) (n : ℕ) → At i true bs n → Late (set bs i false) n
closed_late i bs n h = (
  ground (arith, h, count-set (λ (b : Bool). b) bs i true false h.1),
  omega (arith, h, length-set bs i false),
)

pub Ensures-open :
    (i : ℕ) (f : Event → Event)
    → ((e : Event) → (f e).active ≡ true)
    → Ensures (At i false) (change_event i f) (λ _. Early)
Ensures-open i f sets = Ensures-set i true f (At i false) Early sets (opened_early i)

pub Ensures-close :
    (i : ℕ) (f : Event → Event)
    → ((e : Event) → (f e).active ≡ false)
    → Ensures (At i true) (change_event i f) (λ _. Late)
Ensures-close i f sets = Ensures-set i false f (At i true) Late sets (closed_late i)

pub Ensures-count_up :
    Ensures Early (change (λ s. record s { active_events = plus_one s.active_events })) (λ _. Right)
unfolding change
Ensures-count_up = Ensures-lands λ s a s' p h. (
  tt,
  record s { active_events = plus_one s.active_events },
  refl,
  (ground (arith, p, count-le-length (λ (b : Bool). b) (activity s.events)), p.1),
)

pub Ensures-count_down :
    Ensures Late (change (λ s. record s { active_events = minus_one s.active_events })) (λ _. Right)
unfolding change
Ensures-count_down = Ensures-lands λ s a s' p h. (
  tt,
  record s { active_events = minus_one s.active_events },
  refl,
  (ground (arith, p, count-le-length (λ (b : Bool). b) (activity s.events)), p.1),
)

-- What an event that is read says of the activity.
pub Ensures-event_at :
    (i : ℕ) (P : Condition)
    → Ensures P (event_at i) (λ e bs n. P bs n × (get_elem? bs i ≡ some e.active))
unfolding event_at
Ensures-event_at i P = Ensures-lands λ s a s' p h. elim (Option-cases (get_elem? s.events i)) [
  | inl gone ↦ absurd (ground (arith, h, gone))
  | inr (e, here) ↦ (e, s, rw (event_at, here), (p, get_elem?-activity s.events i e here))
]

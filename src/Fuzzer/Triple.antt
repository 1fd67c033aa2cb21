-- ===== src/Fuzzer/Triple.antt =====
-- What an operation of the fuzzer does to the table of mappings and to its counter: a predicate of
-- the two before, and one after.
use perf_event_tests.Base.{
  ℕ, suc, ◌≡◌, refl, sym, ◌∙◌, ap, subst, inl, inr, Bool, true, false, Option, Option-cases, none,
  some, List, [], ◌∷◌, ◌++◌, arith, if◌then◌else◌,
}
use perf_event_tests.Fuzzer.State.{
  Call, made, Event, OurMmap, State, Stats, Output, Store, Fuzz, pure, ◌>>=◌, ask, change, event_at,
  mmap_at, change_event, call, count_stat, put, store, if_found,
}

abbrev pub Table : Type 1
Table = List OurMmap → ℕ → Type 0

pub record Triple {A : Type 0} (P : Table) (m : Fuzz A) (Q : A → Table) : Type 0 where
  pub run :
      (s : State) (a : A) (s' : State)
      → P s.mmaps s.active_mmaps
      → m s ≡ some (a, s')
      → Q a s'.mmaps s'.active_mmaps

-- The table and the counter stay as they are.
pub record Steady {A : Type 0} (m : Fuzz A) : Type 0 where
  pub run :
      (s : State) (a : A) (s' : State)
      → m s ≡ some (a, s')
      → (s'.mmaps ≡ s.mmaps) × (s'.active_mmaps ≡ s.active_mmaps)

pub record Steps {A B : Type 0} (m : Fuzz A) (f : A → Fuzz B) (s : State) (b : B) (s' : State)
    : Type 0 where
  pub a : A
  pub mid : State
  pub first : m s ≡ some (a, mid)
  pub second : f a mid ≡ some (b, s')

module _ {A B : Type 0} where
  pub steps :
      (m : Fuzz A) (f : A → Fuzz B) (s : State) (b : B) (s' : State)
      → (m >>= f) s ≡ some (b, s')
      → Steps m f s b s'
  unfolding ◌>>=◌
  steps m f s b s' h = elim (Option-cases (m s)) [
    | inl e ↦ absurd (ground (arith, h, e))
    | inr ((a, mid), e) ↦ record { a = a; mid = mid; first = e; second = ground (arith, h, e) }
  ]

  pub Triple-bind :
      {m : Fuzz A} (f : A → Fuzz B) {P : Table} (Q : A → Table) {R : B → Table}
      → Triple P m Q
      → ((a : A) → Triple (Q a) (f a) R)
      → Triple P (m >>= f) R
  Triple-bind {m} f Q hm hf = record {
    run = λ s b s' p e.
        let t = steps m f s b s' e in
        (hf t.a).run t.mid b s' (hm.run s t.a t.mid p t.first) t.second;
  }

  pub Steady-bind :
      {m : Fuzz A} (f : A → Fuzz B) → Steady m → ((a : A) → Steady (f a)) → Steady (m >>= f)
  Steady-bind {m} f hm hf = record {
    run = λ s b s' e.
        let t = steps m f s b s' e in
        let u = hm.run s t.a t.mid t.first in
        let v = (hf t.a).run t.mid b s' t.second in (v.0 ∙ u.0, v.1 ∙ u.1);
  }

module _ {A : Type 0} where
  pub Triple-Steady : {m : Fuzz A} (P : Table) → Steady m → Triple P m (λ _. P)
  Triple-Steady P h = record {
    run = λ s a s' p e.
        let t = h.run s a s' e in
        subst (λ l. P l s'.active_mmaps) (sym t.0) (subst (λ n. P s.mmaps n) (sym t.1) p);
  }

  pub Triple-pure : (a : A) {Q : A → Table} → Triple (Q a) (pure a) Q
  unfolding pure
  Triple-pure a {Q} = record {
    run = λ s b s' p e.
        let same : (a, s) ≡ (b, s') = ap (λ o. elim o [ none ↦ (a, s) | some t ↦ t ]) e in
        subst (λ (t : A × State). Q t.0 t.1.mmaps t.1.active_mmaps) same p;
  }

  -- An operation whose result is known.
  pub Triple-lands :
      {P : Table} {m : Fuzz A} {Q : A → Table}
      → ((s : State)
          → P s.mmaps s.active_mmaps
          → (a : A) × (s' : State) × (m s ≡ some (a, s')) × Q a s'.mmaps s'.active_mmaps)
      → Triple P m Q
  Triple-lands {m} {Q} h = record {
    run = λ s b s' p e.
        let (a, t, known, q) = h s p in
        let same : (a, t) ≡ (b, s') =
          ap (λ o. elim o [ none ↦ (a, t) | some u ↦ u ]) (sym known ∙ e) in
        subst (λ (u : A × State). Q u.0 u.1.mmaps u.1.active_mmaps) same q;
  }

  -- A fact that holds before may be used, and what the outside world answers is a fact after.
  pub Triple-given :
      {F : Type 0} {P : Table} {m : Fuzz A} {Q : A → Table}
      → (F → Triple P m Q)
      → Triple (λ l n. F × P l n) m Q
  Triple-given h = record { run = λ s a s' p e. (h p.0).run s a s' p.1 e }

  pub Triple-exists :
      {V : Type 0} {P : V → Table} {m : Fuzz A} {Q : A → Table}
      → ((v : V) → Triple (P v) m Q)
      → Triple (λ l n. (v : V) × P v l n) m Q
  Triple-exists h = record { run = λ s a s' p e. (h p.0).run s a s' p.1 e }

  pub Triple-call :
      (f : ℕ → A) (F : A → Type 0) (P : Table)
      → ((t : ℕ) → F (f t))
      → Triple P (call f) (λ a l n. F a × P l n)
  unfolding call
  Triple-call f F P h =
      Triple-lands λ s p. (f s.clock, record s { clock = suc s.clock }, refl, (h s.clock, p))

  pub Triple-made :
      (k : Call) (f : ℕ → A) (F : A → Type 0) (P : Table)
      → ((t : ℕ) → F (f t))
      → Triple P (made k f) (λ a l n. F a × P l n)
  unfolding made
  Triple-made k f F P h = Triple-lands λ s p. (
    f s.clock,
    record s { clock = suc s.clock; calls = s.calls ++ (k ∷ []) },
    refl,
    (h s.clock, p),
  )

  pub Triple-weaken :
      {P P' : Table} {m : Fuzz A} {Q Q' : A → Table}
      → ((l : List OurMmap) (n : ℕ) → P' l n → P l n)
      → ((a : A) (l : List OurMmap) (n : ℕ) → Q a l n → Q' a l n)
      → Triple P m Q
      → Triple P' m Q'
  Triple-weaken before after h = record {
    run = λ s a s' p e.
        after a s'.mmaps s'.active_mmaps (h.run s a s' (before s.mmaps s.active_mmaps p) e);
  }

  pub Triple-if :
      (b : Bool) {P : Table} {p q : Fuzz A} {Q : A → Table}
      → Triple P p Q
      → Triple P q Q
      → Triple P (if b then p else q) Q
  Triple-if true hp hq = hp
  Triple-if false hp hq = hq

  -- The same where the two branches need to know the test.
  pub Triple-test :
      (b : Bool) {P : Table} {p q : Fuzz A} {Q : A → Table}
      → (b ≡ true → Triple P p Q)
      → (b ≡ false → Triple P q Q)
      → Triple P (if b then p else q) Q
  Triple-test true hp hq = hp refl
  Triple-test false hp hq = hq refl

  pub Triple-if_found :
      {P : Table} (o : Option ℕ) {p : Fuzz A} {q : ℕ → Fuzz A} {Q : A → Table}
      → (o ≡ none → Triple P p Q)
      → ((i : ℕ) → o ≡ some i → Triple P (q i) Q)
      → Triple P (if_found o p q) Q
  unfolding if_found
  Triple-if_found none hp hq = hp refl
  Triple-if_found (some i) hp hq = hq i refl

  pub Steady-if_found :
      (o : Option ℕ) {p : Fuzz A} {q : ℕ → Fuzz A}
      → Steady p
      → ((i : ℕ) → Steady (q i))
      → Steady (if_found o p q)
  unfolding if_found
  Steady-if_found none hp hq = hp
  Steady-if_found (some i) hp hq = hq i

  pub Steady-pure : (a : A) → Steady (pure a)
  unfolding pure
  Steady-pure a = record { run = λ s b s' e. ground (arith, e) }

  pub Steady-if : (b : Bool) {p q : Fuzz A} → Steady p → Steady q → Steady (if b then p else q)
  Steady-if true hp hq = hp
  Steady-if false hp hq = hq

  pub Steady-ask : (f : State → A) → Steady (ask f)
  unfolding ask
  Steady-ask f = record { run = λ s b s' e. ground (arith, e) }

  pub Steady-call : (f : ℕ → A) → Steady (call f)
  unfolding call
  Steady-call f = record { run = λ s b s' e. ground (arith, e) }

pub Steady-made : {A : Type 0} (k : Call) (f : ℕ → A) → Steady (made k f)
unfolding made
Steady-made k f = record { run = λ s b s' e. ground (arith, e) }

-- A change of the state that keeps the table and its counter.
pub Steady-change :
    (f : State → State)
    → ((s : State) → (f s).mmaps ≡ s.mmaps)
    → ((s : State) → (f s).active_mmaps ≡ s.active_mmaps)
    → Steady (change f)
unfolding change
Steady-change f same_mmaps same_number = record {
  run = λ s b s' e.
      let here : f s ≡ s' = ap (λ o. elim o [ none ↦ f s | some t ↦ t.1 ]) e in
      (
        ap (λ (t : State). t.mmaps) (sym here) ∙ same_mmaps s,
        ap (λ (t : State). t.active_mmaps) (sym here) ∙ same_number s,
      );
}

pub mmaps_refl : (s : State) → s.mmaps ≡ s.mmaps
mmaps_refl s = refl

pub mappings_refl : (s : State) → s.active_mmaps ≡ s.active_mmaps
mappings_refl s = refl

pub Steady-count_stat : (f : Stats → Stats) → Steady (count_stat f)
unfolding change
Steady-count_stat f = record { run = λ s b s' e. ground (arith, e) }

pub Steady-active_events :
    (f : ℕ → ℕ) → Steady (change (λ s. record s { active_events = f s.active_events }))
unfolding change
Steady-active_events f = record { run = λ s b s' e. ground (arith, e) }

pub Steady-put : (o : Output) → Steady (put o)
unfolding change
Steady-put o = record { run = λ s b s' e. ground (arith, e) }

pub Steady-store : (x : Store) → Steady (store x)
unfolding change
Steady-store x = record { run = λ s b s' e. ground (arith, e) }

pub Steady-event_at : (i : ℕ) → Steady (event_at i)
unfolding event_at
Steady-event_at i = record { run = λ s b s' e. ground (arith, e) }

pub Steady-mmap_at : (i : ℕ) → Steady (mmap_at i)
unfolding mmap_at
Steady-mmap_at i = record { run = λ s b s' e. ground (arith, e) }

pub Steady-change_event : (i : ℕ) (f : Event → Event) → Steady (change_event i f)
unfolding change_event
Steady-change_event i f = record { run = λ s b s' e. ground (arith, e) }

pub ruleset steady = (
  Steady-bind, Steady-pure, Steady-if, Steady-if_found, Steady-ask, Steady-call, Steady-made,
  Steady-count_stat, Steady-put, Steady-store, Steady-event_at, Steady-mmap_at, Steady-change_event,
  Steady-change, mmaps_refl, mappings_refl,
)

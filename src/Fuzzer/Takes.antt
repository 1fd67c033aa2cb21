-- ===== src/Fuzzer/Takes.antt =====
-- Operations of the fuzzer that get through from every state that fits, with the state after them.
use perf_event_tests.Base.{ℕ, suc, ◌≡◌, refl, Bool, true, false, if◌then◌else◌}
use perf_event_tests.Fuzzer.State.{State, Fuzz, pure, ◌>>=◌, call, change, ask}
use perf_event_tests.Fuzzer.Runs.{Runs, Runs-then, Runs-pure}

pub record Takes {A : Type 0} (P : State → Type 0) (m : Fuzz A) (Q : A → State → Type 0)
    : Type 0 where
  pub run : (s : State) → P s → Runs m s Q

-- The state fits as before.
abbrev pub Keeps : {A : Type 0} → (State → Type 0) → Fuzz A → Type 0
Keeps P m = Takes P m (λ _. P)

module _ {A B : Type 0} {P : State → Type 0} where
  pub Takes-bind :
      {m : Fuzz A} (f : A → Fuzz B) (Q : A → State → Type 0) {R : B → State → Type 0}
      → Takes P m Q
      → ((a : A) → Takes (Q a) (f a) R)
      → Takes P (m >>= f) R
  Takes-bind {m} f Q first rest = record {
    run = λ s p. Runs-then m f s (first.run s p) λ a t q. (rest a).run t q;
  }

  pub Keeps-bind :
      {m : Fuzz A} (f : A → Fuzz B) → Keeps P m → ((a : A) → Keeps P (f a)) → Keeps P (m >>= f)
  Keeps-bind f first rest = Takes-bind f (λ _. P) first rest

module _ {A : Type 0} {P : State → Type 0} where
  pub Takes-if :
      (b : Bool) {p q : Fuzz A} {Q : A → State → Type 0}
      → (b ≡ true → Takes P p Q)
      → (b ≡ false → Takes P q Q)
      → Takes P (if b then p else q) Q
  Takes-if true hp hq = hp refl
  Takes-if false hp hq = hq refl

  pub Keeps-if : (b : Bool) {p q : Fuzz A} → Keeps P p → Keeps P q → Keeps P (if b then p else q)
  Keeps-if b hp hq = Takes-if b (λ _. hp) (λ _. hq)

  pub Keeps-pure : (a : A) → Keeps P (pure a)
  Keeps-pure a = record { run = λ s p. Runs-pure a s p }

  pub Takes-weaken :
      {P' : State → Type 0} {m : Fuzz A} {Q : A → State → Type 0}
      → ((s : State) → P' s → P s)
      → Takes P m Q
      → Takes P' m Q
  Takes-weaken before h = record { run = λ s p. h.run s (before s p) }

  -- What follows a fact that the result does not change.
  pub Takes-given :
      {F : Type 0} {m : Fuzz A} {Q : A → State → Type 0}
      → (F → Takes P m Q)
      → Takes (λ s. P s × F) m Q
  Takes-given h = record { run = λ s p. (h p.1).run s p.0 }

  pub Takes-ask :
      (f : State → A) (Q : A → State → Type 0) → ((s : State) → P s → Q (f s) s) → Takes P (ask f) Q
  unfolding ask
  Takes-ask f Q h = record {
    run = λ s p. record { result = f s; after = s; run = refl; holds = h s p };
  }

  pub Keeps-ask : (f : State → A) → Keeps P (ask f)
  Keeps-ask f = Takes-ask f (λ _. P) (λ s p. p)

  pub Takes-call :
      (f : ℕ → A) (Q : A → State → Type 0)
      → ((s : State) → P s → Q (f s.clock) (record s { clock = suc s.clock }))
      → Takes P (call f) Q
  unfolding call
  Takes-call f Q h = record {
    run = λ s p. record {
      result = f s.clock;
      after = record s { clock = suc s.clock };
      run = refl;
      holds = h s p;
    };
  }

pub Takes-change :
    {P : State → Type 0} (f : State → State) (Q : State → Type 0)
    → ((s : State) → P s → Q (f s))
    → Takes P (change f) (λ _. Q)
unfolding change
Takes-change f Q h = record {
  run = λ s p. record { result = tt; after = f s; run = refl; holds = h s p };
}

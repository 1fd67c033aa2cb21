-- ===== src/Fuzzer/Runs.antt =====
-- An operation of the fuzzer that gets through, step by step.
use perf_event_tests.Base.{◌≡◌, refl, Bool, true, false, some, arith, if◌then◌else◌}
use perf_event_tests.Fuzzer.State.{State, Fuzz, pure, ◌>>=◌}

-- The operation gets through, and its result and the state after it are such.
pub record Runs {A : Type 0} (m : Fuzz A) (s : State) (Q : A → State → Type 0) : Type 0 where
  pub result : A
  pub after : State
  pub run : m s ≡ some (result, after)
  pub holds : Q result after

module _ {A B : Type 0} {Q : B → State → Type 0} where
  pub Runs-bind :
      (m : Fuzz A) (f : A → Fuzz B) (s : State) (a : A) (t : State)
      → m s ≡ some (a, t)
      → Runs (f a) t Q
      → Runs (m >>= f) s Q
  unfolding ◌>>=◌
  Runs-bind m f s a t first rest = record {
    result = rest.result;
    after = rest.after;
    run = ground (arith, first, rest.run);
    holds = rest.holds;
  }

  pub Runs-then :
      {P : A → State → Type 0} (m : Fuzz A) (f : A → Fuzz B) (s : State)
      → Runs m s P
      → ((a : A) (t : State) → P a t → Runs (f a) t Q)
      → Runs (m >>= f) s Q
  Runs-then m f s first rest =
      Runs-bind m f s first.result first.after first.run (rest first.result first.after first.holds)

module _ {B : Type 0} {Q : B → State → Type 0} where
  pub Runs-pure : (b : B) (s : State) → Q b s → Runs (pure b) s Q
  unfolding pure
  Runs-pure b s q = record { result = b; after = s; run = refl; holds = q }

  pub Runs-test :
      (b : Bool) {p q : Fuzz B} (s : State)
      → (b ≡ true → Runs p s Q)
      → (b ≡ false → Runs q s Q)
      → Runs (if b then p else q) s Q
  Runs-test true s hp hq = hp refl
  Runs-test false s hp hq = hq refl

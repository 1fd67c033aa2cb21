-- ===== src/Record/Hushed.antt =====
-- A quiet parser and one that prints: where the second returns, the first moves as far, and its
-- lines are the errors among the lines of the second.
pub mod Plain
pub mod Sample
use perf_event_tests.Base.{
  ℕ, ◌+◌, ◌≡◌, refl, ap, ◌∙◌, inl, inr, String, Bool, true, false, Option, none, some, List, [],
  ◌∷◌, ◌++◌, arith, if◌then◌else◌,
}
use perf_event_tests.Record.Reader.{
  Line, printed, error, Reader, Done, pure, fail, after, ◌>>=◌, peek, peek_in, peek_bytes, skip,
  skip_signed, jump, complain, say, field,
}
use perf_event_tests.Record.Inversion.{bind-Steps}

abbrev pub errors : List Line → List Line
errors [] = []
errors (printed fmt args ∷ l) = errors l
errors (error fmt args ∷ l) = error fmt args ∷ errors l

pub errors-append : (l k : List Line) → errors (l ++ k) ≡ errors l ++ errors k
errors-append [] k = refl
errors-append (printed fmt args ∷ l) k = errors-append l k
errors-append (error fmt args ∷ l) k = ap (◌∷◌ (error fmt args)) (errors-append l k)

pub record Hushed {A : Type 0} (quiet loud : Reader A) : Type 0 where
  pub run :
      (buf : List ℕ) (off : ℕ) (a : A) (end : ℕ) (log : List Line)
      → loud buf off ≡ some (a, end, log)
      → quiet buf off ≡ some (a, end, errors log)

-- A reader that only prints.
pub record Prints {A : Type 0} (p : Reader A) : Type 0 where
  pub run :
      (buf : List ℕ) (off : ℕ) (a : A) (end : ℕ) (log : List Line)
      → p buf off ≡ some (a, end, log)
      → (end ≡ off) × (errors log ≡ [])

module _ {A B : Type 0} where
  pub Hushed-bind :
      {m m' : Reader A} (f f' : A → Reader B)
      → Hushed m' m
      → ((a : A) → Hushed (f' a) (f a))
      → Hushed (m' >>= f') (m >>= f)
  unfolding ◌>>=◌
  Hushed-bind {m} f f' hm hf = record {
    run = λ buf off b end log e.
        let s = bind-Steps m f buf off b end log e in
        let p = hm.run buf off s.a s.mid s.front s.first in
        let q = (hf s.a).run buf s.mid b end s.back s.second in
        ground (arith, p, q, s.joined, errors-append s.front s.back);
  }

  pub Prints-bind :
      {m : Reader A} (f : A → Reader B) → Prints m → ((a : A) → Prints (f a)) → Prints (m >>= f)
  Prints-bind {m} f hm hf = record {
    run = λ buf off b end log e.
        let s = bind-Steps m f buf off b end log e in
        let p = hm.run buf off s.a s.mid s.front s.first in
        let q = (hf s.a).run buf s.mid b end s.back s.second in
        ground (arith, p, q, s.joined, errors-append s.front s.back);
  }

module _ {A : Type 0} where
  pub Hushed-pure : (a : A) → Hushed (pure a) (pure a)
  unfolding pure
  Hushed-pure a = record { run = λ buf off b end log e. ground arith }

  pub Hushed-fail : (p : Reader A) → Hushed p fail
  unfolding fail
  Hushed-fail p = record { run = λ buf off b end log e. absurd (ground arith) }

  pub Hushed-if :
      (b : Bool) {p q p' q' : Reader A}
      → Hushed p' p
      → Hushed q' q
      → Hushed (if b then p' else q') (if b then p else q)
  Hushed-if true hp hq = hp
  Hushed-if false hp hq = hq

  pub Prints-pure : (a : A) → Prints (pure a)
  unfolding pure
  Prints-pure a = record { run = λ buf off b end log e. ground arith }

  pub Prints-if : (b : Bool) {p q : Reader A} → Prints p → Prints q → Prints (if b then p else q)
  Prints-if true hp hq = hp
  Prints-if false hp hq = hq

pub Hushed-Prints : {p : Reader Done} → Prints p → Hushed (pure tt) p
unfolding pure
Hushed-Prints h = record { run = λ buf off b end log e. ground (arith, h.run buf off b end log e) }

pub Hushed-peek : (d w : ℕ) → Hushed (peek d w) (peek d w)
unfolding peek
Hushed-peek d w = record { run = λ buf off b end log e. ground arith }

pub Hushed-peek_bytes : (n : ℕ) → Hushed (peek_bytes n) (peek_bytes n)
unfolding peek_bytes
Hushed-peek_bytes n = record { run = λ buf off b end log e. ground arith }

pub Hushed-skip : (n : ℕ) → Hushed (skip n) (skip n)
unfolding skip
Hushed-skip n = record { run = λ buf off b end log e. ground arith }

pub Hushed-skip_signed : (n : ℕ) → Hushed (skip_signed n) (skip_signed n)
unfolding skip_signed
Hushed-skip_signed n = record { run = λ buf off b end log e. ground arith }

pub Hushed-jump : (n : ℕ) → Hushed (jump n) (jump n)
unfolding jump
Hushed-jump n = record { run = λ buf off b end log e. ground arith }

pub Hushed-complain :
    (fmt : String) (args : List ℕ) → Hushed (complain fmt args) (complain fmt args)
unfolding complain
Hushed-complain fmt args = record { run = λ buf off b end log e. ground arith }

pub Hushed-say : (fmt : String) (args : List ℕ) → Hushed (say true fmt args) (say false fmt args)
unfolding say
Hushed-say fmt args = record { run = λ buf off b end log e. ground arith }

pub Hushed-field : (w : ℕ) (fmt : String) → Hushed (field true w fmt) (field false w fmt)
unfolding field
Hushed-field w fmt = record { run = λ buf off b end log e. ground arith }

pub Hushed-copy : (w : ℕ) → Hushed (field true w "") (field true w "")
unfolding field
Hushed-copy w = record { run = λ buf off b end log e. ground arith }

pub Prints-say : (fmt : String) (args : List ℕ) → Prints (say false fmt args)
unfolding say
Prints-say fmt args = record { run = λ buf off b end log e. ground arith }

pub Prints-fail : {A : Type 0} → Prints (fail {A = A})
unfolding fail
Prints-fail = record { run = λ buf off b end log e. absurd (ground arith) }

pub Prints-peek : (d w : ℕ) → Prints (peek d w)
unfolding peek
Prints-peek d w = record { run = λ buf off b end log e. ground arith }

pub Prints-peek_in : (block : List ℕ) (d w : ℕ) → Prints (peek_in block d w)
unfolding peek_in
Prints-peek_in block d w = record { run = λ buf off b end log e. ground arith }

pub ruleset hushed = (
  Hushed-bind, Hushed-pure, Hushed-fail, Hushed-if, Hushed-peek, Hushed-peek_bytes, Hushed-skip,
  Hushed-skip_signed, Hushed-jump, Hushed-complain, Hushed-say, Hushed-field, Hushed-copy,
)

pub ruleset prints =
    (Prints-bind, Prints-pure, Prints-if, Prints-say, Prints-fail, Prints-peek, Prints-peek_in)

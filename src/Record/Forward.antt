-- ===== src/Record/Forward.antt =====
-- Readers that never move the offset back.
pub mod Plain
pub mod Sample
use perf_event_tests.Base.{
  ℕ, zero, suc, ◌+◌, ◌≤◌, ◌^◌, ◌<◌, ◌≡◌, String, Bool, true, false, Option, none, some, List, ◌++◌,
  arith, if◌then◌else◌,
}
use perf_event_tests.Record.Reader.{
  Line, Reader, Done, pure, fail, ◌>>=◌, peek, peek_in, peek_bytes, skip, skip_signed, complain,
  say, field,
}
use perf_event_tests.Record.Inversion.{bind-Steps}

-- `p` moves the offset by `n` bytes at least.
pub record Advances {A : Type 0} (n : ℕ) (p : Reader A) : Type 0 where
  pub run :
      (buf : List ℕ) (off : ℕ) (a : A) (end : ℕ) (log : List Line)
      → p buf off ≡ some (a, end, log)
      → off + n ≤ end

abbrev pub Forward : {A : Type 0} → Reader A → Type 0
Forward p = Advances 0 p

module _ {A B : Type 0} where
  pub Advances-bind :
      {k n : ℕ} (m : Reader A) (f : A → Reader B)
      → Advances k m
      → ((a : A) → Advances n (f a))
      → Advances (k + n) (m >>= f)
  Advances-bind m f hm hf = record {
    run = λ buf off b end log e.
        let s = bind-Steps m f buf off b end log e in
        let p = hm.run buf off s.a s.mid s.front s.first in
        let q = (hf s.a).run buf s.mid b end s.back s.second in omega arith;
  }

  pub Forward-bind :
      {m : Reader A} {f : A → Reader B} → Forward m → ((a : A) → Forward (f a)) → Forward (m >>= f)
  Forward-bind {m} {f} hm hf = record {
    run = λ buf off b end log e. omega (arith, (Advances-bind m f hm hf).run buf off b end log e);
  }

module _ {A : Type 0} where
  pub Forward-pure : (a : A) → Forward (pure a)
  unfolding pure
  Forward-pure a = record { run = λ buf off b end log e. ground arith }

  pub Forward-fail : Forward (fail {A = A})
  unfolding fail
  Forward-fail = record { run = λ buf off b end log e. absurd (ground arith) }

  pub Forward-if :
      (b : Bool) {p q : Reader A} → Forward p → Forward q → Forward (if b then p else q)
  Forward-if true hp hq = hp
  Forward-if false hp hq = hq

pub Forward-peek : (d w : ℕ) → Forward (peek d w)
unfolding peek
Forward-peek d w = record { run = λ buf off b end log e. ground arith }

pub Forward-peek_in : (block : List ℕ) (d w : ℕ) → Forward (peek_in block d w)
unfolding peek_in
Forward-peek_in block d w = record { run = λ buf off b end log e. ground arith }

pub Forward-peek_bytes : (n : ℕ) → Forward (peek_bytes n)
unfolding peek_bytes
Forward-peek_bytes n = record { run = λ buf off b end log e. ground arith }

pub Advances-skip : (n : ℕ) → Advances n (skip n)
unfolding skip
Advances-skip n = record { run = λ buf off b end log e. ground arith }

pub Forward-skip : (n : ℕ) → Forward (skip n)
unfolding skip
Forward-skip n = record { run = λ buf off b end log e. ground arith }

pub Forward-complain : (fmt : String) (args : List ℕ) → Forward (complain fmt args)
unfolding complain
Forward-complain fmt args = record { run = λ buf off b end log e. ground arith }

pub Forward-say : (quiet : Bool) (fmt : String) (args : List ℕ) → Forward (say quiet fmt args)
unfolding say
Forward-say true fmt args = record { run = λ buf off b end log e. ground arith }
Forward-say false fmt args = record { run = λ buf off b end log e. ground arith }

pub Forward-field : (quiet : Bool) (w : ℕ) (fmt : String) → Forward (field quiet w fmt)
unfolding field
Forward-field true w fmt = record { run = λ buf off b end log e. ground arith }
Forward-field false w fmt = record { run = λ buf off b end log e. ground arith }

pub ruleset forward = (
  Forward-bind, Forward-pure, Forward-fail, Forward-if, Forward-peek, Forward-peek_in,
  Forward-peek_bytes, Forward-skip, Forward-complain, Forward-say, Forward-field,
)

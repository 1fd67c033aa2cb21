-- ===== src/Record/Inversion.antt =====
-- What a reader that returned has done, step by step.
use perf_event_tests.Base.{ℕ, ◌≡◌, inl, inr, some, Option-cases, List, ◌++◌, arith}
use perf_event_tests.Record.Reader.{Line, Reader, ◌>>=◌}

-- The parts of a sequence that returned.
pub record Steps {A B : Type 0} (m : Reader A) (f : A → Reader B) (buf : List ℕ) (off : ℕ) (b : B)
    (end : ℕ) (log : List Line) : Type 0 where
  pub a : A
  pub mid : ℕ
  pub front : List Line
  pub back : List Line
  pub first : m buf off ≡ some (a, mid, front)
  pub second : f a buf mid ≡ some (b, end, back)
  pub joined : log ≡ front ++ back

module _ {A B : Type 0} (m : Reader A) (f : A → Reader B) (buf : List ℕ) (off : ℕ) where
  pub bind-Steps :
      (b : B) (end : ℕ) (log : List Line)
      → (m >>= f) buf off ≡ some (b, end, log)
      → Steps m f buf off b end log
  unfolding ◌>>=◌
  bind-Steps b end log e = elim (Option-cases (m buf off)) [
    | inl p ↦ absurd (ground arith)
    | inr ((a, mid, front), p) ↦ elim (Option-cases (f a buf mid)) [
      | inl q ↦ absurd (ground arith)
      | inr ((b', end', back), q) ↦ record {
        a = a;
        mid = mid;
        front = front;
        back = back;
        first = p;
        second = ground arith;
        joined = ground arith;
      }
    ]
  ]

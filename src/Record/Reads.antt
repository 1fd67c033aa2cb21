-- ===== src/Record/Reads.antt =====
-- What a reader does on a stretch of the buffer whose bytes are known.
use perf_event_tests.Base.{
  ℕ, ◌+◌, ◌^◌, ◌<◌, String, true, false, some, List, [], ◌∷◌, ◌++◌, ◌≡◌, subst, ◌∙◌, sym, ap,
  append_assoc, arith, length, length-append, drop, drop-add, drop-append,
}
use perf_event_tests.Base.Bytes.{le_bytes, length-le_bytes, le_value?-le_bytes}
use perf_event_tests.Record.Reader.{
  Line, printed, Reader, Done, pure, ◌>>=◌, peek, skip, say, field,
}

-- Where `bytes` stand at the offset, `p` returns `a`, passes exactly `bytes` and prints `log`.
pub record Reads {A : Type 0} (p : Reader A) (bytes : List ℕ) (a : A) (log : List Line)
    : Type 0 where
  pub run :
      (buf : List ℕ) (off : ℕ) (rest : List ℕ)
      → drop off buf ≡ bytes ++ rest
      → p buf off ≡ some (a, off + length bytes, log)

pub drop-past :
    (buf : List ℕ) (off : ℕ) (xs ys : List ℕ)
    → drop off buf ≡ xs ++ ys
    → drop (off + length xs) buf ≡ ys
drop-past buf off xs ys h =
    drop-add off (length xs) buf ∙ ap (drop (length xs)) h ∙ drop-append xs ys

module _ {A B : Type 0} where
  pub Reads-bind :
      {m : Reader A} (f : A → Reader B) {xs ys : List ℕ} {a : A} {b : B} {l k : List Line}
      → Reads m xs a l
      → Reads (f a) ys b k
      → Reads (m >>= f) (xs ++ ys) b (l ++ k)
  unfolding ◌>>=◌
  Reads-bind f {xs} {ys} {a} {b} {l} {k} hm hf = record {
    run = λ buf off rest h.
        let h' = h ∙ append_assoc xs ys rest in
        let first = hm.run buf off (ys ++ rest) h' in
        let second = hf.run buf (off + length xs) rest (drop-past buf off xs (ys ++ rest) h') in
        ground (arith, first, second, length-append xs ys);
  }

pub Reads-pure : {A : Type 0} {a : A} → Reads (pure a) [] a []
unfolding pure
Reads-pure {a} = record { run = λ buf off rest h. ap (λ (n : ℕ). some (a, n, [])) (omega arith) }

-- A member that is printed: its bytes are passed, and its line stands first.
pub Reads-field :
    {B : Type 0} (w : ℕ) (fmt : String) (v : ℕ) (f : ℕ → Reader B) {ys : List ℕ} {b : B}
    {k : List Line}
    → v < 256 ^ w
    → Reads (f v) ys b k
    → Reads (field false w fmt >>= f) (le_bytes w v ++ ys) b (printed fmt (v ∷ []) ∷ k)
Reads-field w fmt v f fits h = Reads-bind f (shown w fmt v fits) h
  where
    shown :
        (w : ℕ) (fmt : String) (v : ℕ)
        → v < 256 ^ w
        → Reads (field false w fmt) (le_bytes w v) v (printed fmt (v ∷ []) ∷ [])
    shown w fmt v fits =
        unfold field in
        record {
          run = λ buf off rest h.
              let e : off + 0 ≡ off = omega arith in
              ground (arith, h, e, le_value?-le_bytes w v rest fits, length-le_bytes w v);
        }

-- A member that is copied and passed, and not printed.
pub Reads-hidden :
    {B : Type 0} (w v : ℕ) (f : ℕ → Reader B) {ys : List ℕ} {b : B} {k : List Line}
    → v < 256 ^ w
    → Reads (f v) ys b k
    → Reads (field true w "" >>= f) (le_bytes w v ++ ys) b k
Reads-hidden w v f fits h = Reads-bind f (passed w v fits) h
  where
    passed : (w v : ℕ) → v < 256 ^ w → Reads (field true w "") (le_bytes w v) v []
    passed w v fits =
        unfold field in
        record {
          run = λ buf off rest h.
              let e : off + 0 ≡ off = omega arith in
              ground (arith, h, e, le_value?-le_bytes w v rest fits, length-le_bytes w v);
        }

pub Reads-say :
    {B : Type 0} (fmt : String) (args : List ℕ) (f : Done → Reader B) {ys : List ℕ} {b : B}
    {k : List Line}
    → Reads (f tt) ys b k
    → Reads (say false fmt args >>= f) ys b (printed fmt args ∷ k)
Reads-say fmt args f h = Reads-bind f (said fmt args) h
  where
    said : (fmt : String) (args : List ℕ) → Reads (say false fmt args) [] tt (printed fmt args ∷ [])
    said fmt args = unfold say in record { run = λ buf off rest h. ground arith }

pub Reads-skip :
    {B : Type 0} (xs : List ℕ) (n : ℕ) (f : Done → Reader B) {ys : List ℕ} {b : B} {k : List Line}
    → n ≡ length xs
    → Reads (f tt) ys b k
    → Reads (skip n >>= f) (xs ++ ys) b k
Reads-skip xs n f e h = Reads-bind f (skipped xs n e) h
  where
    skipped : (xs : List ℕ) (n : ℕ) → n ≡ length xs → Reads (skip n) xs tt []
    skipped xs n e = unfold skip in record { run = λ buf off rest h. ground arith }

pub Reads-pass : (xs : List ℕ) (n : ℕ) → n ≡ length xs → Reads (skip n) xs tt []
unfolding skip
Reads-pass xs n e = record { run = λ buf off rest h. ground arith }

-- Two `int` that are copied before both are passed.
pub Reads-ints :
    (a b : ℕ) (rest : ℕ → ℕ → Reader Done) {log : List Line}
    → a < 256 ^ 4
    → b < 256 ^ 4
    → Reads (rest a b) (le_bytes 4 a ++ le_bytes 4 b) tt log
    → Reads (peek 0 4 >>= λ x. peek 4 4 >>= λ y. rest x y) (le_bytes 4 a ++ le_bytes 4 b) tt log
unfolding ◌>>=◌ peek
Reads-ints a b rest ha hb h = record {
  run = λ buf off tail at.
      let here : off + 0 ≡ off = omega arith in
      let all = at ∙ append_assoc (le_bytes 4 a) (le_bytes 4 b) tail in
      let next : drop (off + 4) buf ≡ le_bytes 4 b ++ tail =
        ap (λ (n : ℕ). drop (off + n) buf) (sym (length-le_bytes 4 a))
        ∙ drop-past buf off (le_bytes 4 a) (le_bytes 4 b ++ tail) all in
      ground (
        arith,
        here,
        all,
        next,
        le_value?-le_bytes 4 a (le_bytes 4 b ++ tail) ha,
        le_value?-le_bytes 4 b tail hb,
        h.run buf off tail at,
      );
}

-- The three members of a header are copied, and then the header is passed.
module _ (a b c : ℕ) (ha : a < 256 ^ 4) (hb : b < 256 ^ 2) (hc : c < 256 ^ 2) where
  abbrev header : List ℕ → List ℕ
  header ys = le_bytes 4 a ++ (le_bytes 2 b ++ (le_bytes 2 c ++ ys))

  pub Reads-header :
      (rest : ℕ → ℕ → ℕ → Reader Done) (ys : List ℕ) {log : List Line}
      → Reads (rest a b c) (header ys) tt log
      → Reads (peek 0 4 >>= λ x. peek 4 2 >>= λ y. peek 6 2 >>= λ z. rest x y z) (header ys) tt log
  unfolding ◌>>=◌ peek
  Reads-header rest ys h = record {
    run = λ buf off tail at.
        let here : off + 0 ≡ off = omega arith in
        let all : drop off buf ≡ le_bytes 4 a ++ (le_bytes 2 b ++ (le_bytes 2 c ++ (ys ++ tail))) =
          at
          ∙ append_assoc (le_bytes 4 a) _ tail
          ∙ ap (◌++◌ (le_bytes 4 a)) (
              append_assoc (le_bytes 2 b) _ tail
              ∙ ap (◌++◌ (le_bytes 2 b)) (append_assoc (le_bytes 2 c) ys tail)) in
        let four : drop (off + 4) buf ≡ le_bytes 2 b ++ (le_bytes 2 c ++ (ys ++ tail)) =
          ap (λ (n : ℕ). drop (off + n) buf) (sym (length-le_bytes 4 a))
          ∙ drop-past buf off (le_bytes 4 a) _ all in
        let six : drop (off + 6) buf ≡ le_bytes 2 c ++ (ys ++ tail) =
          ap (λ (n : ℕ). drop n buf)
            (let e : off + 6 ≡ (off + 4) + length (le_bytes 2 b) =
                omega (arith, length-le_bytes 2 b) in
              e)
          ∙ drop-past buf (off + 4) (le_bytes 2 b) _ four in
        ground (
          arith,
          here,
          all,
          four,
          six,
          le_value?-le_bytes 4 a (le_bytes 2 b ++ (le_bytes 2 c ++ (ys ++ tail))) ha,
          le_value?-le_bytes 2 b (le_bytes 2 c ++ (ys ++ tail)) hb,
          le_value?-le_bytes 2 c (ys ++ tail) hc,
          h.run buf off tail at,
        );
  }

  pub Reads-past_header :
      (f : Done → Reader Done) (ys : List ℕ) {k : List Line}
      → Reads (f tt) ys tt k
      → Reads (skip 8 >>= f) (header ys) tt k
  Reads-past_header f ys {k} h =
      subst (λ (xs : List ℕ). Reads (skip 8 >>= f) xs tt k)
        (append_assoc (le_bytes 4 a) _ ys
          ∙ ap (◌++◌ (le_bytes 4 a)) (append_assoc (le_bytes 2 b) (le_bytes 2 c) ys))
        (Reads-skip (le_bytes 4 a ++ (le_bytes 2 b ++ le_bytes 2 c)) 8 f eight h)
    where
      eight : 8 ≡ length (le_bytes 4 a ++ (le_bytes 2 b ++ le_bytes 2 c))
      eight = omega (
        arith,
        length-append (le_bytes 4 a) (le_bytes 2 b ++ le_bytes 2 c),
        length-append (le_bytes 2 b) (le_bytes 2 c),
        length-le_bytes 4 a,
        length-le_bytes 2 b,
        length-le_bytes 2 c,
      )

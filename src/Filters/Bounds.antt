-- ===== src/Filters/Bounds.antt =====
-- An address filter fits into the buffer that it is made up in.
use perf_event_tests.Base.{
  ℕ, zero, suc, ◌+◌, ◌-◌, ◌*◌, ◌/◌, ◌%◌, ◌^◌, ◌≤◌, ◌≡◌, refl, Bool, true, false, not, List, [], ◌∷◌,
  ◌++◌, arith, length, length-append, ◌==◌, if◌then◌else◌,
}
use native.Mathlib.Nat.{mod-lt, zero-lt-suc}
use perf_event_tests.Base.Digits.{digit_chars, digits_of, signed_text}
use perf_event_tests.Filters.{
  Made, ◌>>=◌, pure, get_path, whitespace, print_whitespace, address_text, size_text, range_text,
  action_text, make_address_filter,
}

-- At most so many characters, whatever is drawn.
record Within (n : ℕ) (m : Made (List ℕ)) : Type 0 where
  short : (t : ℕ) → length (m t).0 ≤ n

Within-pure : (n : ℕ) (l : List ℕ) → length l ≤ n → Within n (pure l)
Within-pure n l h = record { short = λ t. h }

Within-if :
    (b : Bool) {n : ℕ} {p q : Made (List ℕ)}
    → Within n p
    → Within n q
    → Within n (if b then p else q)
Within-if true hp hq = hp
Within-if false hp hq = hq

Within-draw :
    {A : Type 0} {n : ℕ} (m : Made A) {f : A → Made (List ℕ)}
    → ((a : A) → Within n (f a))
    → Within n (m >>= f)
unfolding ◌>>=◌
Within-draw m h = record { short = λ t. (h (m t).0).short (m t).1 }

Within-then :
    (p : ℕ) {n : ℕ} {m : Made (List ℕ)} {f : List ℕ → Made (List ℕ)}
    → Within p m
    → ((l : List ℕ) → length l ≤ p → Within n (f l))
    → Within n (m >>= f)
unfolding ◌>>=◌
Within-then p {m} first rest = record { short = λ t. (rest (m t).0 (first.short t)).short (m t).1 }

Within-more : {n k : ℕ} {m : Made (List ℕ)} → n ≤ k → Within n m → Within k m
Within-more more h = record { short = λ t. omega (arith, more, h.short t) }

length-digit_chars : (ds : List ℕ) → length (digit_chars ds) ≡ length ds
length-digit_chars [] = refl
length-digit_chars (d ∷ ds) = omega (arith, length-digit_chars ds)

length-digits_of : (base fuel n : ℕ) → length (digits_of base fuel n) ≤ fuel
length-digits_of base zero n = omega arith
length-digits_of base (suc fuel) n = ground (
  arith,
  length-append (digits_of base fuel (n / base)) (n % base ∷ []),
  length-digits_of base fuel (n / base),
)

digits_short : (base n : ℕ) → length (digit_chars (digits_of base 64 n)) ≤ 64
digits_short base n =
    omega (arith, length-digit_chars (digits_of base 64 n), length-digits_of base 64 n)

signed_short : (v : ℕ) → length (signed_text 64 v) ≤ 65
signed_short v = ground (arith, digits_short 10 v, digits_short 10 (2 ^ 64 - v))

at_most : (x w : ℕ) → x % (if w == 0 then 1 else w) ≤ w
at_most x zero = omega arith
at_most x (suc w) = ground (arith, mod-lt x (zero-lt-suc w))

module _ (rand : ℕ → ℕ) where
  whitespace-Within : (n : ℕ) → Within n (whitespace rand n)
  unfolding whitespace
  whitespace-Within zero = Within-pure 0 [] (omega arith)
  whitespace-Within (suc n) = Within-draw _ λ r.
      Within-then n (whitespace-Within n) λ l short. Within-pure (suc n) _ (omega (arith, short))

  print_whitespace-Within : (w : ℕ) → Within w (print_whitespace rand w)
  unfolding print_whitespace ◌>>=◌
  print_whitespace-Within w = record {
    short = λ t.
        let amount : ℕ = rand t % (if w == 0 then 1 else w) in
        let h : length (print_whitespace rand w t).0 ≤ amount =
          (whitespace-Within amount).short (suc t) in
        omega (arith, h, at_most (rand t) w);
  }

  address-Within : Within 66 (address_text rand)
  unfolding address_text
  address-Within = Within-draw _ λ r. Within-draw _ λ v.
      Within-if (r == 0) (Within-pure 66 _ (omega (arith, digits_short 10 v))) (
        Within-if (r == 1) (Within-pure 66 _ (omega (arith, signed_short v))) (
          Within-if (r == 2) (Within-pure 66 _ (omega (arith, digits_short 16 v))) (
            Within-if (r == 3) (Within-pure 66 _ (omega (arith, digits_short 8 v)))
              (Within-pure 66 _ (omega (arith, digits_short 16 v))))))

  size-Within : Within 67 (size_text rand)
  unfolding size_text
  size-Within = Within-draw _ λ r. Within-draw _ λ v.
      Within-if (r == 0) (Within-pure 67 _ (omega (arith, digits_short 16 v))) (
        Within-if (r == 1) (Within-pure 67 _ (omega (arith, signed_short v))) (
          Within-if (r == 2) (Within-pure 67 _ (omega (arith, digits_short 16 v)))
            (Within-pure 67 _ (omega (arith, digits_short 10 v)))))

  path_short : (b : Bool) → length (if b then b'@' ∷ get_path else []) ≤ 9
  path_short true = omega arith
  path_short false = omega arith

  range-Within : (r : ℕ) → Within 142 (range_text rand r)
  unfolding range_text
  range-Within r = Within-then 66 address-Within λ address short. Within-draw _ λ sized.
      Within-then 67 (Within-if (not (sized == 0)) size-Within (Within-pure 67 [] (omega arith)))
        λ size size_short.
          let path = if r == 2 then b'@' ∷ get_path else [] in
          Within-pure 142 _ (
            omega (
              arith,
              short,
              size_short,
              path_short (r == 2),
              length-append address (size ++ path),
              length-append size path,
            ))

  action-Within : (w : ℕ) → Within (6 + w) (action_text rand w)
  unfolding action_text
  action-Within w = Within-draw _ λ r. Within-if (r == 0) (Within-pure (6 + w) _ (omega arith)) (
      Within-if (r == 1) (Within-pure (6 + w) _ (omega arith)) (
        Within-if (r == 2) (Within-pure (6 + w) _ (omega arith))
          (Within-more (omega arith) (print_whitespace-Within w))))

  filter-Within : (w : ℕ) → Within (148 + 3 * w) (make_address_filter rand w)
  unfolding make_address_filter
  filter-Within w = Within-then (6 + w) (action-Within w) λ action a.
      Within-then w (print_whitespace-Within w) λ space b. Within-draw _ λ r.
        Within-then (142 + w)
          (Within-if (r == 0) (Within-more (omega arith) (print_whitespace-Within w))
            (Within-more (omega arith) (range-Within r)))
          λ range c. Within-pure (148 + 3 * w) _ (
            omega
              (arith, a, b, c, length-append action (space ++ range), length-append space range))

-- Whatever `rand` gives, the filter and its terminator fit into the MAX_FILTER_SIZE = 8192 bytes of the buffer
-- if no run of white space may have more than 2681 characters (the program asks for 19 at most), and the filter
-- is at most three such runs and 148 characters long.
pub make_address_filter-fits :
    (rand : ℕ → ℕ) (max_whitespace t : ℕ)
    → max_whitespace ≤ 2681
    → (length (make_address_filter rand max_whitespace t).0 + 1 ≤ 8192)
      × (length (make_address_filter rand max_whitespace t).0 ≤ 148 + 3 * max_whitespace)
make_address_filter-fits rand max_whitespace t few =
    let short = (filter-Within rand max_whitespace).short t in (omega (arith, short, few), short)

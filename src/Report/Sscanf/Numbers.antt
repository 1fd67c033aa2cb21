-- ===== src/Report/Sscanf/Numbers.antt =====
-- Numbers that were printed, decimal or hexadecimal, are read back.
use native.Mathlib.Nat.{mod-eq_of_lt}
use perf_event_tests.Base.{
  subst, ltb→le, ℕ, ◌+◌, ◌-◌, ◌*◌, ◌%◌, ◌^◌, ◌<◌, ◌≤◌, ◌≡◌, ◌⊎◌, refl, ap, ◌∙◌, inl, inr, false,
  ◌&&◌, ◌||◌, none, some, List, [], ◌∷◌, ◌++◌, ◌==◌, ltb, leb, length, arith, Bool-cases,
}
use perf_event_tests.Base.Text.{pass_spaces}
use perf_event_tests.Base.Digits.{
  digit_char, digit_chars, AllBelow, digits_value, IsBase, digits_of, digits_of-AllBelow,
  digits_of-nonempty, digits_value-digits_of, decimal_text, hex_text, signed_text,
}
use perf_event_tests.Report.Sscanf.{
  digit_value, scan_digits, scan_unsigned, pass_0x, negated, wrapped, scan_signed, decimal, hex,
  convert,
}

digit_value-digit_char :
    (base d : ℕ) → IsBase base → d < base → digit_value base (digit_char d) ≡ some d
digit_value-digit_char base d (inl e) h = ground (arith, e, h)
digit_value-digit_char base d (inr e) h = ground (arith, e, h)

space_ends : (base : ℕ) → digit_value base b' ' ≡ none
space_ends base = elim (Bool-cases (base == 16)) [ inl e ↦ rw e | inr e ↦ rw e ]

digit_chars-scan_digits :
    (base n : ℕ) (ds s : List ℕ)
    → IsBase base
    → AllBelow base ds
    → scan_digits base (digit_chars ds ++ b' ' ∷ s) n ≡ (digits_value base n ds, b' ' ∷ s)
unfolding scan_digits
digit_chars-scan_digits base n [] s is below = rw (scan_digits, space_ends base)
digit_chars-scan_digits base n (d ∷ ds) s is below =
    let e : base * n + d ≡ n * base + d = ground arith in
    rw (scan_digits, digit_value-digit_char base d is below.0, e)
      (digit_chars-scan_digits base (n * base + d) ds s is below.1)

digit_chars-scan_unsigned :
    (base : ℕ) (ds s : List ℕ)
    → IsBase base
    → AllBelow base ds
    → 0 < length ds
    → scan_unsigned base (digit_chars ds ++ b' ' ∷ s) ≡ some (digits_value base 0 ds, b' ' ∷ s)
unfolding scan_unsigned
digit_chars-scan_unsigned base [] s is below h = absurd (omega arith)
digit_chars-scan_unsigned base (d ∷ ds) s is below h =
    let e : 0 * base + d ≡ d = omega arith in
    rw (scan_unsigned, digit_value-digit_char base d is below.0, e)
      (ap some (digit_chars-scan_digits base d ds s is below.1))

-- What `printf` writes of a number that fits into 64 bits.
pub printed-scan_unsigned :
    (base n : ℕ) (s : List ℕ)
    → IsBase base
    → n < 2 ^ 64
    → scan_unsigned base (digit_chars (digits_of base 64 n) ++ b' ' ∷ s) ≡ some (n, b' ' ∷ s)
printed-scan_unsigned base n s is h =
    digit_chars-scan_unsigned base (digits_of base 64 n) s is (digits_of-AllBelow base 64 n is)
      (digits_of-nonempty base 63 n)
    ∙ ap (λ v. some (v, b' ' ∷ s)) (digits_value-digits_of base 64 n is h)

pass_0x-digit_chars :
    (ds s : List ℕ)
    → AllBelow 16 ds
    → 0 < length ds
    → pass_0x (digit_chars ds ++ b' ' ∷ s) ≡ digit_chars ds ++ b' ' ∷ s
unfolding pass_0x
pass_0x-digit_chars [] s below h = absurd (omega arith)
pass_0x-digit_chars (d ∷ []) [] below h = refl
pass_0x-digit_chars (d ∷ []) (c ∷ s) below h = elim (Bool-cases (digit_char d == b'0')) [
  | inl z ↦ rw z
  | inr z ↦ rw z
]
pass_0x-digit_chars (d ∷ (e ∷ [])) s below h =
    let x : (digit_char e == b'x') ≡ false = ground (arith, below.1.0) in
    elim (Bool-cases (digit_char d == b'0')) [ inl z ↦ rw (z, x) | inr z ↦ rw z ]
pass_0x-digit_chars (d ∷ (e ∷ (f ∷ ds))) s below h =
    let x : (digit_char e == b'x') ≡ false = ground (arith, below.1.0) in
    elim (Bool-cases (digit_char d == b'0')) [ inl z ↦ rw (z, x) | inr z ↦ rw z ]

-- A text whose first character is no space is not shortened.
pass_spaces-digit_chars :
    (base : ℕ) (ds s : List ℕ)
    → IsBase base
    → AllBelow base ds
    → 0 < length ds
    → pass_spaces (digit_chars ds ++ s) ≡ digit_chars ds ++ s
pass_spaces-digit_chars base [] s is below h = absurd (omega arith)
pass_spaces-digit_chars base (d ∷ ds) s is below h =
    let small : d < 16 = elim is [
      | inl e ↦ omega (arith, e, below.0)
      | inr e ↦ omega (arith, e, below.0)
    ] in
    let e : ((digit_char d == 32) || (leb 9 (digit_char d) && leb (digit_char d) 13)) ≡ false =
      ground (arith, small) in
    rw e

digit_chars-scan_signed :
    (base bits : ℕ) (ds s : List ℕ)
    → IsBase base
    → AllBelow base ds
    → 0 < length ds
    → scan_signed base bits (digit_chars ds ++ s)
      ≡ wrapped bits (scan_unsigned base (digit_chars ds ++ s))
unfolding scan_signed
digit_chars-scan_signed base bits [] s is below h = absurd (omega arith)
digit_chars-scan_signed base bits (d ∷ ds) s is below h =
    let small : d < 16 = elim is [
      | inl e ↦ omega (arith, e, below.0)
      | inr e ↦ omega (arith, e, below.0)
    ] in
    let minus : (digit_char d == b'-') ≡ false = ground (arith, small) in
    let plus : (digit_char d == b'+') ≡ false = ground (arith, small) in rw (minus, plus)

-- The widths of the members that are printed.
abbrev pub IsWidth : ℕ → Type 0
IsWidth bits = (bits ≡ 16) ⊎ ((bits ≡ 32) ⊎ (bits ≡ 64))

unwrapped : (bits v : ℕ) → v < 2 ^ bits → v % 2 ^ bits ≡ v
unwrapped bits v h = mod-eq_of_lt h

negative :
    (bits v : ℕ)
    → IsWidth bits
    → v < 2 ^ bits
    → 0 < v
    → (2 ^ bits - (2 ^ bits - v) % 2 ^ bits) % 2 ^ bits ≡ v
negative bits v (inl e) h k =
    let h' : v < 2 ^ 16 = subst (λ (b : ℕ). v < 2 ^ b) e h in rw e (omega (arith, h'))
negative bits v (inr (inl e)) h k =
    let h' : v < 2 ^ 32 = subst (λ (b : ℕ). v < 2 ^ b) e h in rw e (omega (arith, h'))
negative bits v (inr (inr e)) h k =
    let h' : v < 2 ^ 64 = subst (λ (b : ℕ). v < 2 ^ b) e h in rw e (omega (arith, h'))

narrow : (bits v : ℕ) → IsWidth bits → v < 2 ^ bits → v < 2 ^ 64
narrow bits v (inl e) h = let k : v < 2 ^ 16 = subst (λ (b : ℕ). v < 2 ^ b) e h in omega (arith, k)
narrow bits v (inr (inl e)) h =
    let k : v < 2 ^ 32 = subst (λ (b : ℕ). v < 2 ^ b) e h in omega (arith, k)
narrow bits v (inr (inr e)) h = subst (λ (b : ℕ). v < 2 ^ b) e h

half_pos : (bits v : ℕ) → IsWidth bits → 2 ^ (bits - 1) ≤ v → 0 < v
half_pos bits v (inl e) h =
    let k : 2 ^ (16 - 1) ≤ v = subst (λ (b : ℕ). 2 ^ (b - 1) ≤ v) e h in omega (arith, k)
half_pos bits v (inr (inl e)) h =
    let k : 2 ^ (32 - 1) ≤ v = subst (λ (b : ℕ). 2 ^ (b - 1) ≤ v) e h in omega (arith, k)
half_pos bits v (inr (inr e)) h =
    let k : 2 ^ (64 - 1) ≤ v = subst (λ (b : ℕ). 2 ^ (b - 1) ≤ v) e h in omega (arith, k)

below_64 : (bits v : ℕ) → IsWidth bits → 0 < v → 2 ^ bits - v < 2 ^ 64
below_64 bits v (inl e) h = rw e (omega arith)
below_64 bits v (inr (inl e)) h = rw e (omega arith)
below_64 bits v (inr (inr e)) h = rw e (omega arith)

module _ (n : ℕ) where
  tens : AllBelow 10 (digits_of 10 64 n)
  tens = digits_of-AllBelow 10 64 n (inl refl)

  sixteens : AllBelow 16 (digits_of 16 64 n)
  sixteens = digits_of-AllBelow 16 64 n (inr refl)

  decimal-scan_signed :
      (bits : ℕ) (s : List ℕ)
      → n < 2 ^ 64
      → scan_signed 10 bits (pass_spaces (decimal_text n ++ b' ' ∷ s))
        ≡ some (n % 2 ^ bits, b' ' ∷ s)
  decimal-scan_signed bits s h =
      rw
        (pass_spaces-digit_chars 10 (digits_of 10 64 n) (b' ' ∷ s) (inl refl) tens
          (digits_of-nonempty 10 63 n))
        (digit_chars-scan_signed 10 bits (digits_of 10 64 n) (b' ' ∷ s) (inl refl) tens
            (digits_of-nonempty 10 63 n)
          ∙ ap (wrapped bits) (printed-scan_unsigned 10 n s (inl refl) h))

-- `%d` reads what "%d" wrote, a minus sign included.
pub signed_text-convert :
    (bits v : ℕ) (s : List ℕ)
    → IsWidth bits
    → v < 2 ^ bits
    → convert (decimal bits) (signed_text bits v ++ b' ' ∷ s) ≡ some (v, b' ' ∷ s)
unfolding convert
signed_text-convert bits v s wide h = elim (Bool-cases (ltb v (2 ^ (bits - 1)))) [
  | inl plus ↦ rw plus (
      decimal-scan_signed v bits s (narrow bits v wide h)
      ∙ ap (λ n. some (n, b' ' ∷ s)) (unwrapped bits v h))
  | inr minus ↦
      let pos : 0 < v = half_pos bits v wide (ltb→le _ _ minus) in
      rw minus (
        ap (negated bits)
          (printed-scan_unsigned 10 (2 ^ bits - v) s (inl refl) (below_64 bits v wide pos))
        ∙ ap (λ n. some (n, b' ' ∷ s)) (negative bits v wide h pos))
]

pub hex_text-convert :
    (bits v : ℕ) (s : List ℕ)
    → IsWidth bits
    → v < 2 ^ bits
    → convert (hex bits) (hex_text v ++ b' ' ∷ s) ≡ some (v, b' ' ∷ s)
unfolding convert
hex_text-convert bits v s wide h =
    let ds = digits_of 16 64 v in
    let some_digit : 0 < length ds = digits_of-nonempty 16 63 v in
    rw (pass_spaces-digit_chars 16 ds (b' ' ∷ s) (inr refl) (sixteens v) some_digit) (
      rw (pass_0x-digit_chars ds s (sixteens v) some_digit) (
        digit_chars-scan_signed 16 bits ds (b' ' ∷ s) (inr refl) (sixteens v) some_digit
        ∙ ap (wrapped bits) (printed-scan_unsigned 16 v s (inr refl) (narrow bits v wide h))
        ∙ ap (λ n. some (n, b' ' ∷ s)) (unwrapped bits v h)))

-- ===== src/Sysfs/Format/Ends.antt =====
-- `parse_format` ends on every buffer.
use perf_event_tests.Base.{
  ℕ, zero, suc, ◌+◌, ◌-◌, ◌*◌, ◌%◌, ◌^◌, ◌<◌, ◌≤◌, ◌≢◌, inl, inr, ◌||◌, some, List, [], ◌∷◌, ◌==◌,
  length, arith, Bool-cases, Option-cases,
}
use perf_event_tests.Base.Text.{is_digit}
use perf_event_tests.Sysfs.Chars.{up_to}
use perf_event_tests.Sysfs.Format.{
  Field, field_of, Scanned, overrun, unknown_char, stopped, ends_number, scan_number, Round,
  undefined, bad, read, first_number, second_number, add_bits, next, Format, ranges, ends_name,
  after_name, parse_format,
}

-- What a digit loop leaves is shorter by the character that ended it at least.
abbrev Shorter : Scanned → ℕ → Type 0
Shorter overrun n = Unit {0}
Shorter (unknown_char c) n = Unit {0}
Shorter (stopped m c rest) n = length rest < n

Shorter-mono : (r : Scanned) (m n : ℕ) → m ≤ n → Shorter r m → Shorter r n
Shorter-mono overrun m n h s = tt
Shorter-mono (unknown_char c) m n h s = tt
Shorter-mono (stopped k c rest) m n h s = omega arith

scan_number-Shorter : (n : ℕ) (s : List ℕ) → Shorter (scan_number n s) (length s)
unfolding scan_number
scan_number-Shorter n [] = tt
scan_number-Shorter n (c ∷ s) = elim (Bool-cases (ends_number c)) [
  | inl e ↦ rw (scan_number, e) (omega arith)
  | inr more ↦ elim (Bool-cases (is_digit c)) [
    | inl d ↦
        let n' = (n * 10 + (c - b'0')) % 2 ^ 32 in
        rw (scan_number, more, d)
          (Shorter-mono (scan_number n' s) (length s) (suc (length s)) (omega arith)
            (scan_number-Shorter n' s))
    | inr d ↦ rw (scan_number, more, d) tt
  ]
]

abbrev Falls : Round → ℕ → Type 0
Falls undefined n = Unit {0}
Falls (bad c) n = Unit {0}
Falls (read shift bits c rest) n = length rest < n

second_number-Falls :
    (first : ℕ) (r : Scanned) (n : ℕ) → Shorter r n → Falls (second_number first r) n
second_number-Falls first overrun n h = tt
second_number-Falls first (unknown_char c) n h = tt
second_number-Falls first (stopped m c rest) n h = h

first_number-Falls : (r : Scanned) (n : ℕ) → Shorter r n → Falls (first_number r) n
first_number-Falls overrun n h = tt
first_number-Falls (unknown_char c) n h = tt
first_number-Falls (stopped m c rest) n h = elim (Bool-cases ((c == 0) || (c == b','))) [
  | inl one ↦ rw one h
  | inr two ↦ rw two (
      second_number-Falls m (scan_number 0 rest) n (
        Shorter-mono (scan_number 0 rest) (length rest) n (omega arith)
          (scan_number-Shorter 0 rest)))
]

next-ends :
    (field : Field) (mask n : ℕ) (r : Round) (again : ℕ → List ℕ → Format)
    → Falls r n
    → ((mask' : ℕ) (rest : List ℕ) → length rest < n → again mask' rest ≢ Format.out_of_fuel)
    → next field mask r again ≢ Format.out_of_fuel
next-ends field mask n undefined again h k = λ e. cc
next-ends field mask n (bad c) again h k = λ e. cc
next-ends field mask n (read shift bits c rest) again h k =
    elim (Option-cases (add_bits mask shift bits)) [
      | inl e ↦ rw (next, e) (λ q. cc)
      | inr (mask', e) ↦ elim (Bool-cases (c == 0)) [
        | inl z ↦ rw (next, e, z) (λ q. cc)
        | inr z ↦ rw (next, e, z) (k mask' rest h)
      ]
    ]

ranges-ends :
    (fuel : ℕ) (field : Field) (mask : ℕ) (s : List ℕ)
    → length s < fuel
    → ranges fuel field mask s ≢ Format.out_of_fuel
unfolding ranges
ranges-ends zero field mask s h = absurd (omega arith)
ranges-ends (suc fuel) field mask s h =
    next-ends field mask (length s) (first_number (scan_number 0 s)) (ranges fuel field)
      (first_number-Falls (scan_number 0 s) (length s) (scan_number-Shorter 0 s))
      (λ mask' rest shorter. ranges-ends fuel field mask' rest (omega arith))

-- The loop over the ranges ends on every buffer: each round passes one character at least.
pub parse_format-ends : (string : List ℕ) → parse_format string ≢ Format.out_of_fuel
unfolding parse_format
parse_format-ends string = elim (Option-cases (up_to ends_name string)) [
  | inl e ↦ rw e (λ q. cc)
  | inr ((name, rest), e) ↦ rw e (ended name rest)
]
  where
    ended : (name rest : List ℕ) → after_name (some (name, rest)) ≢ Format.out_of_fuel
    ended name [] = λ q. cc
    ended name (c ∷ s) = ranges-ends (suc (length s)) (field_of name) 0 s (omega arith)

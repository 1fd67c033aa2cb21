-- ===== src/Sysfs/Generic/Ends.antt =====
-- `parse_generic` ends on every buffer.
use perf_event_tests.Base.{
  ℕ, zero, suc, ◌+◌, ◌*◌, ◌%◌, ◌^◌, ◌<◌, ◌≤◌, ◌≡◌, ◌≢◌, subst, inl, inr, Bool, ◌&&◌, ◌||◌, Option,
  none, some, List, [], ◌∷◌, ◌==◌, length, arith, Bool-cases, Option-cases,
}
use perf_event_tests.Sysfs.Chars.{up_to}
use perf_event_tests.Sysfs.Generic.{
  FormatType, Configs, digit_value, ends_value, scan_value, number, ends_field, value_of, term,
  Generic, add_term, terms, no_config, parse_generic, update_configs,
}

-- What follows a number is shorter than a string of `n` characters.
abbrev Shorter : Option (ℕ × ℕ × List ℕ) → ℕ → Type 0
Shorter none n = Unit {0}
Shorter (some (v, c, rest)) n = length rest < n

Shorter-mono : (o : Option (ℕ × ℕ × List ℕ)) (m n : ℕ) → m ≤ n → Shorter o m → Shorter o n
Shorter-mono none m n h s = tt
Shorter-mono (some (v, c, rest)) m n h s = omega arith

scan_value-Shorter : (base t : ℕ) (s : List ℕ) → Shorter (scan_value base t s) (length s)
unfolding scan_value
scan_value-Shorter base t [] = tt
scan_value-Shorter base t (c ∷ s) = elim (Bool-cases (ends_value c)) [
  | inl e ↦ rw (scan_value, e) (omega arith)
  | inr more ↦
      let t' = (t * base + digit_value c) % 2 ^ 64 in
      rw (scan_value, more)
        (Shorter-mono (scan_value base t' s) (length s) (suc (length s)) (omega arith)
          (scan_value-Shorter base t' s))
]

number-Shorter : (s : List ℕ) → Shorter (number s) (length s)
number-Shorter [] = scan_value-Shorter 10 0 []
number-Shorter (a ∷ []) = scan_value-Shorter 10 0 (a ∷ [])
number-Shorter (a ∷ (b ∷ s)) = elim (Bool-cases ((a == b'0') && (b == b'x'))) [
  | inl hex ↦ rw hex (
      Shorter-mono (scan_value 16 0 s) (length s) (length (a ∷ (b ∷ s))) (omega arith)
        (scan_value-Shorter 16 0 s))
  | inr dec ↦ rw dec (scan_value-Shorter 10 0 (a ∷ (b ∷ s)))
]

value_of-Shorter : (c : ℕ) (s : List ℕ) → Shorter (value_of c s) (suc (length s))
value_of-Shorter c s = elim (Bool-cases ((c == b',') || (c == 0))) [
  | inl e ↦ rw e (omega arith)
  | inr e ↦
      rw e (Shorter-mono (number s) (length s) (suc (length s)) (omega arith) (number-Shorter s))
]

abbrev NoLonger : Option (List ℕ × List ℕ) → ℕ → Type 0
NoLonger none n = Unit {0}
NoLonger (some (word, rest)) n = length rest ≤ n

NoLonger-mono : (o : Option (List ℕ × List ℕ)) (m n : ℕ) → m ≤ n → NoLonger o m → NoLonger o n
NoLonger-mono none m n h s = tt
NoLonger-mono (some (word, rest)) m n h s = omega arith

up_to-NoLonger : (stop : ℕ → Bool) (s : List ℕ) → NoLonger (up_to stop s) (length s)
unfolding up_to
up_to-NoLonger stop [] = tt
up_to-NoLonger stop (c ∷ s) = elim (Bool-cases (stop c)) [
  | inl e ↦ rw (up_to, e) (omega arith)
  | inr e ↦ elim (Option-cases (up_to stop s)) [
    | inl z ↦ rw (up_to, e, z) tt
    | inr ((word, rest), z) ↦
        let ih : NoLonger (some (word, rest)) (length s) =
          subst (λ o. NoLonger o (length s)) z (up_to-NoLonger stop s) in
        rw (up_to, e, z) (omega arith)
  ]
]

abbrev Falls : Option (List ℕ × ℕ × ℕ × List ℕ) → ℕ → Type 0
Falls none n = Unit {0}
Falls (some (field, v, c, rest)) n = length rest < n

term-Falls : (s : List ℕ) → Falls (term s) (length s)
unfolding term
term-Falls s = elim (Option-cases (up_to ends_field s)) [
  | inl e ↦ rw (term, e) tt
  | inr ((field, rest), e) ↦
      let short : NoLonger (some (field, rest)) (length s) =
        subst (λ o. NoLonger o (length s)) e (up_to-NoLonger ends_field s) in
      behind field rest short e
]
  where
    behind :
        (field rest : List ℕ)
        → length rest ≤ length s
        → up_to ends_field s ≡ some (field, rest)
        → Falls (term s) (length s)
    behind field [] short e = rw (term, e) tt
    behind field (c ∷ rest) short e = elim (Option-cases (value_of c rest)) [
      | inl z ↦ rw (term, e, z) tt
      | inr ((v, d, after), z) ↦
          let less : Shorter (some (v, d, after)) (suc (length rest)) =
            subst (λ o. Shorter o (suc (length rest))) z (value_of-Shorter c rest) in
          rw (term, e, z) (omega arith)
    ]

add_term-ends :
    (formats : List FormatType) (o : Option (List ℕ × ℕ × ℕ × List ℕ)) (cs : Configs) (n : ℕ)
    (again : Configs → List ℕ → Generic)
    → Falls o n
    → ((cs' : Configs) (rest : List ℕ) → length rest < n → again cs' rest ≢ Generic.out_of_fuel)
    → add_term formats o cs again ≢ Generic.out_of_fuel
add_term-ends formats none cs n again h k = λ e. cc
add_term-ends formats (some (field, v, c, rest)) cs n again h k =
    elim (Option-cases (update_configs formats field v cs)) [
      | inl e ↦ rw (add_term, e) (λ q. cc)
      | inr (cs', e) ↦ elim (Bool-cases (c == 0)) [
        | inl z ↦ rw (add_term, e, z) (λ q. cc)
        | inr z ↦ rw (add_term, e, z) (k cs' rest h)
      ]
    ]

terms-ends :
    (fuel : ℕ) (formats : List FormatType) (cs : Configs) (s : List ℕ)
    → length s < fuel
    → terms fuel formats cs s ≢ Generic.out_of_fuel
unfolding terms
terms-ends zero formats cs s h = absurd (omega arith)
terms-ends (suc fuel) formats cs s h =
    add_term-ends formats (term s) cs (length s) (terms fuel formats) (term-Falls s)
      (λ cs' rest shorter. terms-ends fuel formats cs' rest (omega arith))

-- The loop over the terms ends on every buffer: each round passes one character at least.
pub parse_generic-ends :
    (formats : List FormatType) (value : List ℕ) → parse_generic formats value ≢ Generic.out_of_fuel
unfolding parse_generic
parse_generic-ends formats value =
    terms-ends (suc (length value)) formats no_config value (omega arith)

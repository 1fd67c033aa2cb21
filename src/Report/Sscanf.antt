-- ===== src/Report/Sscanf.antt =====
-- The numbers that `sscanf` reads in a line of the log.
use perf_event_tests.Base.{
  ℕ, ◌+◌, ◌-◌, ◌*◌, ◌%◌, ◌^◌, Bool, ◌&&◌, ◌||◌, Option, none, some, List, [], ◌∷◌, leb, ◌==◌,
  if◌then◌else◌, drop,
}
use perf_event_tests.Base.Text.{is_digit, pass_spaces}
pub mod Numbers

-- `%d` and `%x` into a number of so many bits.
pub data Conversion : Type 0 where
  decimal hex : (bits : ℕ) → Conversion

abbrev is_lower_hex : ℕ → Bool
is_lower_hex c = leb b'a' c && leb c b'f'

abbrev is_upper_hex : ℕ → Bool
is_upper_hex c = leb b'A' c && leb c b'F'

-- The value of a digit in a base of 10 or 16.
abbrev digit_value : (base c : ℕ) → Option ℕ
digit_value base c =
    if is_digit c
    then some (c - b'0')
    else if (base == 16) && is_lower_hex c
    then some (c - b'a' + 10)
    else if (base == 16) && is_upper_hex c
    then some (c - b'A' + 10)
    else none

-- The digits at the start of a string behind the number `n`, and what follows.
unfoldable pub scan_digits : (base : ℕ) → List ℕ → (n : ℕ) → ℕ × List ℕ
scan_digits base [] n = (n, [])
scan_digits base (c ∷ s) n = elim (digit_value base c) [
  | none ↦ (n, c ∷ s)
  | some d ↦ scan_digits base s (base * n + d)
]

-- One digit at least.
unfoldable pub scan_unsigned : (base : ℕ) → List ℕ → Option (ℕ × List ℕ)
unfolding scan_digits
scan_unsigned base [] = none
scan_unsigned base (c ∷ s) = elim (digit_value base c) [
  | none ↦ none
  | some d ↦ some (scan_digits base s d)
]

-- `%x` takes a "0x" before the digits.
unfoldable pub pass_0x : List ℕ → List ℕ
pass_0x (a ∷ (b ∷ (c ∷ s))) =
    if (a == b'0') && ((b == b'x') && (is_digit c || (is_lower_hex c || is_upper_hex c)))
    then c ∷ s
    else a ∷ (b ∷ (c ∷ s))
pass_0x s = s

abbrev negated : (bits : ℕ) → Option (ℕ × List ℕ) → Option (ℕ × List ℕ)
negated bits none = none
negated bits (some (n, s)) = some ((2 ^ bits - n % 2 ^ bits) % 2 ^ bits, s)

abbrev wrapped : (bits : ℕ) → Option (ℕ × List ℕ) → Option (ℕ × List ℕ)
wrapped bits none = none
wrapped bits (some (n, s)) = some (n % 2 ^ bits, s)

unfoldable pub scan_signed : (base bits : ℕ) → List ℕ → Option (ℕ × List ℕ)
unfolding scan_unsigned
scan_signed base bits [] = none
scan_signed base bits (c ∷ s) =
    if c == b'-'
    then negated bits (scan_unsigned base s)
    else if c == b'+'
    then wrapped bits (scan_unsigned base s)
    else wrapped bits (scan_unsigned base (c ∷ s))

-- One conversion, white space before it passed. The value is the pattern of its low bits.
unfoldable pub convert : Conversion → List ℕ → Option (ℕ × List ℕ)
unfolding scan_signed pass_0x
convert (decimal bits) s = scan_signed 10 bits (pass_spaces s)
convert (hex bits) s = scan_signed 16 bits (pass_0x (pass_spaces s))

-- The values up to the first conversion that fails.
unfoldable pub scan_all : List Conversion → List ℕ → List ℕ
unfolding convert
scan_all [] s = []
scan_all (c ∷ cs) s = elim (convert c s) [ none ↦ [] | some (v, rest) ↦ v ∷ scan_all cs rest ]

-- `sscanf(line,"%*c …",…)`: the first character is passed.
abbrev pub sscanf : List Conversion → List ℕ → List ℕ
sscanf cs line = scan_all cs (drop 1 line)

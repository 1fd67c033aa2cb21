-- ===== src/Base/Digits.antt =====
-- Numbers as lists of digits, the highest first, and their characters.
use Prim.Native.Nat.{ℕ, zero, suc, ◌+◌, ◌-◌, ◌*◌, ◌/◌, ◌%◌, ◌^◌, ◌<◌}
use mathlib.Core.Path.{◌≡◌, refl, ap, ◌∙◌}
use mathlib.Core.Logic.{◌⊎◌, inl, inr}
use mathlib.Core.List.{List, [], ◌∷◌, ◌++◌}
use native.Mathlib.Omega.{arith}
use native.Mathlib.Nat.{pow-succ'}
use perf_event_tests.Base.Tests.{ltb, if◌then◌else◌, Bool-cases}
use perf_event_tests.Base.Lists.{length}

-- A digit as "%x" prints it.
abbrev pub digit_char : ℕ → ℕ
digit_char d = if ltb d 10 then b'0' + d else b'a' + (d - 10)

abbrev pub digit_chars : List ℕ → List ℕ
digit_chars [] = []
digit_chars (d ∷ ds) = digit_char d ∷ digit_chars ds

abbrev pub AllBelow : ℕ → List ℕ → Type 0
AllBelow base [] = Unit {0}
AllBelow base (d ∷ ds) = (d < base) × AllBelow base ds

-- The number that the digits stand for, behind the number `n`.
abbrev pub digits_value : (base n : ℕ) → List ℕ → ℕ
digits_value base n [] = n
digits_value base n (d ∷ ds) = digits_value base (n * base + d) ds

-- The digits of a number, at most `fuel` of them.
abbrev pub digits_of : (base fuel n : ℕ) → List ℕ
digits_of base zero n = []
digits_of base (suc fuel) n =
    let more = digits_of base fuel (n / base) ++ (n % base) ∷ [] in
    if ltb n base then n ∷ [] else more

-- The two bases that are printed.
abbrev pub IsBase : ℕ → Type 0
IsBase base = (base ≡ 10) ⊎ (base ≡ 16)

AllBelow-append :
    (base d : ℕ) (ds : List ℕ) → AllBelow base ds → d < base → AllBelow base (ds ++ d ∷ [])
AllBelow-append base d [] a h = (h, tt)
AllBelow-append base d (e ∷ ds) a h = (a.0, AllBelow-append base d ds a.1 h)

remainder_below : (base n : ℕ) → IsBase base → n % base < base
remainder_below base n (inl e) = ground (arith, e)
remainder_below base n (inr e) = ground (arith, e)

pub digits_of-AllBelow : (base fuel n : ℕ) → IsBase base → AllBelow base (digits_of base fuel n)
digits_of-AllBelow base zero n is = tt
digits_of-AllBelow base (suc fuel) n is = elim (Bool-cases (ltb n base)) [
  | inl one ↦ rw one (ground arith, tt)
  | inr more ↦ rw more (
      AllBelow-append base (n % base) (digits_of base fuel (n / base))
        (digits_of-AllBelow base fuel (n / base) is) (remainder_below base n is))
]

digits_value-append :
    (base n d : ℕ) (ds : List ℕ)
    → digits_value base n (ds ++ d ∷ []) ≡ digits_value base n ds * base + d
digits_value-append base n d [] = refl
digits_value-append base n d (e ∷ ds) = digits_value-append base (n * base + e) d ds

put_together : (base n : ℕ) → IsBase base → n / base * base + n % base ≡ n
put_together base n (inl e) = rw e (omega arith)
put_together base n (inr e) = rw e (omega arith)

quotient_below : (base fuel n : ℕ) → IsBase base → n < 2 ^ suc fuel → n / base < 2 ^ fuel
quotient_below base fuel n (inl e) h = rw e (omega (arith, pow-succ' 2 fuel))
quotient_below base fuel n (inr e) h = rw e (omega (arith, pow-succ' 2 fuel))

-- A bit for each digit is enough fuel.
pub digits_value-digits_of :
    (base fuel n : ℕ) → IsBase base → n < 2 ^ fuel → digits_value base 0 (digits_of base fuel n) ≡ n
digits_value-digits_of base zero n is h = omega arith
digits_value-digits_of base (suc fuel) n is h = elim (Bool-cases (ltb n base)) [
  | inl one ↦ rw one (omega arith)
  | inr more ↦ rw more (
      digits_value-append base 0 (n % base) (digits_of base fuel (n / base))
      ∙ ap (λ (q : ℕ). q * base + n % base)
          (digits_value-digits_of base fuel (n / base) is (quotient_below base fuel n is h))
      ∙ put_together base n is)
]

append-nonempty : (d : ℕ) (ds : List ℕ) → 0 < length (ds ++ d ∷ [])
append-nonempty d [] = omega arith
append-nonempty d (e ∷ ds) = omega arith

pub digits_of-nonempty : (base fuel n : ℕ) → 0 < length (digits_of base (suc fuel) n)
digits_of-nonempty base fuel n = elim (Bool-cases (ltb n base)) [
  | inl one ↦ rw one (omega arith)
  | inr more ↦ rw more (append-nonempty (n % base) (digits_of base fuel (n / base)))
]

-- "%x" and "%llx".
abbrev pub hex_text : ℕ → List ℕ
hex_text v = digit_chars (digits_of 16 64 v)

abbrev pub decimal_text : ℕ → List ℕ
decimal_text v = digit_chars (digits_of 10 64 v)

-- "%d" and the like, of the pattern of a number of so many bits.
abbrev pub signed_text : (bits v : ℕ) → List ℕ
signed_text bits v =
    if ltb v (2 ^ (bits - 1)) then decimal_text v else b'-' ∷ decimal_text (2 ^ bits - v)

-- ===== src/Base/Bits.antt =====
-- The bits of a word: `|`, `<<` and a mask of ones, each by what it does to bit `k`.
use Prim.Native.Nat.{
  ℕ, zero, suc, ◌+◌, ◌-◌, ◌*◌, ◌/◌, ◌%◌, ◌^◌, ◌≤◌, ◌<◌, max, bit_or, digits, bit_or-bitwise,
}
use mathlib.Core.Path.{◌≡◌, refl, sym, ap, ◌∙◌}
use mathlib.Core.Bool.{false, ◌&&◌, ◌||◌}
use native.Mathlib.Omega.{arith}
use native.Mathlib.Nat.{pow-succ', div-div-eq-div-mul, mod-eq-sub-mul-div, mul-div-le}
use perf_event_tests.Base.Tests.{has_bit, ◌==◌, ltb, leb}

abbrev or_digits : ℕ → ℕ → ℕ → ℕ
or_digits n a b = digits (λ b. b) max n a b

-- More digits to go than the first number has make no difference.
or_digits_fuel : (n m a b : ℕ) → a ≤ n → a ≤ m → or_digits n a b ≡ or_digits m a b
or_digits_fuel zero zero a b p q = refl
or_digits_fuel zero (suc m) zero b p q = refl
or_digits_fuel zero (suc m) (suc a) b p q = absurd (omega arith)
or_digits_fuel (suc n) zero zero b p q = refl
or_digits_fuel (suc n) zero (suc a) b p q = absurd (omega arith)
or_digits_fuel (suc n) (suc m) zero b p q = refl
or_digits_fuel (suc n) (suc m) (suc a) b p q =
    omega (arith, or_digits_fuel n m (suc a / 2) (b / 2) (omega arith) (omega arith))

zero-bit_or : (b : ℕ) → bit_or 0 b ≡ b
zero-bit_or b = bit_or-bitwise 0 b

bit_or_step : (a b : ℕ) → bit_or a b ≡ bit_or (a / 2) (b / 2) * 2 + max (a % 2) (b % 2)
bit_or_step zero b = omega (arith, zero-bit_or b, zero-bit_or (b / 2))
bit_or_step (suc a) b = omega (
  arith,
  bit_or-bitwise (suc a) b,
  bit_or-bitwise (suc a / 2) (b / 2),
  or_digits_fuel a (suc a / 2) (suc a / 2) (b / 2) (omega arith) (omega arith),
)

pub has_bit-suc : (x k : ℕ) → has_bit x (suc k) ≡ has_bit (x / 2) k
has_bit-suc x k =
    ap (λ (n : ℕ). n % 2 == 1)
      (ap (λ (n : ℕ). x / n) (pow-succ' 2 k) ∙ sym (div-div-eq-div-mul x 2 (2 ^ k)))

pub has_bit-zero : (x : ℕ) → has_bit x 0 ≡ (x % 2 == 1)
has_bit-zero x = ap (λ (n : ℕ). n % 2 == 1) (omega arith)

pub has_bit-bit_or : (a b k : ℕ) → has_bit (bit_or a b) k ≡ (has_bit a k || has_bit b k)
has_bit-bit_or a b zero =
    rw (has_bit-zero (bit_or a b), has_bit-zero a, has_bit-zero b) (ground (arith, bit_or_step a b))
has_bit-bit_or a b (suc k) =
    let half : bit_or a b / 2 ≡ bit_or (a / 2) (b / 2) = omega (arith, bit_or_step a b) in
    rw (has_bit-suc (bit_or a b) k, has_bit-suc a k, has_bit-suc b k, half)
      (has_bit-bit_or (a / 2) (b / 2) k)

pub has_bit-none : (k : ℕ) → has_bit 0 k ≡ false
has_bit-none zero = refl
has_bit-none (suc k) = has_bit-suc 0 k ∙ has_bit-none k

pub pow_pos : (n : ℕ) → 0 < 2 ^ n
pow_pos zero = omega arith
pow_pos (suc n) = omega (arith, pow_pos n, pow-succ' 2 n)

-- `((1 << n) - 1) << s`.
pub has_bit-mask : (n s k : ℕ) → has_bit ((2 ^ n - 1) * 2 ^ s) k ≡ (leb s k && ltb k (s + n))
has_bit-mask zero zero k = ap (λ (x : ℕ). has_bit x k) (omega arith) ∙ has_bit-none k ∙ ground arith
has_bit-mask (suc n) zero zero =
    has_bit-zero ((2 ^ suc n - 1) * 2 ^ 0) ∙ ground (arith, pow-succ' 2 n, pow_pos n)
has_bit-mask (suc n) zero (suc k) =
    let half : (2 ^ suc n - 1) * 2 ^ 0 / 2 ≡ (2 ^ n - 1) * 2 ^ 0 =
      omega (arith, pow-succ' 2 n, pow_pos n) in
    rw (has_bit-suc ((2 ^ suc n - 1) * 2 ^ 0) k, half) (has_bit-mask n zero k ∙ ground arith)
has_bit-mask n (suc s) zero =
    has_bit-zero ((2 ^ n - 1) * 2 ^ suc s)
    ∙ ground (arith, ap (λ (t : ℕ). (2 ^ n - 1) * t) (pow-succ' 2 s))
has_bit-mask n (suc s) (suc k) =
    let half : (2 ^ n - 1) * 2 ^ suc s / 2 ≡ (2 ^ n - 1) * 2 ^ s =
      omega (arith, ap (λ (t : ℕ). (2 ^ n - 1) * t) (pow-succ' 2 s)) in
    rw (has_bit-suc ((2 ^ n - 1) * 2 ^ suc s) k, half) (has_bit-mask n s k ∙ ground arith)

-- `b << i`, for a single bit.
pub has_bit-shifted : (b i k : ℕ) → b < 2 → has_bit (b * 2 ^ i) k ≡ (i == k && b == 1)
has_bit-shifted b zero zero h = has_bit-zero (b * 2 ^ 0) ∙ ground arith
has_bit-shifted b zero (suc k) h =
    let half : b * 2 ^ 0 / 2 ≡ 0 = omega arith in
    rw (has_bit-suc (b * 2 ^ 0) k, half, has_bit-none k) (ground arith)
has_bit-shifted b (suc i) zero h =
    has_bit-zero (b * 2 ^ suc i) ∙ ground (arith, ap (λ (t : ℕ). b * t) (pow-succ' 2 i))
has_bit-shifted b (suc i) (suc k) h =
    let half : b * 2 ^ suc i / 2 ≡ b * 2 ^ i =
      omega (arith, ap (λ (t : ℕ). b * t) (pow-succ' 2 i)) in
    rw (has_bit-suc (b * 2 ^ suc i) k, half) (has_bit-shifted b i k h ∙ ground arith)

-- A remainder by an even number, digit by digit.
mod_digits : (x m : ℕ) → (x % (2 * m) / 2 ≡ x / 2 % m) × (x % (2 * m) % 2 ≡ x % 2)
mod_digits x m =
    let q : x / 2 / m ≡ x / (2 * m) = div-div-eq-div-mul x 2 m in
    omega (
      arith,
      mod-eq-sub-mul-div x (2 * m),
      mod-eq-sub-mul-div (x / 2) m,
      ap (λ (t : ℕ). m * t) q,
      mul-div-le x (2 * m),
      mul-div-le (x / 2) m,
    )

-- What a word of `w` bits keeps.
pub has_bit-mod : (x w k : ℕ) → has_bit (x % 2 ^ w) k ≡ (ltb k w && has_bit x k)
has_bit-mod x zero k = ap (λ (n : ℕ). has_bit n k) (omega arith) ∙ has_bit-none k ∙ ground arith
has_bit-mod x (suc w) zero =
    let low : x % 2 ^ suc w % 2 ≡ x % 2 =
      ap (λ (t : ℕ). x % t % 2) (pow-succ' 2 w) ∙ (mod_digits x (2 ^ w)).1 in
    rw (has_bit-zero (x % 2 ^ suc w), has_bit-zero x, low) (ground arith)
has_bit-mod x (suc w) (suc k) =
    let half : x % 2 ^ suc w / 2 ≡ x / 2 % 2 ^ w =
      ap (λ (t : ℕ). x % t / 2) (pow-succ' 2 w) ∙ (mod_digits x (2 ^ w)).0 in
    rw (has_bit-suc (x % 2 ^ suc w) k, half, has_bit-suc x k)
      (has_bit-mod (x / 2) w k ∙ ground arith)

-- Two words of `n` bits that agree in each are the same.
pub eq_of_bits :
    (n a b : ℕ) → a < 2 ^ n → b < 2 ^ n → ((k : ℕ) → k < n → has_bit a k ≡ has_bit b k) → a ≡ b
eq_of_bits zero a b ha hb h = omega arith
eq_of_bits (suc n) a b ha hb h =
    let low : (a % 2 == 1) ≡ (b % 2 == 1) =
      sym (has_bit-zero a) ∙ h 0 (omega arith) ∙ has_bit-zero b in
    let high : a / 2 ≡ b / 2 =
      eq_of_bits n (a / 2) (b / 2) (omega (arith, pow-succ' 2 n)) (omega (arith, pow-succ' 2 n))
        (λ k lt. sym (has_bit-suc a k) ∙ h (suc k) (omega arith) ∙ has_bit-suc b k) in
    ground (arith, low, high)

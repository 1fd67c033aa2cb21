-- ===== src/Sysfs/Format/RoundTrip.antt =====
-- Format strings as the kernel's documentation has them, and the mask that each stands for.
use Prim.Native.Nat.{bit_or}
use perf_event_tests.Base.{
  ℕ, zero, suc, ◌+◌, ◌-◌, ◌*◌, ◌/◌, ◌%◌, ◌^◌, ◌<◌, ◌≤◌, ◌≡◌, refl, sym, ap, ◌∙◌, inl, inr, Bool,
  true, false, ◌&&◌, ◌||◌, some, List, [], ◌∷◌, ◌++◌, append_assoc, ◌==◌, ltb, leb, if◌then◌else◌,
  has_bit, length, length-append, arith, Bool-cases,
}
use perf_event_tests.Base.Text.{is_digit}
use perf_event_tests.Base.Bits.{has_bit-bit_or, has_bit-mask, has_bit-mod, has_bit-none}
use perf_event_tests.Sysfs.Chars.{up_to-word, Avoids}
use perf_event_tests.Sysfs.Format.{
  Field, field_of, stopped, ends_number, scan_number, read, first_number, add_bits, next, parsed,
  ranges, ends_name, after_name, parse_format,
}

-- "%d" of a number below 100.
abbrev pub decimal : ℕ → List ℕ
decimal n = if ltb n 10 then (b'0' + n) ∷ [] else (b'0' + n / 10) ∷ ((b'0' + n % 10) ∷ [])

digit-scan_number :
    (a d : ℕ) (s : List ℕ)
    → a < 100
    → d < 10
    → scan_number a ((b'0' + d) ∷ s) ≡ scan_number (a * 10 + d) s
unfolding scan_number
digit-scan_number a d s ha hd =
    let going : ends_number (b'0' + d) ≡ false = ground arith in
    let digit : is_digit (b'0' + d) ≡ true = ground arith in
    let sum : (a * 10 + (b'0' + d - b'0')) % 2 ^ 32 ≡ a * 10 + d = omega arith in
    rw (scan_number, going, digit, sum)

stop-scan_number :
    (n c : ℕ) (s : List ℕ) → ends_number c ≡ true → scan_number n (c ∷ s) ≡ stopped n c s
unfolding scan_number
stop-scan_number n c s h = rw (scan_number, h)

pub decimal-scan_number :
    (n c : ℕ) (s : List ℕ)
    → n < 100
    → ends_number c ≡ true
    → scan_number 0 (decimal n ++ c ∷ s) ≡ stopped n c s
decimal-scan_number n c s h stop = elim (Bool-cases (ltb n 10)) [
  | inl one ↦
      let e : ◌≡◌ {A = ℕ} (0 * 10 + n) n = omega arith in
      rw one (
        digit-scan_number 0 n (c ∷ s) (omega arith) (ground arith)
        ∙ ap (λ k. scan_number k (c ∷ s)) e
        ∙ stop-scan_number n c s stop)
  | inr two ↦
      let e : (0 * 10 + n / 10) * 10 + n % 10 ≡ n = omega arith in
      rw two (
        digit-scan_number 0 (n / 10) ((b'0' + n % 10) ∷ (c ∷ s)) (omega arith) (omega arith)
        ∙ digit-scan_number (0 * 10 + n / 10) (n % 10) (c ∷ s) (omega arith) (omega arith)
        ∙ ap (λ k. scan_number k (c ∷ s)) e
        ∙ stop-scan_number n c s stop)
]

-- "44", or "6-10".
pub data Range : Type 0 where
  bit : ℕ → Range
  span : (low high : ℕ) → Range

abbrev pub low : Range → ℕ
low (bit k) = k
low (span l h) = l

abbrev pub width : Range → ℕ
width (bit k) = 1
width (span l h) = h - l + 1

abbrev pub RangeFits : Range → Type 0
RangeFits (bit k) = k < 64
RangeFits (span l h) = (l ≤ h) × (h < 64)

abbrev pub covers : Range → ℕ → Bool
covers (bit k) i = i == k
covers (span l h) i = leb l i && leb i h

abbrev pub range_text : Range → List ℕ
range_text (bit k) = decimal k
range_text (span l h) = decimal l ++ b'-' ∷ decimal h

abbrev pub ends_range : ℕ → Bool
ends_range c = (c == 0) || (c == b',')

range-read :
    (r : Range) (c : ℕ) (s : List ℕ)
    → RangeFits r
    → ends_range c ≡ true
    → first_number (scan_number 0 (range_text r ++ c ∷ s)) ≡ read (low r) (width r) c s
range-read (bit k) c s fits stop = rw (decimal-scan_number k c s (omega arith) (ground arith), stop)
range-read (span l h) c s fits stop =
    let bits : (h + 2 ^ 32 - l + 1) % 2 ^ 32 ≡ h - l + 1 = omega arith in
    rw (append_assoc (decimal l) (b'-' ∷ decimal h) (c ∷ s)) (
      rw (decimal-scan_number l b'-' (decimal h ++ c ∷ s) (omega arith) refl)
        (rw (decimal-scan_number h c s (omega arith) (ground arith), bits)))

covers-bounds :
    (r : Range) (k : ℕ) → RangeFits r → (leb (low r) k && ltb k (low r + width r)) ≡ covers r k
covers-bounds (bit j) k fits = ground arith
covers-bounds (span l h) k fits = ground arith

ends-fit : (r : Range) → RangeFits r → (low r + width r ≤ 64) × (0 < width r)
ends-fit (bit j) fits = omega arith
ends-fit (span l h) fits = omega arith

-- One range adds its bits to the mask.
range-add_bits :
    (mask : ℕ) (r : Range)
    → RangeFits r
    → (mask' : ℕ) × (add_bits mask (low r) (width r) ≡ some mask')
      × ((k : ℕ) → has_bit mask' k ≡ (has_bit mask k || covers r k))
range-add_bits mask r fits = elim (Bool-cases (width r == 64)) [
  | inl all ↦
      let full : low r ≡ 0 = ground (arith, ends-fit r fits) in
      (
        bit_or mask (2 ^ 64 - 1),
        rw all,
        λ k.
            has_bit-bit_or mask (2 ^ 64 - 1) k
            ∙ ap (λ b. has_bit mask k || b)
                (has_bit-mask 64 0 k ∙ ground (arith, all, full, covers-bounds r k fits)),
      )
  | inr part ↦ (
    bit_or mask ((2 ^ width r - 1) * 2 ^ low r % 2 ^ 64),
    let narrow : ltb (width r) 64 ≡ true = ground (arith, part, ends-fit r fits) in
        let inside : ltb (low r) 64 ≡ true = ground (arith, ends-fit r fits) in
        rw (part, narrow, inside),
    λ k.
        has_bit-bit_or mask ((2 ^ width r - 1) * 2 ^ low r % 2 ^ 64) k
        ∙ ap (λ b. has_bit mask k || b)
            (has_bit-mod ((2 ^ width r - 1) * 2 ^ low r) 64 k
              ∙ ap (λ b. ltb k 64 && b) (has_bit-mask (width r) (low r) k)
              ∙ ground (arith, covers-bounds r k fits, ends-fit r fits)),
  )
]

abbrev pub AllFit : List Range → Type 0
AllFit [] = Unit {0}
AllFit (r ∷ rs) = RangeFits r × AllFit rs

abbrev pub any_covers : List Range → ℕ → Bool
any_covers [] k = false
any_covers (r ∷ rs) k = covers r k || any_covers rs k

-- One range at least, and commas between.
abbrev pub ranges_text : Range → List Range → List ℕ
ranges_text r [] = range_text r
ranges_text r (q ∷ rs) = range_text r ++ b',' ∷ ranges_text q rs

ranges-read :
    (field : Field) (fuel mask : ℕ) (r : Range) (rs : List Range) (rest : List ℕ)
    → length rs < fuel
    → AllFit (r ∷ rs)
    → (mask' : ℕ) × (ranges fuel field mask (ranges_text r rs ++ 0 ∷ rest) ≡ parsed field mask')
      × ((k : ℕ) → has_bit mask' k ≡ (has_bit mask k || any_covers (r ∷ rs) k))
unfolding ranges
ranges-read field zero mask r rs rest enough fit = absurd (omega arith)
ranges-read field (suc fuel) mask r [] rest enough fit =
    let (mask', added, bits) = range-add_bits mask r fit.0 in
    (mask', rw (ranges, range-read r 0 rest fit.0 refl, next, added), λ k. bits k ∙ ground arith)
ranges-read field (suc fuel) mask r (q ∷ rs) rest enough fit =
    let (mask1, added, bits) = range-add_bits mask r fit.0 in
    let (mask2, others, more) = ranges-read field fuel mask1 q rs rest (omega arith) fit.1 in
    (
      mask2,
      rw (append_assoc (range_text r) (b',' ∷ ranges_text q rs) (0 ∷ rest)) (
          rw (
            ranges,
            range-read r b',' (ranges_text q rs ++ 0 ∷ rest) fit.0 refl,
            next,
            added,
            others,
          )),
      λ k. more k ∙ ground (arith, bits k),
    )

length-ranges_text :
    (r : Range) (rs : List Range) (rest : List ℕ)
    → length rs < length (ranges_text r rs ++ 0 ∷ rest)
length-ranges_text r [] rest = omega (arith, length-append {0} (range_text r) (0 ∷ rest))
length-ranges_text r (q ∷ rs) rest =
    rw (append_assoc (range_text r) (b',' ∷ ranges_text q rs) (0 ∷ rest)) (
      omega (
        arith,
        length-append {0} (range_text r) (b',' ∷ (ranges_text q rs ++ 0 ∷ rest)),
        length-ranges_text q rs rest,
      ))

-- A format "name:ranges" whose ranges lie inside a word is parsed: the field is the one of the name,
-- and bit `k` of the mask is set exactly when one of the ranges holds `k`.
pub parse_format_lem :
    (name : List ℕ) (r : Range) (rs : List Range) (rest : List ℕ)
    → Avoids ends_name name
    → AllFit (r ∷ rs)
    → (mask : ℕ) × (parse_format (name ++ b':' ∷ (ranges_text r rs ++ 0 ∷ rest))
        ≡ parsed (field_of name) mask)
      × ((k : ℕ) → has_bit mask k ≡ any_covers (r ∷ rs) k)
unfolding parse_format
parse_format_lem name r rs rest avoids fit =
    let text = ranges_text r rs ++ 0 ∷ rest in
    let enough : length rs < suc (length text) = omega (arith, length-ranges_text r rs rest) in
    let (mask, done, bits) =
      ranges-read (field_of name) (suc (length text)) 0 r rs rest enough fit in
    (
      mask,
      ap after_name (up_to-word ends_name name b':' text avoids refl) ∙ done,
      λ k. bits k ∙ ap (λ b. b || any_covers (r ∷ rs) k) (has_bit-none k),
    )

-- Where no colon follows the name, the end of the string is passed as if it were one: what stands
-- behind it in the buffer is read for the ranges.
pub parse_format_overrun :
    (name rest : List ℕ)
    → Avoids ends_name name
    → parse_format (name ++ 0 ∷ rest) ≡ parse_format (name ++ b':' ∷ rest)
unfolding parse_format
parse_format_overrun name rest avoids =
    ap after_name (up_to-word ends_name name 0 rest avoids refl)
    ∙ sym (ap after_name (up_to-word ends_name name b':' rest avoids refl))

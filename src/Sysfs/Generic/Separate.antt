-- ===== src/Sysfs/Generic/Separate.antt =====
-- `separate_bits` scatters the low bits of a value over the set bits of a mask.
use Prim.Native.Nat.{bit_or}
use perf_event_tests.Base.{
  ℕ, zero, suc, ◌+◌, ◌*◌, ◌/◌, ◌%◌, ◌^◌, ◌<◌, ◌≡◌, ◌≢◌, refl, sym, ap, ◌∙◌, inl, inr, Bool, true,
  false, ◌&&◌, ◌||◌, ◌==◌, ltb, leb, if◌then◌else◌, has_bit, arith, Bool-cases, ==→eq, lt→ltb,
}
use perf_event_tests.Base.Bits.{has_bit-bit_or, has_bit-shifted, has_bit-none, eq_of_bits}
use perf_event_tests.Sysfs.Generic.{separate, separate_bits}

-- The number of bits of the mask below bit `k`.
abbrev pub rank : (mask k : ℕ) → ℕ
rank mask zero = 0
rank mask (suc k) = if has_bit mask k then suc (rank mask k) else rank mask k

-- Bit `k` of a value that is scattered over the mask.
abbrev pub scattered : (value mask k : ℕ) → Bool
scattered value mask k = has_bit mask k && has_bit value (rank mask k)

-- The result after the round for bit `i`.
abbrev placed : (i value mask result : ℕ) → ℕ
placed i value mask result =
    if has_bit mask i then bit_or result (value / 2 ^ rank mask i % 2 * 2 ^ i) else result

at_same :
    (i value mask k : ℕ)
    → (i == k && has_bit value (rank mask i)) ≡ (i == k && has_bit value (rank mask k))
at_same i value mask k = elim (Bool-cases (i == k)) [
  | inl e ↦ ap (λ j. i == k && has_bit value (rank mask j)) (==→eq i k e)
  | inr e ↦ rw e
]

same_mask : (i mask k : ℕ) → (i == k && has_bit mask i) ≡ (i == k && has_bit mask k)
same_mask i mask k = elim (Bool-cases (i == k)) [
  | inl e ↦ ap (λ j. i == k && has_bit mask j) (==→eq i k e)
  | inr e ↦ rw e
]

has_bit-placed :
    (i value mask result k : ℕ)
    → has_bit (placed i value mask result) k
      ≡ (has_bit result k || ((i == k) && scattered value mask k))
has_bit-placed i value mask result k = elim (Bool-cases (has_bit mask i)) [
  | inl set ↦
      let bit = value / 2 ^ rank mask i % 2 in
      ap (λ b. has_bit (if b then bit_or result (bit * 2 ^ i) else result) k) set
      ∙ has_bit-bit_or result (bit * 2 ^ i) k
      ∙ ap (λ b. has_bit result k || b) (has_bit-shifted bit i k (omega arith))
      ∙ ground (arith, at_same i value mask k, same_mask i mask k)
  | inr clear ↦
      ap
        (λ b. has_bit (if b then bit_or result (value / 2 ^ rank mask i % 2 * 2 ^ i) else result) k)
        clear
      ∙ ground (arith, same_mask i mask k)
]

-- The rounds from bit `i` on set the bits of their range.
separate-bits :
    (n i value mask result k : ℕ)
    → has_bit (separate n i (rank mask i) value mask result) k
      ≡ (has_bit result k || ((leb i k && ltb k (i + n)) && scattered value mask k))
unfolding separate
separate-bits zero i value mask result k = ground arith
separate-bits (suc n) i value mask result k =
    separate-bits n (suc i) value mask (placed i value mask result) k
    ∙ ap (λ b. b || ((leb (suc i) k && ltb k (suc i + n)) && scattered value mask k))
        (has_bit-placed i value mask result k)
    ∙ merge (has_bit result k) (scattered value mask k)
  where
    merge :
        (r b : Bool)
        → ((r || ((i == k) && b)) || ((leb (suc i) k && ltb k (suc i + n)) && b))
          ≡ (r || ((leb i k && ltb k (i + suc n)) && b))
    merge true b = refl
    merge false true = ground arith
    merge false false = ground arith

-- Bit `k` of the result, for a mask of 64 bits: it is the bit of the value whose number is the number
-- of bits of the mask below `k` if the mask has bit `k`, and clear if not.
pub separate_bits-scattered :
    (value mask k : ℕ) → has_bit (separate_bits value mask) k ≡ (ltb k 64 && scattered value mask k)
unfolding separate_bits
separate_bits-scattered value mask k =
    separate-bits 64 0 value mask 0 k
    ∙ ap (λ b. b || ((leb 0 k && ltb k (0 + 64)) && scattered value mask k)) (has_bit-none k)
    ∙ ground arith

-- Every bit of the value has its place in the mask.
place_of :
    (n mask j : ℕ)
    → j < rank mask n
    → (k : ℕ) × (k < n) × (has_bit mask k ≡ true) × (rank mask k ≡ j)
place_of zero mask j h = absurd (omega arith)
place_of (suc n) mask j h = elim (Bool-cases (ltb j (rank mask n))) [
  | inl below ↦ let (k, lt, set, r) = place_of n mask j (ground arith) in (k, omega arith, set, r)
  | inr last ↦ elim (Bool-cases (has_bit mask n)) [
    | inl set ↦ (n, omega arith, set, ground arith)
    | inr clear ↦ absurd (ground arith)
  ]
]

separate_bits-injective :
    (value value' mask : ℕ)
    → value < 2 ^ rank mask 64
    → value' < 2 ^ rank mask 64
    → separate_bits value mask ≡ separate_bits value' mask
    → value ≡ value'
separate_bits-injective value value' mask fits fits' same =
    eq_of_bits (rank mask 64) value value' fits fits' λ j lt.
      let (k, inside, set, r) = place_of 64 mask j lt in
      let word : ltb k 64 ≡ true = lt→ltb k 64 inside in
      let here : (v : ℕ) → has_bit (separate_bits v mask) k ≡ has_bit v j =
        λ v. separate_bits-scattered v mask k ∙ rw (word, set, r) in
      sym (here value) ∙ ap (λ (w : ℕ). has_bit w k) same ∙ here value'

-- No bit is lost: two values that fit into the number of bits that the mask has, and that differ, are
-- separated to words that differ.
pub separate_bits-ne :
    (value value' mask : ℕ)
    → value < 2 ^ rank mask 64
    → value' < 2 ^ rank mask 64
    → value ≢ value'
    → separate_bits value mask ≢ separate_bits value' mask
separate_bits-ne value value' mask fits fits' differ same =
    differ (separate_bits-injective value value' mask fits fits' same)

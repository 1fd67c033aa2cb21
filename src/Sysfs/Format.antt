-- ===== src/Sysfs/Format.antt =====
-- tools/event_parser.c, `parse_format`: which bits of which config word a field of an event fills.
use Prim.Native.Nat.{bit_or}
use perf_event_tests.Base.{
  ℕ, zero, suc, ◌+◌, ◌-◌, ◌*◌, ◌%◌, ◌^◌, Bool, true, false, ◌&&◌, ◌||◌, Option, none, some, List,
  [], ◌∷◌, ◌==◌, ltb, if◌then◌else◌, length,
}
use perf_event_tests.Base.Text.{is_digit}
use perf_event_tests.Sysfs.Chars.{codes, same, up_to}
pub mod RoundTrip
pub mod Ends

-- FIELD_UNKNOWN, FIELD_CONFIG, FIELD_CONFIG1 and FIELD_CONFIG2.
pub data Field : Type 0 where
  unknown config config1 config2 : Field

abbrev pub field_of : List ℕ → Field
field_of name =
    if same name (codes "config")
    then config
    else if same name (codes "config1")
    then config1
    else if same name (codes "config2")
    then config2
    else unknown

-- What a digit loop meets: the end of the buffer, a character that it refuses, or one that ends it.
pub data Scanned : Type 0 where
  overrun : Scanned
  unknown_char : (c : ℕ) → Scanned
  stopped : (n c : ℕ) (rest : List ℕ) → Scanned

abbrev pub ends_number : ℕ → Bool
ends_number c = (c == 0) || ((c == b'-') || (c == b','))

-- `firstnum` and `secondnum` are ints: the pattern of their low 32 bits is kept.
unfoldable pub scan_number : ℕ → List ℕ → Scanned
scan_number n [] = overrun
scan_number n (c ∷ s) = elim (ends_number c) [
  | true ↦ stopped n c s
  | false ↦ elim (is_digit c) [
    | true ↦ scan_number ((n * 10 + (c - b'0')) % 2 ^ 32) s
    | false ↦ unknown_char c
  ]
]

-- One round of the loop over the ranges: the first bit, the number of bits, and what ended it.
pub data Round : Type 0 where
  undefined : Round
  bad : (c : ℕ) → Round
  read : (shift bits c : ℕ) (rest : List ℕ) → Round

abbrev pub second_number : ℕ → Scanned → Round
second_number first overrun = undefined
second_number first (unknown_char c) = bad c
second_number first (stopped second c rest) =
    read first ((second + 2 ^ 32 - first + 1) % 2 ^ 32) c rest

abbrev pub first_number : Scanned → Round
first_number overrun = undefined
first_number (unknown_char c) = bad c
first_number (stopped first c rest) =
    if (c == 0) || (c == b',')
    then read first 1 c rest
    else second_number first (scan_number 0 rest)

-- A shift by a negative number, or by the width or more, is undefined.
abbrev pub add_bits : (mask shift bits : ℕ) → Option ℕ
add_bits mask shift bits =
    if bits == 64
    then some (bit_or mask (2 ^ 64 - 1))
    else if ltb bits 64 && ltb shift 64
    then some (bit_or mask ((2 ^ bits - 1) * 2 ^ shift % 2 ^ 64))
    else none

-- The two values that are written, and whether the result is 0 or -1.
pub data Format : Type 0 where
  undefined out_of_fuel : Format
  refused : (field : Field) (mask c : ℕ) → Format
  parsed : (field : Field) (mask : ℕ) → Format

-- What a round does with the mask; `again` is the next one.
abbrev pub next : Field → (mask : ℕ) → Round → (again : ℕ → List ℕ → Format) → Format
next field mask undefined again = Format.undefined
next field mask (bad c) again = refused field mask c
next field mask (read shift bits c rest) again = elim (add_bits mask shift bits) [
  | none ↦ Format.undefined
  | some mask' ↦ elim (c == 0) [ true ↦ parsed field mask' | false ↦ again mask' rest ]
]

unfoldable pub ranges : (fuel : ℕ) → Field → (mask : ℕ) → List ℕ → Format
unfolding scan_number
ranges zero field mask s = Format.out_of_fuel
ranges (suc fuel) field mask s =
    next field mask (first_number (scan_number 0 s)) (ranges fuel field)

abbrev pub ends_name : ℕ → Bool
ends_name c = (c == b':') || (c == 0)

abbrev pub after_name : Option (List ℕ × List ℕ) → Format
after_name none = Format.undefined
after_name (some (name, [])) = Format.undefined
after_name (some (name, c ∷ s)) = ranges (suc (length s)) (field_of name) 0 s

-- `string` is the whole buffer: the loops do not stop at its terminator.
unfoldable pub parse_format : List ℕ → Format
unfolding up_to ranges
parse_format string = after_name (up_to ends_name string)

-- ===== src/Sysfs/Generic.antt =====
-- tools/event_parser.c, `parse_generic`: the config words of an event from its terms.
use Prim.Native.Nat.{bit_or}
use perf_event_tests.Base.{
  ℕ, zero, suc, ◌+◌, ◌-◌, ◌*◌, ◌/◌, ◌%◌, ◌^◌, Bool, true, false, ◌&&◌, ◌||◌, Option, none, some,
  List, [], ◌∷◌, ◌==◌, leb, ltb, if◌then◌else◌, has_bit, length,
}
use perf_event_tests.Base.Text.{is_digit}
use perf_event_tests.Sysfs.Chars.{same, up_to}
use perf_event_tests.Sysfs.Format.{Field, unknown, config, config1, config2}
pub mod Separate
pub mod Update
pub mod RoundTrip
pub mod Ends

-- `struct format_type`. The two strings are NULL until they are set.
pub record FormatType : Type 0 where
  pub name : Option (List ℕ)
  pub value : Option (List ℕ)
  pub field : Field
  pub mask : ℕ

-- The three words that an event sets.
pub record Configs : Type 0 where
  pub config : ℕ
  pub config1 : ℕ
  pub config2 : ℕ

-- `n` rounds of the loop over the bits, from bit `i` on.
unfoldable pub separate : (n i value_bit value mask result : ℕ) → ℕ
separate zero i value_bit value mask result = result
separate (suc n) i value_bit value mask result =
    separate n (suc i) (if has_bit mask i then suc value_bit else value_bit) value mask
      (if has_bit mask i then bit_or result (value / 2 ^ value_bit % 2 * 2 ^ i) else result)

unfoldable pub separate_bits : (value mask : ℕ) → ℕ
unfolding separate
separate_bits value mask = separate 64 0 0 value mask 0

-- A format of an unknown field is passed over.
abbrev pub update : Field → (value mask : ℕ) → Configs → Option Configs
update unknown value mask cs = none
update config value mask cs =
    some (record cs { config = bit_or cs.config (separate_bits value mask) })
update config1 value mask cs =
    some (record cs { config1 = bit_or cs.config1 (separate_bits value mask) })
update config2 value mask cs =
    some (record cs { config2 = bit_or cs.config2 (separate_bits value mask) })

abbrev pub or_else : Option Configs → Option Configs → Option Configs
or_else none next = next
or_else (some cs) next = some cs

-- `none`: `strcmp` is called with a name that is NULL.
unfoldable pub update_configs :
    List FormatType → (field : List ℕ) → (value : ℕ) → Configs → Option Configs
update_configs [] field value cs = some cs
update_configs (f ∷ fs) field value cs =
    let rest = update_configs fs field value cs in
    elim f.name [
      | none ↦ none
      | some name ↦ if same field name then or_else (update f.field value f.mask cs) rest else rest
    ]

-- What a character adds to the value: the first two cases are digits, any other is taken for one of
-- 'A' to 'F'. A `char` is signed, and the value is the pattern of a `long long`.
abbrev pub digit_value : ℕ → ℕ
digit_value c =
    if is_digit c
    then c - b'0'
    else if leb b'a' c && leb c b'f'
    then c - b'a' + 10
    else if ltb c 128
    then (c + 2 ^ 64 - b'A' + 10) % 2 ^ 64
    else (c + 2 ^ 64 - 256 - b'A' + 10) % 2 ^ 64

abbrev pub ends_value : ℕ → Bool
ends_value c = (c == 0) || (c == b',')

unfoldable pub scan_value : (base temp : ℕ) → List ℕ → Option (ℕ × ℕ × List ℕ)
scan_value base temp [] = none
scan_value base temp (c ∷ s) = elim (ends_value c) [
  | true ↦ some (temp, c, s)
  | false ↦ scan_value base ((temp * base + digit_value c) % 2 ^ 64) s
]

-- Behind "0x" the number is hexadecimal.
abbrev pub number : List ℕ → Option (ℕ × ℕ × List ℕ)
number (a ∷ (b ∷ s)) =
    if (a == b'0') && (b == b'x') then scan_value 16 0 s else scan_value 10 0 (a ∷ (b ∷ s))
number s = scan_value 10 0 s

abbrev pub ends_field : ℕ → Bool
ends_field c = (c == 0) || ((c == b'=') || (c == b','))

-- The value behind a name, the character that ends the term, and what follows. A name alone is 1.
abbrev pub value_of : (c : ℕ) → List ℕ → Option (ℕ × ℕ × List ℕ)
value_of c s = if (c == b',') || (c == 0) then some (1, c, s) else number s

-- The name of a term, its value, the character that ends the term, and what follows.
unfoldable pub term : List ℕ → Option (List ℕ × ℕ × ℕ × List ℕ)
unfolding up_to scan_value
term s = elim (up_to ends_field s) [
  | none ↦ none
  | some (field, rest) ↦ elim rest [
    | [] ↦ none
    | c ∷ rest' ↦ elim (value_of c rest') [
      | none ↦ none
      | some (v, d, after) ↦ some (field, v, d, after)
    ]
  ]
]

pub data Generic : Type 0 where
  undefined out_of_fuel : Generic
  configs : Configs → Generic

-- One term; `again` is the next round.
abbrev pub add_term :
    List FormatType
    → Option (List ℕ × ℕ × ℕ × List ℕ)
    → Configs
    → (again : Configs → List ℕ → Generic) → Generic
add_term formats none cs again = undefined
add_term formats (some (field, value, c, rest)) cs again =
    elim (update_configs formats field value cs) [
      | none ↦ undefined
      | some cs' ↦ elim (c == 0) [ true ↦ configs cs' | false ↦ again cs' rest ]
    ]

unfoldable pub terms : (fuel : ℕ) → List FormatType → Configs → List ℕ → Generic
unfolding term update_configs
terms zero formats cs s = out_of_fuel
terms (suc fuel) formats cs s = add_term formats (term s) cs (terms fuel formats)

abbrev pub no_config : Configs
no_config = record { config = 0; config1 = 0; config2 = 0 }

-- `value` is the whole buffer. The messages to `stderr` are left out.
unfoldable pub parse_generic : List FormatType → List ℕ → Generic
unfolding terms
parse_generic formats value = terms (suc (length value)) formats no_config value

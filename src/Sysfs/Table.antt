-- ===== src/Sysfs/Table.antt =====
-- tools/event_parser.c, `init_pmus`: the table of PMUs that is read from sysfs.
use perf_event_tests.Base.{
  ℕ, suc, Bool, true, false, ◌||◌, Option, none, some, List, [], ◌∷◌, ◌++◌, ◌==◌, ltb,
  if◌then◌else◌, length, drop,
}
use perf_event_tests.Base.Text.{is_space, pass_spaces}
use perf_event_tests.Report.Sscanf.{convert, decimal}
use perf_event_tests.Sysfs.Chars.{codes, same, up_to}
use perf_event_tests.Sysfs.Format.{unknown, Format, refused, parsed, parse_format}
use perf_event_tests.Sysfs.Generic.{FormatType, Configs, Generic, configs, no_config, parse_generic}

-- What sysfs holds, in the order of `readdir`. A file that `fopen` refuses has no contents, and a
-- directory that `opendir` refuses no entries.
pub record Entry : Type 0 where
  pub name : List ℕ
  pub contents : Option (List ℕ)

pub record Device : Type 0 where
  pub name : List ℕ
  pub type : Option (List ℕ)
  pub format : Option (List Entry)
  pub events : Option (List Entry)

-- `struct generic_event_type`. The name and the value are NULL until they are set.
pub record GenericEventType : Type 0 where
  pub name : Option (List ℕ)
  pub value : Option (List ℕ)
  pub configs : Configs

-- `struct pmu_type`; the two counts are the lengths of the arrays.
pub record PmuType : Type 0 where
  pub name : List ℕ
  pub type : ℕ
  pub formats : List FormatType
  pub generic_events : List GenericEventType

abbrev pub no_format : FormatType
no_format = record { name = none; value = none; field = unknown; mask = 0 }

abbrev pub no_event : GenericEventType
no_event = record { name = none; value = none; configs = no_config }

-- "." or "..".
abbrev pub is_dots : List ℕ → Bool
is_dots name = same (codes ".") name || same (codes "..") name

-- The characters before the first space.
abbrev pub token : List ℕ → List ℕ
token [] = []
token (c ∷ s) = let rest = token s in if is_space c then [] else c ∷ rest

-- A string and its end are written at the start of the buffer.
abbrev pub put_string : (buffer string : List ℕ) → Option (List ℕ)
put_string buffer string =
    if ltb (length string) (length buffer)
    then some (string ++ 0 ∷ drop (suc (length string)) buffer)
    else none

abbrev pub strdup_of : Option (List ℕ × List ℕ) → Option (List ℕ)
strdup_of none = none
strdup_of (some (s, rest)) = some s

abbrev pub strdup : List ℕ → Option (List ℕ)
strdup buffer = strdup_of (up_to (λ c. c == 0) buffer)

-- `fscanf(fff,"%s",buffer)` and, where it read a word, the copy of it. Where it did not, the buffer
-- keeps what it held, and the value stays NULL.
abbrev pub copied : List ℕ → Option (Option (List ℕ) × List ℕ)
copied buffer = elim (strdup buffer) [ none ↦ none | some s ↦ some (some s, buffer) ]

abbrev pub read_word : (word buffer : List ℕ) → Option (Option (List ℕ) × List ℕ)
read_word [] buffer = some (none, buffer)
read_word (c ∷ word) buffer = elim (put_string buffer (c ∷ word)) [
  | none ↦ none
  | some buffer' ↦ copied buffer'
]

unfoldable pub read_value : (contents buffer : List ℕ) → Option (Option (List ℕ) × List ℕ)
unfolding up_to
read_value contents buffer = read_word (token (pass_spaces contents)) buffer

-- The result of `parse_format` is not looked at.
abbrev pub format_of : (name : List ℕ) → (value : Option (List ℕ)) → Format → Option FormatType
format_of name value Format.undefined = none
format_of name value Format.out_of_fuel = none
format_of name value (refused field mask c) =
    some (record { name = some name; value = value; field = field; mask = mask })
format_of name value (parsed field mask) =
    some (record { name = some name; value = value; field = field; mask = mask })

-- One format file that was opened: the element of the array, and the buffer.
unfoldable pub read_format : (name contents buffer : List ℕ) → Option (FormatType × List ℕ)
unfolding read_value parse_format
read_format name contents buffer = elim (read_value contents buffer) [
  | none ↦ none
  | some (value, buffer') ↦ elim (format_of name value (parse_format buffer')) [
    | none ↦ none
    | some f ↦ some (f, buffer')
  ]
]

abbrev pub prepend {ℓ κ} : {A : Type ℓ} {B : Type κ} → A → Option (List A × B) → Option (List A × B)
prepend x none = none
prepend x (some (xs, b)) = some (x ∷ xs, b)

-- `slots` is the array from `format_num` on. A file that cannot be opened does not move it.
unfoldable pub read_formats :
    List Entry → (slots : List FormatType) → (buffer : List ℕ) → Option (List FormatType × List ℕ)
unfolding read_format
read_formats [] slots buffer = some (slots, buffer)
read_formats (e ∷ es) slots buffer = elim (is_dots e.name) [
  | true ↦ read_formats es slots buffer
  | false ↦ elim slots [
    | [] ↦ none
    | slot ∷ rest ↦ elim e.contents [
      | none ↦ read_formats es (record slot { name = some e.name } ∷ rest) buffer
      | some contents ↦ elim (read_format e.name contents buffer) [
        | none ↦ none
        | some (f, buffer') ↦ prepend f (read_formats es rest buffer')
      ]
    ]
  ]
]

abbrev pub event_of :
    (name : List ℕ) → (value : Option (List ℕ)) → Generic → Option GenericEventType
event_of name value Generic.undefined = none
event_of name value Generic.out_of_fuel = none
event_of name value (configs cs) = some (record { name = some name; value = value; configs = cs })

-- One event. Where its file cannot be opened, the buffer still holds the string of an earlier one.
abbrev pub read_contents : Option (List ℕ) → List ℕ → Option (Option (List ℕ) × List ℕ)
read_contents none buffer = some (none, buffer)
read_contents (some contents) buffer = read_value contents buffer

unfoldable pub read_event :
    List FormatType
    → (name : List ℕ) → Option (List ℕ)
    → (buffer : List ℕ) → Option (GenericEventType × List ℕ)
unfolding read_value parse_generic
read_event formats name contents buffer = elim (read_contents contents buffer) [
  | none ↦ none
  | some (value, buffer') ↦ elim (event_of name value (parse_generic formats buffer')) [
    | none ↦ none
    | some e ↦ some (e, buffer')
  ]
]

-- As many slots are allocated as are filled.
unfoldable pub read_events :
    List FormatType → List Entry → (buffer : List ℕ) → Option (List GenericEventType × List ℕ)
unfolding read_event
read_events formats [] buffer = some ([], buffer)
read_events formats (e ∷ es) buffer = elim (is_dots e.name) [
  | true ↦ read_events formats es buffer
  | false ↦ elim (read_event formats e.name e.contents buffer) [
    | none ↦ none
    | some (event, buffer') ↦ prepend event (read_events formats es buffer')
  ]
]

-- `calloc` for the entries that are counted.
abbrev pub allocate : List Entry → List FormatType
allocate [] = []
allocate (e ∷ es) = let rest = allocate es in if is_dots e.name then rest else no_format ∷ rest

abbrev pub formats_in : Option (List Entry) → List ℕ → Option (List FormatType × List ℕ)
formats_in none buffer = some ([], buffer)
formats_in (some entries) buffer = read_formats entries (allocate entries) buffer

abbrev pub events_in :
    List FormatType → Option (List Entry) → List ℕ → Option (List GenericEventType × List ℕ)
events_in formats none buffer = some ([], buffer)
events_in formats (some entries) buffer = read_events formats entries buffer

-- `fscanf(fff,"%d",&type)`; the type stays 0 where no number is read.
abbrev pub type_of : Option (List ℕ) → ℕ
type_of none = 0
type_of (some contents) = elim (convert (decimal 32) contents) [ none ↦ 0 | some (n, rest) ↦ n ]

-- One PMU, with the two buffers.
unfoldable pub read_pmu :
    Device → (format_value event_value : List ℕ) → Option (PmuType × List ℕ × List ℕ)
unfolding read_formats read_events convert
read_pmu d format_value event_value = elim (formats_in d.format format_value) [
  | none ↦ none
  | some (fs, format_value') ↦ elim (events_in fs d.events event_value) [
    | none ↦ none
    | some (es, event_value') ↦ some (
      record { name = d.name; type = type_of d.type; formats = fs; generic_events = es },
      format_value',
      event_value',
    )
  ]
]

abbrev pub prepend_pmu : PmuType → Option (List PmuType) → Option (List PmuType)
prepend_pmu p none = none
prepend_pmu p (some ps) = some (p ∷ ps)

unfoldable pub read_pmus : List Device → (format_value event_value : List ℕ) → Option (List PmuType)
unfolding read_pmu
read_pmus [] format_value event_value = some []
read_pmus (d ∷ ds) format_value event_value = elim (is_dots d.name) [
  | true ↦ read_pmus ds format_value event_value
  | false ↦ elim (read_pmu d format_value event_value) [
    | none ↦ none
    | some (p, format_value', event_value') ↦
        prepend_pmu p (read_pmus ds format_value' event_value')
  ]
]

-- The table: empty where the directory cannot be opened. `none` is undefined behaviour, and the two
-- buffers hold whatever the stack held.
unfoldable pub init_pmus :
    Option (List Device) → (format_value event_value : List ℕ) → Option (List PmuType)
unfolding read_pmus
init_pmus none format_value event_value = some []
init_pmus (some devices) format_value event_value = read_pmus devices format_value event_value

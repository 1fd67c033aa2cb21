-- ===== src/Sysfs/Dump.antt =====
-- tools/event_parser.c, `dump_pmus` and `main`: what is printed.
use perf_event_tests.Base.{ℕ, Option, none, some, List, [], ◌∷◌, ◌++◌, String}
use perf_event_tests.Sysfs.Chars.{codes}
use perf_event_tests.Sysfs.Format.{Field, unknown, config, config1, config2}
use perf_event_tests.Sysfs.Generic.{FormatType}
use perf_event_tests.Sysfs.Table.{Device, GenericEventType, PmuType, init_pmus}

-- What `printf` is given for a conversion.
pub data Arg : Type 0 where
  text : List ℕ → Arg
  number : ℕ → Arg

pub data Line : Type 0 where
  printed : (format : String) → List Arg → Line

abbrev pub field_to_name : Field → List ℕ
field_to_name unknown = codes "unknown"
field_to_name config = codes "config"
field_to_name config1 = codes "config1"
field_to_name config2 = codes "config2"

-- The two strings of an element; "%s" of NULL is undefined.
abbrev pub named : Option (List ℕ) → Option (List ℕ) → List Line → Option (List Line)
named none value more = none
named (some name) none more = none
named (some name) (some value) more =
    some (printed "\t\t%s : " (text name ∷ []) ∷ (printed "%s\n" (text value ∷ []) ∷ more))

abbrev pub dump_format : FormatType → Option (List Line)
dump_format f = named f.name f.value (
    printed "\t\t\tfield: %s mask: %llx\n" (text (field_to_name f.field) ∷ (number f.mask ∷ []))
    ∷ [])

abbrev pub dump_event : GenericEventType → Option (List Line)
dump_event e = named e.name e.value (
    printed "\t\t\tconfig: %llx  config1: %llx\n"
      (number e.configs.config ∷ (number e.configs.config1 ∷ []))
    ∷ [])

abbrev pub append_lines : Option (List Line) → Option (List Line) → Option (List Line)
append_lines none b = none
append_lines (some a) none = none
append_lines (some a) (some b) = some (a ++ b)

unfoldable pub dump_each : {A : Type 0} → (A → Option (List Line)) → List A → Option (List Line)
dump_each dump [] = some []
dump_each dump (x ∷ xs) = append_lines (dump x) (dump_each dump xs)

-- The headings stand only where there is something below them.
abbrev pub dump_list :
    {A : Type 0} → (heading : String) → (A → Option (List Line)) → List A → Option (List Line)
dump_list heading dump [] = some []
dump_list heading dump (x ∷ xs) =
    append_lines (some (printed heading [] ∷ [])) (dump_each dump (x ∷ xs))

unfoldable pub dump_pmu : PmuType → Option (List Line)
unfolding dump_each
dump_pmu p =
    append_lines
      (some (printed "%s\n" (text p.name ∷ []) ∷ (printed "\tType=%d\n" (number p.type ∷ []) ∷ [])))
      (append_lines (dump_list "\tFormats:\n" dump_format p.formats)
        (dump_list "\tGeneric Events:\n" dump_event p.generic_events))

unfoldable pub dump_pmus : List PmuType → Option (List Line)
unfolding dump_pmu
dump_pmus ps = append_lines (some (printed "\nDumping PMUs\n\n" [] ∷ [])) (dump_each dump_pmu ps)

-- The result of `init_pmus` is not looked at.
unfoldable pub main :
    Option (List Device) → (format_value event_value : List ℕ) → Option (List Line)
unfolding init_pmus dump_pmus
main devices format_value event_value = elim (init_pmus devices format_value event_value) [
  | none ↦ none
  | some ps ↦ dump_pmus ps
]

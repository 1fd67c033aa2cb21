-- ===== src/Sysfs/Tests.antt =====
-- tools/event_parser.c on a PMU that has two formats and two events.
use perf_event_tests.Base.{
  ℕ, zero, suc, ◌≡◌, ◌≢◌, refl, Bool, true, not, ◌&&◌, none, some, List, [], ◌∷◌, ◌++◌, has_bit,
  arith,
}
use perf_event_tests.Sysfs.Chars.{codes, Avoids}
use perf_event_tests.Sysfs.Format.{Field, Format, parse_format, parsed, config, config1, ends_name}
use perf_event_tests.Sysfs.Format.RoundTrip.{
  bit, span, any_covers, parse_format_lem, parse_format_overrun,
}
use perf_event_tests.Sysfs.Format.Ends.{parse_format-ends}
use perf_event_tests.Sysfs.Generic.{
  FormatType, Configs, Generic, configs, separate_bits, parse_generic, ends_field,
}
use perf_event_tests.Sysfs.Generic.Separate.{scattered, separate_bits-scattered, separate_bits-ne}
use perf_event_tests.Sysfs.Generic.Ends.{parse_generic-ends}
use perf_event_tests.Sysfs.Generic.Update.{word}
use perf_event_tests.Sysfs.Generic.RoundTrip.{
  TermText, flag, hexadecimal, term_text, any_sets, parse_generic_lem,
}
use perf_event_tests.Sysfs.Table.{PmuType, init_pmus}
use perf_event_tests.Sysfs.Words.{ends_word}
use perf_event_tests.Sysfs.Described.{
  FormatFile, EventFile, FormatFits, EventFits, Directory, devices_of, PmusAre,
}
use perf_event_tests.Sysfs.Whole.{init_pmus_lem}

two_ranges : parse_format (codes "config1:1,6-10,44" ++ 0 ∷ []) ≡ parsed config1 0x1000000007c2
unfolding parse_format
two_ranges = refl

-- The bytes behind the end are read: here ":8-15" stood in the buffer before.
read_behind : parse_format (codes "config" ++ 0 ∷ (codes "8-15" ++ 0 ∷ [])) ≡ parsed config 0xff00
unfolding parse_format
read_behind = refl

abbrev event_format : FormatType
event_format = record {
  name = some (codes "event");
  value = none;
  field = config;
  mask = 0xf000000ff;
}

abbrev umask_format : FormatType
umask_format = record { name = some (codes "umask"); value = none; field = config; mask = 0xff00 }

two_formats : List FormatType
two_formats = event_format ∷ (umask_format ∷ [])

two_terms :
    parse_generic two_formats (codes "event=0x13c,umask" ++ 0 ∷ [])
    ≡ configs (record { config = 0x10000013c; config1 = 0; config2 = 0 })
unfolding parse_generic separate_bits two_formats
two_terms = refl

-- A test for `Avoids`.
abbrev avoids : (ℕ → Bool) → List ℕ → Bool
avoids p [] = true
avoids p (c ∷ s) = let rest = avoids p s in not (p c) && rest

avoids-Avoids : (p : ℕ → Bool) (s : List ℕ) → avoids p s ≡ true → Avoids p s
avoids-Avoids p [] h = tt
avoids-Avoids p (c ∷ s) h = (ground arith, avoids-Avoids p s (ground arith))

parse_format_lem_example :
    (mask : ℕ) × (parse_format (codes "config" ++ b':' ∷ (codes "0-7,35" ++ 0 ∷ []))
      ≡ parsed config mask)
    × ((k : ℕ) → has_bit mask k ≡ any_covers (span 0 7 ∷ (bit 35 ∷ [])) k)
parse_format_lem_example =
    parse_format_lem (codes "config") (span 0 7) (bit 35 ∷ []) []
      (avoids-Avoids ends_name (codes "config") refl) (omega arith)

parse_format_overrun_example :
    parse_format (codes "config" ++ 0 ∷ codes "8-15")
    ≡ parse_format (codes "config" ++ b':' ∷ codes "8-15")
parse_format_overrun_example =
    parse_format_overrun (codes "config") (codes "8-15")
      (avoids-Avoids ends_name (codes "config") refl)

parse_format-ends_example : parse_format (codes "config:1-2-3") ≢ Format.out_of_fuel
parse_format-ends_example = parse_format-ends (codes "config:1-2-3")

separate_bits-scattered_example :
    has_bit (separate_bits 0x13c 0xf000000ff) 32 ≡ scattered 0x13c 0xf000000ff 32
separate_bits-scattered_example = separate_bits-scattered 0x13c 0xf000000ff 32

separate_bits-ne_example : separate_bits 0x13c 0xf000000ff ≢ separate_bits 0x23c 0xf000000ff
separate_bits-ne_example =
    separate_bits-ne 0x13c 0x23c 0xf000000ff (omega arith) (omega arith)
      (λ e. absurd (omega (arith, e)))

parse_generic-ends_example :
    parse_generic (event_format ∷ []) (codes "event=?") ≢ Generic.out_of_fuel
parse_generic-ends_example = parse_generic-ends (event_format ∷ []) (codes "event=?")

abbrev event_term : TermText
event_term = term_text (codes "event") (hexadecimal (1 ∷ (3 ∷ (12 ∷ []))))

abbrev umask_term : TermText
umask_term = term_text (codes "umask") flag

parse_generic_lem_example :
    (cs : Configs) × (parse_generic
        (event_format ∷ (umask_format ∷ []))
        (codes "event=0x13c,umask" ++ 0 ∷ [])
      ≡ configs cs)
    × ((which : Field) (k : ℕ)
        → has_bit (word which cs) k
          ≡ any_sets (event_format ∷ (umask_format ∷ [])) (event_term ∷ (umask_term ∷ [])) which k)
parse_generic_lem_example =
    parse_generic_lem (event_format ∷ (umask_format ∷ [])) event_term (umask_term ∷ []) []
      ((codes "event", refl), ((codes "umask", refl), tt))
      (
        (avoids-Avoids ends_field (codes "event") refl, omega arith),
        ((avoids-Avoids ends_field (codes "umask") refl, tt), tt),
      )

abbrev zeros : ℕ → List ℕ
zeros zero = []
zeros (suc n) = 0 ∷ zeros n

abbrev event_file : FormatFile
event_file = record {
  name = codes "event";
  word = codes "config";
  first = span 0 7;
  others = span 32 35 ∷ [];
}

abbrev cycles_file : EventFile
cycles_file = record { name = codes "cycles"; first = event_term; others = [] }

abbrev cpu : Directory
cpu = record {
  name = codes "cpu";
  type = some (codes "4");
  formats = event_file ∷ [];
  events = cycles_file ∷ [];
}

event_file-FormatFits : FormatFits 32 event_file
event_file-FormatFits = record {
  named = refl;
  word = avoids-Avoids ends_name (codes "config") refl;
  ranges = omega arith;
  one_word = avoids-Avoids ends_word (codes "config:0-7,32-35") refl;
  short = omega arith;
}

cycles_file-EventFits : EventFits 32 cycles_file
cycles_file-EventFits = record {
  named = refl;
  terms = ((avoids-Avoids ends_field (codes "event") refl, omega arith), tt);
  one_word = avoids-Avoids ends_word (codes "event=0x13c") refl;
  nonempty = omega arith;
  short = omega arith;
}

init_pmus_lem_example :
    (ps : List PmuType) × (init_pmus (some (devices_of (cpu ∷ []))) (zeros 32) (zeros 32) ≡ some ps)
    × PmusAre (cpu ∷ []) ps
init_pmus_lem_example = init_pmus_lem (cpu ∷ []) (zeros 32) (zeros 32) (
  record {
    named = refl;
    formats = (event_file-FormatFits, tt);
    events = (cycles_file-EventFits, tt);
  },
  tt,
)

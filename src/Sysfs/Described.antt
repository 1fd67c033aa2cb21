-- ===== src/Sysfs/Described.antt =====
-- What a directory of /sys/bus/event_source/devices says, by Documentation/ABI/testing.
use perf_event_tests.Base.{
  ℕ, zero, suc, ◌<◌, Bool, false, ◌&&◌, ◌||◌, ◌≡◌, Option, none, some, List, [], ◌∷◌, ◌++◌, ◌==◌,
  ltb, if◌then◌else◌, has_bit, length,
}
use perf_event_tests.Sysfs.Chars.{same, Avoids}
use perf_event_tests.Sysfs.Format.{Field, field_of, ends_name}
use perf_event_tests.Sysfs.Format.RoundTrip as Ranges
use perf_event_tests.Sysfs.Format.RoundTrip.{Range, any_covers, ranges_text}
use perf_event_tests.Sysfs.Generic.RoundTrip as Terms
use perf_event_tests.Sysfs.Generic.RoundTrip.{TermText, term_text, value_number, event_text}
use perf_event_tests.Sysfs.Generic.{FormatType}
use perf_event_tests.Sysfs.Generic.Update.{word, field_number}
use perf_event_tests.Sysfs.Table.{Entry, Device, GenericEventType, PmuType, is_dots}
use perf_event_tests.Sysfs.Words.{ends_word}

-- A file in format/: its name, and "config1:1,6-10".
pub record FormatFile : Type 0 where
  pub name : List ℕ
  pub word : List ℕ
  pub first : Range
  pub others : List Range

-- A file in events/: its name, and "event=0x3c,umask=0x1".
pub record EventFile : Type 0 where
  pub name : List ℕ
  pub first : TermText
  pub others : List TermText

abbrev pub format_text : FormatFile → List ℕ
format_text f = f.word ++ b':' ∷ ranges_text f.first f.others

abbrev pub terms_text : EventFile → List ℕ
terms_text e = event_text e.first e.others

abbrev pub format_entries : List FormatFile → List Entry
format_entries [] = []
format_entries (f ∷ fs) =
    record { name = f.name; contents = some (format_text f ++ b'\n' ∷ []) } ∷ format_entries fs

abbrev pub event_entries : List EventFile → List Entry
event_entries [] = []
event_entries (e ∷ es) =
    record { name = e.name; contents = some (terms_text e ++ b'\n' ∷ []) } ∷ event_entries es

-- Bit `k` belongs to the field.
abbrev pub holds : FormatFile → ℕ → Bool
holds f k = any_covers (f.first ∷ f.others) k

-- The number of bits of the field below bit `k`.
abbrev pub below : FormatFile → ℕ → ℕ
below f zero = 0
below f (suc k) = if holds f k then suc (below f k) else below f k

-- The first format file of that name that is for one of the three words.
abbrev pub file_for : List FormatFile → List ℕ → Option FormatFile
file_for [] name = none
file_for (f ∷ fs) name =
    let rest = file_for fs name in
    if same name f.name && ltb 0 (field_number (field_of f.word)) then some f else rest

-- A value is laid out over the bits of its field, the lowest first.
abbrev pub means_by : Option FormatFile → (value : ℕ) → Field → ℕ → Bool
means_by none value which k = false
means_by (some f) value which k =
    field_number which == field_number (field_of f.word)
    && (ltb k 64 && (holds f k && has_bit value (below f k)))

-- Bit `k` of a config word of an event with these terms.
abbrev pub means : List FormatFile → List TermText → Field → ℕ → Bool
means fs [] which k = false
means fs (term_text name v ∷ ts) which k =
    means_by (file_for fs name) (value_number v) which k || means fs ts which k

-- The file can be read back: `size` is that of the buffer.
pub record FormatFits (size : ℕ) (f : FormatFile) : Type 0 where
  pub named : is_dots f.name ≡ false
  pub word : Avoids ends_name f.word
  pub ranges : Ranges.AllFit (f.first ∷ f.others)
  pub one_word : Avoids ends_word (format_text f)
  pub short : length (format_text f) < size

pub record EventFits (size : ℕ) (e : EventFile) : Type 0 where
  pub named : is_dots e.name ≡ false
  pub terms : Terms.AllFit (e.first ∷ e.others)
  pub one_word : Avoids ends_word (terms_text e)
  pub nonempty : 0 < length (terms_text e)
  pub short : length (terms_text e) < size

abbrev pub AllFormatsFit : (size : ℕ) → List FormatFile → Type 0
AllFormatsFit size [] = Unit {0}
AllFormatsFit size (f ∷ fs) = FormatFits size f × AllFormatsFit size fs

abbrev pub AllEventsFit : (size : ℕ) → List EventFile → Type 0
AllEventsFit size [] = Unit {0}
AllEventsFit size (e ∷ es) = EventFits size e × AllEventsFit size es

-- An element of `formats` says what the file says.
pub record FormatIs (f : FormatFile) (t : FormatType) : Type 0 where
  pub name : t.name ≡ some f.name
  pub value : t.value ≡ some (format_text f)
  pub field : t.field ≡ field_of f.word
  pub mask : (k : ℕ) → has_bit t.mask k ≡ holds f k

abbrev pub FormatsAre : List FormatFile → List FormatType → Type 0
FormatsAre [] [] = Unit {0}
FormatsAre [] (t ∷ ts) = ⊥
FormatsAre (f ∷ fs) [] = ⊥
FormatsAre (f ∷ fs) (t ∷ ts) = FormatIs f t × FormatsAre fs ts

-- An element of `generic_events` has the words that the terms mean.
pub record EventIs (fs : List FormatFile) (e : EventFile) (t : GenericEventType) : Type 0 where
  pub name : t.name ≡ some e.name
  pub value : t.value ≡ some (terms_text e)
  pub words :
      (which : Field) (k : ℕ)
      → has_bit (word which t.configs) k ≡ means fs (e.first ∷ e.others) which k

abbrev pub EventsAre : List FormatFile → List EventFile → List GenericEventType → Type 0
EventsAre fs [] [] = Unit {0}
EventsAre fs [] (t ∷ ts) = ⊥
EventsAre fs (e ∷ es) [] = ⊥
EventsAre fs (e ∷ es) (t ∷ ts) = EventIs fs e t × EventsAre fs es ts

-- A directory of one PMU; the file "type" may hold anything.
pub record Directory : Type 0 where
  pub name : List ℕ
  pub type : Option (List ℕ)
  pub formats : List FormatFile
  pub events : List EventFile

abbrev pub device_of : Directory → Device
device_of d = record {
  name = d.name;
  type = d.type;
  format = some (format_entries d.formats);
  events = some (event_entries d.events);
}

abbrev pub devices_of : List Directory → List Device
devices_of [] = []
devices_of (d ∷ ds) = device_of d ∷ devices_of ds

pub record DirectoryFits (format_size event_size : ℕ) (d : Directory) : Type 0 where
  pub named : is_dots d.name ≡ false
  pub formats : AllFormatsFit format_size d.formats
  pub events : AllEventsFit event_size d.events

abbrev pub AllDirectoriesFit : (format_size event_size : ℕ) → List Directory → Type 0
AllDirectoriesFit m n [] = Unit {0}
AllDirectoriesFit m n (d ∷ ds) = DirectoryFits m n d × AllDirectoriesFit m n ds

pub record PmuIs (d : Directory) (p : PmuType) : Type 0 where
  pub name : p.name ≡ d.name
  pub formats : FormatsAre d.formats p.formats
  pub events : EventsAre d.formats d.events p.generic_events

abbrev pub PmusAre : List Directory → List PmuType → Type 0
PmusAre [] [] = Unit {0}
PmusAre [] (p ∷ ps) = ⊥
PmusAre (d ∷ ds) [] = ⊥
PmusAre (d ∷ ds) (p ∷ ps) = PmuIs d p × PmusAre ds ps

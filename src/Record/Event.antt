-- ===== src/Record/Event.antt =====
-- A record as the kernel writes it: a header and a body, in the layout of include/perf_event.h.
use perf_event_tests.Base.{
  ℕ, ◌+◌, ◌%◌, ◌^◌, ◌<◌, ◌≡◌, Bool, String, none, some, List, [], ◌∷◌, ◌++◌, ◌==◌, if◌then◌else◌,
  has_bit, length, get_elem?,
}
use perf_event_tests.Base.Bytes.{le_bytes}
use perf_event_tests.Record.Reader.{Line, printed}
use perf_event_tests.Record.RecordType
use perf_event_tests.Record.Header.{Header}
use perf_event_tests.Record.Sample.{Settings}
use perf_event_tests.Record.Layout.{
  append_bytes, append_lines, bytes_of, lines_of, Fit, IsText, text_bytes,
}
use perf_event_tests.Record.RoundTrip.{
  lost_layout, fork_layout, throttle_layout, ids_layout, lost_samples_layout, switch_layout,
  switch_cpu_wide_layout,
}
use perf_event_tests.Record.TextRoundTrip.{
  mmap_layout, inode_layout, aux_bytes, aux_lines, aux_layout,
}
use perf_event_tests.Record.SampleLayout.{optional, SampleData, SampleFits}
use perf_event_tests.Record.SampleSpec.{sample_bytes, sample_lines, IsPlain}

-- A string with the zero bytes behind it.
pub record Text : Type 0 where
  pub chars : List ℕ
  pub padding : List ℕ

-- The last word of AUX, LOST_SAMPLES and the two SWITCH records is a `sample_id` of one word.
pub data Body : Type 0 where
  lost : (id lost : ℕ) → Body
  comm : (pid t : ℕ) → Text → Body
  fork exit : (pid ppid t ptid time : ℕ) → Body
  mmap : (pid t address len pgoff : ℕ) → Text → Body
  mmap2 : (pid t address len pgoff major minor ino generation prot flags : ℕ) → Text → Body
  throttle unthrottle : (time id stream_id : ℕ) → Body
  sample : SampleData → Body
  aux : (offset size flags id : ℕ) → Body
  itrace_start : (pid t : ℕ) → Body
  lost_samples : (lost id : ℕ) → Body
  switch : (id : ℕ) → Body
  switch_cpu_wide : (pid t id : ℕ) → Body

abbrev pub type_of : Body → ℕ
type_of (lost _ _) = RecordType.lost
type_of (comm _ _ _) = RecordType.comm
type_of (fork _ _ _ _ _) = RecordType.fork
type_of (exit _ _ _ _ _) = RecordType.exit
type_of (mmap _ _ _ _ _ _) = RecordType.mmap
type_of (mmap2 _ _ _ _ _ _ _ _ _ _ _ _) = RecordType.mmap2
type_of (throttle _ _ _) = RecordType.throttle
type_of (unthrottle _ _ _) = RecordType.unthrottle
type_of (sample _) = RecordType.sample
type_of (aux _ _ _ _) = RecordType.aux
type_of (itrace_start _ _) = RecordType.itrace_start
type_of (lost_samples _ _) = RecordType.lost_samples
type_of (switch _) = RecordType.switch
type_of (switch_cpu_wide _ _ _) = RecordType.switch_cpu_wide

abbrev text_of : Text → List ℕ
text_of t = text_bytes t.chars t.padding

module _ (s : Settings) where
  abbrev pub body_bytes : Body → List ℕ
  body_bytes (lost id n) = bytes_of (lost_layout id n)
  body_bytes (comm pid t name) = append_bytes (ids_layout pid t) (text_of name)
  body_bytes (fork a b c d e) = bytes_of (fork_layout a b c d e)
  body_bytes (exit a b c d e) = bytes_of (fork_layout a b c d e)
  body_bytes (mmap a b c d e name) = append_bytes (mmap_layout a b c d e) (text_of name)
  body_bytes (mmap2 a b c d e f g h i j k name) =
      append_bytes (mmap_layout a b c d e ++ inode_layout f g h i j k) (text_of name)
  body_bytes (throttle a b c) = bytes_of (throttle_layout a b c)
  body_bytes (unthrottle a b c) = bytes_of (throttle_layout a b c)
  body_bytes (sample d) = sample_bytes s d
  body_bytes (aux a b c d) = aux_bytes a b c d
  body_bytes (itrace_start a b) = bytes_of (ids_layout a b)
  body_bytes (lost_samples a b) = bytes_of (lost_samples_layout a b)
  body_bytes (switch a) = bytes_of (switch_layout a)
  body_bytes (switch_cpu_wide a b c) = bytes_of (switch_cpu_wide_layout a b c)

  abbrev pub body_lines : Body → List Line
  body_lines (lost id n) = lines_of (lost_layout id n)
  body_lines (comm pid t name) =
      append_lines (ids_layout pid t) (printed "\tcomm: %s\n" name.chars ∷ [])
  body_lines (fork a b c d e) = lines_of (fork_layout a b c d e)
  body_lines (exit a b c d e) = lines_of (fork_layout a b c d e)
  body_lines (mmap a b c d e name) =
      append_lines (mmap_layout a b c d e) (printed "\tFilename: %s\n" name.chars ∷ [])
  body_lines (mmap2 a b c d e f g h i j k name) =
      append_lines (mmap_layout a b c d e ++ inode_layout f g h i j k)
        (printed "\tFilename: %s\n" name.chars ∷ [])
  body_lines (throttle a b c) = lines_of (throttle_layout a b c)
  body_lines (unthrottle a b c) = lines_of (throttle_layout a b c)
  body_lines (sample d) = sample_lines s d
  body_lines (aux a b c d) = aux_lines a b c d
  body_lines (itrace_start a b) = lines_of (ids_layout a b)
  body_lines (lost_samples a b) = lines_of (lost_samples_layout a b)
  body_lines (switch a) = lines_of (switch_layout a)
  body_lines (switch_cpu_wide a b c) = lines_of (switch_cpu_wide_layout a b c)

  -- Each value fits its member, and each text ends at its first NUL.
  abbrev pub BodyFits : Body → Type 0
  BodyFits (lost id n) = Fit (lost_layout id n)
  BodyFits (comm pid t name) = Fit (ids_layout pid t) × IsText name.chars
  BodyFits (fork a b c d e) = Fit (fork_layout a b c d e)
  BodyFits (exit a b c d e) = Fit (fork_layout a b c d e)
  BodyFits (mmap a b c d e name) = Fit (mmap_layout a b c d e) × IsText name.chars
  BodyFits (mmap2 a b c d e f g h i j k name) =
      Fit (mmap_layout a b c d e) × Fit (inode_layout f g h i j k) × IsText name.chars
  BodyFits (throttle a b c) = Fit (throttle_layout a b c)
  BodyFits (unthrottle a b c) = Fit (throttle_layout a b c)
  BodyFits (sample d) = SampleFits d × IsPlain s
  BodyFits (aux a b c d) = Fit (aux_layout a b c d)
  BodyFits (itrace_start a b) = Fit (ids_layout a b)
  BodyFits (lost_samples a b) = Fit (lost_samples_layout a b)
  BodyFits (switch a) = Fit (switch_layout a)
  BodyFits (switch_cpu_wide a b c) = Fit (switch_cpu_wide_layout a b c)

-- The words of `struct sample_id`: TID, TIME, ID, STREAM_ID, CPU and IDENTIFIER have one each.
abbrev one_if : Bool → ℕ
one_if b = if b then 1 else 0

abbrev pub sample_id_words : (sample_type : ℕ) → (sample_id_all : Bool) → ℕ
sample_id_words sample_type sample_id_all =
    if sample_id_all
    then one_if (has_bit sample_type 1)
      + one_if (has_bit sample_type 2)
      + one_if (has_bit sample_type 6)
      + one_if (has_bit sample_type 9)
      + one_if (has_bit sample_type 7)
      + one_if (has_bit sample_type 16)
    else 0

-- A record of the kernel ends with a `sample_id` of `n` words, but for a sample. The parser takes one word for
-- AUX, LOST_SAMPLES and the two SWITCH records, and none for the others.
abbrev pub SampleIdTaken : Body → (n : ℕ) → Type 0
SampleIdTaken (sample _) n = Unit {0}
SampleIdTaken (aux _ _ _ _) n = n ≡ 1
SampleIdTaken (lost_samples _ _) n = n ≡ 1
SampleIdTaken (switch _) n = n ≡ 1
SampleIdTaken (switch_cpu_wide _ _ _) n = n ≡ 1
SampleIdTaken _ n = n ≡ 0

-- What the parser calls each type and each mode, by number.
abbrev type_names : List String
type_names =
    "UNKNOWN" ∷ "PERF_RECORD_MMAP" ∷ "PERF_RECORD_LOST" ∷ "PERF_RECORD_COMM" ∷ "PERF_RECORD_EXIT"
    ∷ "PERF_RECORD_THROTTLE" ∷ "PERF_RECORD_UNTHROTTLE" ∷ "PERF_RECORD_FORK" ∷ "PERF_RECORD_READ"
    ∷ "PERF_RECORD_SAMPLE [%x]" ∷ "PERF_RECORD_MMAP2" ∷ "PERF_RECORD_AUX"
    ∷ "PERF_RECORD_ITRACE_START" ∷ "PERF_RECORD_LOST_SAMPLES" ∷ "PERF_RECORD_SWITCH"
    ∷ "PERF_RECORD_SWITCH_CPU_WIDE" ∷ []

abbrev pub type_line : ℕ → ℕ → Line
type_line type sample_type = elim (get_elem? type_names type) [
  | none ↦ printed "UNKNOWN %d" (type ∷ [])
  | some name ↦ printed name (if type == RecordType.sample then sample_type ∷ [] else [])
]

abbrev mode_names : List String
mode_names =
    "PERF_RECORD_MISC_CPUMODE_UNKNOWN" ∷ "PERF_RECORD_MISC_KERNEL" ∷ "PERF_RECORD_MISC_USER"
    ∷ "PERF_RECORD_MISC_HYPERVISOR" ∷ "PERF_RECORD_MISC_GUEST_KERNEL"
    ∷ "PERF_RECORD_MISC_GUEST_USER" ∷ []

abbrev pub mode_line : ℕ → Line
mode_line misc = elim (get_elem? mode_names (misc % 8)) [
  | none ↦ printed "Unknown %d!\n" (misc ∷ [])
  | some name ↦ printed name []
]

-- Bit 13 by the type: the exec of a COMM, the data mapping of a MMAP, the way of a SWITCH.
abbrev pub alias_name : Body → String
alias_name (mmap _ _ _ _ _ _) = ",PERF_RECORD_MISC_MMAP_DATA "
alias_name (comm _ _ _) = ",PERF_RECORD_MISC_COMM_EXEC "
alias_name (switch _) = ",PERF_RECORD_MISC_SWITCH_OUT "
alias_name (switch_cpu_wide _ _ _) = ",PERF_RECORD_MISC_SWITCH_OUT "
alias_name _ = "UNKNOWN ALIAS!!! "

-- `sample_id_all` is a member of the attributes of the record's event, which the parser is not told.
pub record Event : Type 0 where
  pub misc : ℕ
  pub sample_id_all : Bool
  pub body : Body

module _ (s : Settings) (e : Event) where
  abbrev pub event_size : ℕ
  event_size = 8 + length (body_bytes s e.body)

  abbrev pub header_of : Header
  header_of = record { type = type_of e.body; misc = e.misc; size = event_size }

  abbrev pub header_lines : List Line
  header_lines =
      type_line (type_of e.body) s.sample_type
      ∷ (printed ", MISC=%d (" (e.misc ∷ [])
          ∷ (mode_line e.misc
              ∷ (optional (has_bit e.misc 13) (printed (alias_name e.body) [] ∷ [])
                  ++ (optional (has_bit e.misc 14) (printed ",PERF_RECORD_MISC_EXACT_IP " [] ∷ [])
                      ++ (optional (has_bit e.misc 15)
                            (printed ",PERF_RECORD_MISC_EXT_RESERVED " [] ∷ [])
                          ++ (printed "), Size=%d\n" (event_size ∷ []) ∷ []))))))

  abbrev pub event_bytes : List ℕ
  event_bytes =
      le_bytes 4 (type_of e.body)
      ++ (le_bytes 2 e.misc ++ (le_bytes 2 event_size ++ body_bytes s e.body))

  abbrev pub event_lines : List Line
  event_lines = header_lines ++ body_lines s e.body

  -- Each member fits, and the kernel's `sample_id` is as long as the one that the parser takes.
  pub record EventFits : Type 0 where
    pub sample_id : SampleIdTaken e.body (sample_id_words s.sample_type e.sample_id_all)
    pub misc : e.misc < 2 ^ 16
    pub size : event_size < 2 ^ 16
    pub body : BodyFits s e.body

module _ (s : Settings) where
  abbrev pub all_bytes : List Event → List ℕ
  all_bytes [] = []
  all_bytes (e ∷ es) = event_bytes s e ++ all_bytes es

  abbrev pub all_lines : List Event → List Line
  all_lines [] = []
  all_lines (e ∷ es) = event_lines s e ++ all_lines es

  abbrev pub AllEventsFit : List Event → Type 0
  AllEventsFit [] = Unit
  AllEventsFit (e ∷ es) = EventFits s e × AllEventsFit es

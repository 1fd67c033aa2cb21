-- ===== src/Sysfs/Whole.antt =====
-- A PMU's directory is read into the table as the documentation of sysfs means it.
use perf_event_tests.Base.{
  ℕ, zero, suc, ◌<◌, ◌≡◌, refl, sym, ap, ◌∙◌, subst, inl, inr, ◌&&◌, ◌||◌, some, List, [], ◌∷◌,
  ◌++◌, append_assoc, ◌==◌, ltb, if◌then◌else◌, has_bit, length, length-append, drop, arith,
  Bool-cases,
}
use perf_event_tests.Sysfs.Chars.{same, Avoids}
use perf_event_tests.Sysfs.Format.{Field, field_of, parsed, parse_format}
use perf_event_tests.Sysfs.Format.RoundTrip.{ranges_text, parse_format_lem}
use perf_event_tests.Sysfs.Generic.{FormatType}
use perf_event_tests.Sysfs.Generic.Separate.{rank, scattered}
use perf_event_tests.Sysfs.Generic.Update.{field_number, AllNamed, has_name, sets, sets_by}
use perf_event_tests.Sysfs.Generic.RoundTrip.{
  TermText, term_text, value_number, any_sets, parse_generic_lem,
}
use perf_event_tests.Sysfs.Table.{
  GenericEventType, PmuType, no_format, read_value, read_format, read_formats, read_event,
  read_events, prepend, allocate, formats_in, events_in, type_of, read_pmu, read_pmus, init_pmus,
  prepend_pmu,
}
use perf_event_tests.Sysfs.Words.{ends_word, filled, length-filled, read_value-word}
use perf_event_tests.Sysfs.Described.{
  FormatFile, EventFile, format_text, terms_text, format_entries, event_entries, holds, below,
  file_for, means_by, means, FormatFits, EventFits, AllFormatsFit, AllEventsFit, Directory,
  device_of, devices_of, DirectoryFits, AllDirectoriesFit, PmuIs, PmusAre, FormatIs, FormatsAre,
  EventIs, EventsAre,
}

rank-below :
    (f : FormatFile) (mask : ℕ) (k : ℕ)
    → ((j : ℕ) → has_bit mask j ≡ holds f j)
    → rank mask k ≡ below f k
rank-below f mask zero h = refl
rank-below f mask (suc k) h =
    let ih = rank-below f mask k h in
    ap (λ b. if b then suc (rank mask k) else rank mask k) (h k)
    ∙ ap (λ (r : ℕ). if holds f k then suc r else r) ih

means-format :
    (f : FormatFile) (t : FormatType) (value : ℕ) (which : Field) (k : ℕ)
    → FormatIs f t
    → sets_by (some t) value which k ≡ means_by (some f) value which k
means-format f t value which k is =
    ap (λ g. field_number which == field_number g && (ltb k 64 && scattered value t.mask k))
      is.field
    ∙ ap
        (λ b.
          field_number which == field_number (field_of f.word)
          && (ltb k 64 && (b && has_bit value (rank t.mask k))))
        (is.mask k)
    ∙ ap
        (λ r.
          field_number which == field_number (field_of f.word)
          && (ltb k 64 && (holds f k && has_bit value r)))
        (rank-below f t.mask k is.mask)

sets-means :
    (fs : List FormatFile) (ts : List FormatType) (name : List ℕ) (value : ℕ) (which : Field)
    (k : ℕ)
    → FormatsAre fs ts
    → sets ts name value which k ≡ means_by (file_for fs name) value which k
sets-means [] [] name value which k are = refl
sets-means [] (t ∷ ts) name value which k are = absurd are
sets-means (f ∷ fs) [] name value which k are = absurd are
sets-means (f ∷ fs) (t ∷ ts) name value which k (is, are) =
    let test : (has_name t.name name && ltb 0 (field_number t.field))
        ≡ (same name f.name && ltb 0 (field_number (field_of f.word))) =
      ap (λ n. has_name n name && ltb 0 (field_number t.field)) is.name
      ∙ ap (λ g. same name f.name && ltb 0 (field_number g)) is.field in
    elim (Bool-cases (same name f.name && ltb 0 (field_number (field_of f.word)))) [
      | inl here ↦ rw (test ∙ here, here) (means-format f t value which k is)
      | inr other ↦ rw (test ∙ other, other) (sets-means fs ts name value which k are)
    ]

any_sets-means :
    (fs : List FormatFile) (ts : List FormatType) (terms : List TermText) (which : Field) (k : ℕ)
    → FormatsAre fs ts
    → any_sets ts terms which k ≡ means fs terms which k
any_sets-means fs ts [] which k are = refl
any_sets-means fs ts (term_text name v ∷ terms) which k are =
    ap (λ b. b || any_sets ts terms which k) (sets-means fs ts name (value_number v) which k are)
    ∙ ap (λ b. means_by (file_for fs name) (value_number v) which k || b)
        (any_sets-means fs ts terms which k are)

FormatsAre-AllNamed : (fs : List FormatFile) (ts : List FormatType) → FormatsAre fs ts → AllNamed ts
FormatsAre-AllNamed [] [] are = tt
FormatsAre-AllNamed [] (t ∷ ts) are = absurd are
FormatsAre-AllNamed (f ∷ fs) [] are = absurd are
FormatsAre-AllNamed (f ∷ fs) (t ∷ ts) (is, are) = ((f.name, is.name), FormatsAre-AllNamed fs ts are)

word-read_value :
    (text buffer : List ℕ)
    → 0 < length text
    → Avoids ends_word text
    → length text < length buffer
    → read_value (text ++ b'\n' ∷ []) buffer ≡ some (some text, filled text buffer)
word-read_value [] buffer some_text a short = absurd (omega arith)
word-read_value (c ∷ s) buffer some_text a short = read_value-word c s buffer a short

read_format_lem :
    (f : FormatFile) (buffer : List ℕ)
    → FormatFits (length buffer) f
    → (t : FormatType) × (read_format f.name (format_text f ++ b'\n' ∷ []) buffer
        ≡ some (t, filled (format_text f) buffer))
      × FormatIs f t
unfolding read_format
read_format_lem f buffer fits =
    let rest = drop (suc (length (format_text f))) buffer in
    let (mask, done, bits) = parse_format_lem f.word f.first f.others rest fits.word fits.ranges in
    let text_nonempty : 0 < length (format_text f) =
      omega (arith, length-append {0} f.word (b':' ∷ ranges_text f.first f.others)) in
    let parse : parse_format (filled (format_text f) buffer) ≡ parsed (field_of f.word) mask =
      ap parse_format (append_assoc f.word (b':' ∷ ranges_text f.first f.others) (0 ∷ rest))
      ∙ done in
    (
      record {
        name = some f.name;
        value = some (format_text f);
        field = field_of f.word;
        mask = mask;
      },
      rw (
        read_format,
        word-read_value (format_text f) buffer text_nonempty fits.one_word fits.short,
        parse,
      ),
      record { name = refl; value = refl; field = refl; mask = bits },
    )

read_formats_lem :
    (fs : List FormatFile) (buffer : List ℕ)
    → AllFormatsFit (length buffer) fs
    → (ts : List FormatType) × (buffer' : List ℕ) × (read_formats
          (format_entries fs)
          (allocate (format_entries fs))
          buffer
        ≡ some (ts, buffer'))
      × (length buffer' ≡ length buffer)
      × FormatsAre fs ts
unfolding read_formats
read_formats_lem [] buffer fits = ([], buffer, refl, refl, tt)
read_formats_lem (f ∷ fs) buffer (fit, fits) =
    let (t, done, is) = read_format_lem f buffer fit in
    let buffer1 = filled (format_text f) buffer in
    let same_size : length buffer ≡ length buffer1 =
      sym (length-filled (format_text f) buffer fit.short) in
    let (ts, buffer2, rest, size, are) =
      read_formats_lem fs buffer1 (subst (λ (n : ℕ). AllFormatsFit n fs) same_size fits) in
    let slots : allocate (format_entries (f ∷ fs)) ≡ no_format ∷ allocate (format_entries fs) =
      rw fit.named in
    (
      t ∷ ts,
      buffer2,
      ap (λ l. read_formats (format_entries (f ∷ fs)) l buffer) slots
          ∙ rw (read_formats, fit.named, done, rest, prepend),
      size ∙ sym same_size,
      (is, are),
    )

module _ (fs : List FormatFile) (ts : List FormatType) (are : FormatsAre fs ts) where
  read_event_lem :
      (e : EventFile) (buffer : List ℕ)
      → EventFits (length buffer) e
      → (t : GenericEventType) × (read_event ts e.name (some (terms_text e ++ b'\n' ∷ [])) buffer
          ≡ some (t, filled (terms_text e) buffer))
        × EventIs fs e t
  unfolding read_event
  read_event_lem e buffer fits =
      let rest = drop (suc (length (terms_text e))) buffer in
      let (cs, done, bits) =
        parse_generic_lem ts e.first e.others rest (FormatsAre-AllNamed fs ts are) fits.terms in
      (
        record { name = some e.name; value = some (terms_text e); configs = cs },
        rw (
          read_event,
          word-read_value (terms_text e) buffer fits.nonempty fits.one_word fits.short,
          done,
        ),
        record {
          name = refl;
          value = refl;
          words = λ which k. bits which k ∙ any_sets-means fs ts (e.first ∷ e.others) which k are;
        },
      )

  read_events_lem :
      (es : List EventFile) (buffer : List ℕ)
      → AllEventsFit (length buffer) es
      → (us : List GenericEventType) × (buffer' : List ℕ) × (read_events ts
            (event_entries es)
            buffer
          ≡ some (us, buffer'))
        × (length buffer' ≡ length buffer)
        × EventsAre fs es us
  unfolding read_events
  read_events_lem [] buffer fits = ([], buffer, refl, refl, tt)
  read_events_lem (e ∷ es) buffer (fit, fits) =
      let (t, done, is) = read_event_lem e buffer fit in
      let buffer1 = filled (terms_text e) buffer in
      let same_size : length buffer ≡ length buffer1 =
        sym (length-filled (terms_text e) buffer fit.short) in
      let (us, buffer2, rest, size, all) =
        read_events_lem es buffer1 (subst (λ (n : ℕ). AllEventsFit n es) same_size fits) in
      (
        t ∷ us,
        buffer2,
        rw (read_events, fit.named, done, rest, prepend),
        size ∙ sym same_size,
        (is, all),
      )

read_pmu_lem :
    (d : Directory) (format_value event_value : List ℕ)
    → DirectoryFits (length format_value) (length event_value) d
    → (p : PmuType) × (format_value' : List ℕ) × (event_value' : List ℕ) × (read_pmu
          (device_of d)
          format_value
          event_value
        ≡ some (p, format_value', event_value'))
      × (length format_value' ≡ length format_value)
      × (length event_value' ≡ length event_value)
      × PmuIs d p
unfolding read_pmu
read_pmu_lem d format_value event_value fits =
    let (ts, b, formats, b_size, are) = read_formats_lem d.formats format_value fits.formats in
    let (us, c, events, c_size, all) =
      read_events_lem d.formats ts are d.events event_value fits.events in
    (
      record { name = d.name; type = type_of d.type; formats = ts; generic_events = us },
      b,
      c,
      rw (read_pmu, formats_in, formats, events_in, events),
      b_size,
      c_size,
      record { name = refl; formats = are; events = all },
    )

read_pmus_lem :
    (ds : List Directory) (format_value event_value : List ℕ)
    → AllDirectoriesFit (length format_value) (length event_value) ds
    → (ps : List PmuType) × (read_pmus (devices_of ds) format_value event_value ≡ some ps)
      × PmusAre ds ps
unfolding read_pmus
read_pmus_lem [] format_value event_value fits = ([], refl, tt)
read_pmus_lem (d ∷ ds) format_value event_value (fit, fits) =
    let (p, b, c, done, b_size, c_size, is) = read_pmu_lem d format_value event_value fit in
    let fits' : AllDirectoriesFit (length b) (length c) ds =
      subst (λ (m : ℕ). AllDirectoriesFit m (length c) ds) (sym b_size)
        (subst (λ (n : ℕ). AllDirectoriesFit (length format_value) n ds) (sym c_size) fits) in
    let (ps, rest, are) = read_pmus_lem ds b c fits' in
    (p ∷ ps, rw (read_pmus, fit.named, done, rest, prepend_pmu), (is, are))

-- Where each file under format/ and events/ holds one word that fits into the buffer, in the syntax of
-- the documentation of sysfs, the PMUs, their formats and their events are read in their order: a format
-- gets the field and the mask of its ranges, and bit `k` of a config word of an event is set exactly
-- when a term of it means that.
pub init_pmus_lem :
    (ds : List Directory) (format_value event_value : List ℕ)
    → AllDirectoriesFit (length format_value) (length event_value) ds
    → (ps : List PmuType) × (init_pmus (some (devices_of ds)) format_value event_value ≡ some ps)
      × PmusAre ds ps
unfolding init_pmus
init_pmus_lem ds format_value event_value fits = read_pmus_lem ds format_value event_value fits

-- ===== src/Record/SamplePieces.antt =====
-- lib/parse_record.c, PERF_RECORD_SAMPLE: each member of a sample is read back as the kernel wrote it.
use Prim.Native.Nat.{bit_and}
use perf_event_tests.Base.{
  ℕ, ◌+◌, ◌^◌, ◌<◌, ◌≡◌, refl, ap, ◌∙◌, subst, String, Bool, true, false, not, Option, none, some,
  List, [], ◌∷◌, ◌++◌, arith, append-nil, append_assoc, ltb, ◌==◌, if◌then◌else◌, has_bit, length,
  length-append, lt→ltb, drop, drop-add,
}
use perf_event_tests.Base.Bytes.{le_bytes, le_value?, length-le_bytes}
use perf_event_tests.Record.Reader.{
  Line, printed, Reader, Done, pure, ◌>>=◌, when, field, peek, skip_signed, say,
}
use perf_event_tests.Record.Reads.{
  Reads, Reads-bind, Reads-pure, Reads-field, Reads-say, Reads-pass, Reads-ints,
}
use perf_event_tests.Record.ReadFormat
use perf_event_tests.Record.ReadFormat.{Validate}
use perf_event_tests.Record.Sample
use perf_event_tests.Record.Sample.{Settings}
use perf_event_tests.Record.Sample.DataSource
use perf_event_tests.Record.Sample.DataSource.{tests}
use perf_event_tests.Record.SampleLayout
use perf_event_tests.Record.SampleLayout.{
  Fits, optional, words, ReadData, read_bytes, read_lines, GroupFits, single_bytes, single_lines,
  SampleData, SampleFits, AreBytes, raw_lines, pid_lines,
}
use perf_event_tests.Record.SampleSpec.{source_lines}
use perf_event_tests.Record.SampleRoundTrip.{
  Reads-when, Reads-word, Reads-shown, Reads-if-complain, Reads-if-say, times-Reads, group-Reads,
}

pub Reads-off : {b : Bool} (p : Reader Done) → b ≡ false → Reads (when b p) [] tt []
Reads-off p e = rw e Reads-pure

-- A part behind which no more bytes are read.
Reads-end :
    {p : Reader Done} {xs : List ℕ} {l k : List Line} (f : Done → Reader Done)
    → Reads p xs tt l
    → Reads (f tt) [] tt k
    → Reads (p >>= f) xs tt (l ++ k)
Reads-end {p} {xs} {l} {k} f h t =
    subst (λ (ys : List ℕ). Reads (p >>= f) ys tt (l ++ k)) (append-nil xs) (Reads-bind f h t)

pub Reads-last :
    {p : Reader Done} {xs : List ℕ} {l : List Line} (f : Done → Reader Done)
    → Reads p xs tt l
    → Reads (f tt) [] tt []
    → Reads (p >>= f) xs tt l
Reads-last {p} {xs} {l} f h t =
    subst (λ (k : List Line). Reads (p >>= f) xs tt k) (append-nil l) (Reads-end f h t)

single-Reads :
    (f : ℕ) (r : ReadData)
    → GroupFits r
    → Reads (ReadFormat.single_format false f) (single_bytes f r) tt (single_lines f r)
unfolding ReadFormat.single_format
single-Reads f r fit = Reads-field 8 _ r.single.value _ fit.single.0 (
    Reads-bind _ (times-Reads f r fit.enabled fit.running) (
      Reads-end _ (Reads-when (has_bit f 2) (Reads-word _ r.single.id fit.single.1))
        (Reads-shown "\n" [])))

pub values-Reads :
    (f : ℕ) (v : Option Validate) (r : ReadData)
    → GroupFits r
    → Reads
        (Sample.read_values false f v)
        (read_bytes f r)
        tt
        (printed "\tPERF_SAMPLE_READ, read_format\n" [] ∷ read_lines f v r)
unfolding Sample.read_values ReadFormat.handle_struct_read_format
values-Reads f v r fit = Reads-say _ [] _ (cases (has_bit f 3))
  where
    cases :
        (b : Bool)
        → Reads
            (if b then ReadFormat.group_format false f v else ReadFormat.single_format false f)
            (if b then SampleLayout.group_bytes f r else single_bytes f r)
            tt
            (if b then SampleLayout.group_lines f v r else single_lines f r)
    cases true = group-Reads f v r fit
    cases false = single-Reads f r fit

pid-Reads : (v : Option Validate) (pid : ℕ) → Reads (Sample.check_pid v pid) [] tt (pid_lines v pid)
unfolding Sample.check_pid
pid-Reads none pid = Reads-pure
pid-Reads (some v) pid = Reads-if-complain (not (v.pid == pid)) _ _

eight_bytes : (a b : ℕ) → 8 ≡ length (le_bytes 4 a ++ le_bytes 4 b)
eight_bytes a b =
    omega
      (arith, length-append (le_bytes 4 a) (le_bytes 4 b), length-le_bytes 4 a, length-le_bytes 4 b)

pub tid-Reads :
    (v : Option Validate) (pid t : ℕ)
    → pid < 256 ^ 4
    → t < 256 ^ 4
    → Reads
        (Sample.tid false v)
        (le_bytes 4 pid ++ le_bytes 4 t)
        tt
        (pid_lines v pid ++ (printed "\tPERF_SAMPLE_TID, pid: %d  tid %d\n" (pid ∷ t ∷ []) ∷ []))
unfolding Sample.tid
tid-Reads v pid t hp ht = Reads-ints pid t _ hp ht (
    Reads-bind _ (pid-Reads v pid)
      (Reads-say _ (pid ∷ t ∷ []) _ (Reads-pass _ 8 (eight_bytes pid t))))

pub cpu-Reads :
    (c r : ℕ)
    → c < 256 ^ 4
    → r < 256 ^ 4
    → Reads
        (Sample.cpu false)
        (le_bytes 4 c ++ le_bytes 4 r)
        tt
        (printed "\tPERF_SAMPLE_CPU, cpu: %d  res %d\n" (c ∷ r ∷ []) ∷ [])
unfolding Sample.cpu
cpu-Reads c r hc hr =
    Reads-ints c r _ hc hr (Reads-say _ (c ∷ r ∷ []) _ (Reads-pass _ 8 (eight_bytes c r)))

source-Reads :
    (l : List (ℕ × String)) (src : ℕ)
    → Reads (DataSource.print_matches l src) [] tt (source_lines l src)
unfolding DataSource.print_matches
source-Reads [] src = Reads-pure
source-Reads ((mask, text) ∷ l) src =
    Reads-bind _ (Reads-if-say (not (bit_and src mask == 0)) text) (source-Reads l src)

-- A word that ends a part, with more lines behind its own.
pub word_then :
    (fmt : String) (v : ℕ) (f : ℕ → Reader Done) {k : List Line}
    → Fits v
    → Reads (f v) [] tt k
    → Reads (field false 8 fmt >>= f) (le_bytes 8 v) tt (printed fmt (v ∷ []) ∷ k)
word_then fmt v f {k} fits h =
    subst (λ (ys : List ℕ). Reads (field false 8 fmt >>= f) ys tt (printed fmt (v ∷ []) ∷ k))
      (append-nil (le_bytes 8 v)) (Reads-field 8 fmt v f fits h)

pub word_line :
    (fmt : String) (v : ℕ)
    → Fits v
    → Reads
        (field false 8 fmt >>= λ _. say false "\n" [])
        (le_bytes 8 v)
        tt
        (printed fmt (v ∷ []) ∷ printed "\n" [] ∷ [])
word_line fmt v fits = word_then fmt v _ fits (Reads-shown "\n" [])

regroup :
    (p : Reader Done) (l k m : List Line)
    → Reads p [] tt ((l ++ k) ++ m)
    → Reads p [] tt (l ++ (k ++ m))
regroup p l k m h = subst (λ (r : List Line). Reads p [] tt r) (append_assoc l k m) h

pub data_source-Reads :
    (src : ℕ)
    → Reads (DataSource.data_source false src >>= λ _. say false "\n" []) [] tt (
        optional (not (src == 0)) (printed "\t\t" [] ∷ [])
        ++ (source_lines tests src ++ (printed "\n" [] ∷ [])))
unfolding DataSource.data_source
data_source-Reads src =
    regroup _ (optional (not (src == 0)) (printed "\t\t" [] ∷ [])) (source_lines tests src)
      (printed "\n" [] ∷ [])
      (Reads-bind _ (Reads-bind _ (Reads-if-say (not (src == 0)) "\t\t") (source-Reads tests src))
        (Reads-shown "\n" []))

byte-le_value? : (b : ℕ) (rest : List ℕ) → le_value? 1 (b ∷ rest) ≡ some b
byte-le_value? b rest = ground arith

-- The bytes from number `i` on are printed, and the offset stays.
raw_bytes-run :
    (buf : List ℕ) (off i : ℕ) (bs rest : List ℕ)
    → drop (off + i) buf ≡ bs ++ rest
    → Sample.raw_bytes (length bs) i buf off ≡ some (tt, off, raw_lines bs)
unfolding Sample.raw_bytes ◌>>=◌ peek say pure
raw_bytes-run buf off i [] rest h = refl
raw_bytes-run buf off i (b ∷ bs) rest h =
    let next : drop (off + (i + 1)) buf ≡ bs ++ rest =
      ap (λ (n : ℕ). drop n buf) (omega arith) ∙ drop-add (off + i) 1 buf ∙ ap (drop 1) h in
    ground (arith, h, byte-le_value? b (bs ++ rest), raw_bytes-run buf off (i + 1) bs rest next)

raw_data-Reads :
    (bs : List ℕ)
    → length bs < 2 ^ 31
    → Reads
        (Sample.raw_plain (length bs) >>= λ _. skip_signed (length bs))
        bs
        tt
        (printed "\t\t" [] ∷ (raw_lines bs ++ (printed "\n" [] ∷ [])))
unfolding Sample.raw_plain ◌>>=◌ say skip_signed
raw_data-Reads bs h = record {
  run = λ buf off rest at.
      let here : drop (off + 0) buf ≡ bs ++ rest = ap (λ (n : ℕ). drop n buf) (omega arith) ∙ at in
      let small : ltb (length bs) (2 ^ 31) ≡ true = lt→ltb _ _ h in
      ground (
        arith,
        small,
        raw_bytes-run buf off 0 bs rest here,
        append-nil (raw_lines bs ++ (printed "\n" [] ∷ [])),
      );
}

pub raw-Reads :
    (bs : List ℕ)
    → length bs < 2 ^ 31
    → Reads (Sample.raw false 0) (le_bytes 4 (length bs) ++ bs) tt (
        printed "\tPERF_SAMPLE_RAW, Raw length: %d\n" (length bs ∷ [])
        ∷ (printed "\t\t" [] ∷ (raw_lines bs ++ (printed "\n" [] ∷ []))))
unfolding Sample.raw
raw-Reads bs h = Reads-field 4 _ (length bs) _ (ground (arith, h)) (raw_data-Reads bs h)

-- ===== src/Record/EventRoundTrip.antt =====
-- One record, and then a whole buffer of records, is read back as the kernel wrote it.
use perf_event_tests.Base.{
  ℕ, zero, suc, ◌+◌, ◌^◌, ◌<◌, ◌≡◌, ap, ◌∙◌, Bool, true, false, some, List, [], ◌∷◌, ◌++◌,
  append_assoc, arith, ltb, has_bit, length, length-append, drop, lt→ltb,
}
use perf_event_tests.Base.Bytes.{le_bytes, length-le_bytes}
use perf_event_tests.Record.Reader.{Line, printed, Reader, Done, when, say}
use perf_event_tests.Record.Reads.{
  Reads, Reads-bind, Reads-pure, Reads-say, Reads-header, Reads-past_header, drop-past,
}
use perf_event_tests.Record.Header.{print_header, print_type, print_cpumode, print_alias}
use perf_event_tests.Record.Sample.{Settings}
use perf_event_tests.Record.SampleLayout.{optional}
use perf_event_tests.Record.SampleSpec.{loud}
use perf_event_tests.Record.SampleWhole.{sample-Reads}
use perf_event_tests.Record.SampleRoundTrip.{Reads-if-say, Reads-shown}
use perf_event_tests.Record.RoundTrip
use perf_event_tests.Record.RoundTrip.{ids_layout}
use perf_event_tests.Record.TextRoundTrip
use perf_event_tests.Record.TextRoundTrip.{mmap_layout, inode_layout}
use perf_event_tests.Record.Layout.{Member, append_bytes, widths, length-append_bytes, text_bytes}
use perf_event_tests.Record.Mmap.{finished, one_more, details, record_at, parse_loop}
use perf_event_tests.Record.Event.{
  Text, type_line, alias_name, Body, lost, comm, fork, exit, mmap, mmap2, throttle, unthrottle,
  sample, aux, itrace_start, lost_samples, switch, switch_cpu_wide, type_of, body_bytes, body_lines,
  BodyFits, Event, EventFits, event_size, header_of, header_lines, event_bytes, event_lines,
  mode_line, all_bytes, all_lines, AllEventsFit,
}

text_size :
    (ms : List Member) (t : Text)
    → 8 + length (append_bytes ms (text_bytes t.chars t.padding))
      ≡ (8 + widths ms) + length (text_bytes t.chars t.padding)
text_size ms t = omega (arith, length-append_bytes ms (text_bytes t.chars t.padding))

-- The switch over the type of a record reads its body.
details-Reads :
    (s : Settings) (size misc : ℕ) (b : Body)
    → BodyFits s b
    → Reads
        (details
          (loud s)
          size
          (record { type = type_of b; misc = misc; size = 8 + length (body_bytes s b) }))
        (body_bytes s b)
        tt
        (body_lines s b)
unfolding details
details-Reads s size misc (lost a b) fit = RoundTrip.lost-Reads a b fit
details-Reads s size misc (comm a b t) fit =
    TextRoundTrip.comm-Reads a b _ t.chars t.padding fit.0 fit.1 (text_size (ids_layout a b) t)
details-Reads s size misc (fork a b c d e) fit = RoundTrip.fork-Reads a b c d e fit
details-Reads s size misc (exit a b c d e) fit = RoundTrip.exit-Reads a b c d e fit
details-Reads s size misc (mmap a b c d e t) fit =
    TextRoundTrip.mmap-Reads a b c d e _ t.chars t.padding fit.0 fit.1
      (text_size (mmap_layout a b c d e) t)
details-Reads s size misc (mmap2 a b c d e f g h i j k t) fit =
    TextRoundTrip.mmap2-Reads a b c d e f g h i j k _ t.chars t.padding fit.0 fit.1 fit.2
      (text_size (mmap_layout a b c d e ++ inode_layout f g h i j k) t)
details-Reads s size misc (throttle a b c) fit = RoundTrip.throttle-Reads a b c fit
details-Reads s size misc (unthrottle a b c) fit = RoundTrip.throttle-Reads a b c fit
details-Reads s size misc (sample d) fit = sample-Reads s d fit.0 fit.1
details-Reads s size misc (aux a b c d) fit = TextRoundTrip.aux-Reads a b c d fit
details-Reads s size misc (itrace_start a b) fit = RoundTrip.itrace_start-Reads a b fit
details-Reads s size misc (lost_samples a b) fit = RoundTrip.lost_samples-Reads a b fit
details-Reads s size misc (switch a) fit = RoundTrip.switch-Reads a fit
details-Reads s size misc (switch_cpu_wide a b c) fit = RoundTrip.switch_cpu_wide-Reads a b c fit

mode-Reads : (misc : ℕ) → Reads (print_cpumode misc) [] tt (mode_line misc ∷ [])
unfolding print_cpumode say
mode-Reads misc = record { run = λ buf off rest h. ground arith }

type-Reads :
    (b : Body) (n : ℕ) → Reads (print_type (type_of b) n) [] tt (type_line (type_of b) n ∷ [])
unfolding print_type
type-Reads (lost _ _) n = Reads-shown _ _
type-Reads _ n = Reads-shown _ _

alias-Reads : (b : Body) → Reads (print_alias (type_of b)) [] tt (printed (alias_name b) [] ∷ [])
unfolding print_alias
alias-Reads (lost _ _) = Reads-shown _ _
alias-Reads _ = Reads-shown _ _

Reads-when_silent :
    (b : Bool) {p : Reader Done} {l : List Line}
    → Reads p [] tt l
    → Reads (when b p) [] tt (optional b l)
Reads-when_silent true h = h
Reads-when_silent false h = Reads-pure

type-lt : (b : Body) → type_of b < 256 ^ 4
type-lt (lost _ _) = omega arith
type-lt _ = omega arith

header-Reads :
    (s : Settings) (e : Event)
    → Reads (print_header (header_of s e) s.sample_type) [] tt (header_lines s e)
unfolding print_header
header-Reads s e = Reads-bind _ (type-Reads e.body s.sample_type) (
    Reads-say _ (e.misc ∷ []) _ (
      Reads-bind _ (mode-Reads e.misc) (
        Reads-bind _ (Reads-when_silent (has_bit e.misc 13) (alias-Reads e.body)) (
          Reads-bind _ (Reads-if-say (has_bit e.misc 14) _) (
            Reads-bind _ (Reads-if-say (has_bit e.misc 15) _)
              (Reads-shown _ (event_size s e ∷ [])))))))

-- One round of the loop passes one record.
pub record_at-Reads :
    (s : Settings) (size : ℕ) (e : Event)
    → EventFits s e
    → Reads (record_at (loud s) size) (event_bytes s e) tt (event_lines s e)
unfolding record_at
record_at-Reads s size e fit =
    Reads-header (type_of e.body) e.misc (event_size s e) (type-lt e.body) (fit.misc) (fit.size) _ _
      (Reads-bind _ (header-Reads s e) (
        Reads-past_header (type_of e.body) e.misc (event_size s e) (type-lt e.body) (fit.misc)
          (fit.size) _ _ (details-Reads s size e.misc e.body fit.body)))

-- A record is never empty.
pub event-length : (s : Settings) (e : Event) → 0 < length (event_bytes s e)
event-length s e = omega (
  arith,
  length-append (le_bytes 4 (type_of e.body))
      (le_bytes 2 e.misc ++ (le_bytes 2 (event_size s e) ++ body_bytes s e.body)),
  length-le_bytes 4 (type_of e.body),
)

step :
    (s : Settings) (size fuel off next : ℕ) (buf : List ℕ) (log : List Line)
    → ltb off size ≡ true
    → record_at (loud s) size buf off ≡ some (tt, next, log)
    → parse_loop (loud s) size (suc fuel) buf off
      ≡ one_more log (parse_loop (loud s) size fuel buf next)
unfolding parse_loop
step s size fuel off next buf log more one = rw (more, parse_loop) (rw one)

-- Where the new bytes from an offset on are whole records of the kinds that `Body` has, in the layout of
-- include/perf_event.h, with samples of plain settings, and the `sample_id` behind each record is as long as the
-- one the parser takes (one word for AUX, LOST_SAMPLES and the SWITCH records, none for the others), the loop
-- ends after reading each of them once, with their number and their lines.
pub loop-Reads :
    (s : Settings) (size : ℕ) (es : List Event) (fuel off : ℕ) (buf rest : List ℕ)
    → AllEventsFit s es
    → drop off buf ≡ all_bytes s es ++ rest
    → size ≡ off + length (all_bytes s es)
    → length es < fuel
    → parse_loop (loud s) size fuel buf off ≡ finished (length es) (all_lines s es)
unfolding parse_loop
loop-Reads s size es zero off buf rest fit at e h = absurd (omega arith)
loop-Reads s size [] (suc fuel) off buf rest fit at e h = ground arith
loop-Reads s size (v ∷ vs) (suc fuel) off buf rest fit at e h =
    let total = length-append (event_bytes s v) (all_bytes s vs) in
    let more : ltb off size ≡ true = lt→ltb _ _ (omega (arith, event-length s v)) in
    let all = at ∙ append_assoc (event_bytes s v) (all_bytes s vs) rest in
    let one = (record_at-Reads s size v fit.0).run buf off (all_bytes s vs ++ rest) all in
    let next = drop-past buf off (event_bytes s v) (all_bytes s vs ++ rest) all in
    let ih =
      loop-Reads s size vs fuel (off + length (event_bytes s v)) buf rest fit.1 next (omega arith)
        (omega arith) in
    step s size fuel off (off + length (event_bytes s v)) buf (event_lines s v) more one
    ∙ ap (one_more (event_lines s v)) ih

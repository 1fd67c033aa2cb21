-- ===== src/Record/SampleRoundTrip.antt =====
-- The parts of a sample are read back as they were written.
use perf_event_tests.Base.{
  ℕ, ◌+◌, ◌-◌, ◌^◌, ◌<◌, ◌≡◌, ◌&&◌, String, Bool, true, false, not, Option, none, some, List, [],
  ◌∷◌, ◌++◌, arith, append-nil, ltb, ◌==◌, if◌then◌else◌, has_bit, length, lt→ltb,
}
use perf_event_tests.Base.Bytes.{le_bytes}
use perf_event_tests.Record.Reader.{
  Line, printed, error, Reader, Done, pure, ◌>>=◌, when, field, say, complain,
}
use perf_event_tests.Record.Reads.{
  Reads, Reads-bind, Reads-pure, Reads-field, Reads-hidden, Reads-say,
}
use perf_event_tests.Record.ReadFormat
use perf_event_tests.Record.ReadFormat.{Validate, widen, rounds}
use perf_event_tests.Record.Sample
use perf_event_tests.Record.Sample.{Settings}
use perf_event_tests.Record.SampleLayout.{
  Fits, optional, words, AllFit, Counter, ReadData, times_bytes, times_lines, counters_bytes,
  counters_lines, events_lines, group_bytes, group_lines, CountersFit, GroupFits, chain_lines,
  Branch, branches_bytes, flags_lines, low_lines, branches_lines, BranchesFit,
}

pub Reads-when :
    (b : Bool) {p : Reader Done} {xs : List ℕ} {l : List Line}
    → Reads p xs tt l
    → Reads (when b p) (optional b xs) tt (optional b l)
Reads-when true h = h
Reads-when false h = Reads-pure

-- One word that ends a part.
pub Reads-word :
    (fmt : String) (v : ℕ)
    → Fits v
    → Reads (field false 8 fmt >>= λ _. pure tt) (le_bytes 8 v) tt (printed fmt (v ∷ []) ∷ [])
Reads-word fmt v fits = rw append-nil at (Reads-field 8 fmt v (λ _. pure tt) fits Reads-pure)

pub Reads-complain :
    (fmt : String) (args : List ℕ) → Reads (complain fmt args) [] tt (error fmt args ∷ [])
unfolding complain
Reads-complain fmt args = record { run = λ buf off rest h. ground arith }

pub Reads-shown :
    (fmt : String) (args : List ℕ) → Reads (say false fmt args) [] tt (printed fmt args ∷ [])
unfolding say
Reads-shown fmt args = record { run = λ buf off rest h. ground arith }

pub Reads-if-complain :
    (b : Bool) (fmt : String) (args : List ℕ)
    → Reads (when b (complain fmt args)) [] tt (optional b (error fmt args ∷ []))
Reads-if-complain true fmt args = Reads-complain fmt args
Reads-if-complain false fmt args = Reads-pure

pub Reads-if-say :
    (b : Bool) (fmt : String)
    → Reads (when b (say false fmt [])) [] tt (optional b (printed fmt [] ∷ []))
Reads-if-say true fmt = Reads-shown fmt []
Reads-if-say false fmt = Reads-pure

pub times-Reads :
    (f : ℕ) (r : ReadData)
    → Fits r.enabled
    → Fits r.running
    → Reads (ReadFormat.times false f) (times_bytes f r) tt (times_lines f r)
unfolding ReadFormat.times
times-Reads f r he hr =
    Reads-bind _ (Reads-when (has_bit f 0) (Reads-word _ r.enabled he))
      (Reads-when (has_bit f 1) (Reads-word _ r.running hr))

counters-Reads :
    (ids : Bool) (cs : List Counter)
    → CountersFit cs
    → Reads
        (ReadFormat.group_values false ids (length cs))
        (counters_bytes ids cs)
        tt
        (counters_lines ids cs)
unfolding ReadFormat.group_values
counters-Reads ids [] fit = Reads-pure
counters-Reads ids (c ∷ cs) fit = Reads-field 8 _ c.value _ fit.0 (
    Reads-bind _ (Reads-when ids (Reads-word _ c.id fit.1))
      (Reads-say _ [] _ (counters-Reads ids cs fit.2)))

events-Reads :
    (v : Option Validate) (n : ℕ) → Reads (ReadFormat.check_events v n) [] tt (events_lines v n)
unfolding ReadFormat.check_events
events-Reads none n = Reads-pure
events-Reads (some v) n = Reads-if-complain (not (widen v.events == n)) _ _

pub group-Reads :
    (f : ℕ) (v : Option Validate) (r : ReadData)
    → GroupFits r
    → Reads (ReadFormat.group_format false f v) (group_bytes f r) tt (group_lines f v r)
unfolding ReadFormat.group_format
group-Reads f v r fit = Reads-field 8 _ (length r.counters) _ (ground (arith, fit.number)) (
    Reads-bind _ (events-Reads v (length r.counters)) (
      Reads-bind _ (times-Reads f r fit.enabled fit.running) (
        Reads-say _ [] _
          (rw (lt→ltb _ _ fit.number) (counters-Reads (has_bit f 2) r.counters fit.counters)))))

chain-Reads :
    (i : ℕ) (ips : List ℕ)
    → AllFit ips
    → Reads (Sample.chain_loop false (length ips) i) (words ips) tt (chain_lines i ips)
unfolding Sample.chain_loop
chain-Reads i [] fit = Reads-pure
chain-Reads i (ip ∷ ips) fit =
    Reads-hidden 8 ip _ fit.0 (Reads-say _ (i ∷ ip ∷ []) _ (chain-Reads (i + 1) ips fit.1))

pub callchain-Reads :
    (ips : List ℕ)
    → AllFit ips
    → length ips < 2 ^ 63
    → Reads (Sample.callchain false) (le_bytes 8 (length ips) ++ words ips) tt (
        printed "\tPERF_SAMPLE_CALLCHAIN, callchain length: %lld\n" (length ips ∷ [])
        ∷ chain_lines 0 ips)
unfolding Sample.callchain
callchain-Reads ips fit h =
    Reads-field 8 _ (length ips) _ (ground (arith, h)) (rw (lt→ltb _ _ h) (chain-Reads 0 ips fit))

Reads-if-say_eq :
    (b c : Bool) (fmt : String)
    → b ≡ c
    → Reads (when b (say false fmt [])) [] tt (optional c (printed fmt [] ∷ []))
Reads-if-say_eq b c fmt e = rw e (Reads-if-say c fmt)

-- The flags behind the first test: bit 1 is cleared under bit 0, and the others stay.
abbrev rest_of : ℕ → ℕ
rest_of f = if has_bit f 0 then (if has_bit f 1 then f - 2 else f) else f

predicted_bit : (f : ℕ) → has_bit (rest_of f) 1 ≡ (not (has_bit f 0) && has_bit f 1)
predicted_bit f = ground arith

bit2 : (f : ℕ) → has_bit (rest_of f) 2 ≡ has_bit f 2
bit2 f = ground arith

bit3 : (f : ℕ) → has_bit (rest_of f) 3 ≡ has_bit f 3
bit3 f = ground arith

flags-Reads : (f : ℕ) → Reads (Sample.branch_flags false f) [] tt (flags_lines f)
unfolding Sample.branch_flags
flags-Reads f = Reads-bind _ (Reads-if-say (f == 0) _) (
    Reads-bind _ (Reads-if-say (has_bit f 0) _) (
      Reads-bind _ (Reads-if-say_eq _ _ _ (predicted_bit f)) (
        Reads-bind _ (Reads-if-say_eq _ _ _ (bit2 f))
          (Reads-bind _ (Reads-if-say_eq _ _ _ (bit3 f)) (Reads-shown "\n" [])))))

low-Reads :
    (v : Option Validate) (from : ℕ) → Reads (Sample.check_branch v from) [] tt (low_lines v from)
unfolding Sample.check_branch
low-Reads none from = Reads-pure
low-Reads (some v) from = Reads-if-complain (ltb from v.branch_low) _ []

branches-Reads :
    (v : Option Validate) (i : ℕ) (bs : List Branch)
    → BranchesFit bs
    → Reads
        (Sample.branch_loop false v (length bs) i)
        (branches_bytes bs)
        tt
        (branches_lines v i bs)
unfolding Sample.branch_loop
branches-Reads v i [] fit = Reads-pure
branches-Reads v i (b ∷ bs) fit = Reads-hidden 8 b.from _ fit.0 (
    Reads-bind _ (low-Reads v b.from) (
      Reads-hidden 8 b.to _ fit.1 (
        Reads-say _ (i ∷ b.from ∷ b.to ∷ []) _ (
          Reads-hidden 8 b.flags _ fit.2
            (Reads-bind _ (flags-Reads b.flags) (branches-Reads v (i + 1) bs fit.3))))))

pub branch_stack-Reads :
    (v : Option Validate) (bs : List Branch)
    → BranchesFit bs
    → length bs < 2 ^ 63
    → Reads (Sample.branch_stack false v) (le_bytes 8 (length bs) ++ branches_bytes bs) tt (
        printed "\tPERF_SAMPLE_BRANCH_STACK, branch_stack entries: %lld\n" (length bs ∷ [])
        ∷ branches_lines v 0 bs)
unfolding Sample.branch_stack
branch_stack-Reads v bs fit h =
    Reads-field 8 _ (length bs) _ (ground (arith, h))
      (rw (lt→ltb _ _ h) (branches-Reads v 0 bs fit))

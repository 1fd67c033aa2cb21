-- ===== src/Record/Hushed/Plain.antt =====
-- The records with a fixed layout, quiet and printed.
use perf_event_tests.Base.{ℕ, String, true, false, List, none, some, Option}
use perf_event_tests.Record.Reader.{say, Done, fail}
use perf_event_tests.Record.Hushed.{Hushed, hushed, Hushed-Prints, Prints, Prints-say, Prints-fail}
use perf_event_tests.Record.Plain
use perf_event_tests.Record.Plain.{c_string}

print_string-Hushed :
    (fmt : String) (s : List ℕ)
    → Hushed (Plain.print_string true fmt s) (Plain.print_string false fmt s)
unfolding Plain.print_string
print_string-Hushed fmt s = Hushed-Prints (shown (c_string s))
  where
    shown :
        (o : Option (List ℕ))
        → Prints {A = Done} (elim o [ none ↦ fail | some t ↦ say false fmt t ])
    shown none = Prints-fail
    shown (some t) = Prints-say fmt t

text-Hushed : (n k : ℕ) (fmt : String) → Hushed (Plain.text true n k fmt) (Plain.text false n k fmt)
unfolding Plain.text
text-Hushed n k fmt = search (hushed, print_string-Hushed) depth 12

ruleset texts = (hushed, text-Hushed)

pub lost-Hushed : Hushed (Plain.lost true) (Plain.lost false)
unfolding Plain.lost
lost-Hushed = search hushed depth 9

pub comm-Hushed : (n : ℕ) → Hushed (Plain.comm true n) (Plain.comm false n)
unfolding Plain.comm
comm-Hushed n = search texts depth 9

pub fork-Hushed : Hushed (Plain.fork true) (Plain.fork false)
unfolding Plain.fork
fork-Hushed = search hushed depth 15

pub exit-Hushed : Hushed (Plain.exit true) (Plain.exit false)
unfolding Plain.exit
exit-Hushed = search hushed depth 15

pub mmap-Hushed : (n : ℕ) → Hushed (Plain.mmap true n) (Plain.mmap false n)
unfolding Plain.mmap
mmap-Hushed n = search texts depth 15

pub mmap2-Hushed : (n : ℕ) → Hushed (Plain.mmap2 true n) (Plain.mmap2 false n)
unfolding Plain.mmap2
mmap2-Hushed n = search texts depth 30

pub throttle-Hushed : Hushed (Plain.throttle true) (Plain.throttle false)
unfolding Plain.throttle
throttle-Hushed = search hushed depth 15

pub aux-Hushed : Hushed (Plain.aux true) (Plain.aux false)
unfolding Plain.aux
aux-Hushed = search hushed depth 25

pub itrace_start-Hushed : Hushed (Plain.itrace_start true) (Plain.itrace_start false)
unfolding Plain.itrace_start
itrace_start-Hushed = search hushed depth 9

pub lost_samples-Hushed : Hushed (Plain.lost_samples true) (Plain.lost_samples false)
unfolding Plain.lost_samples
lost_samples-Hushed = search hushed depth 9

pub switch-Hushed : Hushed (Plain.switch true) (Plain.switch false)
unfolding Plain.switch
switch-Hushed = search hushed depth 9

pub switch_cpu_wide-Hushed : Hushed (Plain.switch_cpu_wide true) (Plain.switch_cpu_wide false)
unfolding Plain.switch_cpu_wide
switch_cpu_wide-Hushed = search hushed depth 12

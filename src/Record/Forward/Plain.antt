-- ===== src/Record/Forward/Plain.antt =====
-- The records with a fixed layout never move the offset back.
use perf_event_tests.Base.{ℕ, String, Bool, true, false, List, none, some, Option}
use perf_event_tests.Record.Reader.{say, Done, fail}
use perf_event_tests.Record.Forward.{Forward, forward}
use perf_event_tests.Record.Plain
use perf_event_tests.Record.Plain.{c_string}

print_string-Forward : (q : Bool) (fmt : String) (s : List ℕ) → Forward (Plain.print_string q fmt s)
unfolding Plain.print_string
print_string-Forward true fmt s = search forward
print_string-Forward false fmt s = shown (c_string s)
  where
    shown :
        (o : Option (List ℕ))
        → Forward {A = Done} (elim o [ none ↦ fail | some t ↦ say false fmt t ])
    shown none = search forward
    shown (some t) = search forward

pub text-Forward : (q : Bool) (n k : ℕ) (fmt : String) → Forward (Plain.text q n k fmt)
unfolding Plain.text
text-Forward q n k fmt = search (forward, print_string-Forward) depth 12

ruleset texts = (forward, text-Forward)

module _ (q : Bool) where
  pub lost-Forward : Forward (Plain.lost q)
  unfolding Plain.lost
  lost-Forward = search forward depth 9

  pub comm-Forward : (n : ℕ) → Forward (Plain.comm q n)
  unfolding Plain.comm
  comm-Forward n = search texts depth 9

  pub fork-Forward : Forward (Plain.fork q)
  unfolding Plain.fork
  fork-Forward = search forward depth 15

  pub exit-Forward : Forward (Plain.exit q)
  unfolding Plain.exit
  exit-Forward = search forward depth 15

  pub mmap-Forward : (n : ℕ) → Forward (Plain.mmap q n)
  unfolding Plain.mmap
  mmap-Forward n = search texts depth 15

  pub mmap2-Forward : (n : ℕ) → Forward (Plain.mmap2 q n)
  unfolding Plain.mmap2
  mmap2-Forward n = search texts depth 30

  pub throttle-Forward : Forward (Plain.throttle q)
  unfolding Plain.throttle
  throttle-Forward = search forward depth 15

  pub aux-Forward : Forward (Plain.aux q)
  unfolding Plain.aux
  aux-Forward = search forward depth 25

  pub itrace_start-Forward : Forward (Plain.itrace_start q)
  unfolding Plain.itrace_start
  itrace_start-Forward = search forward depth 9

  pub lost_samples-Forward : Forward (Plain.lost_samples q)
  unfolding Plain.lost_samples
  lost_samples-Forward = search forward depth 9

  pub switch-Forward : Forward (Plain.switch q)
  unfolding Plain.switch
  switch-Forward = search forward depth 9

  pub switch_cpu_wide-Forward : Forward (Plain.switch_cpu_wide q)
  unfolding Plain.switch_cpu_wide
  switch_cpu_wide-Forward = search forward depth 12

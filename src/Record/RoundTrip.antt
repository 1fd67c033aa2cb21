-- ===== src/Record/RoundTrip.antt =====
-- Each record with a fixed layout is read back as it was written.
use perf_event_tests.Base.{ℕ, false, List, [], ◌∷◌}
use perf_event_tests.Record.Reader.{Reader, Done}
use perf_event_tests.Record.Reads.{Reads, Reads-pure, Reads-field}
use perf_event_tests.Record.Layout.{Member, member, bytes_of, lines_of, Fit}
use perf_event_tests.Record.Plain
use perf_event_tests.Record.Plain.{c_string}

-- The reader `p` reads the members, in that order, and prints each by its format.
abbrev pub ReadsMembers : Reader Done → List Member → Type 0
ReadsMembers p ms = Reads p (bytes_of ms) tt (lines_of ms)

ruleset members = (Reads-field, Reads-pure)

abbrev pub lost_layout : ℕ → ℕ → List Member
lost_layout id lost = member 8 "\tID: %lld\n" id ∷ member 8 "\tLOST: %lld\n" lost ∷ []

pub lost-Reads :
    (id lost : ℕ)
    → Fit (lost_layout id lost)
    → ReadsMembers (Plain.lost false) (lost_layout id lost)
unfolding Plain.lost
lost-Reads id lost fit = search members depth 9

abbrev pub fork_layout : (pid ppid t ptid time : ℕ) → List Member
fork_layout pid ppid t ptid time =
    member 4 "\tPID: %d\n" pid
    ∷ member 4 "\tPPID: %d\n" ppid
    ∷ member 4 "\tTID: %d\n" t
    ∷ member 4 "\tPTID: %d\n" ptid
    ∷ member 8 "\tTime: %lld\n" time
    ∷ []

module _ (pid ppid t ptid time : ℕ) (fit : Fit (fork_layout pid ppid t ptid time)) where
  pub fork-Reads : ReadsMembers (Plain.fork false) (fork_layout pid ppid t ptid time)
  unfolding Plain.fork
  fork-Reads = search members depth 15

  pub exit-Reads : ReadsMembers (Plain.exit false) (fork_layout pid ppid t ptid time)
  unfolding Plain.exit
  exit-Reads = search members depth 15

abbrev pub throttle_layout : (time id stream_id : ℕ) → List Member
throttle_layout time id stream_id =
    member 8 "\tTime: %lld\n" time
    ∷ member 8 "\tID: %lld\n" id
    ∷ member 8 "\tStream ID: %lld\n" stream_id
    ∷ []

pub throttle-Reads :
    (time id stream_id : ℕ)
    → Fit (throttle_layout time id stream_id)
    → ReadsMembers (Plain.throttle false) (throttle_layout time id stream_id)
unfolding Plain.throttle
throttle-Reads time id stream_id fit = search members depth 12

abbrev pub ids_layout : (pid t : ℕ) → List Member
ids_layout pid t = member 4 "\tPID: %d\n" pid ∷ member 4 "\tTID: %d\n" t ∷ []

pub itrace_start-Reads :
    (pid t : ℕ)
    → Fit (ids_layout pid t)
    → ReadsMembers (Plain.itrace_start false) (ids_layout pid t)
unfolding Plain.itrace_start
itrace_start-Reads pid t fit = search members depth 9

abbrev pub lost_samples_layout : (lost id : ℕ) → List Member
lost_samples_layout lost id =
    member 8 "\tLOST: %lld\n" lost ∷ member 8 "\tSAMPLE_ID: %lld\n" id ∷ []

pub lost_samples-Reads :
    (lost id : ℕ)
    → Fit (lost_samples_layout lost id)
    → ReadsMembers (Plain.lost_samples false) (lost_samples_layout lost id)
unfolding Plain.lost_samples
lost_samples-Reads lost id fit = search members depth 9

abbrev pub switch_layout : ℕ → List Member
switch_layout id = member 8 "\tSAMPLE_ID: %lld\n" id ∷ []

pub switch-Reads :
    (id : ℕ) → Fit (switch_layout id) → ReadsMembers (Plain.switch false) (switch_layout id)
unfolding Plain.switch
switch-Reads id fit = search members depth 9

abbrev pub switch_cpu_wide_layout : (pid t id : ℕ) → List Member
switch_cpu_wide_layout pid t id =
    member 4 "\tPREV_PID: %d\n" pid
    ∷ member 4 "\tPREV_TID: %d\n" t
    ∷ member 8 "\tSAMPLE_ID: %lld\n" id
    ∷ []

pub switch_cpu_wide-Reads :
    (pid t id : ℕ)
    → Fit (switch_cpu_wide_layout pid t id)
    → ReadsMembers (Plain.switch_cpu_wide false) (switch_cpu_wide_layout pid t id)
unfolding Plain.switch_cpu_wide
switch_cpu_wide-Reads pid t id fit = search members depth 12

-- ===== src/Report/Main.antt =====
-- fuzzer/active_events.c, `main`: the loop over the lines and the counts of the report.
use perf_event_tests.Base.{
  ℕ, suc, ◌+◌, ◌%◌, Bool, Option, none, some, List, [], ◌∷◌, ◌==◌, if◌then◌else◌, get_elem?,
}
use perf_event_tests.Report.Sscanf.{decimal, sscanf}
use perf_event_tests.Report.Table.{
  EventInfo, printed, error, State, say, mmap_event, munmap_event, open_event, close_event,
  ioctl_event, prctl_event, setup_overflow,
}

-- What a line leads to: a state, and whether it counts as replayed; the early exit; or a fault.
pub data Step : Type 0 where
  goes : (replayed : ℕ) → State → Step
  quits : State → Step
  fault : Step

abbrev pub replayed : Option State → Step
replayed none = fault
replayed (some s) = goes 1 s

-- `sscanf(line,"%*c %d",&original_pid)`: a number that is missing leaves it as it was.
unfoldable pub grab_pid : List ℕ → State → State
grab_pid line s =
    let pid : ℕ = elim (get_elem? (sscanf (decimal 32 ∷ []) line) 0) [
      | none ↦ s.original_pid
      | some n ↦ n
    ] in
    say (printed "Original pid was %d\n" (pid ∷ [])) (record s { original_pid = pid })

-- The switch. `replay_which` is REPLAY_ALL, and the handlers of F, V, p, Q and R are empty.
unfoldable pub dispatch : (c : ℕ) → (line : List ℕ) → State → Step
unfolding grab_pid
dispatch c line s =
    if c == b'A'
    then goes 0 s
    else if c == b'C'
    then replayed (close_event line s)
    else if c == b'F'
    then goes 1 s
    else if c == b'G'
    then goes 0 (grab_pid line s)
    else if c == b'I'
    then replayed (ioctl_event line s)
    else if c == b'M'
    then replayed (mmap_event line s)
    else if c == b'O'
    then replayed (open_event line s)
    else if c == b'o'
    then replayed (setup_overflow line s)
    else if c == b'P'
    then replayed (prctl_event line s)
    else if c == b'V'
    then goes 1 s
    else if c == b'p'
    then goes 1 s
    else if c == b'Q'
    then goes 1 s
    else if c == b'q'
    then quits (say (error "Quitting early\n" []) s)
    else if c == b'R'
    then goes 1 s
    else if c == b'S'
    then goes 0 s
    else if c == b'U'
    then replayed (munmap_event line s)
    else goes 0 (say (error "Line %lld Unknown log type '%c'\n" (s.line_num ∷ c ∷ [])) s)

-- The first character of a line that `fgets` returned.
abbrev pub first : List ℕ → ℕ
first [] = 0
first (c ∷ line) = c

-- Every 1000 lines their number is printed.
unfoldable pub progress : (total : ℕ) → State → State
progress total s = if total % 1000 == 0 then say (printed "%lld\n" (total ∷ [])) s else s

pub data Outcome : Type 0 where
  finished : (replayed total : ℕ) → State → Outcome
  quit : State → Outcome
  crashed : Outcome

unfoldable pub loop : List (List ℕ) → (done total : ℕ) → State → Outcome
unfolding dispatch progress
loop [] done total s = finished done total s
loop (line ∷ lines) done total s =
    elim (dispatch (first line) line (record s { line_num = suc s.line_num })) [
      | fault ↦ crashed
      | quits s' ↦ quit s'
      | goes n s' ↦ loop lines (done + n) (suc total) (progress (suc total) s')
    ]

abbrev pub one_if : Bool → ℕ
one_if b = if b then 1 else 0

-- `total_opened` and `total_active`.
abbrev pub total_opened : List EventInfo → ℕ
total_opened [] = 0
total_opened (e ∷ es) = one_if e.opened + total_opened es

abbrev pub total_active : List EventInfo → ℕ
total_active [] = 0
total_active (e ∷ es) = one_if e.enabled + total_active es

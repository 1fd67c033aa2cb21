-- ===== src/Report/Refines.antt =====
-- fuzzer/active_events.c, `main`: the loop, and the set of the open fds.
use perf_event_tests.Base.{
  ℕ, suc, ◌+◌, ◌≡◌, refl, ap, ◌∙◌, inl, inr, Bool, true, false, Bool-cases, Option, none, some,
  List, [], ◌∷◌, arith, ◌==◌, if◌then◌else◌, length, ◌⊎◌,
}
use perf_event_tests.Report.Table.{State}
use perf_event_tests.Report.Main.{
  Step, goes, quits, fault, replayed, grab_pid, dispatch, first, progress, finished, loop,
}
use perf_event_tests.Report.Opened.{
  is_opened, opens_fd, closes_fd, mmap-opened, munmap-opened, open-opened, close-opened,
  ioctl-opened, prctl-opened, overflow-opened,
}

-- What a line says of an fd: only an "O" and a "C" line do.
abbrev pub says : List ℕ → ℕ → Bool → Bool
says line fd before =
    if first line == b'C'
    then closes_fd line fd before
    else if first line == b'O'
    then opens_fd line fd before
    else before

abbrev pub all_say : List (List ℕ) → ℕ → Bool → Bool
all_say [] fd before = before
all_say (line ∷ lines) fd before = all_say lines fd (says line fd before)

replayed-goes : (o : Option State) (n : ℕ) (s : State) → replayed o ≡ goes n s → o ≡ some s
replayed-goes none n s h = absurd (ground (arith, h))
replayed-goes (some t) n s h = ground (arith, h)

branch :
    {P : Type 0} (b : Bool) (x y : Step) (n : ℕ) (s : State)
    → (b ≡ true → x ≡ goes n s → P)
    → (b ≡ false → y ≡ goes n s → P)
    → (if b then x else y) ≡ goes n s
    → P
branch true x y n s yes_case no_case h = yes_case refl h
branch false x y n s yes_case no_case h = no_case refl h

module _ (c : ℕ) (line : List ℕ) (fd n : ℕ) (s s' : State) where
  same :
      (m : ℕ) (t : State)
      → is_opened fd t ≡ is_opened fd s
      → goes m t ≡ goes n s'
      → is_opened fd s' ≡ is_opened fd s
  same m t e h = ground (arith, e, h)

  replays :
      (o : Option State)
      → (o ≡ some s' → is_opened fd s' ≡ is_opened fd s)
      → replayed o ≡ goes n s'
      → is_opened fd s' ≡ is_opened fd s
  replays o k h = k (replayed-goes o n s' h)

  other_lines :
      (c == b'C') ≡ false
      → (c == b'O') ≡ false
      → dispatch c line s ≡ goes n s'
      → is_opened fd s' ≡ is_opened fd s
  unfolding dispatch grab_pid
  other_lines not_c not_o =
      branch (c == b'A') _ _ n s' (λ _. same 0 s refl)
        λ _.
          branch (c == b'C') _ _ n s' (λ e _. absurd (ground (arith, e, not_c)))
            λ _.
              branch (c == b'F') _ _ n s' (λ _. same 1 s refl)
                λ _.
                  branch (c == b'G') _ _ n s' (λ _ h. ground (arith, h))
                    λ _.
                      branch (c == b'I') _ _ n s' (λ _. replays _ (ioctl-opened line fd s s'))
                        λ _.
                          branch (c == b'M') _ _ n s' (λ _. replays _ (mmap-opened line fd s s'))
                            λ _.
                              branch (c == b'O') _ _ n s' (λ e _. absurd (ground (arith, e, not_o)))
                                λ _.
                                  branch (c == b'o') _ _ n s'
                                    (λ _. replays _ (overflow-opened line fd s s'))
                                    λ _.
                                      branch (c == b'P') _ _ n s'
                                        (λ _. replays _ (prctl-opened line fd s s'))
                                        λ _.
                                          branch (c == b'V') _ _ n s' (λ _. same 1 s refl)
                                            λ _.
                                              branch (c == b'p') _ _ n s' (λ _. same 1 s refl)
                                                λ _.
                                                  branch (c == b'Q') _ _ n s' (λ _. same 1 s refl)
                                                    λ _.
                                                      branch (c == b'q') _ _ n s'
                                                        (λ _ h. absurd (ground (arith, h)))
                                                        λ _.
                                                          branch (c == b'R') _ _ n s'
                                                            (λ _. same 1 s refl)
                                                            λ _.
                                                            branch (c == b'S') _ _ n s'
                                                            (λ _. same 0 s refl)
                                                            λ _.
                                                            branch (c == b'U') _ _ n s'
                                                            (λ _.
                                                            replays _ (munmap-opened line fd s s'))
                                                            (λ _ h. ground (arith, h))

  close_line :
      (c == b'C') ≡ true
      → dispatch c line s ≡ goes n s'
      → is_opened fd s' ≡ closes_fd line fd (is_opened fd s)
  unfolding dispatch
  close_line is_c =
      branch (c == b'A') _ _ n s' (λ e _. absurd (ground (arith, e, is_c)))
        λ _.
          branch (c == b'C') _ _ n s' (λ _ h. close-opened line fd s s' (replayed-goes _ n s' h))
            (λ e _. absurd (ground (arith, e, is_c)))

  open_line :
      (c == b'O') ≡ true
      → dispatch c line s ≡ goes n s'
      → is_opened fd s' ≡ opens_fd line fd (is_opened fd s)
  unfolding dispatch
  open_line is_o =
      branch (c == b'A') _ _ n s' (λ e _. absurd (ground (arith, e, is_o)))
        λ _.
          branch (c == b'C') _ _ n s' (λ e _. absurd (ground (arith, e, is_o)))
            λ _.
              branch (c == b'F') _ _ n s' (λ e _. absurd (ground (arith, e, is_o)))
                λ _.
                  branch (c == b'G') _ _ n s' (λ e _. absurd (ground (arith, e, is_o)))
                    λ _.
                      branch (c == b'I') _ _ n s' (λ e _. absurd (ground (arith, e, is_o)))
                        λ _.
                          branch (c == b'M') _ _ n s' (λ e _. absurd (ground (arith, e, is_o)))
                            λ _.
                              branch (c == b'O') _ _ n s'
                                (λ _ h. open-opened line fd s s' (replayed-goes _ n s' h))
                                (λ e _. absurd (ground (arith, e, is_o)))

dispatch-says :
    (line : List ℕ) (fd n : ℕ) (s s' : State)
    → dispatch (first line) line s ≡ goes n s'
    → is_opened fd s' ≡ says line fd (is_opened fd s)
dispatch-says line fd n s s' h = elim (Bool-cases (first line == b'C')) [
  | inl is_c ↦ ground (arith, is_c, close_line (first line) line fd n s s' is_c h)
  | inr not_c ↦ elim (Bool-cases (first line == b'O')) [
    | inl is_o ↦ ground (arith, not_c, is_o, open_line (first line) line fd n s s' is_o h)
    | inr not_o ↦
        ground (arith, not_c, not_o, other_lines (first line) line fd n s s' not_c not_o h)
  ]
]

progress-opened : (total fd : ℕ) (s : State) → is_opened fd (progress total s) ≡ is_opened fd s
unfolding progress
progress-opened total fd s = ground arith

Step-cases :
    (x : Step)
    → (x ≡ fault) ⊎ ((s : State) × (x ≡ quits s)) ⊎ ((n : ℕ) × (s : State) × (x ≡ goes n s))
Step-cases fault = inl refl
Step-cases (quits s) = inr (inl (s, refl))
Step-cases (goes n s) = inr (inr (n, s, refl))

-- Where the whole log is read, whether an fd is open at the end is what the lines say in their order: an
-- "O" line of the fd, in range, opens it, a "C" line of it closes it, and no other line changes it. Each
-- line is counted.
pub loop-says :
    (lines : List (List ℕ)) (fd done total done' total' : ℕ) (s s' : State)
    → loop lines done total s ≡ finished done' total' s'
    → (is_opened fd s' ≡ all_say lines fd (is_opened fd s)) × (total' ≡ total + length lines)
unfolding loop
loop-says [] fd done total done' total' s s' h = ground (arith, h)
loop-says (line ∷ lines) fd done total done' total' s s' h =
    let s1 = record s { line_num = suc s.line_num } in
    elim (Step-cases (dispatch (first line) line s1)) [
      | inl e ↦ absurd (ground (arith, h, e))
      | inr (inl (t, e)) ↦ absurd (ground (arith, h, e))
      | inr (inr (n, t, e)) ↦
          let here = dispatch-says line fd n s1 t e in
          let rest =
            loop-says lines fd (done + n) (suc total) done' total' (progress (suc total) t) s'
              (ground (arith, h, e)) in
          (
            rest.0 ∙ ap (all_say lines fd) (progress-opened (suc total) fd t ∙ here),
            omega (arith, rest.1),
          )
    ]

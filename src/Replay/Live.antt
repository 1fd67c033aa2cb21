-- ===== src/Replay/Live.antt =====
-- The fds of the table are open in the kernel, each for one entry only.
pub mod Events
pub mod Opens
pub mod Runs
use perf_event_tests.Base.{
  ℕ, zero, suc, ◌<◌, ◌≡◌, ◌≢◌, ◌⊎◌, refl, sym, ap, ◌∙◌, subst, inl, inr, Bool, Bool-cases, true,
  false, Option, none, some, List, [], ◌∷◌, arith, ◌==◌, if◌then◌else◌, get_elem?, set,
}
use perf_event_tests.Report.Scan.{Attr}
use perf_event_tests.Replay.State.{
  EventType, Call, opened, closed, mapped, unmapped, controlled, read_from, signals_on, wrote,
  forked, killed, enabled_all, disabled_all, minus_one,
}

-- What the calls before have made of an fd: the last one first.
abbrev pub is_open : (fd : ℕ) → List Call → Bool
is_open fd [] = false
is_open fd (opened _ _ _ _ _ result ∷ cs) =
    let rest = is_open fd cs in if result == fd then true else rest
is_open fd (closed g ∷ cs) = let rest = is_open fd cs in if g == fd then false else rest
is_open fd (mapped _ _ _ ∷ cs) = is_open fd cs
is_open fd (unmapped _ _ ∷ cs) = is_open fd cs
is_open fd (controlled _ _ _ ∷ cs) = is_open fd cs
is_open fd (read_from _ _ ∷ cs) = is_open fd cs
is_open fd (signals_on _ ∷ cs) = is_open fd cs
is_open fd (wrote _ _ _ ∷ cs) = is_open fd cs
is_open fd (forked _ ∷ cs) = is_open fd cs
is_open fd (killed _ ∷ cs) = is_open fd cs
is_open fd (enabled_all ∷ cs) = is_open fd cs
is_open fd (disabled_all ∷ cs) = is_open fd cs

-- No fd was closed that was not open.
abbrev pub Clean : List Call → Type 0
Clean [] = Unit {0}
Clean (closed g ∷ cs) = (is_open g cs ≡ true) × Clean cs
Clean (opened _ _ _ _ _ _ ∷ cs) = Clean cs
Clean (mapped _ _ _ ∷ cs) = Clean cs
Clean (unmapped _ _ ∷ cs) = Clean cs
Clean (controlled _ _ _ ∷ cs) = Clean cs
Clean (read_from _ _ ∷ cs) = Clean cs
Clean (signals_on _ ∷ cs) = Clean cs
Clean (wrote _ _ _ ∷ cs) = Clean cs
Clean (forked _ ∷ cs) = Clean cs
Clean (killed _ ∷ cs) = Clean cs
Clean (enabled_all ∷ cs) = Clean cs
Clean (disabled_all ∷ cs) = Clean cs

-- `table` has the `fd_remap` of each entry.
pub record Live (table : List ℕ) (calls : List Call) : Type 0 where
  pub are_open : (i fd : ℕ) → get_elem? table i ≡ some fd → fd ≢ minus_one → is_open fd calls ≡ true
  pub are_distinct :
      (i j fd : ℕ)
      → get_elem? table i ≡ some fd
      → get_elem? table j ≡ some fd
      → fd ≢ minus_one
      → i ≡ j
  pub clean : Clean calls

set_cases :
    (l : List ℕ) (i j b x : ℕ)
    → get_elem? (set l i b) j ≡ some x
    → ((j ≡ i) × (x ≡ b)) ⊎ ((j ≢ i) × (get_elem? l j ≡ some x))
set_cases [] i j b x h = absurd (ground (arith, h))
set_cases (a ∷ l) zero zero b x h = inl (refl, ap (λ o. elim o [ none ↦ x | some y ↦ y ]) (sym h))
set_cases (a ∷ l) zero (suc j) b x h = inr (λ e. absurd (omega (arith, e)), h)
set_cases (a ∷ l) (suc i) zero b x h = inr (λ e. absurd (omega (arith, e)), h)
set_cases (a ∷ l) (suc i) (suc j) b x h = elim (set_cases l i j b x h) [
  | inl (same, new) ↦ inl (ap suc same, new)
  | inr (other, old) ↦ inr (λ e. other (omega (arith, e)), old)
]

-- A call that opens and closes nothing.
pub Live-quiet :
    (c : Call) (table : List ℕ) (cs : List Call)
    → ((fd : ℕ) → is_open fd (c ∷ cs) ≡ is_open fd cs)
    → Clean (c ∷ cs) ≡ Clean cs
    → Live table cs
    → Live table (c ∷ cs)
Live-quiet c table cs same clean h = record {
  are_open = λ i fd at valid. same fd ∙ h.are_open i fd at valid;
  are_distinct = h.are_distinct;
  clean = subst (λ (T : Type 0). T) (sym clean) h.clean;
}

module _ (pe : Attr) (pid cpu group flags result : ℕ) (table : List ℕ) (cs : List Call) where
  still_open :
      (fd : ℕ)
      → is_open fd cs ≡ true
      → is_open fd (opened pe pid cpu group flags result ∷ cs) ≡ true
  still_open fd h = ground (arith, h)

  pub Live-refused : Live table cs → Live table (opened pe pid cpu group flags result ∷ cs)
  Live-refused h = record {
    are_open = λ i fd at valid. still_open fd (h.are_open i fd at valid);
    are_distinct = h.are_distinct;
    clean = h.clean;
  }

  pub Live-opened :
      (i : ℕ)
      → is_open result cs ≡ false
      → Live table cs
      → Live (set table i result) (opened pe pid cpu group flags result ∷ cs)
  Live-opened i fresh h = record {
    are_open = λ j fd at valid. elim (set_cases table i j result fd at) [
      | inl (same, new) ↦ ground (arith, new)
      | inr (other, old) ↦ still_open fd (h.are_open j fd old valid)
    ];
    are_distinct = λ j k fd first second valid. elim (set_cases table i j result fd first) [
      | inl (same, new) ↦ elim (set_cases table i k result fd second) [
        | inl (same', new') ↦ same ∙ sym same'
        | inr (other', old') ↦ absurd (taken fd k new old' valid)
      ]
      | inr (other, old) ↦ elim (set_cases table i k result fd second) [
        | inl (same', new') ↦ absurd (taken fd j new' old valid)
        | inr (other', old') ↦ h.are_distinct j k fd old old' valid
      ]
    ];
    clean = h.clean;
  }
    where
      taken : (fd k : ℕ) → fd ≡ result → get_elem? table k ≡ some fd → fd ≢ minus_one → ⊥
      taken fd k new old valid = ground (arith, h.are_open k fd old valid, new, fresh)

pub Live-closed :
    (table : List ℕ) (cs : List Call) (i g : ℕ)
    → get_elem? table i ≡ some g
    → g ≢ minus_one
    → Live table cs
    → Live (set table i minus_one) (closed g ∷ cs)
Live-closed table cs i g here valid_g h = record {
  are_open = λ j fd at valid. elim (set_cases table i j minus_one fd at) [
    | inl (same, new) ↦ absurd (valid new)
    | inr (other, old) ↦ elim (Bool-cases (g == fd)) [
      | inl same ↦
          absurd (other (h.are_distinct j i fd old (here ∙ ap some (ground (arith, same))) valid))
      | inr different ↦ ground (arith, different, h.are_open j fd old valid)
    ]
  ];
  are_distinct = λ j k fd first second valid. elim (set_cases table i j minus_one fd first) [
    | inl (same, new) ↦ absurd (valid new)
    | inr (other, old) ↦ elim (set_cases table i k minus_one fd second) [
      | inl (same', new') ↦ absurd (valid new')
      | inr (other', old') ↦ h.are_distinct j k fd old old' valid
    ]
  ];
  clean = (h.are_open i g here valid_g, h.clean);
}

-- ===== src/Report/Opened.antt =====
-- fuzzer/active_events.c: the open fds, seen as what the last line that opens or closes an fd says.
use perf_event_tests.Base.{
  ℕ, zero, suc, ◌≡◌, refl, inl, inr, Bool, true, false, not, Bool-cases, Option-cases, none, some,
  List, [], ◌∷◌, arith, leb, ◌==◌, if◌then◌else◌, get_elem?, set,
}
use perf_event_tests.Report.Sscanf.{decimal, sscanf}
use perf_event_tests.Report.Scan.{parse_open_event}
use perf_event_tests.Report.Table.{
  copied, EventInfo, State, switch_all, max_events, mmap_event, munmap_event, open_event,
  close_event, ioctl_event, prctl_event, setup_overflow,
}

abbrev pub opened_in : List EventInfo → ℕ → Bool
opened_in [] fd = false
opened_in (e ∷ es) zero = e.opened
opened_in (e ∷ es) (suc fd) = opened_in es fd

abbrev pub is_opened : ℕ → State → Bool
is_opened fd s = opened_in s.event_info fd

opened_in-set :
    (l : List EventInfo) (k fd : ℕ) (e e' : EventInfo)
    → get_elem? l k ≡ some e
    → opened_in (set l k e') fd ≡ (if k == fd then e'.opened else opened_in l fd)
opened_in-set [] k fd e e' h = absurd (ground (arith, h))
opened_in-set (x ∷ l) zero zero e e' h = refl
opened_in-set (x ∷ l) zero (suc fd) e e' h = ground arith
opened_in-set (x ∷ l) (suc k) zero e e' h = ground arith
opened_in-set (x ∷ l) (suc k) (suc fd) e e' h = ground (arith, opened_in-set l k fd e e' h)

opened_in-get_elem? :
    (l : List EventInfo) (k : ℕ) (e : EventInfo) → get_elem? l k ≡ some e → opened_in l k ≡ e.opened
opened_in-get_elem? [] k e h = absurd (ground (arith, h))
opened_in-get_elem? (x ∷ l) zero e h = ground (arith, h)
opened_in-get_elem? (x ∷ l) (suc k) e h = opened_in-get_elem? l k e h

-- A row that is rewritten with the same `opened`.
kept :
    (l : List EventInfo) (k fd : ℕ) (e e' : EventInfo)
    → get_elem? l k ≡ some e
    → e'.opened ≡ e.opened
    → opened_in (set l k e') fd ≡ opened_in l fd
kept [] k fd e e' h same = absurd (ground (arith, h))
kept (x ∷ l) zero zero e e' h same = ground (arith, h, same)
kept (x ∷ l) zero (suc fd) e e' h same = refl
kept (x ∷ l) (suc k) zero e e' h same = refl
kept (x ∷ l) (suc k) (suc fd) e e' h same = kept l k fd e e' h same

opened_in-switch_all :
    (b : Bool) (l : List EventInfo) (fd : ℕ) → opened_in (switch_all b l) fd ≡ opened_in l fd
opened_in-switch_all b [] fd = refl
opened_in-switch_all b (e ∷ l) zero = refl
opened_in-switch_all b (e ∷ l) (suc fd) = opened_in-switch_all b l fd

-- What a line says of an fd that was open or not before. Only a line that opens or closes the fd says
-- anything.
abbrev pub opens_fd : List ℕ → ℕ → Bool → Bool
opens_fd line fd before = elim (parse_open_event line) [
  | none ↦ before
  | some o ↦ if leb max_events o.orig_fd then before else if o.orig_fd == fd then true else before
]

abbrev pub closes_fd : List ℕ → ℕ → Bool → Bool
closes_fd line fd before = elim (get_elem? (sscanf (decimal 32 ∷ []) line) 0) [
  | none ↦ before
  | some k ↦ if k == fd then false else before
]

module _ (line : List ℕ) (fd : ℕ) (s s' : State) where
  pub mmap-opened : mmap_event line s ≡ some s' → is_opened fd s' ≡ is_opened fd s
  unfolding mmap_event
  mmap-opened h =
      let v = sscanf (decimal 32 ∷ (decimal 32 ∷ [])) line in
      elim (Option-cases (get_elem? v 0)) [
        | inl e ↦ absurd (ground (arith, h, e))
        | inr (size, es) ↦ elim (Option-cases (get_elem? v 1)) [
          | inl e ↦ absurd (ground (arith, h, es, e))
          | inr (k, ek) ↦ elim (Option-cases (get_elem? s.event_info k)) [
            | inl e ↦ absurd (ground (arith, h, es, ek, e))
            | inr (e, ee) ↦
                ground (
                  arith,
                  h,
                  es,
                  ek,
                  ee,
                  kept s.event_info k fd e (record e { mmap = true }) ee refl,
                )
          ]
        ]
      ]

  pub open-opened :
      open_event line s ≡ some s' → is_opened fd s' ≡ opens_fd line fd (is_opened fd s)
  unfolding open_event
  open-opened h = elim (Option-cases (parse_open_event line)) [
    | inl e ↦ absurd (ground (arith, h, e))
    | inr (o, eo) ↦ elim (Bool-cases (leb max_events o.orig_fd)) [
      | inl out ↦ ground (arith, h, eo, out)
      | inr inside ↦ elim (Option-cases (get_elem? s.event_info o.orig_fd)) [
        | inl e ↦ absurd (ground (arith, h, eo, inside, e))
        | inr (e, ee) ↦ ground (
          arith,
          h,
          eo,
          inside,
          ee,
          opened_in-set s.event_info o.orig_fd fd e
              (record {
                opened = true;
                enabled = not (o.attr.enable_on_exec == 0);
                mmap = false;
                signal_handler = false;
                pid = o.pid;
                cpu = o.cpu;
                group_fd = o.group_fd;
                flags = o.flags;
                attr = copied e.attr o.attr;
              })
              ee,
        )
      ]
    ]
  ]

  pub close-opened :
      close_event line s ≡ some s' → is_opened fd s' ≡ closes_fd line fd (is_opened fd s)
  unfolding close_event
  close-opened h = elim (Option-cases (get_elem? (sscanf (decimal 32 ∷ []) line) 0)) [
    | inl e ↦ absurd (ground (arith, h, e))
    | inr (k, ek) ↦ elim (Option-cases (get_elem? s.event_info k)) [
      | inl e ↦ absurd (ground (arith, h, ek, e))
      | inr (e, ee) ↦
          let shut = record e {
            opened = false;
            enabled = false;
            mmap = false;
            signal_handler = false;
          } in
          ground (
            arith,
            h,
            ek,
            ee,
            opened_in-set s.event_info k fd e shut ee,
            opened_in-get_elem? s.event_info k e ee,
          )
    ]
  ]

  pub munmap-opened : munmap_event line s ≡ some s' → is_opened fd s' ≡ is_opened fd s
  unfolding munmap_event
  munmap-opened h = ground (arith, h)

  pub ioctl-opened : ioctl_event line s ≡ some s' → is_opened fd s' ≡ is_opened fd s
  unfolding ioctl_event
  ioctl-opened h =
      let v = sscanf (decimal 32 ∷ (decimal 32 ∷ (decimal 32 ∷ []))) line in
      elim (Option-cases (get_elem? v 1)) [
        | inl e ↦ absurd (ground (arith, h, e))
        | inr (arg, ea) ↦ elim (Option-cases (get_elem? v 0)) [
          | inl e ↦ absurd (ground (arith, h, ea, e))
          | inr (k, ek) ↦ elim (Option-cases (get_elem? s.event_info k)) [
            | inl e ↦ ground (arith, h, ea, ek, e)
            | inr (e, ee) ↦ ground (
              arith,
              h,
              ea,
              ek,
              ee,
              kept s.event_info k fd e (record e { enabled = arg == 0x2400 }) ee refl,
            )
          ]
        ]
      ]

  pub prctl-opened : prctl_event line s ≡ some s' → is_opened fd s' ≡ is_opened fd s
  unfolding prctl_event
  prctl-opened h = ground (
    arith,
    h,
    opened_in-switch_all true s.event_info fd,
    opened_in-switch_all false s.event_info fd,
  )

  pub overflow-opened : setup_overflow line s ≡ some s' → is_opened fd s' ≡ is_opened fd s
  unfolding setup_overflow
  overflow-opened h = elim (Option-cases (get_elem? (sscanf (decimal 32 ∷ []) line) 0)) [
    | inl e ↦ absurd (ground (arith, h, e))
    | inr (k, ek) ↦ elim (Option-cases (get_elem? s.event_info k)) [
      | inl e ↦ absurd (ground (arith, h, ek, e))
      | inr (e, ee) ↦
          ground (
            arith,
            h,
            ek,
            ee,
            kept s.event_info k fd e (record e { signal_handler = true }) ee refl,
          )
    ]
  ]

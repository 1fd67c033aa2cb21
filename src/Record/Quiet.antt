-- ===== src/Record/Quiet.antt =====
-- lib/parse_record.c, `quiet`: a parser that prints nothing takes the same records and reports the
-- same errors.
use perf_event_tests.Base.{
  ℕ, zero, suc, ◌≡◌, refl, inl, inr, Bool, true, false, Bool-cases, Option-cases, List, arith, ltb,
}
use perf_event_tests.Record.Reader.{Line}
use perf_event_tests.Record.Hushed.{
  errors, errors-append, Hushed, hushed, Hushed-bind, Hushed-Prints, Prints, prints,
}
use perf_event_tests.Record.Hushed.Plain
use perf_event_tests.Record.Hushed.Sample
use perf_event_tests.Record.Header.{Header, print_type, print_cpumode, print_alias, print_header}
use perf_event_tests.Record.Sample.{Settings}
use perf_event_tests.Record.Mmap
use perf_event_tests.Record.Mmap.{Parse, finished, fault, out_of_fuel, one_more, parse_loop}

abbrev pub with_quiet : Bool → Settings → Settings
with_quiet q s = record s { quiet = q }

ruleset members = (
  hushed, Sample.tid-Hushed, Sample.cpu-Hushed, Sample.read_values-Hushed, Sample.callchain-Hushed,
  Sample.raw-Hushed, Sample.branch_stack-Hushed, Sample.regs_user-Hushed, Sample.regs_intr-Hushed,
  Sample.stack_user-Hushed, Sample.data_source-Hushed,
)

module _ (s : Settings) where
  sample-Hushed : Hushed (Mmap.sample (with_quiet true s)) (Mmap.sample (with_quiet false s))
  unfolding Mmap.sample Mmap.sample_head Mmap.sample_blocks Mmap.sample_tail
  sample-Hushed = search members depth 80

  details-Hushed :
      (size : ℕ) (event : Header)
      → Hushed
          (Mmap.details (with_quiet true s) size event)
          (Mmap.details (with_quiet false s) size event)
  unfolding Mmap.details
  details-Hushed size event =
      search
        (
          hushed, sample-Hushed, Plain.lost-Hushed, Plain.comm-Hushed, Plain.fork-Hushed,
          Plain.mmap-Hushed, Plain.mmap2-Hushed, Plain.exit-Hushed, Plain.throttle-Hushed,
          Plain.aux-Hushed, Plain.itrace_start-Hushed, Plain.lost_samples-Hushed,
          Plain.switch-Hushed, Plain.switch_cpu_wide-Hushed,
        )
        depth 40

print_header-Prints : (event : Header) (n : ℕ) → Prints (print_header event n)
unfolding print_header print_type print_cpumode print_alias
print_header-Prints event n = search prints depth 60

one_more-quiet :
    (log : List Line) (p q : Parse)
    → ((n : ℕ) (l : List Line) → p ≡ finished n l → q ≡ finished n (errors l))
    → (n : ℕ) (l : List Line) → one_more log p ≡ finished n l
    → one_more (errors log) q ≡ finished n (errors l)
one_more-quiet log (finished k m) q h n l e = ground (arith, h k m refl, errors-append log m)
one_more-quiet log fault q h n l e = absurd (ground arith)
one_more-quiet log out_of_fuel q h n l e = absurd (ground arith)

module _ (s : Settings) where
  record_at-Hushed :
      (size : ℕ)
      → Hushed (Mmap.record_at (with_quiet true s) size) (Mmap.record_at (with_quiet false s) size)
  unfolding Mmap.record_at
  record_at-Hushed size = Hushed-bind _ _ (search hushed) λ t.
      Hushed-bind _ _ (search hushed) λ misc. Hushed-bind _ _ (search hushed) λ n.
        Hushed-bind _ _
          (Hushed-Prints
            (print_header-Prints (record { type = t; misc = misc; size = n }) s.sample_type))
          λ _.
            Hushed-bind _ _ (search hushed)
              λ _. details-Hushed s size (record { type = t; misc = misc; size = n })

  -- Where the parser that prints ends by its test, the quiet one ends after as many records, and
  -- reports exactly the errors of the other.
  pub parse_loop_quiet :
      (size fuel off : ℕ) (buf : List ℕ) (n : ℕ) (log : List Line)
      → parse_loop (with_quiet false s) size fuel buf off ≡ finished n log
      → parse_loop (with_quiet true s) size fuel buf off ≡ finished n (errors log)
  unfolding parse_loop
  parse_loop_quiet size zero off buf n log h = absurd (ground (arith, h))
  parse_loop_quiet size (suc fuel) off buf n log h = elim (Bool-cases (ltb off size)) [
    | inr at_end ↦ ground (arith, h)
    | inl more ↦ elim (Option-cases (Mmap.record_at (with_quiet false s) size buf off)) [
      | inl stuck ↦ absurd (ground (arith, h))
      | inr ((a, end, front), e) ↦
          let quiet = (record_at-Hushed size).run buf off a end front e in
          let rest =
            one_more-quiet front (parse_loop (with_quiet false s) size fuel buf end)
              (parse_loop (with_quiet true s) size fuel buf end)
              (parse_loop_quiet size fuel end buf) n log in
          ground (arith, h, rest)
    ]
  ]

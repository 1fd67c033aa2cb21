-- ===== src/Record/Termination.antt =====
-- The loop of `perf_mmap_read` ends, unless the samples carry raw data.
use perf_event_tests.Base.{
  ℕ, zero, suc, ◌+◌, ◌-◌, ◌≤◌, ◌<◌, ◌≡◌, ◌≢◌, refl, ◌⊎◌, inl, inr, Bool, true, false, some,
  Option-cases, Bool-cases, List, [], ◌∷◌, arith, ltb, has_bit, if◌then◌else◌,
}
use perf_event_tests.Record.Reader.{Line, Reader, Done, ◌>>=◌, jump, say}
use perf_event_tests.Record.Inversion.{bind-Steps}
use perf_event_tests.Record.Forward.{Advances, Forward, forward, Advances-skip}
use perf_event_tests.Record.Forward.Plain
use perf_event_tests.Record.Forward.Sample
use perf_event_tests.Record.Header.{Header, print_header}
use perf_event_tests.Record.Sample.{Settings}
use perf_event_tests.Record.Mmap.{
  Parse, finished, fault, out_of_fuel, one_more, sample, details, record_at, parse_loop,
}

abbrev pub NoRaw : Settings → Type 0
NoRaw s = has_bit s.sample_type 10 ≡ false

print_header-Forward : (event : Header) (n : ℕ) → Forward (print_header event n)
unfolding print_header
print_header-Forward event n = search forward depth 30

Forward-off :
    {b : Bool} (p : Reader Done) {q : Reader Done}
    → b ≡ false
    → Forward q
    → Forward (if b then p else q)
Forward-off p e h = rw e h

sample-Forward : (s : Settings) → NoRaw s → Forward (sample s)
unfolding sample
sample-Forward s no_raw =
    search
      (
        Forward-off, forward, Sample.tid-Forward, Sample.cpu-Forward, Sample.read_values-Forward,
        Sample.callchain-Forward, Sample.branch_stack-Forward, Sample.regs_user-Forward,
        Sample.regs_intr-Forward, Sample.stack_user-Forward, Sample.data_source-Forward,
      )
      depth 40

-- `p` moves the offset by `n` bytes at least, or to the end of the new bytes.
record Progresses (size n : ℕ) (p : Reader Done) : Type 0 where
  run :
      (buf : List ℕ) (off : ℕ) (a : Done) (end : ℕ) (log : List Line)
      → p buf off ≡ some (a, end, log)
      → (off + n ≤ end) ⊎ (end ≡ size)

module _ {size : ℕ} where
  of_Advances : {n : ℕ} {p : Reader Done} → Advances n p → Progresses size n p
  of_Advances h = record { run = λ buf off a end log e. inl (h.run buf off a end log e) }

  Progresses-if :
      (b : Bool) {n : ℕ} {p q : Reader Done}
      → Progresses size n p
      → Progresses size n q
      → Progresses size n (if b then p else q)
  Progresses-if true h k = h
  Progresses-if false h k = k

  Progresses-bind :
      {A : Type 0} (k n : ℕ) (m : Reader A) (f : A → Reader Done)
      → Advances k m
      → ((a : A) → Progresses size n (f a))
      → Progresses size (k + n) (m >>= f)
  Progresses-bind k n m f hm hf = record {
    run = λ buf off b end log e.
        let s = bind-Steps m f buf off b end log e in
        let p = hm.run buf off s.a s.mid s.front s.first in
        let q = (hf s.a).run buf s.mid b end s.back s.second in omega arith;
  }

  Progresses-jump : (n : ℕ) → Progresses size n (jump size)
  unfolding jump
  Progresses-jump n = record { run = λ buf off b end log e. inr (ground arith) }

details-Progresses :
    (s : Settings)
    → NoRaw s
    → (size : ℕ) (event : Header) → Progresses size 0 (details s size event)
unfolding details
details-Progresses s no_raw size event =
    search
      (
        Progresses-if, of_Advances, Plain.lost-Forward, Plain.comm-Forward, Plain.fork-Forward,
        Plain.mmap-Forward, Plain.mmap2-Forward, Plain.exit-Forward, Plain.throttle-Forward,
        sample-Forward, Plain.aux-Forward, Plain.itrace_start-Forward, Plain.lost_samples-Forward,
        Plain.switch-Forward, Plain.switch_cpu_wide-Forward, unknown,
      )
      depth 40
  where
    unknown :
        (n : ℕ) → Progresses size 0 (say s.quiet "\tUnknown type %d\n" (n ∷ []) >>= λ _. jump size)
    unknown n =
        Progresses-bind 0 0 (say s.quiet "\tUnknown type %d\n" (n ∷ [])) (λ _. jump size)
          (search forward) λ _. Progresses-jump 0

record_at-Progresses : (s : Settings) → NoRaw s → (size : ℕ) → Progresses size 8 (record_at s size)
unfolding record_at
record_at-Progresses s no_raw size = Progresses-bind 0 8 _ _ (search forward) λ t.
    Progresses-bind 0 8 _ _ (search forward) λ misc. Progresses-bind 0 8 _ _ (search forward) λ n.
      Progresses-bind 0 8 _ _ (search (forward, print_header-Forward)) λ _.
        Progresses-bind 8 0 _ _ (Advances-skip 8)
          λ _. details-Progresses s no_raw size (record { type = t; misc = misc; size = n })

one_more-ne : (log : List Line) (p : Parse) → p ≢ out_of_fuel → one_more log p ≢ out_of_fuel
one_more-ne log (finished n l) h e = cc
one_more-ne log fault h e = cc
one_more-ne log out_of_fuel h e = h refl

-- Without raw data in the samples, more fuel than bytes left is enough on any buffer: the loop ends by its
-- test or at a read past the end.
pub parse_loop-ends :
    (s : Settings)
    → NoRaw s
    → (size fuel off : ℕ) (buf : List ℕ) → size - off < fuel
    → parse_loop s size fuel buf off ≢ out_of_fuel
unfolding parse_loop
parse_loop-ends s no_raw size zero off buf h = absurd (omega arith)
parse_loop-ends s no_raw size (suc fuel) off buf h = elim (Bool-cases (ltb off size)) [
  | inr at_end ↦ ground arith
  | inl more ↦ elim (Option-cases (record_at s size buf off)) [
    | inl stuck ↦ ground arith
    | inr ((a, end, log), e) ↦
        let moved = (record_at-Progresses s no_raw size).run buf off a end log e in
        let ih = parse_loop-ends s no_raw size fuel end buf (ground arith) in
        ground (arith, one_more-ne log (parse_loop s size fuel buf end) ih)
  ]
]

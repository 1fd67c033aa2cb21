-- ===== src/Record/Endless.antt =====
-- lib/parse_record.c, PERF_SAMPLE_RAW: its size is a `u32` in include/perf_event.h and an `int` here.
use perf_event_tests.Base.{
  ℕ, zero, suc, ◌+◌, ◌-◌, ◌^◌, ◌<◌, ◌≡◌, refl, ap, ◌∙◌, String, true, false, Option, some, List, [],
  ◌++◌, arith, ltb, lt→ltb, le→ltb, append_assoc, drop,
}
use perf_event_tests.Base.Bytes.{le_bytes, le_value?-le_bytes, length-le_bytes}
use perf_event_tests.Record.Reader.{Reader, pure, ◌>>=◌, peek, skip, skip_signed, say, field}
use perf_event_tests.Record.Reads.{drop-past}
use perf_event_tests.Record.ReadFormat.{Validate}
use perf_event_tests.Record.Sample.{Settings, raw}
use perf_event_tests.Record.Mmap.{
  out_of_fuel, sample, sample_head, sample_blocks, sample_tail, details, record_at, parse_loop,
}

abbrev pub raw_only : ℕ → ℕ → Option Validate → ℕ → Settings
raw_only read_format reg_mask validate raw_type = record {
  sample_type = 2 ^ 10;
  read_format = read_format;
  reg_mask = reg_mask;
  validate = validate;
  quiet = true;
  raw_type = raw_type;
}

-- A sample of raw data whose size has the pattern of -12.
abbrev pub back_to_itself : ℕ → ℕ → List ℕ
back_to_itself misc n =
    le_bytes 4 9 ++ (le_bytes 2 misc ++ (le_bytes 2 n ++ le_bytes 4 (2 ^ 32 - 12)))

peek_at :
    (w v d off : ℕ) (buf rest : List ℕ)
    → v < 256 ^ w
    → drop (off + d) buf ≡ le_bytes w v ++ rest
    → peek d w buf off ≡ some (v, off, [])
unfolding peek
peek_at w v d off buf rest fits h = ground (arith, h, le_value?-le_bytes w v rest fits)

bind-silent :
    {A B : Type 0} (m : Reader A) (f : A → Reader B) (a : A) (b : B) (buf : List ℕ)
    (off mid end : ℕ)
    → m buf off ≡ some (a, mid, [])
    → f a buf mid ≡ some (b, end, [])
    → (m >>= f) buf off ≡ some (b, end, [])
unfolding ◌>>=◌
bind-silent m f a b buf off mid end first second = ground (arith, first, second)

field_at :
    (w v off : ℕ) (fmt : String) (buf rest : List ℕ)
    → v < 256 ^ w
    → drop off buf ≡ le_bytes w v ++ rest
    → field true w fmt buf off ≡ some (v, off + w, [])
unfolding field ◌>>=◌ pure peek skip say
field_at w v off fmt buf rest fits h =
    let e : off + 0 ≡ off = omega arith in ground (arith, h, e, le_value?-le_bytes w v rest fits)

raw-back :
    (t off : ℕ) (buf rest : List ℕ)
    → drop (off + 8) buf ≡ le_bytes 4 (2 ^ 32 - 12) ++ rest
    → raw true t buf (off + 8) ≡ some (tt, off, [])
unfolding raw pure skip_signed
raw-back t off buf rest h =
    let past : ltb (off + 8 + 4 + (2 ^ 32 - 12)) (2 ^ 32) ≡ false = le→ltb _ _ (omega arith) in
    bind-silent _ _ (2 ^ 32 - 12) _ buf _ _ _
      (field_at 4 (2 ^ 32 - 12) (off + 8) _ buf rest (omega arith) h)
      (bind-silent _ _ tt _ buf _ (off + 8 + 4) _ refl (ground (arith, past)))

module _ (read_format reg_mask : ℕ) (validate : Option Validate) (raw_type size : ℕ) where
  abbrev settings : Settings
  settings = raw_only read_format reg_mask validate raw_type

  sample-back :
      (buf : List ℕ) (off : ℕ)
      → raw true raw_type buf (off + 8) ≡ some (tt, off, [])
      → sample settings buf (off + 8) ≡ some (tt, off, [])
  unfolding sample sample_head sample_blocks sample_tail ◌>>=◌ pure
  sample-back buf off h = ground (arith, h)

  round :
      (misc n off : ℕ) (buf rest : List ℕ)
      → misc < 2 ^ 16
      → n < 2 ^ 16
      → drop off buf ≡ back_to_itself misc n ++ rest
      → record_at settings size buf off ≡ some (tt, off, [])
  unfolding record_at pure skip details
  round misc n off buf rest hm hn h =
      let tail = le_bytes 4 (2 ^ 32 - 12) ++ rest in
      let h0 : drop off buf ≡ le_bytes 4 9 ++ (le_bytes 2 misc ++ (le_bytes 2 n ++ tail)) =
        h
        ∙ append_assoc (le_bytes 4 9) _ rest
        ∙ ap (◌++◌ (le_bytes 4 9)) (
            append_assoc (le_bytes 2 misc) _ rest
            ∙ ap (◌++◌ (le_bytes 2 misc)) (append_assoc (le_bytes 2 n) _ rest)) in
      let h4 = drop-past buf off (le_bytes 4 9) _ h0 in
      let h6 = drop-past buf _ (le_bytes 2 misc) _ h4 in
      let h8 = drop-past buf _ (le_bytes 2 n) _ h6 in
      let t =
        peek_at 4 9 0 off buf _ (omega arith) (ap (λ (k : ℕ). drop k buf) (omega arith) ∙ h0) in
      let m =
        peek_at 2 misc 4 off buf _ (omega arith)
          (ap (λ (k : ℕ). drop k buf) (omega (arith, length-le_bytes 4 9)) ∙ h4) in
      let s = peek_at 2 n 6 off buf _ (omega arith) (
        ap (λ (k : ℕ). drop k buf) (omega (arith, length-le_bytes 4 9, length-le_bytes 2 misc))
        ∙ h6) in
      let b = raw-back raw_type off buf rest (
        ap (λ (k : ℕ). drop k buf)
          (omega (arith, length-le_bytes 4 9, length-le_bytes 2 misc, length-le_bytes 2 n))
        ∙ h8) in
      bind-silent _ _ 9 _ buf off off _ t (
        bind-silent _ _ misc _ buf off off _ m (
          bind-silent _ _ n _ buf off off _ s (
            bind-silent _ _ tt _ buf off off _ refl
              (bind-silent _ _ tt _ buf off (off + 8) _ refl (sample-back buf off b)))))

  -- A sample of raw data alone, whose size is -12 as the parser reads it, sends a quiet parser back
  -- to the start of the same record: no amount of fuel ends the loop.
  pub parse_loop_stays :
      (misc n off fuel : ℕ) (buf rest : List ℕ)
      → misc < 2 ^ 16
      → n < 2 ^ 16
      → off < size
      → drop off buf ≡ back_to_itself misc n ++ rest
      → parse_loop settings size fuel buf off ≡ out_of_fuel
  unfolding parse_loop
  parse_loop_stays misc n off zero buf rest hm hn below h = refl
  parse_loop_stays misc n off (suc fuel) buf rest hm hn below h =
      let more : ltb off size ≡ true = lt→ltb off size below in
      let ih = parse_loop_stays misc n off fuel buf rest hm hn below h in
      ground (arith, more, round misc n off buf rest hm hn h, ih)

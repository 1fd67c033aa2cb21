-- ===== src/Record/TextRoundTrip.antt =====
-- The records with a string, and AUX with its flags, are read back as they were written.
use native.Mathlib.Omega.{arith}
use perf_event_tests.Base.{
  ℕ, zero, suc, ◌+◌, ◌-◌, ◌≡◌, refl, String, Bool, true, false, some, List, [], ◌∷◌, ◌++◌, ltb,
  if◌then◌else◌, has_bit, length, take?-append,
}
use perf_event_tests.Record.Reader.{
  Line, printed, Reader, Done, pure, when, ◌>>=◌, peek_bytes, skip, say,
}
use perf_event_tests.Record.Reads.{
  Reads, Reads-bind, Reads-pure, Reads-field, Reads-hidden, Reads-say,
}
use perf_event_tests.Record.Layout.{
  Member, member, append_bytes, append_lines, bytes_of, Fit, IsText, text_bytes,
}
use perf_event_tests.Record.Plain
use perf_event_tests.Record.Plain.{c_string}
use perf_event_tests.Record.RoundTrip.{ids_layout}

c_string-text : (s padding : List ℕ) → IsText s → c_string (text_bytes s padding) ≡ some s
c_string-text [] padding h = refl
c_string-text (zero ∷ s) padding h = absurd (h.0 refl)
c_string-text (suc c ∷ s) padding h = rw (c_string-text s padding h.1)

pub text-Reads :
    (size fixed : ℕ) (fmt : String) (s padding : List ℕ)
    → IsText s
    → size ≡ fixed + length (text_bytes s padding)
    → Reads (Plain.text false size fixed fmt) (text_bytes s padding) tt (printed fmt s ∷ [])
unfolding Plain.text ◌>>=◌ peek_bytes skip say
text-Reads size fixed fmt s padding is e = record {
  run = λ buf off rest h.
      let n : size - fixed ≡ length (text_bytes s padding) = omega arith in
      let enough : ltb size fixed ≡ false = ground arith in
      ground
        (arith, h, n, enough, take?-append (text_bytes s padding) rest, c_string-text s padding is);
}

-- The members, and then a string that fills the record up to the size of its header.
abbrev pub ReadsText : Reader Done → List Member → String → (s padding : List ℕ) → Type 0
ReadsText p ms fmt s padding =
    Reads p (append_bytes ms (text_bytes s padding)) tt (append_lines ms (printed fmt s ∷ []))

ruleset texts = (Reads-field, text-Reads)

pub comm-Reads :
    (pid t size : ℕ) (s padding : List ℕ)
    → Fit (ids_layout pid t)
    → IsText s
    → size ≡ 16 + length (text_bytes s padding)
    → ReadsText (Plain.comm false size) (ids_layout pid t) "\tcomm: %s\n" s padding
unfolding Plain.comm
comm-Reads pid t size s padding fit is e = search texts depth 12

abbrev pub mmap_layout : (pid t address len pgoff : ℕ) → List Member
mmap_layout pid t address len pgoff =
    member 4 "\tPID: %d\n" pid
    ∷ member 4 "\tTID: %d\n" t
    ∷ member 8 "\tAddress: %llx\n" address
    ∷ member 8 "\tLength: %llx\n" len
    ∷ member 8 "\tPage Offset: %llx\n" pgoff
    ∷ []

pub mmap-Reads :
    (pid t address len pgoff size : ℕ) (s padding : List ℕ)
    → Fit (mmap_layout pid t address len pgoff)
    → IsText s
    → size ≡ 40 + length (text_bytes s padding)
    → ReadsText
        (Plain.mmap false size)
        (mmap_layout pid t address len pgoff)
        "\tFilename: %s\n"
        s
        padding
unfolding Plain.mmap
mmap-Reads pid t address len pgoff size s padding fit is e = search texts depth 20

-- The members that MMAP2 has behind those of MMAP.
abbrev pub inode_layout : (major minor ino generation prot flags : ℕ) → List Member
inode_layout major minor ino generation prot flags =
    member 4 "\tMajor: %d\n" major
    ∷ member 4 "\tMinor: %d\n" minor
    ∷ member 8 "\tIno: %llx\n" ino
    ∷ member 8 "\tIno generation: %llx\n" generation
    ∷ member 4 "\tProt: %d\n" prot
    ∷ member 4 "\tFlags: %d\n" flags
    ∷ []

pub mmap2-Reads :
    (pid t address len pgoff major minor ino generation prot flags size : ℕ) (s padding : List ℕ)
    → Fit (mmap_layout pid t address len pgoff)
    → Fit (inode_layout major minor ino generation prot flags)
    → IsText s
    → size ≡ 72 + length (text_bytes s padding)
    → ReadsText
        (Plain.mmap2 false size)
        (mmap_layout pid t address len pgoff ++ inode_layout major minor ino generation prot flags)
        "\tFilename: %s\n"
        s
        padding
unfolding Plain.mmap2
mmap2-Reads pid t address len pgoff major minor ino generation prot flags size s padding fit rest is
      e =
    search texts depth 30

abbrev pub aux_layout : (offset size flags id : ℕ) → List Member
aux_layout offset size flags id =
    member 8 "\tAUX_OFFSET: %lld\n" offset
    ∷ member 8 "\tAUX_SIZE: %lld\n" size
    ∷ member 8 "\tFLAGS: %llx " flags
    ∷ member 8 "\tSAMPLE_ID: %lld\n" id
    ∷ []

abbrev pub aux_bytes : (offset size flags id : ℕ) → List ℕ
aux_bytes offset size flags id = bytes_of (aux_layout offset size flags id)

abbrev flag_line : Bool → String → List Line
flag_line b text = if b then printed text [] ∷ [] else []

abbrev pub aux_lines : (offset size flags id : ℕ) → List Line
aux_lines offset size flags id =
    printed "\tAUX_OFFSET: %lld\n" (offset ∷ [])
    ∷ printed "\tAUX_SIZE: %lld\n" (size ∷ [])
    ∷ printed "\tFLAGS: %llx " (flags ∷ [])
    ∷ ((flag_line (has_bit flags 0) "FLAG_TRUNCATED "
          ++ (flag_line (has_bit flags 1) "FLAG_OVERWRITE " ++ (printed "\n" [] ∷ [])))
        ++ (printed "\tSAMPLE_ID: %lld\n" (id ∷ []) ∷ []))

flag-Reads :
    (b : Bool) (text : String) → Reads (when b (say false text [])) [] tt (flag_line b text)
unfolding say pure
flag-Reads true text = record { run = λ buf off rest h. ground arith }
flag-Reads false text = record { run = λ buf off rest h. ground arith }

pub aux-Reads :
    (offset size flags id : ℕ)
    → Fit (aux_layout offset size flags id)
    → Reads (Plain.aux false) (aux_bytes offset size flags id) tt (aux_lines offset size flags id)
unfolding Plain.aux
aux-Reads offset size flags id fit = Reads-field 8 _ offset _ fit.0 (
    Reads-field 8 _ size _ fit.1.0 (
      Reads-hidden 8 flags _ fit.1.1.0
        (Reads-bind _ (flags-Reads flags) (Reads-field 8 _ id _ fit.1.1.1.0 Reads-pure))))
  where
    newline : Reads (say false "\n" []) [] tt (printed "\n" [] ∷ [])
    newline = unfold say in record { run = λ buf off rest h. ground arith }

    flags-Reads :
        (flags : ℕ)
        → Reads (Plain.aux_flags false flags) [] tt (
            printed "\tFLAGS: %llx " (flags ∷ [])
            ∷ (flag_line (has_bit flags 0) "FLAG_TRUNCATED "
                ++ (flag_line (has_bit flags 1) "FLAG_OVERWRITE " ++ (printed "\n" [] ∷ []))))
    flags-Reads flags = Reads-say _ (flags ∷ []) _ (
        Reads-bind _ (flag-Reads (has_bit flags 0) _)
          (Reads-bind _ (flag-Reads (has_bit flags 1) _) newline))

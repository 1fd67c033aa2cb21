-- ===== src/Sysfs/Generic/RoundTrip.antt =====
-- Event strings as the kernel writes them, "event=0x3c,umask=0x1,edge", and the words that they set.
use perf_event_tests.Base.{
  ℕ, zero, suc, ◌+◌, ◌*◌, ◌%◌, ◌^◌, ◌<◌, ◌≡◌, ◌⊎◌, refl, ap, ◌∙◌, inl, inr, Bool, true, false, ◌||◌,
  some, List, [], ◌∷◌, ◌++◌, append_assoc, ◌==◌, has_bit, length, length-append, append-nil, arith,
  Bool-cases,
}
use perf_event_tests.Base.Digits.{digit_char, digit_chars, AllBelow, digits_value}
use perf_event_tests.Base.Bits.{has_bit-none}
use perf_event_tests.Sysfs.Chars.{up_to-word, Avoids}
use perf_event_tests.Sysfs.Format.{Field, unknown, config, config1, config2}
use perf_event_tests.Sysfs.Generic.{
  FormatType, Configs, digit_value, ends_value, scan_value, number, ends_field, value_of, term,
  configs, add_term, terms, no_config, parse_generic,
}
use perf_event_tests.Sysfs.Generic.Update.{word, AllNamed, sets, update_configs_lem}

digit_value-digit_char : (d : ℕ) → d < 16 → digit_value (digit_char d) ≡ d
digit_value-digit_char d h = ground arith

going_on : (d : ℕ) → d < 16 → ends_value (digit_char d) ≡ false
going_on d h = ground arith

-- The remainder is taken in each round, or once.
step_value :
    (base t d : ℕ)
    → (base ≡ 10) ⊎ (base ≡ 16)
    → (t % 2 ^ 64 * base + d) % 2 ^ 64 ≡ (t * base + d) % 2 ^ 64
step_value base t d (inl e) = rw e (omega arith)
step_value base t d (inr e) = rw e (omega arith)

digit_chars-scan_value :
    (base t : ℕ) (ds : List ℕ) (c : ℕ) (s : List ℕ)
    → (base ≡ 10) ⊎ (base ≡ 16)
    → AllBelow base ds
    → ends_value c ≡ true
    → scan_value base (t % 2 ^ 64) (digit_chars ds ++ c ∷ s)
      ≡ some (digits_value base t ds % 2 ^ 64, c, s)
unfolding scan_value
digit_chars-scan_value base t [] c s is below stop = rw (scan_value, stop)
digit_chars-scan_value base t (d ∷ ds) c s is below stop =
    let small : d < 16 = elim is [
      | inl e ↦ omega (arith, e, below.0)
      | inr e ↦ omega (arith, e, below.0)
    ] in
    rw (scan_value, going_on d small, digit_value-digit_char d small, step_value base t d is)
      (digit_chars-scan_value base (t * base + d) ds c s is below.1 stop)

-- The value of a term: none, which stands for 1, or a number.
pub data Value : Type 0 where
  flag : Value
  decimal hexadecimal : List ℕ → Value

abbrev pub value_text : Value → List ℕ
value_text flag = []
value_text (decimal ds) = b'=' ∷ digit_chars ds
value_text (hexadecimal ds) = b'=' ∷ (b'0' ∷ (b'x' ∷ digit_chars ds))

abbrev pub value_number : Value → ℕ
value_number flag = 1
value_number (decimal ds) = digits_value 10 0 ds % 2 ^ 64
value_number (hexadecimal ds) = digits_value 16 0 ds % 2 ^ 64

abbrev pub ValueFits : Value → Type 0
ValueFits flag = Unit {0}
ValueFits (decimal ds) = AllBelow 10 ds
ValueFits (hexadecimal ds) = AllBelow 16 ds

-- No decimal number starts with "0x".
decimal-number :
    (ds : List ℕ) (c : ℕ) (s : List ℕ)
    → AllBelow 10 ds
    → ends_value c ≡ true
    → number (digit_chars ds ++ c ∷ s) ≡ some (digits_value 10 0 ds % 2 ^ 64, c, s)
decimal-number ds c s below stop =
    plain ds s below ∙ digit_chars-scan_value 10 0 ds c s (inl refl) below stop
  where
    plain :
        (ds s : List ℕ)
        → AllBelow 10 ds
        → number (digit_chars ds ++ c ∷ s) ≡ scan_value 10 0 (digit_chars ds ++ c ∷ s)
    plain [] [] below = refl
    plain [] (b ∷ s) below = let e : (c == b'0') ≡ false = ground (arith, stop) in rw e
    plain (d ∷ []) s below =
        let e : (c == b'x') ≡ false = ground (arith, stop) in
        elim (Bool-cases (digit_char d == b'0')) [ inl z ↦ rw (z, e) | inr z ↦ rw z ]
    plain (d ∷ (d' ∷ ds)) s below =
        let e : (digit_char d' == b'x') ≡ false = ground (arith, below.1.0) in
        elim (Bool-cases (digit_char d == b'0')) [ inl z ↦ rw (z, e) | inr z ↦ rw z ]

pub data TermText : Type 0 where
  term_text : (name : List ℕ) → Value → TermText

abbrev pub text_of : TermText → List ℕ
text_of (term_text name v) = name ++ value_text v

abbrev pub TermFits : TermText → Type 0
TermFits (term_text name v) = Avoids ends_field name × ValueFits v

named-term :
    (name : List ℕ) (c v d : ℕ) (rest after : List ℕ)
    → Avoids ends_field name
    → ends_field c ≡ true
    → value_of c rest ≡ some (v, d, after)
    → term (name ++ c ∷ rest) ≡ some (name, v, d, after)
unfolding term
named-term name c v d rest after avoids stop e =
    rw (term, up_to-word ends_field name c rest avoids stop, e)

text_of-term :
    (name : List ℕ) (v : Value) (c : ℕ) (s : List ℕ)
    → TermFits (term_text name v)
    → ends_value c ≡ true
    → term (text_of (term_text name v) ++ c ∷ s) ≡ some (name, value_number v, c, s)
unfolding term
text_of-term name flag c s fits stop =
    ap (λ t. term (t ++ c ∷ s)) (append-nil name)
    ∙ named-term name c 1 c s s fits.0 (ground arith)
        (rw (let e : ((c == b',') || (c == 0)) ≡ true = ground arith in e))
text_of-term name (decimal ds) c s fits stop =
    rw (append_assoc name (b'=' ∷ digit_chars ds) (c ∷ s)) (
      named-term name b'=' (digits_value 10 0 ds % 2 ^ 64) c (digit_chars ds ++ c ∷ s) s fits.0 refl
        (decimal-number ds c s fits.1 stop))
text_of-term name (hexadecimal ds) c s fits stop =
    rw (append_assoc name (b'=' ∷ (b'0' ∷ (b'x' ∷ digit_chars ds))) (c ∷ s)) (
      named-term name b'=' (digits_value 16 0 ds % 2 ^ 64) c
        (b'0' ∷ (b'x' ∷ (digit_chars ds ++ c ∷ s))) s fits.0 refl
        (digit_chars-scan_value 16 0 ds c s (inr refl) fits.1 stop))

abbrev pub AllFit : List TermText → Type 0
AllFit [] = Unit {0}
AllFit (t ∷ ts) = TermFits t × AllFit ts

-- One term at least, and commas between.
abbrev pub event_text : TermText → List TermText → List ℕ
event_text t [] = text_of t
event_text t (q ∷ ts) = text_of t ++ b',' ∷ event_text q ts

-- Whether one of the terms sets bit `k` of a word.
abbrev pub any_sets : List FormatType → List TermText → Field → ℕ → Bool
any_sets formats [] which k = false
any_sets formats (term_text name v ∷ ts) which k =
    sets formats name (value_number v) which k || any_sets formats ts which k

or_assoc : (a b c : Bool) → ((a || b) || c) ≡ (a || (b || c))
or_assoc true b c = refl
or_assoc false b c = refl

or_end : (a b : Bool) → (a || b) ≡ (a || (b || false))
or_end true b = refl
or_end false true = refl
or_end false false = refl

terms-configs :
    (fuel : ℕ) (formats : List FormatType) (cs : Configs) (t : TermText) (ts : List TermText)
    (rest : List ℕ)
    → AllNamed formats
    → length ts < fuel
    → AllFit (t ∷ ts)
    → (cs' : Configs) × (terms fuel formats cs (event_text t ts ++ 0 ∷ rest) ≡ configs cs')
      × ((which : Field) (k : ℕ)
          → has_bit (word which cs') k
            ≡ (has_bit (word which cs) k || any_sets formats (t ∷ ts) which k))
unfolding terms
terms-configs zero formats cs t ts rest named enough fit = absurd (omega arith)
terms-configs (suc fuel) formats cs (term_text name v) [] rest named enough fit =
    let (cs', done, bits) = update_configs_lem formats name (value_number v) cs named in
    (
      cs',
      rw (terms, text_of-term name v 0 rest fit.0 refl, add_term, done),
      λ which k.
          bits which k
          ∙ or_end (has_bit (word which cs) k) (sets formats name (value_number v) which k),
    )
terms-configs (suc fuel) formats cs (term_text name v) (q ∷ ts) rest named enough fit =
    let (cs1, done, bits) = update_configs_lem formats name (value_number v) cs named in
    let (cs2, others, more) = terms-configs fuel formats cs1 q ts rest named (omega arith) fit.1 in
    (
      cs2,
      rw (append_assoc (text_of (term_text name v)) (b',' ∷ event_text q ts) (0 ∷ rest)) (
          rw (
            terms,
            text_of-term name v b',' (event_text q ts ++ 0 ∷ rest) fit.0 refl,
            add_term,
            done,
            others,
          )),
      λ which k.
          more which k
          ∙ ap (λ b. b || any_sets formats (q ∷ ts) which k) (bits which k)
          ∙ or_assoc (has_bit (word which cs) k) (sets formats name (value_number v) which k)
              (any_sets formats (q ∷ ts) which k),
    )

length-event_text :
    (t : TermText) (ts : List TermText) (rest : List ℕ)
    → length ts < length (event_text t ts ++ 0 ∷ rest)
length-event_text t [] rest = omega (arith, length-append {0} (text_of t) (0 ∷ rest))
length-event_text t (q ∷ ts) rest =
    rw (append_assoc (text_of t) (b',' ∷ event_text q ts) (0 ∷ rest)) (
      omega (
        arith,
        length-append {0} (text_of t) (b',' ∷ (event_text q ts ++ 0 ∷ rest)),
        length-event_text q ts rest,
      ))

-- The string of an event is parsed, and bit `k` of a config word is set exactly when some term's format
-- puts it there: the first format of the term's name with a known field is for that word, its mask has
-- bit `k`, and so has the term's value the bit whose number is the number of bits of the mask below.
pub parse_generic_lem :
    (formats : List FormatType) (t : TermText) (ts : List TermText) (rest : List ℕ)
    → AllNamed formats
    → AllFit (t ∷ ts)
    → (cs : Configs) × (parse_generic formats (event_text t ts ++ 0 ∷ rest) ≡ configs cs)
      × ((which : Field) (k : ℕ) → has_bit (word which cs) k ≡ any_sets formats (t ∷ ts) which k)
unfolding parse_generic
parse_generic_lem formats t ts rest named fit =
    let text = event_text t ts ++ 0 ∷ rest in
    let enough : length ts < suc (length text) = omega (arith, length-event_text t ts rest) in
    let (cs, done, bits) =
      terms-configs (suc (length text)) formats no_config t ts rest named enough fit in
    (
      cs,
      done,
      λ which k. bits which k ∙ ap (λ b. b || any_sets formats (t ∷ ts) which k) (empty which k),
    )
  where
    empty : (which : Field) (k : ℕ) → has_bit (word which no_config) k ≡ false
    empty unknown k = has_bit-none k
    empty config k = has_bit-none k
    empty config1 k = has_bit-none k
    empty config2 k = has_bit-none k

-- ===== src/Sysfs/Generic/Update.antt =====
-- `update_configs`: which bits of which word a term of an event sets.
use Prim.Native.Nat.{bit_or}
use perf_event_tests.Base.{
  ℕ, ◌≡◌, refl, sym, ap, ◌∙◌, inl, inr, Bool, true, false, ◌&&◌, ◌||◌, Option, none, some, List, [],
  ◌∷◌, ◌==◌, ltb, if◌then◌else◌, has_bit, Bool-cases,
}
use perf_event_tests.Base.Bits.{has_bit-bit_or}
use perf_event_tests.Sysfs.Chars.{same}
use perf_event_tests.Sysfs.Format.{Field, unknown, config, config1, config2}
use perf_event_tests.Sysfs.Generic.{FormatType, Configs, separate_bits, update, update_configs}
use perf_event_tests.Sysfs.Generic.Separate.{scattered, separate_bits-scattered}

abbrev pub word : Field → Configs → ℕ
word unknown cs = 0
word config cs = cs.config
word config1 cs = cs.config1
word config2 cs = cs.config2

abbrev pub field_number : Field → ℕ
field_number unknown = 0
field_number config = 1
field_number config1 = 2
field_number config2 = 3

-- The formats of a PMU whose names and values were all read.
abbrev pub AllNamed : List FormatType → Type 0
AllNamed [] = Unit {0}
AllNamed (f ∷ fs) = ((name : List ℕ) × (f.name ≡ some name)) × AllNamed fs

abbrev pub has_name : Option (List ℕ) → List ℕ → Bool
has_name none field = false
has_name (some name) field = same field name

-- The first format of that name whose field is known.
abbrev pub format_for : List FormatType → List ℕ → Option FormatType
format_for [] field = none
format_for (f ∷ fs) field =
    let rest = format_for fs field in
    if has_name f.name field && ltb 0 (field_number f.field) then some f else rest

-- What a term is to do with bit `k` of a word.
abbrev pub sets_by : Option FormatType → (value : ℕ) → Field → ℕ → Bool
sets_by none value which k = false
sets_by (some f) value which k =
    field_number which == field_number f.field && (ltb k 64 && scattered value f.mask k)

abbrev pub sets : List FormatType → (field : List ℕ) → (value : ℕ) → Field → ℕ → Bool
sets formats field value which k = sets_by (format_for formats field) value which k

-- The words after the bits of the value are set in one of them.
abbrev updated : Field → (value mask : ℕ) → Configs → Configs
updated unknown value mask cs = cs
updated config value mask cs = record cs { config = bit_or cs.config (separate_bits value mask) }
updated config1 value mask cs = record cs { config1 = bit_or cs.config1 (separate_bits value mask) }
updated config2 value mask cs = record cs { config2 = bit_or cs.config2 (separate_bits value mask) }

module _ (value mask : ℕ) (cs : Configs) where
  set_word :
      (w k : ℕ)
      → has_bit (bit_or w (separate_bits value mask)) k
        ≡ (has_bit w k || (ltb k 64 && scattered value mask k))
  set_word w k =
      has_bit-bit_or w (separate_bits value mask) k
      ∙ ap (λ b. has_bit w k || b) (separate_bits-scattered value mask k)

  or_none : (b : Bool) → b ≡ (b || false)
  or_none true = refl
  or_none false = refl

  updated-bits :
      (field which : Field) (k : ℕ)
      → has_bit (word which (updated field value mask cs)) k ≡ (
          has_bit (word which cs) k
          || (ltb 0 (field_number field)
              && (field_number which == field_number field
                  && (ltb k 64 && scattered value mask k))))
  updated-bits unknown which k = or_none (has_bit (word which cs) k)
  updated-bits config config k = set_word cs.config k
  updated-bits config1 config1 k = set_word cs.config1 k
  updated-bits config2 config2 k = set_word cs.config2 k
  updated-bits config unknown k = or_none (has_bit 0 k)
  updated-bits config config1 k = or_none (has_bit cs.config1 k)
  updated-bits config config2 k = or_none (has_bit cs.config2 k)
  updated-bits config1 unknown k = or_none (has_bit 0 k)
  updated-bits config1 config k = or_none (has_bit cs.config k)
  updated-bits config1 config2 k = or_none (has_bit cs.config2 k)
  updated-bits config2 unknown k = or_none (has_bit 0 k)
  updated-bits config2 config k = or_none (has_bit cs.config k)
  updated-bits config2 config1 k = or_none (has_bit cs.config1 k)

  known-update :
      (field : Field)
      → ltb 0 (field_number field) ≡ true
      → update field value mask cs ≡ some (updated field value mask cs)
  known-update unknown h = cc
  known-update config h = refl
  known-update config1 h = refl
  known-update config2 h = refl

  unknown-update :
      (field : Field) → ltb 0 (field_number field) ≡ false → update field value mask cs ≡ none
  unknown-update unknown h = refl
  unknown-update config h = cc
  unknown-update config1 h = cc
  unknown-update config2 h = cc

module _ (f : FormatType) (fs : List FormatType) (field : List ℕ) where
  pass_over :
      (has_name f.name field && ltb 0 (field_number f.field)) ≡ false
      → format_for (f ∷ fs) field ≡ format_for fs field
  pass_over h = rw h

  choose :
      (has_name f.name field && ltb 0 (field_number f.field)) ≡ true
      → format_for (f ∷ fs) field ≡ some f
  choose h = rw h

-- A term sets the bits of its value, scattered over the mask of its format, in the word of its format,
-- and no others.
pub update_configs_lem :
    (formats : List FormatType) (field : List ℕ) (value : ℕ) (cs : Configs)
    → AllNamed formats
    → (cs' : Configs) × (update_configs formats field value cs ≡ some cs')
      × ((which : Field) (k : ℕ)
          → has_bit (word which cs') k
            ≡ (has_bit (word which cs) k || sets formats field value which k))
unfolding update_configs
update_configs_lem [] field value cs named =
    (cs, refl, λ which k. or_none 0 0 cs (has_bit (word which cs) k))
update_configs_lem (f ∷ fs) field value cs ((name, e), named) =
    let (cs', done, bits) = update_configs_lem fs field value cs named in
    let by = λ (which : Field) (k : ℕ) (o : Option FormatType).
      has_bit (word which cs) k || sets_by o value which k in
    elim (Bool-cases (same field name)) [
      | inr other ↦ (
        cs',
        rw (e, other, done),
        λ which k. bits which k ∙ ap (by which k) (sym (pass_over f fs field (rw (e, other)))),
      )
      | inl here ↦ elim (Bool-cases (ltb 0 (field_number f.field))) [
        | inr hidden ↦ (
          cs',
          rw (e, here, unknown-update value f.mask cs f.field hidden, done),
          λ which k.
              bits which k ∙ ap (by which k) (sym (pass_over f fs field (rw (e, here) hidden))),
        )
        | inl known ↦ (
          updated f.field value f.mask cs,
          rw (e, here, known-update value f.mask cs f.field known),
          λ which k.
              updated-bits value f.mask cs f.field which k
              ∙ ap (λ b. has_bit (word which cs) k || (b && sets_by (some f) value which k)) known
              ∙ ap (by which k) (sym (choose f fs field (rw (e, here) known))),
        )
      ]
    ]

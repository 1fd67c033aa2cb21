-- ===== src/Record/Reader.antt =====
-- The way lib/parse_record.c walks over its buffer: `memcpy` at `data[offset]`, `offset+=n` and
-- `printf`, as a reader that returns a value, the new offset and the lines that were printed.
use perf_event_tests.Base.{
  ℕ, ◌+◌, ◌-◌, ◌^◌, String, Bool, true, false, Option, none, some, List, [], ◌∷◌, ◌++◌, ltb,
  if◌then◌else◌, take?, drop,
}
use perf_event_tests.Base.Bytes.{le_value?}

-- One `printf` or one `fprintf(stderr, …)`: the format and the words that it shows. A `%s` shows
-- the bytes of a string. A signed number is kept as its bit pattern.
pub data Line : Type 0 where
  printed : String → List ℕ → Line
  error : String → List ℕ → Line

-- `none` is undefined behaviour, such as a read past the end of the buffer.
abbrev pub Reader : Type 0 → Type 0
Reader A = List ℕ → ℕ → Option (A × ℕ × List Line)

abbrev pub Done : Type 0
Done = Unit {0}

unfoldable pub pure : {A : Type 0} → A → Reader A
pure a buf off = some (a, off, [])

unfoldable pub fail : {A : Type 0} → Reader A
fail buf off = none

abbrev pub after :
    {B : Type 0} → List Line → Option (B × ℕ × List Line) → Option (B × ℕ × List Line)
after log none = none
after log (some (b, off, more)) = some (b, off, log ++ more)

infixl 5 ◌>>=◌ ◌>>◌
unfoldable pub ◌>>=◌ : {A B : Type 0} → Reader A → (A → Reader B) → Reader B
◌>>=◌ m f buf off = elim (m buf off) [
  | none ↦ none
  | some (a, off', log) ↦ after log (f a buf off')
]

abbrev pub ◌>>◌ : {A B : Type 0} → Reader A → Reader B → Reader B
m >> k = m >>= λ _. k

-- `if (b) …` with no else.
abbrev pub when : Bool → Reader Done → Reader Done
when b m = if b then m else pure tt

-- `memcpy(&x, &data[offset+d], w)` into a little-endian word, with no move.
unfoldable pub peek : ℕ → ℕ → Reader ℕ
peek d w buf off = elim (le_value? w (drop (off + d) buf)) [
  | none ↦ none
  | some v ↦ some (v, off, [])
]

-- A word of `w` bytes at `d` in another block.
unfoldable pub peek_in : List ℕ → ℕ → ℕ → Reader ℕ
peek_in block d w buf off = elim (le_value? w (drop d block)) [
  | none ↦ none
  | some v ↦ some (v, off, [])
]

-- `memcpy` of `n` bytes at `data[offset]`, with no move.
unfoldable pub peek_bytes : ℕ → Reader (List ℕ)
peek_bytes n buf off = elim (take? n (drop off buf)) [ none ↦ none | some s ↦ some (s, off, []) ]

-- `offset+=n`.
unfoldable pub skip : ℕ → Reader Done
skip n buf off = some (tt, off + n, [])

-- `offset=n`.
unfoldable pub jump : ℕ → Reader Done
jump n buf off = some (tt, n, [])

-- `offset+=size` for a signed 32-bit `size` that is given by its pattern. An offset below 0 is
-- outside the buffer.
unfoldable pub skip_signed : ℕ → Reader Done
skip_signed w buf off =
    if ltb w (2 ^ 31)
    then some (tt, off + w, [])
    else if ltb (off + w) (2 ^ 32)
    then none
    else some (tt, off + w - 2 ^ 32, [])

-- `fprintf(stderr, …)`.
unfoldable pub complain : String → List ℕ → Reader Done
complain fmt args buf off = some (tt, off, error fmt args ∷ [])

-- `if (!quiet) printf(…)`.
unfoldable pub say : Bool → String → List ℕ → Reader Done
say true fmt args buf off = some (tt, off, [])
say false fmt args buf off = some (tt, off, printed fmt args ∷ [])

-- A word of `w` bytes is copied, printed unless quiet, and passed: the step that the source
-- repeats for each member of a record.
unfoldable pub field : Bool → ℕ → String → Reader ℕ
unfolding ◌>>=◌ pure peek skip say
field quiet w fmt = do v ← peek 0 w; say quiet fmt (v ∷ []); skip w; pure v

-- ===== src/Record/Layout.antt =====
-- The layout of the records as include/perf_event.h gives it: what the kernel writes.
use perf_event_tests.Base.{
  ℕ, ◌+◌, ◌^◌, ◌<◌, ◌≢◌, String, List, [], ◌∷◌, ◌++◌, ◌≡◌, arith, length, length-append,
}
use perf_event_tests.Base.Bytes.{le_bytes, length-le_bytes}
use perf_event_tests.Record.Reader.{Line, printed}

-- One member: its width, the format that the parser shows it by, and its value.
abbrev pub Member : Type 0
Member = record { width : ℕ; shown : String; value : ℕ }

abbrev pub member : ℕ → String → ℕ → Member
member w fmt v = record { width = w; shown = fmt; value = v }

-- The bytes of the members and of what follows, and the lines.
abbrev pub append_bytes : List Member → List ℕ → List ℕ
append_bytes [] xs = xs
append_bytes (m ∷ ms) xs = le_bytes m.width m.value ++ append_bytes ms xs

abbrev pub append_lines : List Member → List Line → List Line
append_lines [] xs = xs
append_lines (m ∷ ms) xs = printed m.shown (m.value ∷ []) ∷ append_lines ms xs

abbrev pub widths : List Member → ℕ
widths [] = 0
widths (m ∷ ms) = m.width + widths ms

pub length-append_bytes :
    (ms : List Member) (xs : List ℕ) → length (append_bytes ms xs) ≡ widths ms + length xs
length-append_bytes [] xs = omega arith
length-append_bytes (m ∷ ms) xs = omega (
  arith,
  length-append (le_bytes m.width m.value) (append_bytes ms xs),
  length-le_bytes m.width m.value,
  length-append_bytes ms xs,
)

abbrev pub bytes_of : List Member → List ℕ
bytes_of ms = append_bytes ms []

abbrev pub lines_of : List Member → List Line
lines_of ms = append_lines ms []

-- Each value fits its width.
abbrev pub Fit : List Member → Type 0
Fit [] = Unit
Fit (m ∷ ms) = (m.value < 256 ^ m.width) × Fit ms

-- A string without NUL, and what the kernel pads it with.
abbrev pub IsText : List ℕ → Type 0
IsText [] = Unit
IsText (c ∷ s) = (c ≢ 0) × IsText s

abbrev pub text_bytes : List ℕ → List ℕ → List ℕ
text_bytes s padding = s ++ (0 ∷ padding)

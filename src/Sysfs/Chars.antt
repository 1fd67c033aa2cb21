-- ===== src/Sysfs/Chars.antt =====
-- C strings of tools/event_parser.c: the bytes of a buffer from a position on.
use perf_event_tests.Base.{
  ℕ, Bool, true, false, ◌&&◌, Option, none, some, List, [], ◌∷◌, ◌++◌, ◌≡◌, ◌==◌, String,
}
use Prim.Native.Char.{code}

-- The bytes of an ASCII literal, without its end.
abbrev pub codes : String → List ℕ
codes String.[] = []
codes (String.◌∷◌ c s) = code c ∷ codes s

-- `!strcmp(s,t)`, of strings without their ends.
abbrev pub same : List ℕ → List ℕ → Bool
same [] [] = true
same [] (d ∷ t) = false
same (c ∷ s) [] = false
same (c ∷ s) (d ∷ t) = (c == d) && same s t

-- The bytes up to the first at which `stop` holds, and what follows from that byte on. `none` is a
-- read behind the end of the buffer.
unfoldable pub up_to : (stop : ℕ → Bool) → List ℕ → Option (List ℕ × List ℕ)
up_to stop [] = none
up_to stop (c ∷ s) = elim (stop c) [
  | true ↦ some ([], c ∷ s)
  | false ↦ elim (up_to stop s) [ none ↦ none | some (word, rest) ↦ some (c ∷ word, rest) ]
]

-- A word in which the byte that ends it does not occur.
abbrev pub Avoids : (stop : ℕ → Bool) → List ℕ → Type 0
Avoids stop [] = Unit {0}
Avoids stop (c ∷ s) = (stop c ≡ false) × Avoids stop s

pub up_to-word :
    (stop : ℕ → Bool) (word : List ℕ) (c : ℕ) (rest : List ℕ)
    → Avoids stop word
    → stop c ≡ true
    → up_to stop (word ++ c ∷ rest) ≡ some (word, c ∷ rest)
unfolding up_to
up_to-word stop [] c rest avoids h = rw h
up_to-word stop (d ∷ word) c rest avoids h = rw (avoids.0, up_to-word stop word c rest avoids.1 h)

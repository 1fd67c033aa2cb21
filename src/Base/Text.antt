-- ===== src/Base/Text.antt =====
-- Characters of C strings, by their code.
use mathlib.Core.Bool.{Bool, ◌&&◌, ◌||◌}
use mathlib.Core.List.{List, [], ◌∷◌}
use Prim.Native.Nat.{ℕ}
use perf_event_tests.Base.Tests.{leb, ◌==◌, if◌then◌else◌}

abbrev pub is_digit : ℕ → Bool
is_digit c = leb b'0' c && leb c b'9'

-- White space of `isspace`.
abbrev pub is_space : ℕ → Bool
is_space c = (c == 32) || (leb 9 c && leb c 13)

abbrev pub pass_spaces : List ℕ → List ℕ
pass_spaces [] = []
pass_spaces (c ∷ s) = let rest = pass_spaces s in if is_space c then rest else c ∷ s

-- ===== src/Base/Bytes.antt =====
-- Little-endian words in memory: what `memcpy` into an integer reads.
use Prim.Native.Nat.{ℕ, zero, suc, ◌+◌, ◌*◌, ◌/◌, ◌%◌, ◌^◌, ◌<◌}
use mathlib.Core.Path.{◌≡◌, refl}
use mathlib.Core.List.{List, [], ◌∷◌, ◌++◌}
use mathlib.Core.Option.{Option, none, some}
use native.Mathlib.Omega.{arith}
use native.Mathlib.Nat.{pow-suc}
use perf_event_tests.Base.Lists.{length}

abbrev pub le_value? : ℕ → List ℕ → Option ℕ
le_value? zero xs = some 0
le_value? (suc w) [] = none
le_value? (suc w) (x ∷ xs) = elim (le_value? w xs) [ none ↦ none | some v ↦ some (x + 256 * v) ]

unfoldable pub le_bytes : ℕ → ℕ → List ℕ
le_bytes zero v = []
le_bytes (suc w) v = (v % 256) ∷ le_bytes w (v / 256)

pub length-le_bytes : (w v : ℕ) → length (le_bytes w v) ≡ w
unfolding le_bytes
length-le_bytes zero v = refl
length-le_bytes (suc w) v = omega (arith, length-le_bytes w (v / 256))

pub le_value?-le_bytes :
    (w v : ℕ) (rest : List ℕ) → v < 256 ^ w → le_value? w (le_bytes w v ++ rest) ≡ some v
unfolding le_bytes
le_value?-le_bytes zero v rest h = ground arith
le_value?-le_bytes (suc w) v rest h =
    rw (le_value?-le_bytes w (v / 256) rest (omega (arith, pow-suc 256 w))) (ground arith)

-- ===== src/Version.antt =====
-- lib/test_utils.c: `check_linux_version_newer` and `check_linux_version_older`, on the release string
-- that `uname` gives.
pub mod Order
mod Tests
use perf_event_tests.Base.{
  ℕ, zero, suc, ◌+◌, ◌-◌, ◌*◌, ◌%◌, ◌^◌, Bool, true, false, not, ◌&&◌, ◌||◌, Option, none, some,
  List, [], ◌∷◌, ltb, leb, ◌==◌, if◌then◌else◌,
}
use perf_event_tests.Base.Text.{is_digit, is_space, pass_spaces}

abbrev pub is_dot : ℕ → Bool
is_dot c = c == b'.'

-- `strtok(…,".")`: the dots at the start are passed.
abbrev pub pass_dots : List ℕ → List ℕ
pass_dots [] = []
pass_dots (c ∷ s) = let rest = pass_dots s in if is_dot c then rest else c ∷ s

-- The characters before the next dot, and those behind it.
abbrev pub token : List ℕ → List ℕ
token [] = []
token (c ∷ s) = let rest = token s in if is_dot c then [] else c ∷ rest

abbrev pub behind : List ℕ → List ℕ
behind [] = []
behind (c ∷ s) = let rest = behind s in if is_dot c then s else rest

-- The token, or `none` for NULL at the end of the string; and where the next call goes on.
abbrev pub strtok : List ℕ → Option (List ℕ) × List ℕ
strtok s = elim (pass_dots s) [ [] ↦ (none, []) | c ∷ t ↦ (some (token (c ∷ t)), behind (c ∷ t)) ]

-- The digits at the start of a string, behind the number `n`.
abbrev pub digits : List ℕ → ℕ → ℕ
digits [] n = n
digits (c ∷ s) n = elim (is_digit c) [ true ↦ digits s (10 * n + (c - b'0')) | false ↦ n ]

-- `atoi`, as the pattern of an `int`.
abbrev pub signed_digits : List ℕ → ℕ
signed_digits [] = 0
signed_digits (c ∷ s) =
    if c == b'-'
    then (2 ^ 32 - digits s 0 % 2 ^ 32) % 2 ^ 32
    else if c == b'+'
    then digits s 0 % 2 ^ 32
    else digits (c ∷ s) 0 % 2 ^ 32

abbrev pub atoi : List ℕ → ℕ
atoi s = signed_digits (pass_spaces s)

-- `if (ptr!=NULL) x=atoi(ptr);` for an `x` that was 0.
abbrev pub number : Option (List ℕ) → ℕ
number none = 0
number (some s) = atoi s

-- `((major&0xff)<<24) | ((minor&0xff)<<16) | ((subminor&0xff)<<8)`: the three have no bit in common,
-- so their union is their sum.
unfoldable pub pack : (major minor subminor : ℕ) → ℕ
pack major minor subminor = major % 256 * 2 ^ 24 + minor % 256 * 2 ^ 16 + subminor % 256 * 2 ^ 8

unfoldable pub current_version : List ℕ → ℕ
unfolding pack
current_version release =
    let first = strtok release in
    let second = strtok first.1 in
    let third = strtok second.1 in pack (number first.0) (number second.0) (number third.0)

-- `a>=b` for two `int` that are given by their patterns.
abbrev pub at_least : ℕ → ℕ → Bool
at_least a b = leb ((b + 2 ^ 31) % 2 ^ 32) ((a + 2 ^ 31) % 2 ^ 32)

unfoldable pub check_linux_version_newer : List ℕ → (major minor subminor : ℕ) → ℕ
unfolding current_version
check_linux_version_newer release major minor subminor =
    if at_least (current_version release) (pack major minor subminor) then 1 else 0

unfoldable pub check_linux_version_older : List ℕ → (major minor subminor : ℕ) → ℕ
unfolding current_version
check_linux_version_older release major minor subminor =
    if not (at_least (current_version release) (pack major minor subminor)) then 1 else 0

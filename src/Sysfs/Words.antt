-- ===== src/Sysfs/Words.antt =====
-- What `fscanf` with "%s" leaves in the buffer where the file holds one word.
use perf_event_tests.Base.{
  ℕ, zero, suc, ◌+◌, ◌<◌, ◌≤◌, ◌≡◌, refl, Bool, false, ◌||◌, some, List, [], ◌∷◌, ◌++◌, ◌==◌,
  length, length-append, drop, arith, lt→ltb,
}
use perf_event_tests.Base.Text.{is_space}
use perf_event_tests.Sysfs.Chars.{up_to, up_to-word, Avoids}
use perf_event_tests.Sysfs.Table.{token, put_string, strdup, copied, read_word, read_value}

-- A white space or the end of a string.
abbrev pub ends_word : ℕ → Bool
ends_word c = is_space c || (c == 0)

pub Avoids_weaken :
    (p q : ℕ → Bool) (s : List ℕ) → ((c : ℕ) → p c ≡ false → q c ≡ false) → Avoids p s → Avoids q s
Avoids_weaken p q [] h a = tt
Avoids_weaken p q (c ∷ s) h a = (h c a.0, Avoids_weaken p q s h a.1)

pub Avoids-append : (p : ℕ → Bool) (s t : List ℕ) → Avoids p s → Avoids p t → Avoids p (s ++ t)
Avoids-append p [] t a b = b
Avoids-append p (c ∷ s) t a b = (a.0, Avoids-append p s t a.1 b)

not_space : (c : ℕ) → ends_word c ≡ false → is_space c ≡ false
not_space c h = ground arith

not_end : (c : ℕ) → ends_word c ≡ false → (c == 0) ≡ false
not_end c h = ground arith

token-word : (s : List ℕ) → Avoids ends_word s → token (s ++ b'\n' ∷ []) ≡ s
token-word [] a = refl
token-word (c ∷ s) a = rw (not_space c a.0, token-word s a.1)

drop-length : (n : ℕ) (s : List ℕ) → n ≤ length s → n + length (drop n s) ≡ length s
drop-length zero s h = omega arith
drop-length (suc n) [] h = absurd (omega arith)
drop-length (suc n) (c ∷ s) h = omega (arith, drop-length n s (omega arith))

-- The buffer after a string was put into it.
abbrev pub filled : (string buffer : List ℕ) → List ℕ
filled string buffer = string ++ 0 ∷ drop (suc (length string)) buffer

pub length-filled :
    (string buffer : List ℕ)
    → length string < length buffer
    → length (filled string buffer) ≡ length buffer
length-filled string buffer h = omega (
  arith,
  length-append {0} string (0 ∷ drop (suc (length string)) buffer),
  drop-length (suc (length string)) buffer (omega arith),
)

pub read_value-word :
    (c : ℕ) (s buffer : List ℕ)
    → Avoids ends_word (c ∷ s)
    → length (c ∷ s) < length buffer
    → read_value ((c ∷ s) ++ b'\n' ∷ []) buffer ≡ some (some (c ∷ s), filled (c ∷ s) buffer)
unfolding read_value
read_value-word c s buffer a fits =
    let copy : up_to (λ (d : ℕ). d == 0) (filled (c ∷ s) buffer)
        ≡ some (c ∷ s, 0 ∷ drop (suc (length (c ∷ s))) buffer) =
      up_to-word (λ d. d == 0) (c ∷ s) 0 (drop (suc (length (c ∷ s))) buffer)
        (Avoids_weaken ends_word (λ d. d == 0) (c ∷ s) not_end a) refl in
    rw (not_space c a.0) (
      rw (not_space c a.0, token-word s a.1)
        (rw (read_word, put_string, lt→ltb _ _ fits, copied, strdup, copy)))

-- ===== src/Version/Order.antt =====
-- The version tests against the order of versions.
use perf_event_tests.Base.{
  ℕ, ◌+◌, ◌-◌, ◌*◌, ◌%◌, ◌^◌, ◌<◌, ◌≡◌, ◌≢◌, refl, ap, ◌∙◌, subst, inl, inr, Bool, true, false, not,
  ◌&&◌, ◌||◌, Bool-cases, Option, some, List, [], ◌∷◌, ◌++◌, arith, ltb, leb, ◌==◌, if◌then◌else◌,
}
use perf_event_tests.Base.Text.{is_digit}
use perf_event_tests.Version.{
  is_dot, token, behind, strtok, digits, atoi, number, pack, current_version, at_least,
  check_linux_version_newer, check_linux_version_older,
}

-- The order of versions: the first numbers that differ decide.
abbrev pub not_before : (a b c major minor subminor : ℕ) → Bool
not_before a b c major minor subminor =
    ltb major a || ((major == a) && (ltb minor b || ((minor == b) && leb subminor c)))

abbrev pub AllDigits : List ℕ → Type 0
AllDigits [] = Unit
AllDigits (d ∷ ds) = (is_digit d ≡ true) × AllDigits ds

-- What follows the last number: nothing, or no digit first.
abbrev pub NoDigit : List ℕ → Type 0
NoDigit [] = Unit
NoDigit (c ∷ s) = is_digit c ≡ false

digits-append :
    (ds s : List ℕ) (n : ℕ) → AllDigits ds → NoDigit s → digits (ds ++ s) n ≡ digits ds n
digits-append [] [] n all stop = refl
digits-append [] (c ∷ s) n all stop = ground (arith, stop)
digits-append (d ∷ ds) s n all stop =
    ground (arith, all.0, digits-append ds s (10 * n + (d - b'0')) all.1 stop)

token-digits : (ds s : List ℕ) → AllDigits ds → token (ds ++ s) ≡ ds ++ token s
token-digits [] s all = refl
token-digits (d ∷ ds) s all = ground (arith, all.0, token-digits ds s all.1)

behind-digits : (ds s : List ℕ) → AllDigits ds → behind (ds ++ s) ≡ behind s
behind-digits [] s all = refl
behind-digits (d ∷ ds) s all = ground (arith, all.0, behind-digits ds s all.1)

-- A number of the string: one digit at least.
abbrev pub IsNumber : List ℕ → Type 0
IsNumber ds = AllDigits ds × (ds ≢ [])

strtok-number : (ds s : List ℕ) → IsNumber ds → strtok (ds ++ s) ≡ (some (ds ++ token s), behind s)
strtok-number [] s h = absurd (h.1 refl)
strtok-number (d ∷ ds) s h =
    ground (arith, h.0.0, token-digits ds s h.0.1, behind-digits ds s h.0.1)

atoi-number : (ds s : List ℕ) → IsNumber ds → NoDigit s → atoi (ds ++ s) ≡ digits ds 0 % 2 ^ 32
atoi-number [] s h stop = absurd (h.1 refl)
atoi-number (d ∷ ds) s h stop =
    ground (arith, h.0.0, digits-append ds s (10 * 0 + (d - b'0')) h.0.1 stop)

token-NoDigit : (s : List ℕ) → NoDigit s → NoDigit (token s)
token-NoDigit [] stop = tt
token-NoDigit (c ∷ s) stop = elim (Bool-cases (is_dot c)) [
  | inl dot ↦
      subst NoDigit (let e : (let l : List ℕ = [] in l) ≡ token (c ∷ s) = ground (arith, dot) in e)
        tt
  | inr other ↦
      subst NoDigit (let e : c ∷ token s ≡ token (c ∷ s) = ground (arith, other) in e) stop
]

same_pack :
    {x y z a b c : ℕ}
    → x ≡ a % 2 ^ 32
    → y ≡ b % 2 ^ 32
    → z ≡ c % 2 ^ 32
    → a < 2 ^ 31
    → b < 2 ^ 31
    → c < 2 ^ 31
    → pack x y z ≡ pack a b c
unfolding pack
same_pack e1 e2 e3 la lb lc = omega (arith, e1, e2, e3)

swapped : (t : Bool) → (let n : ℕ = if not t then 1 else 0 in n) ≡ (if t then 0 else 1)
swapped true = refl
swapped false = refl

small_pack :
    (x y z : ℕ)
    → x < 128
    → y < 256
    → z < 256
    → (pack x y z + 2 ^ 31) % 2 ^ 32 ≡ x * 2 ^ 24 + y * 2 ^ 16 + z * 2 ^ 8 + 2 ^ 31
unfolding pack
small_pack x y z hx hy hz = omega (arith, hx, hy, hz)

ordered :
    (x y z a b c : ℕ)
    → y < 256
    → z < 256
    → b < 256
    → c < 256
    → leb
        (a * 2 ^ 24 + b * 2 ^ 16 + c * 2 ^ 8 + 2 ^ 31)
        (x * 2 ^ 24 + y * 2 ^ 16 + z * 2 ^ 8 + 2 ^ 31)
      ≡ not_before x y z a b c
ordered x y z a b c hy hz hb hc = ground arith

at_least-pack :
    (x y z major minor subminor : ℕ)
    → x < 128
    → y < 256
    → z < 256
    → major < 128
    → minor < 256
    → subminor < 256
    → at_least (pack x y z) (pack major minor subminor) ≡ not_before x y z major minor subminor
at_least-pack x y z major minor subminor hx hy hz ha hb hc =
    ap (λ n. leb n ((pack x y z + 2 ^ 31) % 2 ^ 32)) (small_pack major minor subminor ha hb hc)
    ∙ ap (leb (major * 2 ^ 24 + minor * 2 ^ 16 + subminor * 2 ^ 8 + 2 ^ 31))
        (small_pack x y z hx hy hz)
    ∙ ordered x y z major minor subminor hy hz hb hc

module _ (a b c suffix : List ℕ) (first : IsNumber a) (second : IsNumber b) (third : IsNumber c)
    (stop : NoDigit suffix) where
  -- "a.b.c" and what follows.
  abbrev pub release : List ℕ
  release = a ++ (b'.' ∷ (b ++ (b'.' ∷ (c ++ suffix))))

  current-pack :
      digits a 0 < 2 ^ 31
      → digits b 0 < 2 ^ 31
      → digits c 0 < 2 ^ 31
      → current_version release ≡ pack (digits a 0) (digits b 0) (digits c 0)
  unfolding current_version
  current-pack la lb lc =
      let s1 = strtok-number a (b'.' ∷ (b ++ (b'.' ∷ (c ++ suffix)))) first in
      let s2 = strtok-number b (b'.' ∷ (c ++ suffix)) second in
      let s3 = strtok-number c suffix third in
      let n1 = atoi-number a [] first tt in
      let n2 = atoi-number b [] second tt in
      let n3 = atoi-number c (token suffix) third (token-NoDigit suffix stop) in
      let head = λ (p : Option (List ℕ) × List ℕ). number p.0 in
      let next = λ (p : Option (List ℕ) × List ℕ). p.1 in
      let e1 : number (strtok release).0 ≡ digits a 0 % 2 ^ 32 = ap head s1 ∙ n1 in
      let r1 : (strtok release).1 ≡ b ++ (b'.' ∷ (c ++ suffix)) = ap next s1 in
      let e2 : number (strtok (strtok release).1).0 ≡ digits b 0 % 2 ^ 32 =
        ap (λ t. head (strtok t)) r1 ∙ ap head s2 ∙ n2 in
      let r2 : (strtok (strtok release).1).1 ≡ c ++ suffix =
        ap (λ t. next (strtok t)) r1 ∙ ap next s2 in
      let e3 : number (strtok (strtok (strtok release).1).1).0 ≡ digits c 0 % 2 ^ 32 =
        ap (λ t. head (strtok t)) r2 ∙ ap head s3 ∙ n3 in
      same_pack e1 e2 e3 la lb lc

  -- On a release "a.b.c…" with numbers below 128, 256 and 256, and a version to compare below the same,
  -- `check_linux_version_newer` is 1 exactly when the release does not come before the version.
  pub check_linux_version_newer_lem :
      (major minor subminor : ℕ)
      → digits a 0 < 128
      → digits b 0 < 256
      → digits c 0 < 256
      → major < 128
      → minor < 256
      → subminor < 256
      → check_linux_version_newer release major minor subminor
        ≡ (if not_before (digits a 0) (digits b 0) (digits c 0) major minor subminor then 1 else 0)
  unfolding check_linux_version_newer
  check_linux_version_newer_lem major minor subminor hx hy hz ha hb hc =
      ap (λ v. if at_least v (pack major minor subminor) then 1 else 0)
        (current-pack (omega arith) (omega arith) (omega arith))
      ∙ ap (λ t. if t then 1 else 0)
          (at_least-pack (digits a 0) (digits b 0) (digits c 0) major minor subminor hx hy hz ha hb
            hc)

  -- On the same releases and versions `check_linux_version_older` is 1 exactly when the release comes
  -- before the version.
  pub check_linux_version_older_lem :
      (major minor subminor : ℕ)
      → digits a 0 < 128
      → digits b 0 < 256
      → digits c 0 < 256
      → major < 128
      → minor < 256
      → subminor < 256
      → check_linux_version_older release major minor subminor
        ≡ (if not_before (digits a 0) (digits b 0) (digits c 0) major minor subminor then 0 else 1)
  unfolding check_linux_version_older
  check_linux_version_older_lem major minor subminor hx hy hz ha hb hc =
      let e =
        ap (λ v. at_least v (pack major minor subminor))
          (current-pack (omega arith) (omega arith) (omega arith))
        ∙ at_least-pack (digits a 0) (digits b 0) (digits c 0) major minor subminor hx hy hz ha hb
            hc in
      ap (λ t. if not t then 1 else 0) e
      ∙ swapped (not_before (digits a 0) (digits b 0) (digits c 0) major minor subminor)

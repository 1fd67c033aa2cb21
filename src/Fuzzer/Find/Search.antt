-- ===== src/Fuzzer/Find/Search.antt =====
-- The searches of the fuzzer's tables find what they look for.
use perf_event_tests.Base.{
  ℕ, zero, suc, ◌+◌, ◌-◌, ◌≤◌, ◌<◌, ◌≡◌, refl, subst, inl, inr, Bool, true, ◌&&◌, ◌==◌, Bool-cases,
  some, List, [], ◌∷◌, arith, if◌then◌else◌, length, get_elem?, take, set,
}
use native.Mathlib.Decide.{dec_lt}
use perf_event_tests.Fuzzer.Find.{nth_where, first_where}

abbrev pub one_if : Bool → ℕ
one_if b = if b then 1 else 0

module _ {A : Type 0} (p : A → Bool) where
  abbrev pub count : List A → ℕ
  count [] = 0
  count (a ∷ l) = one_if (p a) + count l

  -- An entry of the table that passes the test, with `before` such entries before it.
  pub record Found (l : List A) (at before : ℕ) : Type 0 where
    pub entry : A
    pub here : get_elem? l at ≡ some entry
    pub passes : p entry ≡ true
    pub rank : count (take at l) ≡ before

  pub nth_where-finds :
      (x i j : ℕ) (l : List A)
      → j ≤ x
      → x < j + count l
      → (k : ℕ) × (nth_where p x i j l ≡ some (i + k)) × Found l k (x - j)
  nth_where-finds x i j [] low high = absurd (omega arith)
  nth_where-finds x i j (a ∷ l) low high = elim (Bool-cases (p a)) [
    | inr other ↦
        let (k, found, at) = nth_where-finds x (i + 1) j l low (ground (arith, other)) in
        (
          suc k,
          ground (arith, other, found),
          record {
            entry = at.entry;
            here = at.here;
            passes = at.passes;
            rank = ground (arith, other, at.rank);
          },
        )
    | inl fits ↦ elim (dec_lt j x) [
      | no last ↦ (
        0,
        ground (arith, fits),
        record { entry = a; here = refl; passes = fits; rank = omega arith },
      )
      | yes more ↦
          let (k, found, at) =
            nth_where-finds x (i + 1) (j + 1) l (omega arith) (ground (arith, fits)) in
          (
            suc k,
            ground (arith, fits, found),
            record {
              entry = at.entry;
              here = at.here;
              passes = at.passes;
              rank = ground (arith, fits, at.rank);
            },
          )
    ]
  ]

  pub nth_where-drawn :
      (x : ℕ) (l : List A) → x < count l → (i : ℕ) × (nth_where p x 0 0 l ≡ some i) × Found l i x
  nth_where-drawn x l h =
      let (i, found, at) = nth_where-finds x 0 0 l (omega arith) (omega arith) in
      (i, ground (arith, found), subst (Found l i) (omega arith) at)

  -- `first_where` stops at an entry that passes, and there is none before it.
  pub first_where-finds :
      (i : ℕ) (l : List A)
      → 0 < count l
      → (k : ℕ) × (first_where p i l ≡ some (i + k)) × Found l k 0
  first_where-finds i [] some_pass = absurd (omega arith)
  first_where-finds i (a ∷ l) some_pass = elim (Bool-cases (p a)) [
    | inl fits ↦
        (0, ground (arith, fits), record { entry = a; here = refl; passes = fits; rank = refl })
    | inr other ↦
        let (k, found, at) = first_where-finds (i + 1) l (ground (arith, other)) in
        (
          suc k,
          ground (arith, other, found),
          record {
            entry = at.entry;
            here = at.here;
            passes = at.passes;
            rank = ground (arith, other, at.rank);
          },
        )
  ]

  pub first_where-some :
      (i k : ℕ) (l : List A)
      → first_where p i l ≡ some k
      → (j : ℕ) × (a : A) × (k ≡ i + j) × (get_elem? l j ≡ some a) × (p a ≡ true)
  first_where-some i k [] h = absurd (ground (arith, h))
  first_where-some i k (a ∷ l) h = elim (Bool-cases (p a)) [
    | inl fits ↦ (0, a, ground (arith, fits, h), refl, fits)
    | inr other ↦
        let (j, b, e, here, passes) = first_where-some (i + 1) k l (ground (arith, other, h)) in
        (suc j, b, omega arith, here, passes)
  ]

  pub nth_where-some :
      (x i j k : ℕ) (l : List A)
      → nth_where p x i j l ≡ some k
      → (m : ℕ) × (a : A) × (k ≡ i + m) × (get_elem? l m ≡ some a) × (p a ≡ true)
  nth_where-some x i j k [] h = absurd (ground (arith, h))
  nth_where-some x i j k (a ∷ l) h = elim (Bool-cases (p a && (j == x))) [
    | inl fits ↦ (0, a, ground (arith, fits, h), refl, ground (arith, fits))
    | inr other ↦
        let (m, b, e, here, passes) =
          nth_where-some x (i + 1) (if p a then j + 1 else j) k l (ground (arith, other, h)) in
        (suc m, b, omega arith, here, passes)
  ]

  pub count-set :
      (l : List A) (i : ℕ) (a b : A)
      → get_elem? l i ≡ some a
      → count (set l i b) + one_if (p a) ≡ count l + one_if (p b)
  count-set [] i a b h = absurd (ground (arith, h))
  count-set (x ∷ l) zero a b h = ground (arith, h)
  count-set (x ∷ l) (suc i) a b h = omega (arith, count-set l i a b h)

  pub count-le-length : (l : List A) → count l ≤ length l
  count-le-length [] = omega arith
  count-le-length (a ∷ l) = ground (arith, count-le-length l)

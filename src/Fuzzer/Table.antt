-- ===== src/Fuzzer/Table.antt =====
-- The table of mappings: when it is sound, and what one step does to a slot.
use perf_event_tests.Base.{
  ℕ, zero, suc, ◌+◌, ◌^◌, ◌≤◌, ◌<◌, ◌≡◌, ◌≢◌, ◌⊎◌, refl, sym, ap, ◌∙◌, subst, inl, inr, Bool, true,
  false, none, some, Option-cases, List, [], ◌∷◌, arith, length, get_elem?, set,
}
use native.Mathlib.Decide.{ℕ_discrete}
use perf_event_tests.Fuzzer.State.{
  OurMmap, State, map_failed, change, change_mmap, mmap_at, plus_one, minus_one,
}
use perf_event_tests.Fuzzer.Find.Search.{count, count-set, count-le-length, one_if}
use perf_event_tests.Fuzzer.Setup.{one_more_mmap}
use perf_event_tests.Fuzzer.Triple.{Triple, Triple-lands}

module _ {A : Type 0} where
  pub get_elem?-set :
      (l : List A) (i : ℕ) (a b : A) → get_elem? l i ≡ some a → get_elem? (set l i b) i ≡ some b
  get_elem?-set [] i a b h = absurd (ground (arith, h))
  get_elem?-set (x ∷ l) zero a b h = refl
  get_elem?-set (x ∷ l) (suc i) a b h = get_elem?-set l i a b h

  pub get_elem?-set_other :
      (l : List A) (i k : ℕ) (b : A) → k ≢ i → get_elem? (set l i b) k ≡ get_elem? l k
  get_elem?-set_other [] i k b h = refl
  get_elem?-set_other (x ∷ l) zero zero b h = absurd (h refl)
  get_elem?-set_other (x ∷ l) zero (suc k) b h = refl
  get_elem?-set_other (x ∷ l) (suc i) zero b h = refl
  get_elem?-set_other (x ∷ l) (suc i) (suc k) b h = get_elem?-set_other l i k b (λ e. h (ap suc e))

  pub length-set : (l : List A) (i : ℕ) (b : A) → length (set l i b) ≡ length l
  length-set [] i b = refl
  length-set (x ∷ l) zero b = refl
  length-set (x ∷ l) (suc i) b = ap suc (length-set l i b)

  one_if-le-count :
      (p : A → Bool) (l : List A) (i : ℕ) (a : A)
      → get_elem? l i ≡ some a
      → one_if (p a) ≤ count p l
  one_if-le-count p [] i a h = absurd (ground (arith, h))
  one_if-le-count p (x ∷ l) zero a h = ground (arith, h)
  one_if-le-count p (x ∷ l) (suc i) a h = omega (arith, one_if-le-count p l i a h)

abbrev pub is_active : OurMmap → Bool
is_active m = m.active

-- `Accepted a n` says that `munmap` takes the address `a` with the length `n`.
module _ (Accepted : ℕ → ℕ → Type 0) where
  pub record SlotFits (m : OurMmap) : Type 0 where
    pub used : m.active ≡ true → Accepted m.addr m.size × (m.addr ≢ map_failed)
    pub free : m.active ≡ false → (m.addr ≡ map_failed) ⊎ ((m.addr ≡ 0) × (m.size ≡ 0))

  -- The counter is the number of active slots. An active slot has an address and a length
  -- that `munmap` takes, and any other has no address,
  -- or the zeros of the start of the program.
  pub record Sound (l : List OurMmap) (n : ℕ) : Type 0 where
    pub counted : n ≡ count is_active l
    pub few : length l < 2 ^ 31
    pub slots : (k : ℕ) (m : OurMmap) → get_elem? l k ≡ some m → SlotFits m

  -- Slot `i` is being changed and holds `v`. The counter has `d` for it.
  pub record Open (i : ℕ) (v : OurMmap) (d : ℕ) (l : List OurMmap) (n : ℕ) : Type 0 where
    pub here : get_elem? l i ≡ some v
    pub counted : n + one_if v.active ≡ count is_active l + d
    pub few : length l < 2 ^ 31
    pub others : (k : ℕ) (m : OurMmap) → get_elem? l k ≡ some m → k ≢ i → SlotFits m

  pub failed_slot : (m : OurMmap) → m.active ≡ false → m.addr ≡ map_failed → SlotFits m
  failed_slot m free e = record { used = λ u. absurd (ground (arith, u, free)); free = λ _. inl e }

  pub open_slot :
      (i : ℕ) (v : OurMmap) (l : List OurMmap) (n : ℕ)
      → Sound l n
      → get_elem? l i ≡ some v
      → Open i v (one_if v.active) l n
  open_slot i v l n s h = record {
    here = h;
    counted = omega (arith, s.counted);
    few = s.few;
    others = λ k m e ne. s.slots k m e;
  }

  pub close_slot :
      (i : ℕ) (v : OurMmap) (d : ℕ) (l : List OurMmap) (n : ℕ)
      → Open i v d l n
      → d ≡ one_if v.active
      → SlotFits v
      → Sound l n
  close_slot i v d l n o e fits = record {
    counted = omega (arith, o.counted, e);
    few = o.few;
    slots = λ k m h. elim (ℕ_discrete k i) [
      | no other ↦ o.others k m h other
      | yes same ↦
          let found : some v ≡ some m = sym o.here ∙ ap (get_elem? l) (sym same) ∙ h in
          subst SlotFits (ap (λ x. elim x [ none ↦ v | some y ↦ y ]) found) fits
    ];
  }

  Open-set :
      (i : ℕ) (v b : OurMmap) (d : ℕ) (l : List OurMmap) (n : ℕ)
      → Open i v d l n
      → Open i b d (set l i b) n
  Open-set i v b d l n o = record {
    here = get_elem?-set l i v b o.here;
    counted = omega (arith, o.counted, count-set is_active l i v b o.here);
    few = omega (arith, o.few, length-set l i b);
    others = λ k m h ne. o.others k m (sym (get_elem?-set_other l i k b ne) ∙ h) ne;
  }

  pub Triple-change_mmap :
      (i : ℕ) (v : OurMmap) (d : ℕ) (f : OurMmap → OurMmap)
      → Triple (Open i v d) (change_mmap i f) (λ _. Open i (f v) d)
  unfolding change_mmap
  Triple-change_mmap i v d f = Triple-lands λ s o. (
    tt,
    record s { mmaps = set s.mmaps i (f v) },
    ground (arith, o.here),
    Open-set i v (f v) d s.mmaps s.active_mmaps o,
  )

  pub Triple-one_more_mmap :
      (i : ℕ) (v : OurMmap) → v.active ≡ false → Triple (Open i v 0) one_more_mmap (λ _. Open i v 1)
  unfolding change
  Triple-one_more_mmap i v free = Triple-lands λ s o. (
    tt,
    record s { active_mmaps = plus_one s.active_mmaps },
    refl,
    record {
      here = o.here;
      counted = ground (arith, o.counted, o.few, free, count-le-length is_active s.mmaps);
      few = o.few;
      others = o.others;
    },
  )

  pub Triple-one_less_mmap :
      (i : ℕ) (v : OurMmap)
      → v.active ≡ false
      → Triple
          (Open i v 1)
          (change (λ s. record s { active_mmaps = minus_one s.active_mmaps }))
          (λ _. Open i v 0)
  unfolding change
  Triple-one_less_mmap i v free = Triple-lands λ s o. (
    tt,
    record s { active_mmaps = minus_one s.active_mmaps },
    refl,
    record {
      here = o.here;
      counted = ground (arith, o.counted, o.few, free, count-le-length is_active s.mmaps);
      few = o.few;
      others = o.others;
    },
  )

  pub Triple-mmap_at :
      (i : ℕ) → Triple Sound (mmap_at i) (λ m l n. (get_elem? l i ≡ some m) × Sound l n)
  unfolding mmap_at
  Triple-mmap_at i = record {
    run = λ s a s' o e. elim (Option-cases (get_elem? s.mmaps i)) [
      | inl gone ↦ absurd (ground (arith, e, gone))
      | inr (m, here) ↦
          let found : some (m, s) ≡ some (a, s') = ground (arith, e, here) in
          let same : (m, s) ≡ (a, s') = ap (λ o. elim o [ none ↦ (m, s) | some t ↦ t ]) found in
          subst
            (λ (t : OurMmap × State).
              (get_elem? t.1.mmaps i ≡ some t.0) × Sound t.1.mmaps t.1.active_mmaps)
            same (here, o)
    ];
  }

-- ===== src/Record/Ring/Copy.antt =====
-- The copy of the ring starts at the old head and wraps round.
use native.Mathlib.Nat.{mod-eq_of_lt, mod-add-mod, mod-eq-sub-mod, mod-lt}
use native.Mathlib.Decide.{dec_lt}
use perf_event_tests.Base.{
  ℕ, zero, suc, ◌+◌, ◌-◌, ◌%◌, ◌≤◌, ◌<◌, ◌≡◌, refl, sym, ap, ◌∙◌, inl, inr, Option-cases, some,
  List, [], ◌∷◌, ◌++◌, arith, length, length-append, get_elem?, take?, drop,
}
use perf_event_tests.Record.Ring.{copy_ring}

take?-get_elem? :
    (n : ℕ) (xs ys : List ℕ)
    → take? n xs ≡ some ys
    → (k : ℕ) → k < n
    → get_elem? ys k ≡ get_elem? xs k
take?-get_elem? zero xs ys e k h = absurd (omega arith)
take?-get_elem? (suc n) [] ys e k h = ground arith
take?-get_elem? (suc n) (x ∷ xs) [] e k h = ground arith
take?-get_elem? (suc n) (x ∷ xs) (y ∷ ys) e zero h = ground arith
take?-get_elem? (suc n) (x ∷ xs) (y ∷ ys) e (suc k) h =
    ground (arith, take?-get_elem? n xs ys (ground arith) k (omega arith))

take?-length : (n : ℕ) (xs ys : List ℕ) → take? n xs ≡ some ys → length ys ≡ n
take?-length zero xs ys e = ground arith
take?-length (suc n) [] ys e = ground arith
take?-length (suc n) (x ∷ xs) [] e = ground arith
take?-length (suc n) (x ∷ xs) (y ∷ ys) e = ground (arith, take?-length n xs ys (ground arith))

take?-total : (n : ℕ) (xs : List ℕ) → n ≤ length xs → (ys : List ℕ) × (take? n xs ≡ some ys)
take?-total zero xs h = ([], refl)
take?-total (suc n) [] h = absurd (omega arith)
take?-total (suc n) (x ∷ xs) h = let (ys, e) = take?-total n xs (omega arith) in (x ∷ ys, rw e)

drop-get_elem? : (n : ℕ) (xs : List ℕ) (k : ℕ) → get_elem? (drop n xs) k ≡ get_elem? xs (n + k)
drop-get_elem? zero xs k = ap (λ (i : ℕ). get_elem? xs i) (omega arith)
drop-get_elem? (suc n) [] k = refl
drop-get_elem? (suc n) (x ∷ xs) k =
    drop-get_elem? n xs k
    ∙ ap (λ (i : ℕ). get_elem? (x ∷ xs) i) (let e : suc (n + k) ≡ suc n + k = omega arith in e)

length-drop : (n : ℕ) (xs : List ℕ) → length (drop n xs) ≡ length xs - n
length-drop zero xs = omega arith
length-drop (suc n) [] = omega arith
length-drop (suc n) (x ∷ xs) = omega (arith, length-drop n xs)

get_elem?-append_left :
    (xs ys : List ℕ) (k : ℕ) → k < length xs → get_elem? (xs ++ ys) k ≡ get_elem? xs k
get_elem?-append_left [] ys k h = absurd (omega arith)
get_elem?-append_left (x ∷ xs) ys zero h = refl
get_elem?-append_left (x ∷ xs) ys (suc k) h = get_elem?-append_left xs ys k (omega arith)

get_elem?-append_right :
    (xs ys : List ℕ) (k : ℕ) → get_elem? (xs ++ ys) (length xs + k) ≡ get_elem? ys k
get_elem?-append_right [] ys k = ap (λ (i : ℕ). get_elem? ys i) (omega arith)
get_elem?-append_right (x ∷ xs) ys k =
    ap (λ (i : ℕ). get_elem? (x ∷ (xs ++ ys)) i)
      (let e : suc (length xs) + k ≡ suc (length xs + k) = omega arith in e)
    ∙ get_elem?-append_right xs ys k

-- The two parts of a copy.
copy_ring-parts :
    (ring : List ℕ) (bytesize at : ℕ) (buf : List ℕ)
    → copy_ring ring bytesize at ≡ some buf
    → (front back : List ℕ) × (take? (bytesize - at) (drop at ring) ≡ some front)
      × (take? at ring ≡ some back)
      × (buf ≡ front ++ back)
unfolding copy_ring
copy_ring-parts ring bytesize at buf e =
    elim (Option-cases (take? (bytesize - at) (drop at ring))) [
      | inl p ↦ ground arith
      | inr (front, p) ↦ elim (Option-cases (take? at ring)) [
        | inl q ↦ ground arith
        | inr (back, q) ↦ (front, back, p, q, ground arith)
      ]
    ]

-- In a ring of `bytesize` bytes, with the old head inside of it, the two `memcpy` stay inside the ring and
-- fill the `bytesize` bytes of the copy.
pub copy_ring_total :
    (ring : List ℕ) (bytesize at : ℕ)
    → length ring ≡ bytesize
    → at < bytesize
    → (buf : List ℕ) × (copy_ring ring bytesize at ≡ some buf) × (length buf ≡ bytesize)
unfolding copy_ring
copy_ring_total ring bytesize at full h =
    let fits : bytesize - at ≤ length (drop at ring) = omega (arith, length-drop at ring) in
    let front = take?-total (bytesize - at) (drop at ring) fits in
    let back = take?-total at ring (omega arith) in
    (
      front.0 ++ back.0,
      ground (arith, front.1, back.1),
      omega (
        arith,
        length-append front.0 back.0,
        take?-length (bytesize - at) (drop at ring) front.0 front.1,
        take?-length at ring back.0 back.1,
      ),
    )

index_front : (b p k : ℕ) → k < b - p % b → (p + k) % b ≡ p % b + k
index_front b p k h = grind (arith, mod-eq_of_lt, mod-add-mod)

index_back : (b p k : ℕ) → b - p % b ≤ k → k < b → (p + k) % b ≡ k - (b - p % b)
index_back b p k far h =
    let at : p % b < b = mod-lt p (omega arith) in
    sym (mod-add-mod p b k)
    ∙ mod-eq-sub-mod (omega arith)
    ∙ mod-eq_of_lt {n = p % b + k - b} (omega arith)
    ∙ omega arith

-- Where the ring is copied, byte `k` of the copy, below `bytesize`, is byte `(prev_head + k) % bytesize` of
-- the ring.
pub copy_ring-get_elem? :
    (ring : List ℕ) (bytesize prev_head k : ℕ) (buf : List ℕ)
    → copy_ring ring bytesize (prev_head % bytesize) ≡ some buf
    → k < bytesize
    → get_elem? buf k ≡ get_elem? ring ((prev_head + k) % bytesize)
copy_ring-get_elem? ring bytesize prev_head k buf e h =
    let at = prev_head % bytesize in
    let (front, back, p, q, r) = copy_ring-parts ring bytesize at buf e in
    let n = take?-length (bytesize - at) (drop at ring) front p in
    elim (dec_lt k (bytesize - at)) [
      | yes near ↦
          rw (r, index_front bytesize prev_head k near)
            (get_elem?-append_left front back k (omega arith)
              ∙ take?-get_elem? (bytesize - at) (drop at ring) front p k near
              ∙ drop-get_elem? at ring k)
      | no far ↦
          let j = k - (bytesize - at) in
          let split : k ≡ length front + j = omega arith in
          rw (r, index_back bytesize prev_head k (omega arith) h)
            (ap (get_elem? (front ++ back)) split
              ∙ get_elem?-append_right front back j
              ∙ take?-get_elem? at ring back q j
                  (omega (arith, mod-lt prev_head {m = bytesize} (omega arith))))
    ]

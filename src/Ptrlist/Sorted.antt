-- ===== src/Ptrlist/Sorted.antt =====
-- ptrlist.c: the order of a list under the merge sort.
use yastg.Prelude.{
  Bool, Bool-cases, List, ap, arith, drop, false, inl, inr, length, refl, suc, take, true, zero, ℕ,
  ◌++◌, ◌∷◌, ◌≡◌, ◌≤◌,
}
use yastg.Ptrlist.Ops.{merge_rounds}
use yastg.Prelude.{[]}
use yastg.Prelude.{append-nil, subst, sym, ◌*◌, ◌+◌, ◌⊎◌}
use yastg.Ptrlist.Ops.{merge_chunk, merge_lists}
use yastg.Prelude.{dec_lt, length-drop, length-take, ltb, min, ◌-◌, ◌∙◌}
use yastg.Ptrlist.Ops.{Ptrlist, ptrlist_sort, sort_rounds}
use yastg.Prelude.{length-append}

module _ {A : Type 0} where
  take-append : (a b : List A) (n : ℕ) → length a ≡ n → take n (a ++ b) ≡ a
  take-append [] b zero h = refl
  take-append [] b (suc n) h = absurd (omega arith)
  take-append (x ∷ a) b zero h = absurd (omega arith)
  take-append (x ∷ a) b (suc n) h = ap (λ t. x ∷ t) (take-append a b n (omega arith))

  drop-append : (a b : List A) (n : ℕ) → length a ≡ n → drop n (a ++ b) ≡ b
  drop-append [] b zero h = refl
  drop-append [] b (suc n) h = absurd (omega arith)
  drop-append (x ∷ a) b zero h = absurd (omega arith)
  drop-append (x ∷ a) b (suc n) h = drop-append a b n (omega arith)

  take_all : (a : List A) (n : ℕ) → length a ≤ n → take n a ≡ a
  take_all [] zero h = refl
  take_all [] (suc n) h = refl
  take_all (x ∷ a) zero h = absurd (omega arith)
  take_all (x ∷ a) (suc n) h = ap (λ t. x ∷ t) (take_all a n (omega arith))

  drop_all : (a : List A) (n : ℕ) → length a ≤ n → drop n a ≡ []
  drop_all [] zero h = refl
  drop_all [] (suc n) h = refl
  drop_all (x ∷ a) zero h = absurd (omega arith)
  drop_all (x ∷ a) (suc n) h = drop_all a n (omega arith)

  nil_of_length : (a : List A) → length a ≤ 0 → a ≡ []
  nil_of_length [] h = refl
  nil_of_length (x ∷ a) h = absurd (omega arith)

module _ {A : Type 0} (greater : A → A → Bool) where
  -- No element of the list comes before `x`.
  abbrev pub AllAfter : A → List A → Type 0
  AllAfter x [] = Unit
  AllAfter x (y ∷ l) = (greater x y ≡ false) × AllAfter x l

  abbrev pub IsSorted : List A → Type 0
  IsSorted [] = Unit
  IsSorted (x ∷ l) = AllAfter x l × IsSorted l

  -- `cmp` is an order.
  pub record IsOrder : Type 0 where
    pub total : (x y : A) → greater x y ≡ true → greater y x ≡ false
    pub trans : (x y z : A) → greater x y ≡ false → greater y z ≡ false → greater x z ≡ false

module _ {A : Type 0} (greater : A → A → Bool) (order : IsOrder greater) where
  AllAfter-trans :
      (x y : A) (l : List A) → greater x y ≡ false → AllAfter greater y l → AllAfter greater x l
  AllAfter-trans x y [] h a = tt
  AllAfter-trans x y (z ∷ l) h a = (order.trans x y z h a.0, AllAfter-trans x y l h a.1)

  AllAfter-merge :
      (n : ℕ) (x : A) (l r : List A)
      → AllAfter greater x l
      → AllAfter greater x r
      → AllAfter greater x (merge_rounds greater n l r)
  unfolding merge_rounds
  AllAfter-merge n x [] r hl hr = hr
  AllAfter-merge n x (y ∷ l) [] hl hr = hl
  AllAfter-merge zero x (y ∷ l) (z ∷ r) hl hr = tt
  AllAfter-merge (suc n) x (y ∷ l) (z ∷ r) hl hr =
      ground (arith, AllAfter-merge n x (y ∷ l) r hl hr.1, AllAfter-merge n x l (z ∷ r) hl.1 hr)

  merge_rounds-IsSorted :
      (n : ℕ) (l r : List A)
      → IsSorted greater l
      → IsSorted greater r
      → IsSorted greater (merge_rounds greater n l r)
  unfolding merge_rounds
  merge_rounds-IsSorted n [] r hl hr = hr
  merge_rounds-IsSorted n (x ∷ l) [] hl hr = hl
  merge_rounds-IsSorted zero (x ∷ l) (y ∷ r) hl hr = tt
  merge_rounds-IsSorted (suc n) (x ∷ l) (y ∷ r) hl hr = elim (Bool-cases (greater x y)) [
    | inl e ↦
        let f = order.total x y e in
        rw (e, merge_rounds)
          (
            AllAfter-merge n y (x ∷ l) r (f, AllAfter-trans y x l f hl.0) hr.0,
            merge_rounds-IsSorted n (x ∷ l) r hl hr.1,
          )
    | inr e ↦
        rw (e, merge_rounds)
          (
            AllAfter-merge n x l (y ∷ r) hl.0 (e, AllAfter-trans x y r e hr.0),
            merge_rounds-IsSorted n l (y ∷ r) hl.1 hr,
          )
  ]

  -- The first `n` chunks are sorted.
  abbrev Chunks : ℕ → ℕ → List A → Type 0
  Chunks zero chunk l = Unit
  Chunks (suc n) chunk l = IsSorted greater (take chunk l) × Chunks n chunk (drop chunk l)

  Chunks-nil : (n chunk : ℕ) → Chunks n chunk []
  Chunks-nil zero chunk = tt
  Chunks-nil (suc n) zero = (tt, Chunks-nil n zero)
  Chunks-nil (suc n) (suc chunk) = (tt, Chunks-nil n (suc chunk))

  Chunks-one : (n : ℕ) (l : List A) → Chunks n 1 l
  Chunks-one zero l = tt
  Chunks-one (suc n) [] = (tt, Chunks-nil n 1)
  Chunks-one (suc n) (x ∷ l) = ((tt, tt), Chunks-one n l)

  -- A first part that fills `n` places, or that nothing follows.
  split_after :
      (a b : List A) (n : ℕ)
      → (length a ≡ n) ⊎ ((b ≡ []) × (length a ≤ n))
      → (take n (a ++ b) ≡ a) × (drop n (a ++ b) ≡ b)
  split_after a b n (inl h) = (take-append a b n h, drop-append a b n h)
  split_after a b n (inr (e, h)) =
      subst (λ c. (take n (a ++ c) ≡ a) × (drop n (a ++ c) ≡ c)) (sym e)
        (rw (append-nil a) (take_all a n h, drop_all a n h))

  length-merge_rounds :
      (n : ℕ) (l r : List A)
      → length l + length r ≤ n
      → length (merge_rounds greater n l r) ≡ length l + length r
  unfolding merge_rounds
  length-merge_rounds n [] r h = omega arith
  length-merge_rounds n (x ∷ l) [] h = omega arith
  length-merge_rounds zero (x ∷ l) (y ∷ r) h = absurd (omega arith)
  length-merge_rounds (suc n) (x ∷ l) (y ∷ r) h = ground (
    arith,
    length-merge_rounds n (x ∷ l) r (omega arith),
    length-merge_rounds n l (y ∷ r) (omega arith),
  )

  merge_chunk-nil : (m chunk : ℕ) (l : List A) → l ≡ [] → merge_chunk greater m chunk l ≡ []
  unfolding merge_chunk
  merge_chunk-nil zero chunk [] e = refl
  merge_chunk-nil (suc m) chunk [] e = refl
  merge_chunk-nil m chunk (x ∷ l) e = absurd (cc e)

  abbrev twice : ℕ → ℕ
  twice zero = zero
  twice (suc n) = suc (suc (twice n))

  length-merged :
      (k : ℕ) (l : List A)
      → length (merge_lists greater (take k l) (take k (drop k l)))
        ≡ min k (length l) + min k (length l - k)
  unfolding merge_lists
  length-merged k l = omega (
    arith,
    length-merge_rounds (length (take k l) + length (take k (drop k l))) (take k l)
        (take k (drop k l)) (omega arith),
    length-take k l,
    length-take k (drop k l),
    length-drop k l,
  )

  -- The rest after two chunks, merged, starts at a multiple of two chunks, or is empty.
  merged_ends :
      (m k : ℕ) (l : List A)
      → let a = merge_lists greater (take k l) (take k (drop k l)) in
        let b = merge_chunk greater m k (drop k (drop k l)) in
        (length a ≡ k * 2) ⊎ ((b ≡ []) × (length a ≤ k * 2))
  merged_ends m k l = elim (dec_lt (length l) (k * 2)) [
    | yes h ↦ inr (
      merge_chunk-nil m k (drop k (drop k l))
          (nil_of_length _ (omega (arith, length-drop k (drop k l), length-drop k l))),
      omega (arith, length-merged k l),
    )
    | no h ↦ inl (omega (arith, length-merged k l))
  ]

  -- A round that merges chunks in pairs makes chunks of two times the size.
  Chunks-merge_chunk :
      (n m k : ℕ) (l : List A)
      → 1 ≤ k
      → length l ≤ m
      → Chunks (twice n) k l
      → Chunks n (k * 2) (merge_chunk greater m k l)
  unfolding merge_chunk merge_lists
  Chunks-merge_chunk zero m k l h1 h c = tt
  Chunks-merge_chunk (suc n) m k [] h1 h c = Chunks-nil (suc n) (k * 2)
  Chunks-merge_chunk (suc n) zero k (x ∷ l) h1 h c = absurd (omega arith)
  Chunks-merge_chunk (suc n) (suc m) k (x ∷ l) h1 h (sl, (sr, rest)) =
      let (et, ed) = split_after _ _ (k * 2) (merged_ends m k (x ∷ l)) in
      let ih =
        Chunks-merge_chunk n m k (drop k (drop k (x ∷ l))) h1
          (omega (arith, length-drop k (drop k (x ∷ l)), length-drop k (x ∷ l))) rest in
      (
        subst (IsSorted greater) (sym et)
            (merge_rounds-IsSorted _ (take k (x ∷ l)) (take k (drop k (x ∷ l))) sl sr),
        subst (Chunks n (k * 2)) (sym ed) ih,
      )

  length-merge_chunk :
      (m k : ℕ) (l : List A) → 1 ≤ k → length l ≤ m → length (merge_chunk greater m k l) ≡ length l
  unfolding merge_chunk
  length-merge_chunk m k [] h1 h = refl
  length-merge_chunk zero k (x ∷ l) h1 h = refl
  length-merge_chunk (suc m) k (x ∷ l) h1 h =
      let rest = drop k (drop k (x ∷ l)) in
      let shorter = length-drop k (drop k (x ∷ l)) in
      let short = length-drop k (x ∷ l) in
      omega (
        arith,
        length-append (merge_lists greater (take k (x ∷ l)) (take k (drop k (x ∷ l))))
            (merge_chunk greater m k rest),
        length-merged k (x ∷ l),
        length-merge_chunk m k rest h1 (omega (arith, shorter, short)),
        shorter,
        short,
      )

  -- The rounds that are left reach the length of the list.
  sort_rounds-IsSorted :
      (n chunk len : ℕ) (l : List A)
      → 1 ≤ chunk
      → length l ≡ len
      → len ≤ chunk + n
      → ((c : ℕ) → Chunks c chunk l)
      → IsSorted greater (sort_rounds greater n chunk len l)
  unfolding sort_rounds
  sort_rounds-IsSorted zero chunk len l h1 e h c =
      subst (IsSorted greater) (take_all l chunk (omega arith)) (c 1).0
  sort_rounds-IsSorted (suc n) chunk len l h1 e h c = elim (Bool-cases (ltb chunk len)) [
    | inr f ↦
        rw (f, sort_rounds) (subst (IsSorted greater) (take_all l chunk (ground arith)) (c 1).0)
    | inl f ↦
        rw (f, sort_rounds)
          (sort_rounds-IsSorted n (chunk * 2) len (merge_chunk greater len chunk l) (omega arith)
            (length-merge_chunk len chunk l h1 (omega arith) ∙ e) (omega arith)
            (λ d. Chunks-merge_chunk d len chunk l h1 (omega arith) (c (twice d))))
  ]

  -- Where the comparison is an order and the list states its length, the rounds of ptrlist_sort end
  -- with no element before one that it is greater than.
  pub ptrlist_sort-IsSorted :
      (l : Ptrlist A) → l.len ≡ length l.list → IsSorted greater (ptrlist_sort greater l).list
  unfolding ptrlist_sort
  ptrlist_sort-IsSorted l e = elim (Bool-cases (ltb l.len 2)) [
    | inl f ↦ rw (f, ptrlist_sort) (short l.list (ground arith))
    | inr f ↦
        rw (f, ptrlist_sort)
          (sort_rounds-IsSorted l.len 1 l.len l.list (omega arith) (sym e) (omega arith)
            (λ c. Chunks-one c l.list))
  ]
    where
      short : (a : List A) → length a ≤ 1 → IsSorted greater a
      short [] h = tt
      short (x ∷ []) h = (tt, tt)
      short (x ∷ y ∷ a) h = absurd (omega arith)

-- ===== src/Ptrlist/Merge.antt =====
-- ptrlist.c: the elements of a list under the merge sort.
use yastg.Prelude.{
  ℕ, zero, suc, ◌+◌, List, [], ◌∷◌, ◌++◌, Bool, true, false, if◌then◌else◌, ◌≡◌, refl, ◌∙◌, arith,
  ◌≤◌, take, drop, length, ltb, ◌*◌,
}
use yastg.Ptrlist.Ops.{Ptrlist, merge_rounds, merge_lists, merge_chunk, sort_rounds, ptrlist_sort}

module _ {A : Type 0} (p : A → Bool) where
  -- The elements that pass a test, in number.
  abbrev pub count : List A → ℕ
  count [] = 0
  count (x ∷ l) = (if p x then 1 else 0) + count l

  count-append : (l r : List A) → count (l ++ r) ≡ count l + count r
  count-append [] r = omega arith
  count-append (x ∷ l) r = omega (arith, count-append l r)

  count-take-drop : (n : ℕ) (l : List A) → count (take n l) + count (drop n l) ≡ count l
  count-take-drop zero l = omega arith
  count-take-drop (suc n) [] = refl
  count-take-drop (suc n) (x ∷ l) = omega (arith, count-take-drop n l)

module _ {A : Type 0} (greater : A → A → Bool) (p : A → Bool) where
  count-merge_rounds :
      (n : ℕ) (l r : List A)
      → length l + length r ≤ n
      → count p (merge_rounds greater n l r) ≡ count p l + count p r
  unfolding merge_rounds
  count-merge_rounds n [] r h = omega arith
  count-merge_rounds n (x ∷ l) [] h = omega arith
  count-merge_rounds zero (x ∷ l) (y ∷ r) h = absurd (omega arith)
  count-merge_rounds (suc n) (x ∷ l) (y ∷ r) h =
      go (count-merge_rounds n (x ∷ l) r (omega arith))
        (count-merge_rounds n l (y ∷ r) (omega arith)) (greater x y)
    where
      go :
          count p (merge_rounds greater n (x ∷ l) r) ≡ count p (x ∷ l) + count p r
          → count p (merge_rounds greater n l (y ∷ r)) ≡ count p l + count p (y ∷ r)
          → (b : Bool)
          → count p (elim b [
            | true ↦ y ∷ merge_rounds greater n (x ∷ l) r
            | false ↦ x ∷ merge_rounds greater n l (y ∷ r)
          ])
            ≡ count p (x ∷ l) + count p (y ∷ r)
      go e f true = omega (arith, e)
      go e f false = omega (arith, f)

  count-merge_chunk :
      (n chunk : ℕ) (l : List A) → count p (merge_chunk greater n chunk l) ≡ count p l
  unfolding merge_chunk merge_lists
  count-merge_chunk n chunk [] = refl
  count-merge_chunk zero chunk (x ∷ l) = refl
  count-merge_chunk (suc n) chunk (x ∷ l) =
      let a = take chunk (x ∷ l) in
      let rest = drop chunk (x ∷ l) in
      let b = take chunk rest in
      let c = drop chunk rest in
      let e1 = count-append p (merge_lists greater a b) (merge_chunk greater n chunk c) in
      let e2 = count-merge_rounds (length a + length b) a b (omega arith) in
      let e3 = count-merge_chunk n chunk c in
      let e4 = count-take-drop p chunk rest in
      let e5 = count-take-drop p chunk (x ∷ l) in omega (arith, e1, e2, e3, e4, e5)

  count-sort_rounds :
      (n chunk len : ℕ) (l : List A) → count p (sort_rounds greater n chunk len l) ≡ count p l
  unfolding sort_rounds
  count-sort_rounds zero chunk len l = refl
  count-sort_rounds (suc n) chunk len l =
      go (count-sort_rounds n (chunk * 2) len (merge_chunk greater len chunk l)) (ltb chunk len)
    where
      go :
          count p (sort_rounds greater n (chunk * 2) len (merge_chunk greater len chunk l))
            ≡ count p (merge_chunk greater len chunk l)
          → (b : Bool)
          → count p (elim b [
            | true ↦ sort_rounds greater n (chunk * 2) len (merge_chunk greater len chunk l)
            | false ↦ l
          ])
            ≡ count p l
      go e true = e ∙ count-merge_chunk len chunk l
      go e false = refl

  -- By any comparison ptrlist_sort keeps, for any test, the number of elements that pass it, and
  -- the length that the list states.
  pub count-ptrlist_sort :
      (l : Ptrlist A)
      → (count p (ptrlist_sort greater l).list ≡ count p l.list)
        × ((ptrlist_sort greater l).len ≡ l.len)
  unfolding ptrlist_sort
  count-ptrlist_sort l = go (ltb l.len 2)
    where
      go :
          (b : Bool)
          → let r = if b then l else record l { list = sort_rounds greater l.len 1 l.len l.list } in
            (count p r.list ≡ count p l.list) × (r.len ≡ l.len)
      go true = (refl, refl)
      go false = (count-sort_rounds l.len 1 l.len l.list, refl)

-- ===== src/Universe/Search.antt =====
-- universe.c: where the walks down the tree end.
use yastg.Prelude.{
  In, In-append_cases, List, Option, [], ap, append_assoc, inl, inr, none, refl, some,
  some-injective, subst, sym, true, ℕ, ◌++◌, ◌∙◌, ◌∷◌, ◌≡◌, ◌≢◌, ◌⊎◌,
}
use yastg.Prelude.Int.{ltb_ℤ, ℤ}
use yastg.Universe.Ascending.{Ascending}
use yastg.Universe.Ops.{Pos, Tree, first_after, in_order, leaf, node}
use yastg.Prelude.{Bool-cases, arith}
use yastg.Universe.Ascending.{Ascending-Around}

-- The first that is found splits the systems: those in front of it have a lower x.
abbrev Split : (ℕ → Pos) → List ℕ → ℤ → ℕ → Type 0
Split system ps x p =
    (xs : List ℕ) × ((ys : List ℕ) × ((ps ≡ xs ++ p ∷ ys)
        × ((q : ℕ) → In q xs → ltb_ℤ (system q).x x ≡ true)))

-- The walk ends at a parent, where there is none below.
abbrev pub WalkEnds : (ℕ → Pos) → Tree → ℤ → Option ℕ → Option ℕ → Type 0
WalkEnds system t x parent none = (in_order t ≡ []) × (parent ≡ none)
WalkEnds system t x parent (some p) =
    ((in_order t ≡ []) × (parent ≡ some p)) ⊎ Split system (in_order t) x p

module _ (system : ℕ → Pos) where
  left_Split :
      (l : Tree) (p : ℕ) (r : Tree) (x : ℤ) (found : Option ℕ)
      → WalkEnds system l x (some p) found
      → WalkEnds system (node l p r) x none found
  left_Split l p r x none (e, k) = absurd (cc k)
  left_Split l p r x (some q) (inl (e, k)) = inr (
    [],
    (
      in_order r,
      (
        ap (λ z. z ++ p ∷ in_order r) e ∙ ap (λ z. z ∷ in_order r) (some-injective _ _ k),
        λ q. absurd,
      ),
    ),
  )
  left_Split l p r x (some q) (inr (xs, (ys, (e, low)))) = inr (
    xs,
    (
      ys ++ p ∷ in_order r,
      (ap (λ z. z ++ p ∷ in_order r) e ∙ append_assoc xs (q ∷ ys) (p ∷ in_order r), low),
    ),
  )

  right_Split :
      (l : Tree) (p : ℕ) (r : Tree) (x : ℤ) (found : Option ℕ)
      → ((q : ℕ) → In q (in_order l) → ltb_ℤ (system q).x x ≡ true)
      → ltb_ℤ (system p).x x ≡ true
      → WalkEnds system r x (some p) found
      → WalkEnds system (node l p r) x none found
  right_Split l p r x none low here (e, k) = absurd (cc k)
  right_Split l p r x (some q) low here (inl (e, k)) = inr (
    in_order l,
    (
      [],
      (
        ap (λ z. in_order l ++ p ∷ z) e ∙ ap (λ z. in_order l ++ z ∷ []) (some-injective _ _ k),
        low,
      ),
    ),
  )
  right_Split l p r x (some q) low here (inr (xs, (ys, (e, k)))) = inr (
    in_order l ++ p ∷ xs,
    (
      ys,
      (
        ap (λ z. in_order l ++ p ∷ z) e ∙ sym (append_assoc (in_order l) (p ∷ xs) (q ∷ ys)),
        λ z i. elim (In-append_cases (in_order l) (p ∷ xs) z i) [
          | inl i ↦ low z i
          | inr (inl e) ↦ subst (λ n. ltb_ℤ (system n).x x ≡ true) (sym e) here
          | inr (inr i) ↦ k z i
        ],
      ),
    ),
  )

  no_end : (xs : List ℕ) (p : ℕ) (ys : List ℕ) → xs ++ p ∷ ys ≢ []
  no_end [] p ys e = cc
  no_end (z ∷ xs) p ys e = cc

  any_parent :
      (t : Tree) (x : ℤ) (parent found : Option ℕ)
      → t ≢ leaf
      → WalkEnds system t x none found
      → WalkEnds system t x parent found
  any_parent leaf x parent found h e = absurd (h refl)
  any_parent (node l p r) x parent none h (e, k) = absurd (no_end (in_order l) p (in_order r) e)
  any_parent (node l p r) x parent (some q) h (inl (e, k)) =
      absurd (no_end (in_order l) p (in_order r) e)
  any_parent (node l p r) x parent (some q) h (inr s) = inr s

  pub first_after-WalkEnds :
      (t : Tree) (x : ℤ) (parent : Option ℕ)
      → Ascending system (in_order t)
      → WalkEnds system t x parent (first_after system t x parent)
  unfolding first_after
  first_after-WalkEnds leaf x none h = (refl, refl)
  first_after-WalkEnds leaf x (some p) h = inl (refl, refl)
  first_after-WalkEnds (node l p r) x parent h =
      let a = Ascending-Around system (in_order l) p (in_order r) h in
      any_parent (node l p r) x parent _ (λ e. no_end (in_order l) p (in_order r) (ap in_order e))
        (elim (Bool-cases (ltb_ℤ x (system p).x)) [
          | inl e ↦ rw e (left_Split l p r x _ (first_after-WalkEnds l x (some p) a.left))
          | inr e ↦ elim (Bool-cases (ltb_ℤ (system p).x x)) [
            | inl k ↦
                rw (e, k)
                  (right_Split l p r x _ (λ q i. ground (arith, a.below q i, k)) k
                    (first_after-WalkEnds r x (some p) a.right))
            | inr k ↦
                rw (e, k)
                  (inr (in_order l, (in_order r, (refl, λ q i. ground (arith, a.below q i, e, k)))))
          ]
        ])

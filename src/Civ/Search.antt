-- ===== src/Civ/Search.antt =====
-- civ.c: the search for a system without an owner, in larger and larger circles.
use yastg.Civ.Ops.{first_free, search, civ_grow_step_ly}
use yastg.Universe.Ops.{Space, Tree, in_order, is_near, get_neighbouring_systems}
use yastg.Universe.Ascending.{Ascending}
use yastg.Universe.Neighbours.{filter, IsNext, IsRoot, get_neighbouring_systems-filter}
use yastg.Prelude.{
  Bool, Bool-cases, In, List, Option, Option-cases, [], ap, inl, inr, none, refl, some, subst, suc,
  sym, true, ℕ, ◌*◌, ◌+◌, ◌↔◌, ◌∙◌, ◌∷◌, ◌≡◌, ◌≢◌, ◌⊎◌,
}
use yastg.Prelude.Int.{ℤ}
use yastg.Prelude.{arith, zero}

In-filter : (f : ℕ → Bool) (xs : List ℕ) (q : ℕ) → In q (filter f xs) ↔ (In q xs × (f q ≡ true))
In-filter f [] q = (absurd, λ h. h.0)
In-filter f (x ∷ xs) q = elim (Bool-cases (f x)) [
  | inl e ↦ rw e (
    elim [
      | inl k ↦ (inl k, ap f k ∙ e)
      | inr k ↦ let (i, j) = (In-filter f xs q).0 k in (inr i, j)
    ],
    λ h. elim h.0 [ inl k ↦ inl k | inr k ↦ inr ((In-filter f xs q).1 (k, h.1)) ],
  )
  | inr e ↦ rw e (
    λ k. let (i, j) = (In-filter f xs q).0 k in (inr i, j),
    λ h. elim h.0 [ inl k ↦ absurd (cc (e, h.1, ap f k)) | inr k ↦ (In-filter f xs q).1 (k, h.1) ],
  )
]

first_free_lem :
    (owner : ℕ → Option ℕ) (xs : List ℕ)
    → ((s : ℕ) × (first_free owner xs ≡ some s) × In s xs × (owner s ≡ none))
      ⊎ ((first_free owner xs ≡ none) × ((q : ℕ) → In q xs → owner q ≢ none))
unfolding first_free
first_free_lem owner [] = inr (refl, λ q h. absurd h)
first_free_lem owner (x ∷ xs) = elim (Option-cases (owner x)) [
  | inl e ↦ inl (x, at_x e, inl refl, e)
  | inr (c, e) ↦ elim (first_free_lem owner xs) [
    | inl (s, k, i, free) ↦ inl (s, past c e ∙ k, inr i, free)
    | inr (k, all) ↦ inr (
      past c e ∙ k,
      λ q. elim [ inl i ↦ λ free. absurd (cc (e, free, ap owner i)) | inr i ↦ all q i ],
    )
  ]
]
  where
    at_x : owner x ≡ none → first_free owner (x ∷ xs) ≡ some x
    at_x e = ap (λ (o : Option ℕ). elim o [ none ↦ some x | some d ↦ first_free owner xs ]) e

    past : (c : ℕ) → owner x ≡ some c → first_free owner (x ∷ xs) ≡ first_free owner xs
    past c e = ap (λ (o : Option ℕ). elim o [ none ↦ some x | some d ↦ first_free owner xs ]) e

module _ (sqrt : ℤ → ℤ → ℕ) (rb_next : ℕ → Tree → Option ℕ) (is_root : IsRoot sqrt)
    (is_next : IsNext rb_next) (u : Space)
    (ascending : Ascending u.system (in_order u.x_rbtree)) where
  -- What is found is a system of the tree without an owner.
  abbrev Finds : (ℕ → Option ℕ) → Option ℕ → Type 0
  Finds owner o = (s : ℕ) × (o ≡ some s) × In s (in_order u.x_rbtree) × (owner s ≡ none)

  search_now :
      (fuel : ℕ) (owner : ℕ → Option ℕ) (t radius s : ℕ)
      → first_free owner (get_neighbouring_systems sqrt rb_next u t radius) ≡ some s
      → search sqrt rb_next u (suc fuel) owner t radius ≡ some s
  unfolding search
  search_now fuel owner t radius s e =
      ap
        (λ (o : Option ℕ). elim o [
          | some s ↦ some s
          | none ↦ search sqrt rb_next u fuel owner t (radius + civ_grow_step_ly)
        ])
        e

  search_later :
      (fuel : ℕ) (owner : ℕ → Option ℕ) (t radius : ℕ)
      → first_free owner (get_neighbouring_systems sqrt rb_next u t radius) ≡ none
      → search sqrt rb_next u (suc fuel) owner t radius
        ≡ search sqrt rb_next u fuel owner t (radius + civ_grow_step_ly)
  unfolding search
  search_later fuel owner t radius e =
      ap
        (λ (o : Option ℕ). elim o [
          | some s ↦ some s
          | none ↦ search sqrt rb_next u fuel owner t (radius + civ_grow_step_ly)
        ])
        e

  neighbour :
      (t radius q : ℕ)
      → In q (get_neighbouring_systems sqrt rb_next u t radius)
        ↔ (In q (in_order u.x_rbtree) × (is_near sqrt (u.system t) radius (u.system q) ≡ true))
  neighbour t radius q =
      subst
        (λ xs.
          In q xs
          ↔ (In q (in_order u.x_rbtree) × (is_near sqrt (u.system t) radius (u.system q) ≡ true)))
        (sym (get_neighbouring_systems-filter sqrt rb_next is_root is_next u t radius ascending))
        (In-filter (λ q. is_near sqrt (u.system t) radius (u.system q)) (in_order u.x_rbtree) q)

  -- Where some system without an owner is near at the last circle, one is found.
  pub search-Finds :
      (fuel : ℕ) (owner : ℕ → Option ℕ) (t radius q : ℕ)
      → In q (in_order u.x_rbtree)
      → owner q ≡ none
      → is_near sqrt (u.system t) (radius + fuel * civ_grow_step_ly) (u.system q) ≡ true
      → Finds owner (search sqrt rb_next u (suc fuel) owner t radius)
  search-Finds zero owner t radius q i free near =
      elim (first_free_lem owner (get_neighbouring_systems sqrt rb_next u t radius)) [
        | inl (s, e, k, f) ↦ (s, search_now 0 owner t radius s e, ((neighbour t radius s).0 k).0, f)
        | inr (e, all) ↦ absurd (all q ((neighbour t radius q).1 (i, here)) free)
      ]
    where
      here : is_near sqrt (u.system t) radius (u.system q) ≡ true
      here = subst (λ r. is_near sqrt (u.system t) r (u.system q) ≡ true) (omega arith) near
  search-Finds (suc fuel) owner t radius q i free near =
      elim (first_free_lem owner (get_neighbouring_systems sqrt rb_next u t radius)) [
        | inl (s, e, k, f) ↦
            (s, search_now (suc fuel) owner t radius s e, ((neighbour t radius s).0 k).0, f)
        | inr (e, all) ↦ subst (Finds owner) (sym (search_later (suc fuel) owner t radius e)) (
            search-Finds fuel owner t (radius + civ_grow_step_ly) q i free
              (subst (λ r. is_near sqrt (u.system t) r (u.system q) ≡ true) (omega arith) near))
      ]

-- ===== src/Universe/Neighbours.antt =====
-- universe.c: which systems are neighbours.
use yastg.Prelude.{
  Bool, In, List, Option, [], arith, false, if◌then◌else◌, inl, inr, length, none, refl, some, suc,
  true, zero, ℕ, ◌++◌, ◌<◌, ◌∷◌, ◌≡◌, ◌⊎◌,
}
use yastg.Prelude.Int.{leb_ℤ, ltb_ℤ, pos, ℤ, ◌+ℤ◌, ◌-ℤ◌, ◌≤ℤ◌}
use yastg.Universe.Ascending.{Ascending}
use yastg.Universe.Ops.{Pos, Space, Tree, in_order, is_near, near_from, system_distance}
use yastg.Prelude.{Bool-cases, ap, ltb, subst, sym, ◌&&◌, ◌≤◌}
use yastg.Prelude.Int.{int_laws}
use yastg.Universe.Ascending.{Around, Ascending-Around}
use yastg.Prelude.{append_assoc, leb, length-append, ltb→lt, ◌∙◌}
use yastg.Universe.Ops.{get_first_system_after_x, get_neighbouring_systems}
use yastg.Universe.Search.{first_after-WalkEnds}
use yastg.Universe.Search.{WalkEnds}
use yastg.Universe.Ascending.{not_in}

abbrev pub filter : {A : Type 0} → (A → Bool) → List A → List A
filter f [] = []
filter f (x ∷ xs) = if f x then x ∷ filter f xs else filter f xs

filter-append :
    {A : Type 0} (f : A → Bool) (xs ys : List A)
    → ((x : A) → In x xs → f x ≡ false)
    → filter f (xs ++ ys) ≡ filter f ys
filter-append f [] ys h = refl
filter-append f (x ∷ xs) ys h = rw (h x (inl refl)) (filter-append f xs ys (λ y k. h y (inr k)))

-- What is relied on of `rb_next`, the successor in the order of the tree, and of `sqrt`, which is not
-- below the size of either number.
pub record IsNext (rb_next : ℕ → Tree → Option ℕ) : Type 0 where
  pub next :
      (t : Tree) (xs : List ℕ) (p q : ℕ) (ys : List ℕ)
      → in_order t ≡ xs ++ p ∷ q ∷ ys
      → ¬ In p xs
      → rb_next p t ≡ some q
  pub last :
      (t : Tree) (xs : List ℕ) (p : ℕ) → in_order t ≡ xs ++ p ∷ [] → ¬ In p xs → rb_next p t ≡ none

abbrev pub IsRoot : (ℤ → ℤ → ℕ) → Type 0
IsRoot sqrt = (dx dy : ℤ) → (dx ≤ℤ pos (sqrt dx dy)) × (pos 0 -ℤ dx ≤ℤ pos (sqrt dx dy))

filter-none :
    {A : Type 0} (f : A → Bool) (xs : List A) → ((x : A) → In x xs → f x ≡ false) → filter f xs ≡ []
filter-none f [] h = refl
filter-none f (x ∷ xs) h = rw (h x (inl refl)) (filter-none f xs (λ y k. h y (inr k)))

not_leb : (a b : ℕ) → leb a b ≡ false → b < a
not_leb a b h = ground (arith, h)

reach :
    (x x₀ : ℤ) (d n : ℕ)
    → (ltb_ℤ x (x₀ -ℤ pos d) ≡ true) ⊎ (leb_ℤ x (x₀ +ℤ pos d) ≡ false)
    → x -ℤ x₀ ≤ℤ pos n
    → pos 0 -ℤ (x -ℤ x₀) ≤ℤ pos n
    → d ≤ n
reach x x₀ d n (inl h) right left = let k = ltb→lt _ _ h in omega int_laws
reach x x₀ d n (inr h) right left = let k = not_leb _ _ h in omega int_laws

module _ (sqrt : ℤ → ℤ → ℕ) (rb_next : ℕ → Tree → Option ℕ) (is_root : IsRoot sqrt)
    (is_next : IsNext rb_next) where
  far :
      (origin : Pos) (d : ℕ) (s : Pos)
      → (ltb_ℤ s.x (origin.x -ℤ pos d) ≡ true) ⊎ (leb_ℤ s.x (origin.x +ℤ pos d) ≡ false)
      → is_near sqrt origin d s ≡ false
  unfolding is_near system_distance
  far origin d s h =
      let (right, left) = is_root (s.x -ℤ origin.x) (s.y -ℤ origin.y) in
      not_closer (sqrt (s.x -ℤ origin.x) (s.y -ℤ origin.y)) (leb_ℤ (origin.y -ℤ pos d) s.y)
        (leb_ℤ s.y (origin.y +ℤ pos d))
        (reach s.x origin.x d (sqrt (s.x -ℤ origin.x) (s.y -ℤ origin.y)) h right left)
    where
      not_closer : (n : ℕ) (a b : Bool) → d ≤ n → (a && b && ltb n d) ≡ false
      not_closer n a b k = ground (arith, k)

  beyond :
      (u : Space) (origin : Pos) (d : ℕ) (xs : List ℕ) (p : ℕ) (ys : List ℕ)
      → Around u.system xs p ys
      → leb_ℤ (u.system p).x (origin.x +ℤ pos d) ≡ false
      → (q : ℕ) → In q (p ∷ ys)
      → is_near sqrt origin d (u.system q) ≡ false
  beyond u origin d xs p ys a far_off q i = far origin d (u.system q) (
      inr (elim i [
        | inl i ↦ subst (λ n. leb_ℤ (u.system n).x (origin.x +ℤ pos d) ≡ false) (sym i) far_off
        | inr i ↦ ground (arith, a.above q i, far_off)
      ]))

  near_from-some :
      (u : Space) (origin : Pos) (d fuel : ℕ) (xs : List ℕ) (p : ℕ) (ys : List ℕ)
      → Around u.system xs p ys
      → near_from sqrt rb_next fuel u origin d (rb_next p u.x_rbtree)
        ≡ filter (λ q. is_near sqrt origin d (u.system q)) ys
      → near_from sqrt rb_next (suc fuel) u origin d (some p)
        ≡ filter (λ q. is_near sqrt origin d (u.system q)) (p ∷ ys)
  unfolding near_from
  near_from-some u origin d fuel xs p ys a h =
      elim (Bool-cases (leb_ℤ (u.system p).x (origin.x +ℤ pos d))) [
        | inr far_off ↦
            rw far_off (sym (filter-none _ (p ∷ ys) (beyond u origin d xs p ys a far_off)))
        | inl in_reach ↦
            rw in_reach
              (ap (λ rest. if is_near sqrt origin d (u.system p) then p ∷ rest else rest) h)
      ]

  near_from-none :
      (u : Space) (origin : Pos) (d fuel : ℕ) → near_from sqrt rb_next fuel u origin d none ≡ []
  unfolding near_from
  near_from-none u origin d zero = refl
  near_from-none u origin d (suc fuel) = refl

  -- The loop visits the systems from `p` on, to the last one in reach.
  near_from-filter :
      (u : Space) (origin : Pos) (d fuel : ℕ) (xs : List ℕ) (p : ℕ) (ys : List ℕ)
      → Ascending u.system (in_order u.x_rbtree)
      → in_order u.x_rbtree ≡ xs ++ p ∷ ys
      → length ys < fuel
      → near_from sqrt rb_next fuel u origin d (some p)
        ≡ filter (λ q. is_near sqrt origin d (u.system q)) (p ∷ ys)
  near_from-filter u origin d zero xs p ys h e k = absurd (omega arith)
  near_from-filter u origin d (suc fuel) xs p [] h e k =
      let a = Ascending-Around u.system xs p [] (subst (Ascending u.system) e h) in
      near_from-some u origin d fuel xs p [] a (
        ap (λ n. near_from sqrt rb_next fuel u origin d n)
          (is_next.last u.x_rbtree xs p e (not_in u.system xs p [] a))
        ∙ near_from-none u origin d fuel)
  near_from-filter u origin d (suc fuel) xs p (q ∷ ys) h e k =
      let a = Ascending-Around u.system xs p (q ∷ ys) (subst (Ascending u.system) e h) in
      near_from-some u origin d fuel xs p (q ∷ ys) a (
        ap (λ n. near_from sqrt rb_next fuel u origin d n)
          (is_next.next u.x_rbtree xs p q ys e (not_in u.system xs p (q ∷ ys) a))
        ∙ near_from-filter u origin d fuel (xs ++ p ∷ []) q ys h
            (e ∙ sym (append_assoc xs (p ∷ []) (q ∷ ys))) (omega arith))

  -- Where the tree has the systems in ascending order of x, rb_next is the successor in it, and the
  -- root is at least the size of either difference, get_neighbouring_systems pushes, in the order
  -- of the tree, exactly the systems that are within the distance and within its bounds in y.
  pub get_neighbouring_systems-filter :
      (u : Space) (origin d : ℕ)
      → Ascending u.system (in_order u.x_rbtree)
      → get_neighbouring_systems sqrt rb_next u origin d
        ≡ filter (λ q. is_near sqrt (u.system origin) d (u.system q)) (in_order u.x_rbtree)
  unfolding get_neighbouring_systems get_first_system_after_x
  get_neighbouring_systems-filter u origin d h =
      go _ (first_after-WalkEnds u.system u.x_rbtree ((u.system origin).x -ℤ pos d) none h)
    where
      go :
          (found : Option ℕ)
          → WalkEnds u.system u.x_rbtree ((u.system origin).x -ℤ pos d) none found
          → near_from sqrt rb_next (suc (length (in_order u.x_rbtree))) u (u.system origin) d found
            ≡ filter (λ q. is_near sqrt (u.system origin) d (u.system q)) (in_order u.x_rbtree)
      go none (e, _) =
          near_from-none u (u.system origin) d (suc (length (in_order u.x_rbtree)))
          ∙ ap (filter (λ q. is_near sqrt (u.system origin) d (u.system q))) (sym e)
      go (some p) (inl (e, k)) = absurd (cc k)
      go (some p) (inr (xs, (ys, (e, low)))) =
          near_from-filter u (u.system origin) d (suc (length (in_order u.x_rbtree))) xs p ys h e (
            subst (λ l. length ys < suc (length l)) (sym e)
              (omega (arith, length-append xs (p ∷ ys))))
          ∙ sym (
              filter-append (λ q. is_near sqrt (u.system origin) d (u.system q)) xs (p ∷ ys)
                (λ q i. far (u.system origin) d (u.system q) (inl (low q i))))
          ∙ ap (filter (λ q. is_near sqrt (u.system origin) d (u.system q))) (sym e)

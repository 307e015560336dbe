-- ===== src/Universe/Move.antt =====
-- universe.c: placing systems in the tree.
use yastg.Prelude.{
  Bool-cases, In, In-append_cases, List, Option, Returns, [], ap, append_assoc, arith, false, inl,
  inr, none, refl, some, subst, sym, true, ℕ, ◌++◌, ◌∙◌, ◌∷◌, ◌≡◌, ◌≢◌,
}
use yastg.Prelude.Int.{eq_of_parts, ltb_ℤ, ℤ}
use yastg.Universe.Ascending.{Around, Ascending, Ascending-Around}
use yastg.Universe.Ops.{Pos, Tree, get_system_at_x, in_order, leaf, node, rb_link}
use yastg.Prelude.{In-append_left, In-append_right, Returns-bind, Returns-test, ◌↔◌}
use yastg.Universe.Ops.{Space, erase_at}
use yastg.Prelude.{Bool, ◌⊎◌}
use yastg.Universe.Ascending.{Ascending-apart, Ascending-congr, Ascending-without, not_in}
use yastg.Universe.Ops.{insert_system_into_rbtree}
use yastg.Prelude.{if◌then◌else◌, ok, ◌==◌, ◌>>=◌}
use yastg.Universe.Ascending.{Around-Ascending, Ascending-append}
use yastg.Universe.Ops.{system_move}
use yastg.Prelude.{==_iff}

In-around :
    {A : Type 0} (xs : List A) (p : A) (ys : List A) (q : A)
    → (q ≡ p) ⊎ In q (xs ++ ys)
    → In q (xs ++ p ∷ ys)
In-around xs p ys q (inl e) = In-append_right xs (p ∷ ys) q (inl e)
In-around xs p ys q (inr k) = elim (In-append_cases xs ys q k) [
  | inl k ↦ In-append_left xs (p ∷ ys) q k
  | inr k ↦ In-append_right xs (p ∷ ys) q (inr k)
]

In-around_cases :
    {A : Type 0} (xs : List A) (p : A) (ys : List A) (q : A)
    → In q (xs ++ p ∷ ys)
    → (q ≡ p) ⊎ In q (xs ++ ys)
In-around_cases xs p ys q k = elim (In-append_cases xs (p ∷ ys) q k) [
  | inl k ↦ inr (In-append_left xs ys q k)
  | inr (inl e) ↦ inl e
  | inr (inr k) ↦ inr (In-append_right xs ys q k)
]

-- What is relied on of rbtree.c: the order of the other nodes is kept.
pub record IsBalanced (rb_insert_color rb_erase : ℕ → Tree → Tree) : Type 0 where
  pub colored : (s : ℕ) (t : Tree) → in_order (rb_insert_color s t) ≡ in_order t
  pub erased :
      (t : Tree) (xs : List ℕ) (p : ℕ) (ys : List ℕ)
      → in_order t ≡ xs ++ p ∷ ys
      → ¬ In p xs
      → in_order (rb_erase p t) ≡ xs ++ ys

-- What is found at `x` is one of the systems, and it is there.
abbrev At : (ℕ → Pos) → List ℕ → ℤ → Option ℕ → Type 0
At system ps x none = (q : ℕ) → In q ps → (system q).x ≢ x
At system ps x (some p) =
    (xs : List ℕ) × ((ys : List ℕ) × ((ps ≡ xs ++ p ∷ ys) × ((system p).x ≡ x)))

-- The new system stands between those with a lower x and those with a higher.
record Linked (system : ℕ → Pos) (ps : List ℕ) (s : ℕ) (ps' : List ℕ) : Type 0 where
  low : List ℕ
  high : List ℕ
  old : ps ≡ low ++ high
  new : ps' ≡ low ++ s ∷ high
  below : (q : ℕ) → In q low → ltb_ℤ (system q).x (system s).x ≡ true
  above : (q : ℕ) → In q high → ltb_ℤ (system s).x (system q).x ≡ true

same : (a b : ℤ) → ltb_ℤ b a ≡ false → ltb_ℤ a b ≡ false → a ≡ b
same a b h k = eq_of_parts a b (ground (arith, h, k))

module _ (system : ℕ → Pos) where
  left_At :
      (l : List ℕ) (p : ℕ) (r : List ℕ) (x : ℤ) (found : Option ℕ)
      → Around system l p r
      → ltb_ℤ x (system p).x ≡ true
      → At system l x found
      → At system (l ++ p ∷ r) x found
  left_At l p r x none a e h = λ q k. elim (In-append_cases l (p ∷ r) q k) [
    | inl k ↦ h q k
    | inr (inl i) ↦ λ i'. ground (arith, e, subst (λ n. (system n).x ≡ x) i i')
    | inr (inr k) ↦ λ i. ground (arith, e, a.above q k, i)
  ]
  left_At l p r x (some q) a e (xs, (ys, (i, k))) =
      (xs, (ys ++ p ∷ r, (ap (λ z. z ++ p ∷ r) i ∙ append_assoc xs (q ∷ ys) (p ∷ r), k)))

  right_At :
      (l : List ℕ) (p : ℕ) (r : List ℕ) (x : ℤ) (found : Option ℕ)
      → Around system l p r
      → ltb_ℤ (system p).x x ≡ true
      → At system r x found
      → At system (l ++ p ∷ r) x found
  right_At l p r x none a e h = λ q k. elim (In-append_cases l (p ∷ r) q k) [
    | inl k ↦ λ i. ground (arith, e, a.below q k, i)
    | inr (inl i) ↦ λ i'. ground (arith, e, subst (λ n. (system n).x ≡ x) i i')
    | inr (inr k) ↦ h q k
  ]
  right_At l p r x (some q) a e (xs, (ys, (i, k))) =
      (l ++ p ∷ xs, (ys, (ap (λ z. l ++ p ∷ z) i ∙ sym (append_assoc l (p ∷ xs) (q ∷ ys)), k)))

  get_system_at_x-At :
      (t : Tree) (x : ℤ)
      → Ascending system (in_order t)
      → At system (in_order t) x (get_system_at_x system t x)
  unfolding get_system_at_x
  get_system_at_x-At leaf x h = λ q. absurd
  get_system_at_x-At (node l p r) x h =
      let a = Ascending-Around system (in_order l) p (in_order r) h in
      elim (Bool-cases (ltb_ℤ x (system p).x)) [
        | inl e ↦ rw e (left_At (in_order l) p (in_order r) x _ a e (get_system_at_x-At l x a.left))
        | inr e ↦ elim (Bool-cases (ltb_ℤ (system p).x x)) [
          | inl k ↦
              rw (e, k)
                (right_At (in_order l) p (in_order r) x _ a k (get_system_at_x-At r x a.right))
          | inr k ↦ rw (e, k) (in_order l, (in_order r, (refl, same (system p).x x e k)))
        ]
      ]

  left_Linked :
      (l : List ℕ) (p : ℕ) (r : List ℕ) (s : ℕ) (l' : List ℕ)
      → Around system l p r
      → ltb_ℤ (system s).x (system p).x ≡ true
      → Linked system l s l'
      → Linked system (l ++ p ∷ r) s (l' ++ p ∷ r)
  left_Linked l p r s l' a e h = record {
    low = h.low;
    high = h.high ++ p ∷ r;
    old = ap (λ z. z ++ p ∷ r) h.old ∙ append_assoc h.low h.high (p ∷ r);
    new = ap (λ z. z ++ p ∷ r) h.new ∙ append_assoc h.low (s ∷ h.high) (p ∷ r);
    below = h.below;
    above = λ q k. elim (In-append_cases h.high (p ∷ r) q k) [
      | inl k ↦ h.above q k
      | inr (inl i) ↦ subst (λ n. ltb_ℤ (system s).x (system n).x ≡ true) (sym i) e
      | inr (inr k) ↦ ground (arith, e, a.above q k)
    ];
  }

  right_Linked :
      (l : List ℕ) (p : ℕ) (r : List ℕ) (s : ℕ) (r' : List ℕ)
      → Around system l p r
      → ltb_ℤ (system p).x (system s).x ≡ true
      → Linked system r s r'
      → Linked system (l ++ p ∷ r) s (l ++ p ∷ r')
  right_Linked l p r s r' a e h = record {
    low = l ++ p ∷ h.low;
    high = h.high;
    old = ap (λ z. l ++ p ∷ z) h.old ∙ sym (append_assoc l (p ∷ h.low) h.high);
    new = ap (λ z. l ++ p ∷ z) h.new ∙ sym (append_assoc l (p ∷ h.low) (s ∷ h.high));
    below = λ q k. elim (In-append_cases l (p ∷ h.low) q k) [
      | inl k ↦ ground (arith, e, a.below q k)
      | inr (inl i) ↦ subst (λ n. ltb_ℤ (system n).x (system s).x ≡ true) (sym i) e
      | inr (inr k) ↦ h.below q k
    ];
    above = h.above;
  }

  rb_link-Linked :
      (t : Tree) (s : ℕ)
      → Ascending system (in_order t)
      → ((q : ℕ) → In q (in_order t) → (system q).x ≢ (system s).x)
      → Returns (λ t'. Linked system (in_order t) s (in_order t')) (rb_link system s t)
  unfolding rb_link
  rb_link-Linked leaf s h apart = record {
    low = [];
    high = [];
    old = refl;
    new = refl;
    below = λ q. absurd;
    above = λ q. absurd;
  }
  rb_link-Linked (node l p r) s h apart =
      let a = Ascending-Around system (in_order l) p (in_order r) h in
      Returns-test _ (ltb_ℤ (system s).x (system p).x) _ _
        (λ e.
          Returns-bind _ _ (rb_link system s l) _
            (rb_link-Linked l s a.left
              (λ q k. apart q (In-append_left (in_order l) (p ∷ in_order r) q k)))
            (λ l' k. left_Linked (in_order l) p (in_order r) s (in_order l') a e k))
        (λ e.
          Returns-test _ (ltb_ℤ (system p).x (system s).x) _ _
            (λ k.
              Returns-bind _ _ (rb_link system s r) _
                (rb_link-Linked r s a.right
                  (λ q i. apart q (In-append_right (in_order l) (p ∷ in_order r) q (inr i))))
                (λ r' i. right_Linked (in_order l) p (in_order r) s (in_order r') a k i))
            (λ k. absurd (
              apart p (In-append_right (in_order l) (p ∷ in_order r) p (inl refl))
                (same (system p).x (system s).x e k))))

Linked-Ascending :
    (system : ℕ → Pos) (ps : List ℕ) (s : ℕ) (ps' : List ℕ) (k : Linked system ps s ps')
    → Ascending system ps
    → Ascending system (k.low ++ s ∷ k.high)
Linked-Ascending system ps s ps' k h =
    let (left, right) = Ascending-append system k.low k.high (subst (Ascending system) k.old h) in
    Around-Ascending system k.low s k.high
      (record { below = k.below; above = k.above; left = left; right = right })

-- The result is 1 and nothing changes where some system has that x. Else the system is at the new
-- place, and in the tree. So are the others, but for any that was where the system was before.
abbrev pub Placed : ℕ → ℤ → ℤ → Space → Bool × Space → Type 0
Placed s x y u (true, u') =
    (u' ≡ u) × ((q : ℕ) × (In q (in_order u.x_rbtree) × ((u.system q).x ≡ x)))
Placed s x y u (false, u') =
    Ascending u'.system (in_order u'.x_rbtree)
    × ((u'.system s ≡ record { x = x; y = y })
        × ((q : ℕ)
            → In q (in_order u'.x_rbtree)
              ↔ ((q ≡ s) ⊎ (In q (in_order u.x_rbtree) × ((u.system q).x ≢ (u.system s).x)))))

-- What is left in the tree once the system where `s` is has gone: not `s`, which is in the tree at its own place only.
record Erased (u : Space) (s : ℕ) (t : Tree) : Type 0 where
  ascending : Ascending u.system (in_order t)
  out : ¬ In s (in_order t)
  kept :
      (q : ℕ) → In q (in_order t) ↔ (In q (in_order u.x_rbtree) × ((u.system q).x ≢ (u.system s).x))

module _ (rb_insert_color rb_erase : ℕ → Tree → Tree)
    (balanced : IsBalanced rb_insert_color rb_erase) where
  erase_at-Erased :
      (u : Space) (s : ℕ) (found : Option ℕ)
      → Ascending u.system (in_order u.x_rbtree)
      → At u.system (in_order u.x_rbtree) (u.system s).x found
      → Erased u s (erase_at rb_insert_color rb_erase found u.x_rbtree)
  unfolding erase_at
  erase_at-Erased u s none h k = record {
    ascending = h;
    out = λ i. k s i refl;
    kept = λ q. (λ i. (i, k q i), λ i. i.0);
  }
  erase_at-Erased u s (some p) h (xs, (ys, (e, at))) =
      let a = subst (Ascending u.system) e h in
      let left =
        balanced.erased u.x_rbtree xs p ys e
          (not_in u.system xs p ys (Ascending-Around u.system xs p ys a)) in
      record {
        ascending = subst (Ascending u.system) (sym left) (Ascending-without u.system xs p ys a);
        out = λ i. apart a s (subst (In s) left i) refl;
        kept = λ q. (
          λ i. (
            subst (In q) (sym e) (In-around xs p ys q (inr (subst (In q) left i))),
            apart a q (subst (In q) left i),
          ),
          λ (i, k). subst (In q) (sym left) (elim (In-around_cases xs p ys q (subst (In q) e i)) [
            | inl j ↦ absurd (k (subst (λ n. (u.system n).x ≡ (u.system s).x) (sym j) at))
            | inr i ↦ i
          ]),
        );
      }
    where
      apart :
          Ascending u.system (xs ++ p ∷ ys)
          → (q : ℕ) → In q (xs ++ ys)
          → (u.system q).x ≢ (u.system s).x
      apart a q i k = Ascending-apart u.system xs p ys q a i (k ∙ sym at)

  insert-Placed :
      (u : Space) (s : ℕ) (x y : ℤ) (system : ℕ → Pos) (t : Tree)
      → Erased u s t
      → At u.system (in_order u.x_rbtree) x none
      → (system s ≡ record { x = x; y = y })
      → ((q : ℕ) → In q (in_order t) → u.system q ≡ system q)
      → Returns
          (λ u'. Placed s x y u (false, u'))
          (insert_system_into_rbtree rb_insert_color rb_erase s
            (record { system = system; x_rbtree = t }))
  unfolding insert_system_into_rbtree
  insert-Placed u s x y system t gone free here others =
      Returns-bind _ _ (rb_link system s t) _
        (rb_link-Linked system t s
          (Ascending-congr u.system system (in_order t) others gone.ascending)
          (λ q i k.
            free q ((gone.kept q).0 i).0 (ap (λ z. z.x) (others q i) ∙ k ∙ ap (λ z. z.x) here)))
        (λ t' k.
          let new = balanced.colored s t' ∙ k.new in
          (
            subst (Ascending system) (sym new) (
                Linked-Ascending system (in_order t) s (in_order t') k
                  (Ascending-congr u.system system (in_order t) others gone.ascending)),
            (
              here,
              λ q. (
                λ i. elim (In-around_cases k.low s k.high q (subst (In q) new i)) [
                  | inl e ↦ inl e
                  | inr i ↦ inr ((gone.kept q).0 (subst (In q) (sym k.old) i))
                ],
                λ i. subst (In q) (sym new) (
                    In-around k.low s k.high q (elim i [
                      | inl e ↦ inl e
                      | inr i ↦ inr (subst (In q) k.old ((gone.kept q).1 i))
                    ])),
              ),
            ),
          ))

  -- Where the tree has the systems in ascending order of x, and rebalancing and erasing keep the
  -- order of the other nodes, system_move meets no bug. If some system has the new x it returns 1
  -- and changes nothing. Else it returns 0, the system is at the new place, the order is ascending
  -- again, and the tree has the system and those that were in it, but for any that has the x that
  -- the system had before.
  pub system_move-Placed :
      (s : ℕ) (x y : ℤ) (u : Space)
      → Ascending u.system (in_order u.x_rbtree)
      → Returns (Placed s x y u) (system_move rb_insert_color rb_erase s x y u)
  unfolding system_move
  system_move-Placed s x y u h =
      go (get_system_at_x u.system u.x_rbtree x) (get_system_at_x-At u.system u.x_rbtree x h)
    where
      moved : ℕ → Pos
      moved q = if s == q then record { x = x; y = y } else u.system q

      left : Tree
      left =
          erase_at rb_insert_color rb_erase (get_system_at_x u.system u.x_rbtree (u.system s).x)
            u.x_rbtree

      gone : Erased u s left
      gone =
          erase_at-Erased u s (get_system_at_x u.system u.x_rbtree (u.system s).x) h
            (get_system_at_x-At u.system u.x_rbtree (u.system s).x h)

      here : moved s ≡ record { x = x; y = y }
      here = ground arith

      others : (q : ℕ) → In q (in_order left) → u.system q ≡ moved q
      others q i = elim (Bool-cases (s == q)) [
        | inl e ↦ absurd (gone.out (subst (λ n. In n (in_order left)) (sym ((==_iff s q).0 e)) i))
        | inr e ↦ rw e refl
      ]

      go :
          (found : Option ℕ)
          → At u.system (in_order u.x_rbtree) x found
          → Returns (Placed s x y u) (elim found [
            | some prev ↦ ok (true, u)
            | none ↦ do
              u' ←
                  insert_system_into_rbtree rb_insert_color rb_erase s
                    (record { system = moved; x_rbtree = left })
              ok (false, u')
          ])
      go (some p) (xs, (ys, (e, at))) =
          (refl, (p, (subst (In p) (sym e) (In-around xs p ys p (inl refl)), at)))
      go none free =
          Returns-bind _ _
            (insert_system_into_rbtree rb_insert_color rb_erase s
              (record { system = moved; x_rbtree = left }))
            _ (insert-Placed u s x y moved left gone free here others) (λ u' k. k)

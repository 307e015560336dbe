-- ===== src/Universe/Tests.antt =====
-- universe.c: a small universe.
use yastg.Prelude.{
  ==_iff, Bool-cases, In, List, Option, Returns, [], ap, arith, false, if◌then◌else◌, inl, inr,
  none, refl, some, suc, zero, ℕ, ◌++◌, ◌+◌, ◌==◌, ◌∙◌, ◌∷◌, ◌≡◌,
}
use yastg.Prelude.Int.{int_laws, neg_part, negsuc, pos, pos_part, ℤ, ◌+ℤ◌, ◌-ℤ◌}
use yastg.Universe.Ascending.{Ascending}
use yastg.Universe.Move.{IsBalanced, Placed, system_move-Placed}
use yastg.Universe.Neighbours.{IsNext, IsRoot, filter, get_neighbouring_systems-filter}
use yastg.Universe.Ops.{
  Pos, Space, Tree, first_after, get_first_system_after_x, get_neighbouring_systems, in_order,
  is_near, leaf, near_from, node, system_distance, system_move,
}
use yastg.Prelude.{map, subst, sym, true}
use yastg.Prelude.Int.{ltb_ℤ, to_int32}
use yastg.Ptrlist.Ops.{
  merge_chunk, merge_lists, merge_rounds, ptrlist_init, ptrlist_push, ptrlist_sort, sort_rounds,
}
use yastg.Universe.Links.{
  cmp_system_distances, concat, get_neighbouring_ports, is_farther, nearest_first, ports_of,
  push_each,
}
use yastg.Universe.Nearest.{IsClose, get_neighbouring_ports-ListedNear}
use yastg.Universe.Ops.{erase_at, get_system_at_x, insert_system_into_rbtree, rb_link}
use yastg.Universe.Nearest.{ListedNear}

-- The parameters, as functions on the order of the tree. The root is that of a larger square.
abbrev after : ℕ → List ℕ → Option ℕ
after p [] = none
after p (q ∷ []) = none
after p (q ∷ r ∷ ps) = if p == q then some r else after p (r ∷ ps)

abbrev pub next : ℕ → Tree → Option ℕ
next p t = after p (in_order t)

abbrev size : ℤ → ℕ
size z = pos_part z + neg_part z

abbrev pub sqrt : ℤ → ℤ → ℕ
sqrt dx dy = size dx + size dy

abbrev chain : List ℕ → Tree
chain [] = leaf
chain (p ∷ ps) = node leaf p (chain ps)

in_order-chain : (ps : List ℕ) → in_order (chain ps) ≡ ps
in_order-chain [] = refl
in_order-chain (p ∷ ps) = ap (λ l. p ∷ l) (in_order-chain ps)

abbrev without : ℕ → List ℕ → List ℕ
without p [] = []
without p (q ∷ ps) = if p == q then ps else q ∷ without p ps

abbrev color : ℕ → Tree → Tree
color s t = t

abbrev erase : ℕ → Tree → Tree
erase p t = chain (without p (in_order t))

differs : (p q : ℕ) (xs : List ℕ) → ¬ In p (q ∷ xs) → (p == q) ≡ false
differs p q xs h = elim (Bool-cases (p == q)) [
  | inl e ↦ absurd (h (inl ((==_iff p q).0 e)))
  | inr e ↦ e
]

without-around :
    (xs : List ℕ) (p : ℕ) (ys : List ℕ) → ¬ In p xs → without p (xs ++ p ∷ ys) ≡ xs ++ ys
without-around [] p ys h = ground arith
without-around (q ∷ xs) p ys h =
    rw (differs p q xs h) (ap (λ l. q ∷ l) (without-around xs p ys (λ k. h (inr k))))

erase-IsBalanced : IsBalanced color erase
erase-IsBalanced = record {
  colored = λ s t. refl;
  erased = λ t xs p ys e h.
      in_order-chain (without p (in_order t)) ∙ ap (without p) e ∙ without-around xs p ys h;
}

after-next : (xs : List ℕ) (p q : ℕ) (ys : List ℕ) → ¬ In p xs → after p (xs ++ p ∷ q ∷ ys) ≡ some q
after-next [] p q ys h = ground arith
after-next (z ∷ []) p q ys h = rw (differs p z [] h) (after-next [] p q ys (λ k. h (inr k)))
after-next (z ∷ w ∷ xs) p q ys h =
    rw (differs p z (w ∷ xs) h) (after-next (w ∷ xs) p q ys (λ k. h (inr k)))

after-last : (xs : List ℕ) (p : ℕ) → ¬ In p xs → after p (xs ++ p ∷ []) ≡ none
after-last [] p h = refl
after-last (z ∷ []) p h = rw (differs p z [] h) (after-last [] p (λ k. h (inr k)))
after-last (z ∷ w ∷ xs) p h = rw (differs p z (w ∷ xs) h) (after-last (w ∷ xs) p (λ k. h (inr k)))

pub next-IsNext : IsNext next
next-IsNext = record {
  next = λ t xs p q ys e h. ap (after p) e ∙ after-next xs p q ys h;
  last = λ t xs p e h. ap (after p) e ∙ after-last xs p h;
}

pub sqrt-IsRoot : IsRoot sqrt
sqrt-IsRoot dx dy = (omega int_laws, omega int_laws)

-- Three systems; the second is at x = 0.
abbrev pub place : ℕ → Pos
place zero = record { x = negsuc 9; y = pos 0 }
place (suc zero) = record { x = pos 0; y = pos 3 }
place (suc (suc n)) = record { x = pos 20; y = pos 0 }

abbrev pub three : Space
three = record { system = place; x_rbtree = node (node leaf 0 leaf) 1 (node leaf 2 leaf) }

pub three-Ascending : Ascending place (0 ∷ 1 ∷ 2 ∷ [])
three-Ascending = (
  λ q. elim [
    | inl e ↦ higher 0 q 1 e refl
    | inr (inl e) ↦ higher 0 q 2 e refl
    | inr (inr k) ↦ absurd k
  ],
  (λ q. elim [ inl e ↦ higher 1 q 2 e refl | inr k ↦ absurd k ], (λ q. absurd, tt)),
)
  where
    higher :
        (p q r : ℕ)
        → q ≡ r
        → ltb_ℤ (place p).x (place r).x ≡ true
        → ltb_ℤ (place p).x (place q).x ≡ true
    higher p q r e h = subst (λ n. ltb_ℤ (place p).x (place n).x ≡ true) (sym e) h

neighbours_of_one : get_neighbouring_systems sqrt next three 1 20 ≡ 0 ∷ 1 ∷ []
unfolding get_neighbouring_systems near_from is_near system_distance get_first_system_after_x
    first_after ◌-ℤ◌ ◌+ℤ◌
neighbours_of_one = refl

get_neighbouring_systems-filter_example :
    get_neighbouring_systems sqrt next three 1 20
    ≡ filter (λ q. is_near sqrt (place 1) 20 (place q)) (0 ∷ 1 ∷ 2 ∷ [])
get_neighbouring_systems-filter_example =
    get_neighbouring_systems-filter sqrt next sqrt-IsRoot next-IsNext three 1 20 three-Ascending

system_move-Placed_example :
    Returns (Placed 3 (pos 5) (pos 5) three) (system_move color erase 3 (pos 5) (pos 5) three)
system_move-Placed_example =
    system_move-Placed color erase erase-IsBalanced 3 (pos 5) (pos 5) three three-Ascending

-- A system that is new is at x = 0, so that the one that is there is taken out of the tree.
new_system_evicts :
    Returns
      (λ r. in_order r.1.x_rbtree ≡ 0 ∷ 4 ∷ 2 ∷ [])
      (system_move color erase 4 (pos 5) (pos 5) (record three {
        system = λ q. if q == 4 then record { x = pos 0; y = pos 0 } else place q;
      }))
unfolding system_move get_system_at_x erase_at insert_system_into_rbtree rb_link
new_system_evicts = refl

far_apart : IsClose sqrt place 1
unfolding system_distance ◌-ℤ◌
far_apart zero = omega arith
far_apart (suc zero) = omega arith
far_apart (suc (suc n)) = omega arith

get_neighbouring_ports-ListedNear_example :
    (systems : List ℕ) × (ListedNear sqrt three 1 20 systems
      × ((get_neighbouring_ports sqrt next
            (λ s. s ∷ [])
            (λ s. ((s + 100) ∷ []) ∷ [])
            three
            1
            20
            ptrlist_init).list
          ≡ [] ++ concat (map (ports_of (λ s. s ∷ []) (λ s. ((s + 100) ∷ []) ∷ [])) systems)))
unfolding ptrlist_init
get_neighbouring_ports-ListedNear_example =
    get_neighbouring_ports-ListedNear sqrt next sqrt-IsRoot next-IsNext (λ s. s ∷ [])
      (λ s. ((s + 100) ∷ []) ∷ []) three 1 20 ptrlist_init three-Ascending far_apart

-- The ports of the system itself are listed twice.
listed_twice :
    (get_neighbouring_ports sqrt next (λ s. s ∷ []) (λ s. []) three 1 20 ptrlist_init).list
    ≡ 1 ∷ 1 ∷ 0 ∷ []
unfolding get_neighbouring_ports nearest_first push_each ports_of ptrlist_init ptrlist_push
    ptrlist_sort sort_rounds merge_chunk merge_lists merge_rounds is_farther cmp_system_distances
    get_neighbouring_systems near_from is_near system_distance get_first_system_after_x first_after
    ◌-ℤ◌ ◌+ℤ◌ to_int32
listed_twice = refl

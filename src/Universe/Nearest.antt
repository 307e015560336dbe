-- ===== src/Universe/Nearest.antt =====
-- universe.c: the order in which the ports near a system are listed.
use yastg.Prelude.{
  List, [], append-nil, append_assoc, arith, if◌then◌else◌, length, length-append, ltb, suc, sym, ℕ,
  ◌++◌, ◌<◌, ◌==◌, ◌^◌, ◌∙◌, ◌∷◌, ◌≡◌,
}
use yastg.Prelude.Int.{ltb_ℤ, pos, to_int32, ℤ, ◌-ℤ◌}
use yastg.Ptrlist.Ops.{Ptrlist, ptrlist_push}
use yastg.Universe.Links.{cmp_system_distances, is_farther, push_each}
use yastg.Universe.Ops.{Pos, system_distance}
use yastg.Prelude.{ap, ◌≤◌}
use yastg.Prelude.Int.{neg_part, negsuc, pos_part}
use yastg.Prelude.{Bool, Option, map, refl}
use yastg.Ptrlist.Merge.{count, count-ptrlist_sort}
use yastg.Ptrlist.Ops.{ptrlist_init, ptrlist_sort}
use yastg.Ptrlist.Sorted.{IsOrder, IsSorted, ptrlist_sort-IsSorted}
use yastg.Universe.Ascending.{Ascending}
use yastg.Universe.Links.{concat, get_neighbouring_ports, nearest_first, ports_of}
use yastg.Universe.Neighbours.{IsNext, IsRoot, filter, get_neighbouring_systems-filter}
use yastg.Universe.Ops.{Space, Tree, get_neighbouring_systems, in_order, is_near}

push_each-list : (ps : List ℕ) (l : Ptrlist ℕ) → (push_each ps l).list ≡ l.list ++ ps
unfolding push_each ptrlist_push
push_each-list [] l = sym (append-nil l.list)
push_each-list (p ∷ ps) l = push_each-list ps (ptrlist_push l p) ∙ append_assoc l.list (p ∷ []) ps

push_each-len :
    (ps : List ℕ) (l : Ptrlist ℕ)
    → l.len ≡ length l.list
    → (push_each ps l).len ≡ length (push_each ps l).list
unfolding push_each ptrlist_push
push_each-len [] l h = h
push_each-len (p ∷ ps) l h =
    push_each-len ps (ptrlist_push l p) (omega (arith, length-append l.list (p ∷ [])))

to_int32_small : (z : ℤ) → pos_part z < 2 ^ 31 → neg_part z < 2 ^ 31 → to_int32 z ≡ z
unfolding to_int32
to_int32_small (pos n) h k = ground arith
to_int32_small (negsuc n) h k = ground arith

positive : (a b : ℕ) → ltb_ℤ (pos 0) (pos a -ℤ pos b) ≡ ltb b a
unfolding ◌-ℤ◌
positive a b = ground arith

sub_bounds : (a b : ℕ) → (pos_part (pos a -ℤ pos b) ≤ a) × (neg_part (pos a -ℤ pos b) ≤ b)
unfolding ◌-ℤ◌
sub_bounds a b = (ground arith, ground arith)

module _ (sqrt : ℤ → ℤ → ℕ) (system : ℕ → Pos) (origin : ℕ) where
  -- The place of a system in the order: the origin comes first.
  abbrev rank : ℕ → ℕ
  rank s = if s == origin then 0 else suc (system_distance sqrt (system origin) (system s))

  -- The distance of each system is an `int`.
  abbrev pub IsClose : Type 0
  IsClose = (s : ℕ) → system_distance sqrt (system origin) (system s) < 2 ^ 31

  positive_diff :
      (a b : ℕ) → a < 2 ^ 31 → b < 2 ^ 31 → ltb_ℤ (pos 0) (to_int32 (pos a -ℤ pos b)) ≡ ltb b a
  positive_diff a b h k =
      ap (ltb_ℤ (pos 0)) (
        to_int32_small (pos a -ℤ pos b) (omega (arith, (sub_bounds a b).0))
          (omega (arith, (sub_bounds a b).1)))
      ∙ positive a b

  is_farther-rank : (a b : ℕ) → IsClose → is_farther sqrt system origin a b ≡ ltb (rank b) (rank a)
  unfolding is_farther cmp_system_distances
  is_farther-rank a b h = ground (
    arith,
    positive_diff (system_distance sqrt (system origin) (system a))
        (system_distance sqrt (system origin) (system b)) (h a) (h b),
  )

  is_farther-IsOrder : IsClose → IsOrder (is_farther sqrt system origin)
  is_farther-IsOrder h = record {
    total = λ a b e. ground (arith, e, is_farther-rank a b h, is_farther-rank b a h);
    trans = λ a b c e k.
        ground (arith, e, k, is_farther-rank a b h, is_farther-rank b c h, is_farther-rank a c h);
  }

-- The systems in the order in which their ports are listed.
pub record ListedNear (sqrt : ℤ → ℤ → ℕ) (u : Space) (origin d : ℕ) (systems : List ℕ)
    : Type 0 where
  nearer_first : IsSorted (is_farther sqrt u.system origin) systems
  same_systems :
      (p : ℕ → Bool)
      → count p systems
        ≡ count p (
            filter (λ q. is_near sqrt (u.system origin) d (u.system q)) (in_order u.x_rbtree)
            ++ origin ∷ [])

module _ (sqrt : ℤ → ℤ → ℕ) (rb_next : ℕ → Tree → Option ℕ) (is_root : IsRoot sqrt)
    (is_next : IsNext rb_next) where
  -- Where the tree has the systems in ascending order of x, rb_next is the successor in it, the
  -- root is at least the size of either difference, and every distance from the origin fits in an
  -- int, get_neighbouring_ports appends the ports of a list of systems, each with those of its
  -- planets. By cmp_system_distances no system of the list comes before a nearer one, and for any
  -- test as many of them pass it as of the systems in reach with the origin added.
  pub get_neighbouring_ports-ListedNear :
      (system_ports : ℕ → List ℕ) (planet_ports : ℕ → List (List ℕ)) (u : Space) (origin d : ℕ)
      (neighbours : Ptrlist ℕ)
      → Ascending u.system (in_order u.x_rbtree)
      → IsClose sqrt u.system origin
      → (systems : List ℕ) × (ListedNear sqrt u origin d systems
          × ((get_neighbouring_ports sqrt rb_next system_ports planet_ports u origin d
                neighbours).list
              ≡ neighbours.list ++ concat (map (ports_of system_ports planet_ports) systems)))
  unfolding get_neighbouring_ports nearest_first ptrlist_push ptrlist_init
  get_neighbouring_ports-ListedNear system_ports planet_ports u origin d neighbours h close =
      let pushed = push_each (get_neighbouring_systems sqrt rb_next u origin d) ptrlist_init in
      (
        (ptrlist_sort (is_farther sqrt u.system origin) (ptrlist_push pushed origin)).list,
        (
          record {
            nearer_first =
                ptrlist_sort-IsSorted (is_farther sqrt u.system origin)
                  (is_farther-IsOrder sqrt u.system origin close) (ptrlist_push pushed origin)
                  (omega (
                    arith,
                    length-append pushed.list (origin ∷ []),
                    push_each-len (get_neighbouring_systems sqrt rb_next u origin d) ptrlist_init
                        refl,
                  ));
            same_systems = λ p.
                (count-ptrlist_sort (is_farther sqrt u.system origin) p
                  (ptrlist_push pushed origin)).0
                ∙ ap (λ l. count p (l ++ origin ∷ []))
                    (push_each-list (get_neighbouring_systems sqrt rb_next u origin d) ptrlist_init
                      ∙ get_neighbouring_systems-filter sqrt rb_next is_root is_next u origin d h);
          },
          push_each-list
              (concat (
                map (ports_of system_ports planet_ports)
                  (ptrlist_sort (is_farther sqrt u.system origin)
                    (ptrlist_push pushed origin)).list))
              neighbours,
        ),
      )

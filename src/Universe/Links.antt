-- ===== src/Universe/Links.antt =====
-- universe.c: links between systems, placing a system close to another, and the ports near a system.

use yastg.Prelude.{
  Bool, List, Option, Run, [], false, if◌then◌else◌, ltb, map, max, min, none, ok, some, suc, true,
  zero, ℕ, ◌*◌, ◌++◌, ◌+◌, ◌-◌, ◌==◌, ◌>>=◌, ◌∷◌,
}
use yastg.Prelude.Int.{ltb_ℤ, negsuc, pos, to_int32, ℤ, ◌+ℤ◌, ◌-ℤ◌}
use yastg.Ptrlist.Ops.{Ptrlist, ptrlist_init, ptrlist_push, ptrlist_sort}
use yastg.Universe.Ops.{Pos, Space, Tree, get_neighbouring_systems, system_distance, system_move}

-- `links` of each system
unfoldable pub link : (ℕ → List ℕ) → ℕ → ℕ → ℕ → List ℕ
link links s t q = if s == q then links q ++ t ∷ [] else links q

unfoldable pub linksystems : ℕ → ℕ → (ℕ → List ℕ) → ℕ → List ℕ
unfolding link
linksystems s1 s2 links = link (link links s1 s2) s2 s1

abbrev neighbour_distance : ℕ
neighbour_distance = 25 * 10000

-- A coordinate of `makeneighbours`, from what `mtrandom_ulong` returns for `draw_below`.
unfoldable draw_below : ℕ → ℕ → ℕ
draw_below min max = if ltb min max then max - min else neighbour_distance

unfoldable near_coord : ℕ → ℕ → ℕ → ℤ → ℤ
near_coord min max r at =
    if ltb min max then pos (min + r) +ℤ at else pos (r * 2) -ℤ pos neighbour_distance +ℤ at

module _ {G : Type 0} (mtrandom_ulong : ℕ → G → ℕ × G)
    (rb_insert_color rb_erase : ℕ → Tree → Tree) where
  -- The loop; the fuel is the number of rounds that are left, `none` where there are too few.
  unfoldable makeneighbours : ℕ → ℕ → ℕ → ℕ → ℕ → G → Space → Run (Option (G × Space))
  unfolding draw_below near_coord system_move
  makeneighbours zero s1 s2 min max g u = ok none
  makeneighbours (suc fuel) s1 s2 min max g u =
      let (a, g) = mtrandom_ulong (draw_below min max) g in
      let (b, g) = mtrandom_ulong (draw_below min max) g in
      do
        (again, u') ←
            system_move rb_insert_color rb_erase s2 (near_coord min max a (u.system s1).x)
              (near_coord min max b (u.system s1).y) u
        elim again [ true ↦ makeneighbours fuel s1 s2 min max g u' | false ↦ ok (some (g, u')) ]

module _ (sqrt : ℤ → ℤ → ℕ) where
  unfoldable pub cmp_system_distances : (ℕ → Pos) → ℕ → ℕ → ℕ → ℤ
  unfolding system_distance
  cmp_system_distances system origin system1 system2 =
      if system1 == origin
      then negsuc 0
      else if system2 == origin
      then pos 1
      else to_int32 (
          pos (system_distance sqrt (system origin) (system system1))
          -ℤ pos (system_distance sqrt (system origin) (system system2)))

  -- The test of the sort.
  unfoldable pub is_farther : (ℕ → Pos) → ℕ → ℕ → ℕ → Bool
  unfolding cmp_system_distances
  is_farther system origin system1 system2 =
      ltb_ℤ (pos 0) (cmp_system_distances system origin system1 system2)

unfoldable pub push_each : List ℕ → Ptrlist ℕ → Ptrlist ℕ
push_each [] l = l
push_each (p ∷ ps) l = push_each ps (ptrlist_push l p)

abbrev pub concat : {A : Type 0} → List (List A) → List A
concat [] = []
concat (xs ∷ xss) = xs ++ concat xss

-- The ports of a system, and those of its planets.
unfoldable pub ports_of : (ℕ → List ℕ) → (ℕ → List (List ℕ)) → ℕ → List ℕ
ports_of system_ports planet_ports s = system_ports s ++ concat (planet_ports s)

module _ (sqrt : ℤ → ℤ → ℕ) (rb_next : ℕ → Tree → Option ℕ) where
  unfoldable pub nearest_first : Space → ℕ → ℕ → Ptrlist ℕ
  unfolding push_each
  nearest_first u origin max_distance = ptrlist_sort (is_farther sqrt u.system origin) (
      ptrlist_push
        (push_each (get_neighbouring_systems sqrt rb_next u origin max_distance) ptrlist_init)
        origin)

  unfoldable pub get_neighbouring_ports :
      (ℕ → List ℕ) → (ℕ → List (List ℕ)) → Space → ℕ → ℕ → Ptrlist ℕ → Ptrlist ℕ
  unfolding nearest_first ports_of
  get_neighbouring_ports system_ports planet_ports u origin max_distance neighbours =
      push_each
        (concat
          (map (ports_of system_ports planet_ports) (nearest_first u origin max_distance).list))
        neighbours

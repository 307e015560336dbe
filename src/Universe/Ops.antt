-- ===== src/Universe/Ops.antt =====
-- universe.c, system.c: the tree of systems by their x coordinate. A system is known by its index in a
-- store. A node of the tree is the `x_rbtree` of its system. The operations of rbtree.h are parameters.
use yastg.Prelude.{
  Bool, List, Option, Run, [], assert_failed, false, fault, if◌then◌else◌, length, ltb, none, ok,
  some, suc, true, zero, ℕ, ◌&&◌, ◌++◌, ◌==◌, ◌>>=◌, ◌∷◌,
}
use yastg.Prelude.Int.{leb_ℤ, ltb_ℤ, pos, ℤ, ◌+ℤ◌, ◌-ℤ◌}

-- `x` and `y` of `struct system`
pub record Pos : Type 0 where
  pub x : ℤ
  pub y : ℤ

-- `struct rb_node` with `rb_left` and `rb_right`
pub data Tree : Type 0 where
  leaf : Tree
  node : Tree → ℕ → Tree → Tree

abbrev pub in_order : Tree → List ℕ
in_order leaf = []
in_order (node l p r) = in_order l ++ p ∷ in_order r

-- `x_rbtree` of the universe, with the systems
pub record Space : Type 0 where
  pub system : ℕ → Pos
  pub x_rbtree : Tree

unfoldable pub get_system_at_x : (ℕ → Pos) → Tree → ℤ → Option ℕ
get_system_at_x system leaf x = none
get_system_at_x system (node l p r) x =
    let left = get_system_at_x system l x in
    let right = get_system_at_x system r x in
    if ltb_ℤ x (system p).x then left else if ltb_ℤ (system p).x x then right else some p

-- The walk, with `parent`.
unfoldable pub first_after : (ℕ → Pos) → Tree → ℤ → Option ℕ → Option ℕ
first_after system leaf x parent = parent
first_after system (node l p r) x parent =
    let left = first_after system l x (some p) in
    let right = first_after system r x (some p) in
    if ltb_ℤ x (system p).x then left else if ltb_ℤ (system p).x x then right else some p

-- `none` is `rb_entry` of NULL, of which only the node is used.
unfoldable pub get_first_system_after_x : Space → ℤ → Option ℕ
unfolding first_after
get_first_system_after_x u x = first_after u.system u.x_rbtree x none

-- The walk of `insert_system_into_rbtree`, and the new node; a system at the same x is a `bug`.
unfoldable pub rb_link : (ℕ → Pos) → ℕ → Tree → Run Tree
rb_link system s leaf = ok (node leaf s leaf)
rb_link system s (node l p r) =
    let left = rb_link system s l in
    let right = rb_link system s r in
    elim (ltb_ℤ (system s).x (system p).x) [
      | true ↦ do l' ← left; ok (node l' p r)
      | false ↦ elim (ltb_ℤ (system p).x (system s).x) [
        | true ↦ do r' ← right; ok (node l p r')
        | false ↦ fault assert_failed
      ]
    ]

module _ (rb_insert_color rb_erase : ℕ → Tree → Tree) where
  unfoldable pub insert_system_into_rbtree : ℕ → Space → Run Space
  unfolding rb_link
  insert_system_into_rbtree s u = do
    linked ← rb_link u.system s u.x_rbtree
    ok (record u { x_rbtree = rb_insert_color s linked })

  unfoldable pub erase_at : Option ℕ → Tree → Tree
  erase_at none t = t
  erase_at (some prev) t = rb_erase prev t

  -- The first component is the result, true for 1.
  unfoldable pub system_move : ℕ → ℤ → ℤ → Space → Run (Bool × Space)
  unfolding get_system_at_x insert_system_into_rbtree erase_at
  system_move s x y u = elim (get_system_at_x u.system u.x_rbtree x) [
    | some prev ↦ ok (true, u)
    | none ↦ do
      u' ← insert_system_into_rbtree s (record {
        system = λ q. if s == q then record { x = x; y = y } else u.system q;
        x_rbtree = erase_at (get_system_at_x u.system u.x_rbtree (u.system s).x) u.x_rbtree;
      })
      ok (false, u')
  ]

-- `sqrt` is the root of the sum of two squares, in floating point, as a `long`.
module _ (sqrt : ℤ → ℤ → ℕ) where
  unfoldable pub system_distance : Pos → Pos → ℕ
  system_distance a b = sqrt (b.x -ℤ a.x) (b.y -ℤ a.y)

  -- The test on y and the distance.
  unfoldable pub is_near : Pos → ℕ → Pos → Bool
  unfolding system_distance
  is_near origin max_distance s =
      leb_ℤ (origin.y -ℤ pos max_distance) s.y
      && leb_ℤ s.y (origin.y +ℤ pos max_distance)
      && ltb (system_distance origin s) max_distance

module _ (sqrt : ℤ → ℤ → ℕ) (rb_next : ℕ → Tree → Option ℕ) where
  -- The loop from a node on; the fuel is the number of rounds that are left.
  unfoldable pub near_from : ℕ → Space → Pos → ℕ → Option ℕ → List ℕ
  unfolding is_near
  near_from zero u origin max_distance at = []
  near_from (suc fuel) u origin max_distance none = []
  near_from (suc fuel) u origin max_distance (some p) =
      let rest = near_from fuel u origin max_distance (rb_next p u.x_rbtree) in
      if leb_ℤ (u.system p).x (origin.x +ℤ pos max_distance)
      then if is_near sqrt origin max_distance (u.system p) then p ∷ rest else rest
      else []

  -- What is pushed; the result is its length. There are as many rounds as systems, and one more.
  unfoldable pub get_neighbouring_systems : Space → ℕ → ℕ → List ℕ
  unfolding near_from get_first_system_after_x
  get_neighbouring_systems u origin max_distance =
      near_from (suc (length (in_order u.x_rbtree))) u (u.system origin) max_distance
        (get_first_system_after_x u ((u.system origin).x -ℤ pos max_distance))

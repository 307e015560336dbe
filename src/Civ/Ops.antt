-- ===== src/Civ/Ops.antt =====
-- civ.c: how civilizations choose homes and grow. A system and a civilization are known by numbers; what is
-- printed is left out, and so is freeing. `goal` is 0.4 of a number, in floating point, as an unsigned long.
use yastg.Universe.Ops.{Space, Tree, get_neighbouring_systems}
use yastg.Universe.Links.{linksystems}
use yastg.Ptrlist.Ops.{
  Ptrlist, ptrlist_push, ptrlist_entry, ptrlist_len, ptrlist_random, ptrlist_rm,
}
use yastg.Mtrandom.{mtrandom_ulong}
use yastg.Prelude.{
  Bool, List, Option, Run, [], assert_failed, false, fault, if◌then◌else◌, leb, length, ltb, none,
  null_deref, ok, reverse, some, suc, true, zero, ℕ, ◌%◌, ◌&&◌, ◌*◌, ◌+◌, ◌-◌, ◌==◌, ◌>>=◌, ◌^◌,
  ◌∷◌,
}
use yastg.Prelude.Int.{neg_part, pos_part, ℤ}

-- `struct civ`, as far as it grows
pub record Realm : Type 0 where
  pub home : Option ℕ
  pub power : ℤ
  pub systems : Ptrlist ℕ
  pub border_systems : Ptrlist ℕ

-- `owner` and `links` of each system, the civilizations, and `inhabited_systems` of the universe.
pub record Galaxy : Type 0 where
  pub owner : ℕ → Option ℕ
  pub links : ℕ → List ℕ
  pub civ : ℕ → Realm
  pub inhabited_systems : ℕ

-- An `int` as an `unsigned long`
unfoldable pub to_ulong : ℤ → ℕ
to_ulong a = (pos_part a + (2 ^ 64 - neg_part a % 2 ^ 64)) % 2 ^ 64

unfoldable pub set_owner : (ℕ → Option ℕ) → ℕ → ℕ → ℕ → Option ℕ
set_owner owner s c q = if s == q then some c else owner q

unfoldable pub set_civ : (ℕ → Realm) → ℕ → Realm → ℕ → Realm
set_civ civ c r d = if c == d then r else civ d

-- The loop of `is_border_system` over the neighbours.
unfoldable pub border_from : (ℕ → Option ℕ) → ℕ → List ℕ → Bool → Bool
border_from owner c [] is_border = is_border
border_from owner c (s ∷ neigh) is_border = elim (owner s) [
  | none ↦ border_from owner c neigh true
  | some d ↦ if d == c then border_from owner c neigh is_border else false
]

-- The first neighbour without an owner.
unfoldable pub first_free : (ℕ → Option ℕ) → List ℕ → Option ℕ
first_free owner [] = none
first_free owner (s ∷ neigh) = elim (owner s) [ none ↦ some s | some d ↦ first_free owner neigh ]

-- The loop of `spawn_civilizations` over the neighbours.
unfoldable pub all_free : (ℕ → Option ℕ) → List ℕ → Bool
all_free owner [] = true
all_free owner (t ∷ neigh) = elim (owner t) [ none ↦ all_free owner neigh | some d ↦ false ]

abbrev tick_per_ly : ℕ
tick_per_ly = 10000

abbrev civ_min_border_width : ℕ
civ_min_border_width = 200 * tick_per_ly

abbrev pub civ_grow_step_ly : ℕ
civ_grow_step_ly = 10 * tick_per_ly

abbrev initial_min_interciv_distance_ly : ℕ
initial_min_interciv_distance_ly = 10 * civ_min_border_width

-- `list_for_each_entry` with `total_power += c->power`
unfoldable pub total_power : (ℕ → Realm) → List ℕ → ℕ
unfolding to_ulong
total_power civ [] = 0
total_power civ (c ∷ civs) = (to_ulong (civ c).power + total_power civ civs) % 2 ^ 64

-- `remove_civs_without_homes`
unfoldable pub remove_civs_without_homes : (ℕ → Realm) → List ℕ → List ℕ
remove_civs_without_homes civ [] = []
remove_civs_without_homes civ (c ∷ civs) =
    let rest = remove_civs_without_homes civ civs in
    elim ((civ c).home) [ none ↦ rest | some s ↦ c ∷ rest ]

-- A civilization's first system.
unfoldable pub settle_home : ℕ → ℕ → Galaxy → Galaxy
unfolding set_owner set_civ
settle_home c s g =
    let r = g.civ c in
    record g {
      owner = set_owner g.owner s c;
      civ = set_civ g.civ c (record r {
        home = some s;
        systems = ptrlist_push r.systems s;
        border_systems = ptrlist_push r.border_systems s;
      });
      inhabited_systems = g.inhabited_systems + 1;
    }

-- The positions and the tree of the systems.
module _ (sqrt : ℤ → ℤ → ℕ) (rb_next : ℕ → Tree → Option ℕ) (u : Space) where
  unfoldable pub is_border_system : (ℕ → Option ℕ) → ℕ → ℕ → Bool
  unfolding border_from
  is_border_system owner system c =
      border_from owner c (get_neighbouring_systems sqrt rb_next u system civ_min_border_width)
        false

  -- The do loop of `grow_civ`; `none` where the fuel runs out.
  unfoldable pub search : ℕ → (ℕ → Option ℕ) → ℕ → ℕ → Option ℕ
  unfolding first_free
  search zero owner t radius = none
  search (suc fuel) owner t radius =
      let later = search fuel owner t (radius + civ_grow_step_ly) in
      elim (first_free owner (get_neighbouring_systems sqrt rb_next u t radius)) [
        | some s ↦ some s
        | none ↦ later
      ]

  -- `grow_civ` from the system that is found on; `t` is the first system of the border.
  unfoldable pub annex : ℕ → ℕ → ℕ → Galaxy → Run Galaxy
  unfolding set_owner set_civ is_border_system
  annex c t s g =
      let r = g.civ c in
      let owner = set_owner g.owner s c in
      let border =
        if is_border_system owner s c then ptrlist_push r.border_systems s else r.border_systems in
      do
        border' ← if is_border_system owner t c then ok border else ptrlist_rm border 0
        ok (record g {
          owner = owner;
          links = linksystems s t g.links;
          civ =
              set_civ g.civ c
                (record r { systems = ptrlist_push r.systems s; border_systems = border' });
        })

  -- `none` is 1, and the search has this fuel. It stops with an assertion where the search runs out of
  -- fuel, which the source does not.
  unfoldable pub grow_civ : ℕ → ℕ → Galaxy → Run (Option Galaxy)
  unfolding search annex
  grow_civ fuel c g = if ptrlist_len (g.civ c).border_systems == 0 then ok none else (do
    t ← ptrlist_entry (g.civ c).border_systems 0
    elim (search fuel g.owner t civ_grow_step_ly) [
      | none ↦ fault assert_failed
      | some s ↦ do g' ← annex c t s g; ok (some g')
    ])

  module _ {G : Type 0} (mt_genrand_int32 : G → ℕ × G) (systems : Ptrlist ℕ) where
    -- The do loop of `spawn_civilizations`, by the tries that are left. A success at the last try is lost.
    unfoldable pub choose_home : ℕ → (ℕ → Option ℕ) → G → Run (Option ℕ × G)
    unfolding all_free
    choose_home zero owner g = ok (none, g)
    choose_home (suc tries) owner g =
        let (r, g') = mtrandom_ulong mt_genrand_int32 (ptrlist_len systems) g in
        do
          chosen ← ptrlist_random systems r
          elim chosen [
            | none ↦ fault null_deref
            | some s ↦
                if tries == 0
                then ok (none, g')
                else if all_free owner (s ∷ [])
                    && all_free owner
                        (get_neighbouring_systems sqrt rb_next u s initial_min_interciv_distance_ly)
                then ok (some s, g')
                else choose_home tries owner g'
          ]

    unfoldable pub spawn_civilizations : List ℕ → Galaxy → G → Run (Galaxy × G)
    unfolding choose_home settle_home
    spawn_civilizations [] l g = ok (l, g)
    spawn_civilizations (c ∷ civs) l g = do
      (found, g') ← choose_home 100 l.owner g
      elim found [ none ↦ ok (l, g') | some s ↦ spawn_civilizations civs (settle_home c s l) g' ]

    -- One round over the civilizations that still grow, with those that do so after it.
    unfoldable pub grow_round : ℕ → ℕ → List ℕ → Galaxy → G → Run (List ℕ × Galaxy × G)
    unfolding to_ulong grow_civ
    grow_round fuel total [] l g = ok ([], l, g)
    grow_round fuel total (c ∷ growing) l g =
        let (r, g') = mtrandom_ulong mt_genrand_int32 total g in
        if leb (to_ulong (l.civ c).power) r
        then (do (left, l', g'') ← grow_round fuel total growing l g'; ok (c ∷ left, l', g''))
        else (do
          grown ← grow_civ fuel c l
          elim grown [
            | none ↦ grow_round fuel total growing l g'
            | some l' ↦ do
              (left, l'', g'') ←
                  grow_round fuel total growing
                    (record l' { inhabited_systems = l'.inhabited_systems + 1 }) g'
              ok (c ∷ left, l'', g'')
          ])

    -- The loop of `grow_all_civs`; the Boolean is whether it ended within the rounds.
    unfoldable pub grow_rounds : ℕ → ℕ → ℕ → ℕ → List ℕ → Galaxy → G → Run (Bool × Galaxy × G)
    unfolding grow_round
    grow_rounds zero fuel goal_hab total growing l g = ok (false, l, g)
    grow_rounds (suc rounds) fuel goal_hab total growing l g =
        if ltb l.inhabited_systems goal_hab && ltb 0 (length growing)
        then (do
          (growing', l', g') ← grow_round fuel total growing l g
          grow_rounds rounds fuel goal_hab total growing' l' g')
        else ok (true, l, g)

    -- `list_add` puts each civilization in front of the others.
    unfoldable pub grow_all_civs : ℕ → ℕ → (ℕ → ℕ) → List ℕ → Galaxy → G → Run (Bool × Galaxy × G)
    unfolding grow_rounds total_power
    grow_all_civs rounds fuel goal civs l g =
        grow_rounds rounds fuel (goal (ptrlist_len systems)) (total_power l.civ civs) (reverse civs)
          l g

    -- `civ_spawncivs`, with the civilizations that are left.
    unfoldable pub civ_spawncivs :
        ℕ → ℕ → (ℕ → ℕ) → List ℕ → Galaxy → G → Run (Bool × List ℕ × Galaxy)
    unfolding spawn_civilizations remove_civs_without_homes grow_all_civs
    civ_spawncivs rounds fuel goal civs l g = do
      (l', g') ← spawn_civilizations civs l g
      let left = remove_civs_without_homes l'.civ civs
      (done, l'', g'') ← grow_all_civs rounds fuel goal left l' g'
      ok (done, left, l'')

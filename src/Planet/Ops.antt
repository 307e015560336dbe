-- ===== src/Planet/Ops.antt =====
-- planet.c: making planets at random. What `mt_genrand_int32` returns, call by call, is an argument. The
-- ports of a planet are left out, and names of planets are not yet registered. Allocations succeed.
use yastg.Config.Planets.{PlanetType}
use yastg.Mtrandom.{mtrandom_uint}
use yastg.Prelude.{
  Bool, List, Option, Run, [], fault, if◌then◌else◌, leb, length, ltb, none, ok, out_of_bounds,
  some, suc, zero, ℕ, ◌%◌, ◌&&◌, ◌*◌, ◌++◌, ◌+◌, ◌-◌, ◌/◌, ◌==◌, ◌>>=◌, ◌^◌, ◌∷◌,
}
use yastg.Prelude.Int.{ltb_ℤ, negsuc, pos, pos_part, ℤ}
use yastg.Ptrlist.Ops.{Ptrlist, ptrlist_init, ptrlist_push, ptrlist_sort}

-- What `mtrandom_uint` returns for `range`, where the generator returns `r`.
unfoldable pub drawn : ℕ → ℕ → ℕ
unfolding mtrandom_uint
drawn range r = (mtrandom_uint (λ g. (r, g)) range (tt {0})).0

-- `unsigned int` differences and sums
unfoldable pub sub_uint : ℕ → ℕ → ℕ
sub_uint a b = (a + (2 ^ 32 - b % 2 ^ 32)) % 2 ^ 32

unfoldable pub add_uint : ℕ → ℕ → ℕ
add_uint a b = (a + b) % 2 ^ 32

abbrev pub max_uint : ℕ
max_uint = 2 ^ 32 - 1

abbrev pub planet_mul_max : ℕ
planet_mul_max = 10

-- The loop of `planet_gennum`; `none` where there are too few draws.
unfoldable pub count_planets : ℕ → List ℕ → Option ℕ
unfolding drawn
count_planets num [] = none
count_planets num (r ∷ rs) =
    let more = count_planets (num + 1) rs in
    if ltb (drawn max_uint r) (max_uint / 2) then more else some num

unfoldable pub planet_gennum : List ℕ → Option ℕ
unfolding count_planets
planet_gennum rs = elim (count_planets 1 rs) [
  | none ↦ none
  | some num ↦ some (if ltb planet_mul_max num then planet_mul_max else num)
]

-- `struct planet`; `type` is the type itself.
pub record Planet : Type 0 where
  pub name : List ℕ
  pub type : PlanetType
  pub dia : ℕ
  pub dist : ℕ
  pub life : ℕ

-- HOT, ECO and COLD are 0, 1 and 2.
unfoldable pub zone_of : ℕ → ℕ
zone_of tmp = if leb tmp 3 then 0 else if ltb 3 tmp && leb tmp (3 + 5) then 1 else 2

-- The inner loop: the `i`-th type.
unfoldable pub nth_type : List PlanetType → ℕ → ℕ → Option PlanetType
nth_type [] j i = none
nth_type (t ∷ ts) j i = if j == i then some t else nth_type ts (j + 1) i

-- The outer loop; `none` where there are too few draws, or no types.
unfoldable pub choose_type : List PlanetType → ℕ → List ℕ → Option PlanetType
unfolding nth_type drawn
choose_type types zone [] = none
choose_type types zone (r ∷ rs) =
    let later = choose_type types zone rs in
    elim (nth_type types 0 (drawn (length types) r)) [
      | none ↦ none
      | some t ↦ if t.zones zone then some t else later
    ]

abbrev pub planet_dist_max : ℕ
planet_dist_max = 100 * 150

unfoldable pub distance_in : ℕ → ℕ → ℕ → ℕ → ℕ
unfolding drawn add_uint sub_uint
distance_in zone hablow habhigh r =
    if zone == 0
    then drawn hablow r
    else if zone == 1
    then add_uint (drawn (sub_uint habhigh hablow) r) hablow
    else add_uint (drawn (sub_uint planet_dist_max habhigh) r) habhigh

-- The draws of one planet
pub record PlanetDraw : Type 0 where
  pub zone : ℕ
  pub types : List ℕ
  pub dia : ℕ
  pub life : ℕ
  pub dist : ℕ

-- The rest of `planet_genesis` from its type on, up to the ports.
unfoldable pub planet_made : PlanetType → ℕ → ℕ → ℕ → PlanetDraw → Planet
unfolding distance_in drawn add_uint sub_uint
planet_made t zone hablow habhigh d = record {
  name = [];
  type = t;
  dia =
      add_uint (drawn (sub_uint (pos_part t.maxdia) (pos_part t.mindia)) d.dia) (pos_part t.mindia);
  life = add_uint (drawn (sub_uint t.maxlife t.minlife) d.life) t.minlife;
  dist = distance_in zone hablow habhigh d.dist;
}

unfoldable pub planet_genesis : List PlanetType → ℕ → ℕ → PlanetDraw → Option Planet
unfolding zone_of choose_type planet_made drawn
planet_genesis planet_types hablow habhigh d =
    let zone = zone_of (drawn (3 + 5 + 10) d.zone) in
    elim (choose_type planet_types zone d.types) [
      | none ↦ none
      | some t ↦ some (planet_made t zone hablow habhigh d)
    ]

unfoldable pub cmp_planet_distances : Planet → Planet → ℤ
cmp_planet_distances p1 p2 =
    if ltb p1.dist p2.dist then negsuc 0 else if ltb p2.dist p1.dist then pos 1 else pos 0

-- The test of the sort.
unfoldable pub is_outer : Planet → Planet → Bool
unfolding cmp_planet_distances
is_outer p1 p2 = ltb_ℤ (pos 0) (cmp_planet_distances p1 p2)

-- The loop that makes planets.
unfoldable pub push_planets :
    List PlanetType → ℕ → ℕ → ℕ → List PlanetDraw → Ptrlist Planet → Option (Ptrlist Planet)
unfolding planet_genesis
push_planets types hablow habhigh zero ds l = some l
push_planets types hablow habhigh (suc n) [] l = none
push_planets types hablow habhigh (suc n) (d ∷ ds) l =
    elim (planet_genesis types hablow habhigh d) [
      | none ↦ none
      | some p ↦ push_planets types hablow habhigh n ds (ptrlist_push l p)
    ]

abbrev pub roman : List (List ℕ)
roman =
    (b'I' ∷ [])
    ∷ (b'I' ∷ b'I' ∷ [])
    ∷ (b'I' ∷ b'I' ∷ b'I' ∷ [])
    ∷ (b'I' ∷ b'V' ∷ [])
    ∷ (b'V' ∷ [])
    ∷ (b'V' ∷ b'I' ∷ [])
    ∷ (b'V' ∷ b'I' ∷ b'I' ∷ [])
    ∷ (b'V' ∷ b'I' ∷ b'I' ∷ b'I' ∷ [])
    ∷ (b'I' ∷ b'X' ∷ [])
    ∷ (b'X' ∷ [])
    ∷ []

-- The loop that names planets. The table has 24 entries, of which the first ten are here.
unfoldable pub name_planets : List ℕ → List (List ℕ) → List Planet → Run (List Planet)
name_planets name numbers [] = ok []
name_planets name [] (p ∷ ps) = fault out_of_bounds
name_planets name (n ∷ ns) (p ∷ ps) = do
  rest ← name_planets name ns ps
  ok (record p { name = name ++ 32 ∷ n } ∷ rest)

-- `none` where there are too few draws.
unfoldable pub planet_populate_system :
    List PlanetType → List ℕ → ℕ → ℕ → List ℕ → List PlanetDraw → Option (Run (List Planet))
unfolding planet_gennum push_planets is_outer name_planets
planet_populate_system types name hablow habhigh rs ds = elim (planet_gennum rs) [
  | none ↦ none
  | some num ↦ elim (push_planets types hablow habhigh num ds ptrlist_init) [
    | none ↦ none
    | some l ↦ some (name_planets name roman (ptrlist_sort is_outer l).list)
  ]
]

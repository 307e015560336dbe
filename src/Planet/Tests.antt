-- ===== src/Planet/Tests.antt =====
-- Planets of a small universe.
use yastg.Config.Planets.{PlanetType}
use yastg.Mtrandom.{mtrandom_uint}
use yastg.Planet.Bounds.{InOrder, IsFit, SomeSuits, planet_genesis-IsFit}
use yastg.Planet.Ops.{
  Planet, PlanetDraw, add_uint, count_planets, distance_in, drawn, nth_type, planet_genesis,
  planet_gennum, planet_populate_system, sub_uint, zone_of,
}
use yastg.Planet.Sorted.{ArePlanets, planet_populate_system-ArePlanets}
use yastg.Prelude.{In, List, [], arith, inl, inr, none, ok, refl, some, subst, sym, true, ◌∷◌, ◌≡◌}
use yastg.Prelude.Int.{pos}

abbrev kind : PlanetType
kind = record {
  letter = some b'M';
  name = none;
  desc = none;
  surface = none;
  atmo = none;
  zones = λ z. true;
  mindia = pos 40;
  maxdia = pos 90;
  minlife = 2;
  maxlife = 5;
  port_types = [];
}

abbrev first : PlanetDraw
first = record { zone = 17; types = 3 ∷ []; dia = 20; life = 7; dist = 5000 }

abbrev second : PlanetDraw
second = record { zone = 2; types = 4 ∷ []; dia = 70; life = 9; dist = 33 }

kinds-InOrder : (t : PlanetType) → In t (kind ∷ []) → InOrder t
kinds-InOrder t (inl e) =
    subst InOrder (sym e) (omega arith, (omega arith, (omega arith, omega arith)))
kinds-InOrder t (inr k) = absurd k

first-SomeSuits : SomeSuits (kind ∷ []) (zone_of (drawn 18 17)) (3 ∷ [])
unfolding drawn mtrandom_uint nth_type
first-SomeSuits = inl (kind, (refl, refl))

second-SomeSuits : SomeSuits (kind ∷ []) (zone_of (drawn 18 2)) (4 ∷ [])
unfolding drawn mtrandom_uint nth_type
second-SomeSuits = inl (kind, (refl, refl))

planet_genesis-IsFit_example :
    (p : Planet) × ((planet_genesis (kind ∷ []) 140 220 first ≡ some p)
      × IsFit (kind ∷ []) (zone_of (drawn 18 17)) 140 220 p)
planet_genesis-IsFit_example =
    planet_genesis-IsFit (kind ∷ []) 140 220 first (omega arith) kinds-InOrder (omega arith)
      (omega arith) first-SomeSuits

both :
    (d : PlanetDraw)
    → In d (first ∷ second ∷ [])
    → SomeSuits (kind ∷ []) (zone_of (drawn 18 d.zone)) d.types
both d (inl e) =
    subst (λ d. SomeSuits (kind ∷ []) (zone_of (drawn 18 d.zone)) d.types) (sym e) first-SomeSuits
both d (inr (inl e)) =
    subst (λ d. SomeSuits (kind ∷ []) (zone_of (drawn 18 d.zone)) d.types) (sym e) second-SomeSuits
both d (inr (inr k)) = absurd k

two_planets : planet_gennum (5 ∷ 4000000000 ∷ []) ≡ some 2
unfolding planet_gennum count_planets drawn mtrandom_uint
two_planets = refl

planet_populate_system-ArePlanets_example :
    (ps : List Planet) × ((planet_populate_system
          (kind ∷ [])
          (b'S' ∷ [])
          140
          220
          (5 ∷ 4000000000 ∷ [])
          (first ∷ second ∷ [])
        ≡ some (ok ps))
      × ArePlanets (b'S' ∷ []) 2 ps)
planet_populate_system-ArePlanets_example =
    planet_populate_system-ArePlanets (kind ∷ []) (b'S' ∷ []) 140 220 (5 ∷ 4000000000 ∷ [])
      (first ∷ second ∷ []) 2 (omega arith) kinds-InOrder (omega arith) (omega arith) two_planets
      (omega arith) both

-- Where the habitable zone reaches beyond planet_dist_max, the distance of a cold planet wraps around.
beyond : distance_in 2 20000 30000 4294000000 ≡ 4294030000
unfolding distance_in drawn mtrandom_uint add_uint sub_uint
beyond = refl

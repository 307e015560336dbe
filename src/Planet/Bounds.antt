-- ===== src/Planet/Bounds.antt =====
-- planet.c: the ranges of what is drawn for a planet.
use yastg.Config.Planets.{PlanetType}
use yastg.Mtrandom.{mtrandom_uint, mtrandom_uint-lt}
use yastg.Planet.Ops.{add_uint, choose_type, drawn, nth_type, sub_uint}
use yastg.Prelude.{
  Bool-cases, In, List, [], arith, inl, inr, refl, some, some-injective, suc, sym, true, zero, ℕ,
  ◌+◌, ◌-◌, ◌<◌, ◌==◌, ◌^◌, ◌∷◌, ◌≡◌, ◌≤◌,
}
use yastg.Config.Planets.{planet_life_names}
use yastg.Planet.Ops.{Planet, PlanetDraw, distance_in, planet_dist_max, planet_genesis, zone_of}
use yastg.Prelude.{ap, false, length, subst, ◌∙◌, ◌⊎◌}
use yastg.Prelude.Int.{pos_part}
use yastg.Planet.Ops.{planet_made}
use yastg.Prelude.{Option, none}

drawn-lt : (range r : ℕ) → 0 < range → drawn range r < range
unfolding drawn
drawn-lt range r h = mtrandom_uint-lt (λ g. (r, g)) range (tt {0}) h

drawn_zero : (r : ℕ) → drawn 0 r ≡ 0
unfolding drawn mtrandom_uint
drawn_zero r = refl

diff : (high low : ℕ) → low ≤ high → high < 2 ^ 32 → sub_uint high low ≡ high - low
unfolding sub_uint
diff high low h k = ground arith

drawn-le : (range r : ℕ) → drawn range r ≤ range
drawn-le zero r = omega (arith, drawn_zero r)
drawn-le (suc n) r = omega (arith, drawn-lt (suc n) r (omega arith))

-- From the lower to the upper bound, where they are in order.
drawn_between :
    (low high r : ℕ)
    → low ≤ high
    → high < 2 ^ 32
    → (low ≤ add_uint (drawn (sub_uint high low) r) low)
      × (add_uint (drawn (sub_uint high low) r) low ≤ high)
unfolding add_uint
drawn_between low high r h k =
    let e = diff high low h k in
    let b = drawn-le (sub_uint high low) r in (ground (arith, e, b), ground (arith, e, b))

nth_type-In :
    (types : List PlanetType) (j i : ℕ) (t : PlanetType) → nth_type types j i ≡ some t → In t types
unfolding nth_type
nth_type-In [] j i t e = absurd (cc e)
nth_type-In (u ∷ types) j i t e = elim (Bool-cases (j == i)) [
  | inl k ↦ inl (sym (some-injective _ _ (ground (arith, e, k))))
  | inr k ↦ inr (nth_type-In types (j + 1) i t (ground (arith, e, k)))
]

nth_type-some :
    (types : List PlanetType) (j i : ℕ)
    → j ≤ i
    → i < j + length types
    → (t : PlanetType) × (nth_type types j i ≡ some t)
unfolding nth_type
nth_type-some [] j i h k = absurd (omega arith)
nth_type-some (u ∷ types) j i h k = elim (Bool-cases (j == i)) [
  | inl e ↦ (u, rw e refl)
  | inr e ↦
      let (t, n) = nth_type-some types (j + 1) i (ground (arith, h, e)) (omega arith) in (t, rw e n)
]

-- The type that a draw picks is of the zone.
abbrev Suits : List PlanetType → ℕ → ℕ → Type 0
Suits types zone r =
    (t : PlanetType) × ((nth_type types 0 (drawn (length types) r) ≡ some t)
      × (t.zones zone ≡ true))

abbrev pub SomeSuits : List PlanetType → ℕ → List ℕ → Type 0
SomeSuits types zone [] = ⊥
SomeSuits types zone (r ∷ rs) = Suits types zone r ⊎ SomeSuits types zone rs

abbrev Chosen : List PlanetType → ℕ → List ℕ → Type 0
Chosen types zone rs =
    (t : PlanetType) × ((choose_type types zone rs ≡ some t) × (In t types × (t.zones zone ≡ true)))

choose_type-step :
    (types : List PlanetType) (zone r : ℕ) (rs : List ℕ) (t : PlanetType)
    → nth_type types 0 (drawn (length types) r) ≡ some t
    → SomeSuits types zone (r ∷ rs)
    → (SomeSuits types zone rs → Chosen types zone rs)
    → Chosen types zone (r ∷ rs)
unfolding choose_type
choose_type-step types zone r rs t e k next = elim (Bool-cases (t.zones zone)) [
  | inl z ↦ (t, (rw (e, z, choose_type) refl, (nth_type-In types 0 _ t e, z)))
  | inr z ↦ let (u, (c, i)) = next (later z k) in (u, (rw (e, z, choose_type) c, i))
]
  where
    later : t.zones zone ≡ false → SomeSuits types zone (r ∷ rs) → SomeSuits types zone rs
    later z (inr k) = k
    later z (inl (u, (f, y))) =
        absurd (cc (ap (λ v. v.zones zone) (some-injective _ _ (sym e ∙ f)), z, y))

-- The loop ends at the first draw of a type of the zone.
choose_type-Chosen :
    (types : List PlanetType) (zone : ℕ) (rs : List ℕ)
    → 0 < length types
    → SomeSuits types zone rs
    → Chosen types zone rs
choose_type-Chosen types zone [] h k = absurd k
choose_type-Chosen types zone (r ∷ rs) h k =
    let (t, e) =
      nth_type-some types 0 (drawn (length types) r) (omega arith)
        (omega (arith, drawn-lt (length types) r h)) in
    choose_type-step types zone r rs t e k (choose_type-Chosen types zone rs h)

-- A type whose bounds are in order, and whose kinds of life are in the table.
abbrev pub InOrder : PlanetType → Type 0
InOrder t =
    (pos_part t.mindia ≤ pos_part t.maxdia)
    × ((pos_part t.maxdia < 2 ^ 32)
        × ((t.minlife ≤ t.maxlife) × (t.maxlife < length planet_life_names)))

-- What holds of a planet in a system with this habitable zone.
pub record IsFit (types : List PlanetType) (zone hablow habhigh : ℕ) (p : Planet) : Type 0 where
  pub known : In p.type types
  pub zoned : p.type.zones zone ≡ true
  pub dia_low : pos_part p.type.mindia ≤ p.dia
  pub dia_high : p.dia ≤ pos_part p.type.maxdia
  pub life_low : p.type.minlife ≤ p.life
  pub life_high : p.life ≤ p.type.maxlife
  pub life_known : p.life < length planet_life_names
  pub hot : zone ≡ 0 → p.dist ≤ hablow
  pub eco : zone ≡ 1 → (hablow ≤ p.dist) × (p.dist ≤ habhigh)
  pub cold : zone ≡ 2 → (habhigh ≤ p.dist) × (p.dist ≤ planet_dist_max)

distance_in-hot : (hablow habhigh r : ℕ) → distance_in 0 hablow habhigh r ≤ hablow
unfolding distance_in
distance_in-hot hablow habhigh r = drawn-le hablow r

distance_in-eco :
    (hablow habhigh r : ℕ)
    → hablow ≤ habhigh
    → habhigh ≤ planet_dist_max
    → (hablow ≤ distance_in 1 hablow habhigh r) × (distance_in 1 hablow habhigh r ≤ habhigh)
unfolding distance_in
distance_in-eco hablow habhigh r h k = drawn_between hablow habhigh r h (omega arith)

distance_in-cold :
    (hablow habhigh r : ℕ)
    → habhigh ≤ planet_dist_max
    → (habhigh ≤ distance_in 2 hablow habhigh r)
      × (distance_in 2 hablow habhigh r ≤ planet_dist_max)
unfolding distance_in
distance_in-cold hablow habhigh r k = drawn_between habhigh planet_dist_max r k (omega arith)

planet_made-IsFit :
    (types : List PlanetType) (zone hablow habhigh : ℕ) (d : PlanetDraw) (t : PlanetType)
    → In t types
    → t.zones zone ≡ true
    → InOrder t
    → hablow ≤ habhigh
    → habhigh ≤ planet_dist_max
    → IsFit types zone hablow habhigh (planet_made t zone hablow habhigh d)
unfolding planet_made
planet_made-IsFit types zone hablow habhigh d t i z (a, (b, (c, f))) k l =
    let dia = drawn_between (pos_part t.mindia) (pos_part t.maxdia) d.dia a b in
    let life = drawn_between t.minlife t.maxlife d.life c (omega arith) in
    record {
      known = i;
      zoned = z;
      dia_low = dia.0;
      dia_high = dia.1;
      life_low = life.0;
      life_high = life.1;
      life_known = omega (arith, life.1, f);
      hot = λ j.
          subst (λ n. distance_in n hablow habhigh d.dist ≤ hablow) (sym j)
            (distance_in-hot hablow habhigh d.dist);
      eco = λ j.
          subst
            (λ n.
              (hablow ≤ distance_in n hablow habhigh d.dist)
              × (distance_in n hablow habhigh d.dist ≤ habhigh))
            (sym j) (distance_in-eco hablow habhigh d.dist k l);
      cold = λ j.
          subst
            (λ n.
              (habhigh ≤ distance_in n hablow habhigh d.dist)
              × (distance_in n hablow habhigh d.dist ≤ planet_dist_max))
            (sym j) (distance_in-cold hablow habhigh d.dist l);
    }

-- Where there are types of planets, each with bounds that are in order and kinds of life that are
-- in the table, the habitable zone is in order and ends within the greatest distance, and some draw
-- picks a type of the drawn zone, planet_genesis ends with a planet. Its type is a known one of the
-- zone, its diameter and life are within the bounds of the type, the life indexes the table of
-- names, and its distance is in the part of the system that the zone stands for.
pub planet_genesis-IsFit :
    (types : List PlanetType) (hablow habhigh : ℕ) (d : PlanetDraw)
    → 0 < length types
    → ((t : PlanetType) → In t types → InOrder t)
    → hablow ≤ habhigh
    → habhigh ≤ planet_dist_max
    → SomeSuits types (zone_of (drawn 18 d.zone)) d.types
    → (p : Planet) × ((planet_genesis types hablow habhigh d ≡ some p)
        × IsFit types (zone_of (drawn 18 d.zone)) hablow habhigh p)
unfolding planet_genesis
planet_genesis-IsFit types hablow habhigh d h order k l suits =
    let zone = zone_of (drawn 18 d.zone) in go (choose_type-Chosen types zone d.types h suits)
  where
    go :
        Chosen types (zone_of (drawn 18 d.zone)) d.types
        → (p : Planet) × ((planet_genesis types hablow habhigh d ≡ some p)
            × IsFit types (zone_of (drawn 18 d.zone)) hablow habhigh p)
    go (t, (e, (i, z))) = (
      planet_made t (zone_of (drawn 18 d.zone)) hablow habhigh d,
      (
        ap
            (λ (o : Option PlanetType). elim o [
              | none ↦ none
              | some t ↦ some (planet_made t (zone_of (drawn 18 d.zone)) hablow habhigh d)
            ])
            e,
        planet_made-IsFit types (zone_of (drawn 18 d.zone)) hablow habhigh d t i z (order t i) k l,
      ),
    )

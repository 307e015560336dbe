-- ===== src/Planet/Sorted.antt =====
-- planet.c: the planets of a system, by their distance.
use yastg.Config.Planets.{PlanetType}
use yastg.Planet.Bounds.{InOrder, SomeSuits}
use yastg.Planet.Ops.{
  Planet, PlanetDraw, cmp_planet_distances, count_planets, drawn, is_outer, name_planets,
  planet_dist_max, planet_genesis, planet_gennum, planet_mul_max, planet_populate_system,
  push_planets, zone_of,
}
use yastg.Prelude.{
  Bool-cases, In, List, Option, Option-cases, [], ap, arith, if◌then◌else◌, inl, inr, length,
  length-append, ltb, map, none, ok, refl, some, some-injective, suc, sym, take, zero, ℕ, ◌++◌, ◌+◌,
  ◌/◌, ◌<◌, ◌>>=◌, ◌∙◌, ◌∷◌, ◌≡◌, ◌≤◌,
}
use yastg.Ptrlist.Ops.{Ptrlist, ptrlist_push}
use yastg.Ptrlist.Sorted.{IsOrder, IsSorted}
use yastg.Planet.Bounds.{planet_genesis-IsFit}
use yastg.Planet.Ops.{max_uint, roman}
use yastg.Ptrlist.Ops.{ptrlist_init, ptrlist_sort}
use yastg.Ptrlist.Sorted.{AllAfter, ptrlist_sort-IsSorted}
use yastg.Prelude.{Run, true}
use yastg.Ptrlist.Merge.{count, count-ptrlist_sort}

count_planets-le : (n : ℕ) (rs : List ℕ) (num : ℕ) → count_planets n rs ≡ some num → n ≤ num
unfolding count_planets
count_planets-le n [] num h = absurd (cc h)
count_planets-le n (r ∷ rs) num h = elim (Bool-cases (ltb (drawn max_uint r) (max_uint / 2))) [
  | inl e ↦ let k = count_planets-le (n + 1) rs num (rw (e, count_planets) at h) in omega arith
  | inr e ↦ let k = some-injective _ _ (rw (e, count_planets) at h) in omega arith
]

planet_gennum_lem :
    (rs : List ℕ) (num : ℕ) → planet_gennum rs ≡ some num → (1 ≤ num) × (num ≤ planet_mul_max)
unfolding planet_gennum
planet_gennum_lem rs num h = elim (Option-cases (count_planets 1 rs)) [
  | inl e ↦ absurd (cc (sym (ap capped e) ∙ h))
  | inr (m, e) ↦
      let k = count_planets-le 1 rs m e in
      let c = some-injective _ _ (sym (ap capped e) ∙ h) in ground (arith, k, c)
]
  where
    capped : Option ℕ → Option ℕ
    capped o = elim o [
      | none ↦ none
      | some num ↦ some (if ltb planet_mul_max num then planet_mul_max else num)
    ]

-- Planets are pushed as long as there are draws.
push_planets-some :
    (types : List PlanetType) (hablow habhigh n : ℕ) (ds : List PlanetDraw) (l : Ptrlist Planet)
    → n ≤ length ds
    → ((d : PlanetDraw) → In d ds → (p : Planet) × (planet_genesis types hablow habhigh d ≡ some p))
    → l.len ≡ length l.list
    → (l' : Ptrlist Planet) × ((push_planets types hablow habhigh n ds l ≡ some l')
        × ((length l'.list ≡ length l.list + n) × (l'.len ≡ length l'.list)))
unfolding push_planets ptrlist_push
push_planets-some types hablow habhigh zero ds l h made e = (l, (refl, (omega arith, e)))
push_planets-some types hablow habhigh (suc n) [] l h made e = absurd (omega arith)
push_planets-some types hablow habhigh (suc n) (d ∷ ds) l h made e =
    let (p, g) = made d (inl refl) in
    let (l', (k, (a, b))) =
      push_planets-some types hablow habhigh n ds (ptrlist_push l p) (omega arith)
        (λ d i. made d (inr i)) (omega (arith, e, length-append l.list (p ∷ []))) in
    (l', (next p g ∙ k, (omega (arith, a, length-append l.list (p ∷ [])), b)))
  where
    next :
        (p : Planet)
        → planet_genesis types hablow habhigh d ≡ some p
        → push_planets types hablow habhigh (suc n) (d ∷ ds) l
          ≡ push_planets types hablow habhigh n ds (ptrlist_push l p)
    next p g =
        ap
          (λ (o : Option Planet). elim o [
            | none ↦ none
            | some p ↦ push_planets types hablow habhigh n ds (ptrlist_push l p)
          ])
          g

abbrev titled : List ℕ → List ℕ → List ℕ
titled name n = name ++ 32 ∷ n

-- The planets with their names.
abbrev numbered : List ℕ → List (List ℕ) → List Planet → List Planet
numbered name ns [] = []
numbered name [] (p ∷ ps) = []
numbered name (n ∷ ns) (p ∷ ps) = record p { name = titled name n } ∷ numbered name ns ps

name_planets-numbered :
    (name : List ℕ) (ns : List (List ℕ)) (ps : List Planet)
    → length ps ≤ length ns
    → name_planets name ns ps ≡ ok (numbered name ns ps)
unfolding name_planets
name_planets-numbered name ns [] h = refl
name_planets-numbered name [] (p ∷ ps) h = absurd (omega arith)
name_planets-numbered name (n ∷ ns) (p ∷ ps) h =
    ap (λ r. r >>= λ rest. ok (record p { name = titled name n } ∷ rest))
      (name_planets-numbered name ns ps (omega arith))

abbrev planet_name : Planet → List ℕ
planet_name p = p.name

numbered-names :
    (name : List ℕ) (ns : List (List ℕ)) (ps : List Planet)
    → length ps ≤ length ns
    → (map planet_name (numbered name ns ps) ≡ map (titled name) (take (length ps) ns))
      × (length (numbered name ns ps) ≡ length ps)
numbered-names name ns [] h = (refl, refl)
numbered-names name [] (p ∷ ps) h = absurd (omega arith)
numbered-names name (n ∷ ns) (p ∷ ps) h =
    let (a, b) = numbered-names name ns ps (omega arith) in
    (ap (λ l. titled name n ∷ l) a, omega (arith, b))

numbered-AllAfter :
    (name : List ℕ) (ns : List (List ℕ)) (p : Planet) (n : List ℕ) (ps : List Planet)
    → AllAfter is_outer p ps
    → AllAfter is_outer (record p { name = titled name n }) (numbered name ns ps)
unfolding is_outer cmp_planet_distances
numbered-AllAfter name ns p n [] h = tt
numbered-AllAfter name [] p n (q ∷ ps) h = tt
numbered-AllAfter name (m ∷ ns) p n (q ∷ ps) h = (h.0, numbered-AllAfter name ns p n ps h.1)

numbered-IsSorted :
    (name : List ℕ) (ns : List (List ℕ)) (ps : List Planet)
    → IsSorted is_outer ps
    → IsSorted is_outer (numbered name ns ps)
numbered-IsSorted name ns [] h = tt
numbered-IsSorted name [] (q ∷ ps) h = tt
numbered-IsSorted name (m ∷ ns) (q ∷ ps) h =
    (numbered-AllAfter name ns q m ps h.0, numbered-IsSorted name ns ps h.1)

is_outer-IsOrder : IsOrder is_outer
unfolding is_outer cmp_planet_distances
is_outer-IsOrder = record {
  total = λ p q h. ground (arith, h);
  trans = λ p q r h k. ground (arith, h, k);
}

count_all : (l : List Planet) → count (λ p. true) l ≡ length l
count_all [] = refl
count_all (p ∷ l) = omega (arith, count_all l)

length-ptrlist_sort : (l : Ptrlist Planet) → length (ptrlist_sort is_outer l).list ≡ length l.list
length-ptrlist_sort l =
    sym (count_all (ptrlist_sort is_outer l).list)
    ∙ (count-ptrlist_sort is_outer (λ p. true) l).0
    ∙ count_all l.list

-- As many planets as were drawn, in the order of their distance, with the numbers in their names.
pub record ArePlanets (name : List ℕ) (num : ℕ) (ps : List Planet) : Type 0 where
  pub in_number : length ps ≡ num
  pub some_planets : (1 ≤ num) × (num ≤ planet_mul_max)
  pub inner_first : IsSorted is_outer ps
  pub names : map planet_name ps ≡ map (titled name) (take num roman)

-- Where there are types of planets, each with bounds that are in order and kinds of life that are
-- in the table, the habitable zone is in order and ends within the greatest distance, the draws
-- give a number of planets, there are as many draws of planets, and in each of these some draw
-- picks a type of the drawn zone, planet_populate_system makes that number of planets, one to ten,
-- no planet before one that is nearer, and names them after the system with the roman numbers in
-- order.
pub planet_populate_system-ArePlanets :
    (types : List PlanetType) (name : List ℕ) (hablow habhigh : ℕ) (rs : List ℕ)
    (ds : List PlanetDraw) (num : ℕ)
    → 0 < length types
    → ((t : PlanetType) → In t types → InOrder t)
    → hablow ≤ habhigh
    → habhigh ≤ planet_dist_max
    → planet_gennum rs ≡ some num
    → num ≤ length ds
    → ((d : PlanetDraw) → In d ds → SomeSuits types (zone_of (drawn 18 d.zone)) d.types)
    → (ps : List Planet) × ((planet_populate_system types name hablow habhigh rs ds ≡ some (ok ps))
        × ArePlanets name num ps)
unfolding planet_populate_system ptrlist_init
planet_populate_system-ArePlanets types name hablow habhigh rs ds num h order k l g enough suits =
    finish (
      push_planets-some types hablow habhigh num ds ptrlist_init enough
        (λ d i.
          let (p, (e, _)) = planet_genesis-IsFit types hablow habhigh d h order k l (suits d i) in
          (p, e))
        refl)
  where
    sorted_of : Option (Ptrlist Planet) → Option (Run (List Planet))
    sorted_of o = elim o [
      | none ↦ none
      | some l ↦ some (name_planets name roman (ptrlist_sort is_outer l).list)
    ]

    bounds : (1 ≤ num) × (num ≤ planet_mul_max)
    bounds = planet_gennum_lem rs num g

    run :
        (l' : Ptrlist Planet)
        → push_planets types hablow habhigh num ds ptrlist_init ≡ some l'
        → planet_populate_system types name hablow habhigh rs ds
          ≡ some (name_planets name roman (ptrlist_sort is_outer l').list)
    run l' e =
        ap
          (λ (o : Option ℕ). elim o [
            | none ↦ none
            | some n ↦ sorted_of (push_planets types hablow habhigh n ds ptrlist_init)
          ])
          g
        ∙ ap sorted_of e

    finish :
        (l' : Ptrlist Planet) × ((push_planets types hablow habhigh num ds ptrlist_init ≡ some l')
            × ((length l'.list ≡ 0 + num) × (l'.len ≡ length l'.list)))
        → (ps : List Planet) × ((planet_populate_system types name hablow habhigh rs ds
              ≡ some (ok ps))
            × ArePlanets name num ps)
    finish (l', (e, (a, b))) =
        let sorted = (ptrlist_sort is_outer l').list in
        let len : length sorted ≡ num = length-ptrlist_sort l' ∙ a ∙ omega arith in
        let (n, m) = numbered-names name roman sorted (omega (arith, len, bounds.1)) in
        (
          numbered name roman sorted,
          (
            run l' e
                ∙ ap some (name_planets-numbered name roman sorted (omega (arith, len, bounds.1))),
            record {
              in_number = m ∙ len;
              some_planets = bounds;
              inner_first =
                  numbered-IsSorted name roman sorted
                    (ptrlist_sort-IsSorted is_outer is_outer-IsOrder l' b);
              names = n ∙ ap (λ c. map (titled name) (take c roman)) len;
            },
          ),
        )

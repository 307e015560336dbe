-- ===== src/Star/Bounds.antt =====
-- star.c: the tables that stars are made from, and their bounds.
use yastg.Mtrandom.{mtrandom_uint, mtrandom_uint-lt}
use yastg.Prelude.{
  Bool, Bool-cases, List, Returns, Returns-bind, Returns-weaken, [], arith, get_elem?, inl, inr,
  length, ltb, lt→ltb, refl, some, some-injective, suc, true, zero, ℕ, ◌&&◌, ◌+◌, ◌-◌, ◌<◌, ◌∷◌,
  ◌≡◌, ◌≤◌,
}
use yastg.Star.Ops.{
  entry, between, pick, star_gencls, star_genlum, stellar_clsodds, stellar_lumodds,
}
use yastg.Prelude.{◌++◌}
use yastg.Star.Ops.{
  Star, more_stars, star_generate_more, star_init, star_populate_system, stellar_clshab,
  stellar_clslum, stellar_clsmul, stellar_clstmp, stellar_lumhab,
}
use yastg.Prelude.{Returns-test, if◌then◌else◌}

entry-Returns :
    {A : Type 0} (P : A → Type 0) (xs : List A) (i : ℕ)
    → i < length xs
    → ((x : A) → get_elem? xs i ≡ some x → P x)
    → Returns P (entry xs i)
unfolding entry
entry-Returns P [] i h k = absurd (omega arith)
entry-Returns P (x ∷ xs) zero h k = k x refl
entry-Returns P (x ∷ xs) (suc i) h k = entry-Returns P xs i (omega arith) k

abbrev last_of : List ℕ → ℕ
last_of [] = 0
last_of (x ∷ []) = x
last_of (x ∷ y ∷ xs) = last_of (y ∷ xs)

-- Below the last of the odds, the loop returns before it ends.
pick-lt :
    (chance : ℕ) (xs : List ℕ) (i : ℕ)
    → chance < last_of xs
    → Returns (λ j. j < i + length xs) (pick chance xs i)
unfolding pick
pick-lt chance [] i h = absurd (omega arith)
pick-lt chance (x ∷ []) i h = rw (lt→ltb chance x h) (omega arith)
pick-lt chance (x ∷ y ∷ xs) i h = elim (Bool-cases (ltb chance x)) [
  | inl e ↦ rw e (omega arith)
  | inr e ↦ rw e (
      Returns-weaken _ _ (pick chance (y ∷ xs) (suc i)) (λ j k. omega arith)
        (pick-lt chance (y ∷ xs) (suc i) h))
]

-- A value of the range of a class, between its entry in the table and the next.
abbrev InRange : List ℕ → ℕ → ℕ → Type 0
InRange table cls v =
    (high : ℕ) × ((low : ℕ) × ((get_elem? table cls ≡ some high)
        × ((get_elem? table (suc cls) ≡ some low) × ((low ≤ v) × (v < high)))))

abbrev descends : List ℕ → Bool
descends [] = true
descends (x ∷ []) = true
descends (x ∷ y ∷ xs) = ltb y x && descends (y ∷ xs)

descends-lt :
    (xs : List ℕ) (i high low : ℕ)
    → descends xs ≡ true
    → get_elem? xs i ≡ some high
    → get_elem? xs (suc i) ≡ some low
    → low < high
descends-lt [] i high low h e k = absurd (cc e)
descends-lt (x ∷ []) i high low h e k = absurd (cc k)
descends-lt (x ∷ y ∷ xs) zero high low h e k =
    ground (arith, h, some-injective _ _ e, some-injective _ _ k)
descends-lt (x ∷ y ∷ xs) (suc i) high low h e k =
    descends-lt (y ∷ xs) i high low (ground (arith, h)) e k

-- The name, and what is indexed by the class is in the tables, as are the values that are drawn.
abbrev IsStar : List ℕ → Star → Type 0
IsStar name s =
    (s.name ≡ name)
    × ((s.cls < 7)
        × ((s.lum < 9)
            × (InRange stellar_clslum s.cls s.lumval × InRange stellar_clstmp s.cls s.temp)))

-- The stars of a system are called A, B and so on, here from the `i`-th letter on.
abbrev pub AreStars : List ℕ → ℕ → List Star → Type 0
AreStars name i [] = Unit
AreStars name i (s ∷ stars) = IsStar (name ++ 32 ∷ (i + 65) ∷ []) s × AreStars name (suc i) stars

module _ {G : Type 0} (mt_genrand_int32 : G → ℕ × G) where
  between-InRange :
      (table : List ℕ) (cls : ℕ) (g : G)
      → descends table ≡ true
      → suc cls < length table
      → Returns (λ r. InRange table cls r.0) (between mt_genrand_int32 table cls g)
  unfolding between
  between-InRange table cls g d h =
      Returns-bind (λ x. get_elem? table cls ≡ some x) _ (entry table cls) _
        (entry-Returns _ table cls (omega arith) (λ x e. e))
        (λ high e.
          Returns-bind (λ x. get_elem? table (suc cls) ≡ some x) _ (entry table (suc cls)) _
            (entry-Returns _ table (suc cls) h (λ x e. e))
            (λ low k.
              let lt = descends-lt table cls high low d e k in
              let r = mtrandom_uint-lt mt_genrand_int32 (high - low) g (omega arith) in
              (high, (low, (e, (k, (omega arith, omega arith)))))))

  star_genlum-lt : (g : G) → Returns (λ lum. lum < 9) (star_genlum mt_genrand_int32 g).0
  unfolding star_genlum
  star_genlum-lt g =
      pick-lt (mtrandom_uint mt_genrand_int32 100 g).0 stellar_lumodds 0
        (mtrandom_uint-lt mt_genrand_int32 100 g (omega arith))

  star_gencls-lt : (g : G) → Returns (λ cls. cls < 7) (star_gencls mt_genrand_int32 g).0
  unfolding star_gencls
  star_gencls-lt g =
      pick-lt (mtrandom_uint mt_genrand_int32 10000 g).0 stellar_clsodds 0
        (mtrandom_uint-lt mt_genrand_int32 10000 g (omega arith))

  module _ (star_gethablow star_gethabhigh : ℕ → ℕ) where
    star_init-IsStar :
        (name : List ℕ) (g : G)
        → Returns
            (λ r. IsStar name r.0)
            (star_init mt_genrand_int32 star_gethablow star_gethabhigh name g)
    unfolding star_init
    star_init-IsStar name g =
        let (cls, g1) = star_gencls mt_genrand_int32 g in
        let (lum, g2) = star_genlum mt_genrand_int32 g1 in
        Returns-bind (λ cls. cls < 7) _ cls _ (star_gencls-lt g)
          (λ cls h.
            Returns-bind (λ lum. lum < 9) _ lum _ (star_genlum-lt g1)
              (λ lum k.
                Returns-bind (λ r. InRange stellar_clslum cls r.0) _
                  (between mt_genrand_int32 stellar_clslum cls g2) _
                  (between-InRange stellar_clslum cls g2 refl (omega arith))
                  (λ (lumval, g3) l.
                    Returns-bind (λ x. Unit) _ (entry stellar_clshab cls) _
                      (entry-Returns _ stellar_clshab cls (omega arith) (λ x e. tt))
                      (λ clshab _.
                        Returns-bind (λ x. Unit) _ (entry stellar_lumhab lum) _
                          (entry-Returns _ stellar_lumhab lum (omega arith) (λ x e. tt))
                          (λ lumhab _.
                            Returns-bind (λ r. InRange stellar_clstmp cls r.0) _
                              (between mt_genrand_int32 stellar_clstmp cls g3) _
                              (between-InRange stellar_clstmp cls g3 refl (omega arith))
                              (λ (temp, g4) t. (refl, (h, (k, (l, t))))))))))

    more_stars-AreStars :
        (n i mulodds : ℕ) (name : List ℕ) (g : G)
        → Returns
            (λ r. AreStars name i r.0 × (length r.0 ≤ n))
            (more_stars mt_genrand_int32 star_gethablow star_gethabhigh n i mulodds name g)
    unfolding more_stars
    more_stars-AreStars zero i mulodds name g = (tt, omega arith)
    more_stars-AreStars (suc n) i mulodds name g =
        let (more, g') = star_generate_more mt_genrand_int32 mulodds g in
        let letter = name ++ 32 ∷ (i + 65) ∷ [] in
        Returns-test _ more _ _
          (λ _.
            Returns-bind (λ r. IsStar letter r.0) _
              (star_init mt_genrand_int32 star_gethablow star_gethabhigh letter g') _
              (star_init-IsStar letter g')
              (λ (sol, g1) s.
                Returns-bind (λ x. Unit) _ (entry stellar_clsmul sol.cls) _
                  (entry-Returns _ stellar_clsmul sol.cls s.1.0 (λ x e. tt))
                  (λ mul _.
                    let odds = if ltb mul mulodds then mul else mulodds in
                    Returns-bind _ _
                      (more_stars mt_genrand_int32 star_gethablow star_gethabhigh n (suc i) odds
                        name g1)
                      _ (more_stars-AreStars n (suc i) odds name g1)
                      (λ (rest, g2) r. ((s, r.0), omega (arith, r.1))))))
          (λ _. (tt, omega arith))

    -- By any random generator star_populate_system ends without meeting its bug or reading past the
    -- end of a table. It makes one to four stars, called A, B and so on after the system, each with
    -- classes that are in the tables and a luminosity and a temperature from the next entry of its
    -- table up to below its own.
    pub star_populate_system-AreStars :
        (name : List ℕ) (g : G)
        → Returns
            (λ r. AreStars name 0 r.0 × ((1 ≤ length r.0) × (length r.0 ≤ 4)))
            (star_populate_system mt_genrand_int32 star_gethablow star_gethabhigh name g)
    unfolding star_populate_system
    star_populate_system-AreStars name g =
        Returns-bind (λ r. IsStar (name ++ 32 ∷ 65 ∷ []) r.0) _
          (star_init mt_genrand_int32 star_gethablow star_gethabhigh (name ++ 32 ∷ 65 ∷ []) g) _
          (star_init-IsStar (name ++ 32 ∷ 65 ∷ []) g)
          (λ (sol, g1) s.
            Returns-bind (λ x. Unit) _ (entry stellar_clsmul sol.cls) _
              (entry-Returns _ stellar_clsmul sol.cls s.1.0 (λ x e. tt))
              (λ mul _.
                Returns-bind _ _
                  (more_stars mt_genrand_int32 star_gethablow star_gethabhigh 3 1 mul name g1) _
                  (more_stars-AreStars 3 1 mul name g1)
                  (λ (rest, g2) r. ((s, r.0), (omega arith, omega (arith, r.1))))))

-- ===== src/Star/Ops.antt =====
-- star.c: making stars at random, over the random generator. The habitable zones are computed in floating
-- point, by parameters. Allocations succeed.
use yastg.Mtrandom.{mtrandom_uint}
use yastg.Prelude.{
  Bool, List, Run, [], assert_failed, false, fault, get_elem?, if◌then◌else◌, ltb, none, ok,
  out_of_bounds, some, suc, true, zero, ℕ, ◌++◌, ◌+◌, ◌-◌, ◌>>=◌, ◌∷◌,
}
use yastg.Prelude.Int.{negsuc, pos, ℤ, ◌+ℤ◌}

abbrev pub stellar_lumodds : List ℕ
stellar_lumodds = 1 ∷ 2 ∷ 4 ∷ 8 ∷ 25 ∷ 32 ∷ 75 ∷ 98 ∷ 100 ∷ []

abbrev pub stellar_lumhab : List ℤ
stellar_lumhab =
    negsuc 99
    ∷ negsuc 89
    ∷ negsuc 89
    ∷ negsuc 69
    ∷ negsuc 29
    ∷ pos 0
    ∷ pos 100
    ∷ pos 80
    ∷ pos 80
    ∷ []

abbrev pub stellar_clsodds : List ℕ
stellar_clsodds = 3 ∷ 19 ∷ 83 ∷ 283 ∷ 1043 ∷ 2253 ∷ 10000 ∷ []

abbrev pub stellar_clslum : List ℕ
stellar_clslum = 9999900 ∷ 3000000 ∷ 2500 ∷ 500 ∷ 150 ∷ 60 ∷ 8 ∷ 1 ∷ []

abbrev pub stellar_clstmp : List ℕ
stellar_clstmp = 99999 ∷ 33000 ∷ 10000 ∷ 7500 ∷ 6000 ∷ 5200 ∷ 3700 ∷ 2500 ∷ []

abbrev pub stellar_clsmul : List ℕ
stellar_clsmul = 95 ∷ 90 ∷ 85 ∷ 70 ∷ 40 ∷ 30 ∷ 20 ∷ []

abbrev pub stellar_clshab : List ℤ
stellar_clshab = negsuc 199 ∷ negsuc 149 ∷ negsuc 99 ∷ negsuc 49 ∷ pos 10 ∷ pos 30 ∷ pos 50 ∷ []

-- `struct star`
pub record Star : Type 0 where
  pub name : List ℕ
  pub cls : ℕ
  pub lum : ℕ
  pub hab : ℤ
  pub lumval : ℕ
  pub hablow : ℕ
  pub habhigh : ℕ
  pub temp : ℕ

-- An element of an array.
unfoldable pub entry : {A : Type 0} → List A → ℕ → Run A
entry xs i = elim (get_elem? xs i) [ none ↦ fault out_of_bounds | some x ↦ ok x ]

-- The loop of `star_genlum` and `star_gencls` from `i` on; after it is a `bug`.
unfoldable pub pick : ℕ → List ℕ → ℕ → Run ℕ
pick chance [] i = fault assert_failed
pick chance (odds ∷ rest) i =
    let later = pick chance rest (suc i) in if ltb chance odds then ok i else later

module _ {G : Type 0} (mt_genrand_int32 : G → ℕ × G) where
  unfoldable pub star_genlum : G → Run ℕ × G
  unfolding pick mtrandom_uint
  star_genlum g =
      let (chance, g) = mtrandom_uint mt_genrand_int32 100 g in (pick chance stellar_lumodds 0, g)

  unfoldable pub star_gencls : G → Run ℕ × G
  unfolding pick mtrandom_uint
  star_gencls g =
      let (chance, g) = mtrandom_uint mt_genrand_int32 10000 g in (pick chance stellar_clsodds 0, g)

  -- `star_gentemp` and `star_genlumval`, with their tables
  unfoldable pub between : List ℕ → ℕ → G → Run (ℕ × G)
  unfolding entry mtrandom_uint
  between table cls g = do
    high ← entry table cls
    low ← entry table (suc cls)
    let (r, g) = mtrandom_uint mt_genrand_int32 (high - low) g in ok (r + low, g)

  unfoldable pub star_generate_more : ℕ → G → Bool × G
  unfolding mtrandom_uint
  star_generate_more mulodds g =
      let (r, g) = mtrandom_uint mt_genrand_int32 100 g in (ltb r mulodds, g)

  module _ (star_gethablow star_gethabhigh : ℕ → ℕ) where
    -- The name is set by the caller.
    unfoldable pub star_init : List ℕ → G → Run (Star × G)
    unfolding star_gencls star_genlum between entry
    star_init name g =
        let (cls, g) = star_gencls g in
        do
          cls ← cls
          let (lum, g) = star_genlum g in
              do
                lum ← lum
                (lumval, g) ← between stellar_clslum cls g
                clshab ← entry stellar_clshab cls
                lumhab ← entry stellar_lumhab lum
                (temp, g) ← between stellar_clstmp cls g
                ok (
                  record {
                    name = name;
                    cls = cls;
                    lum = lum;
                    hab = clshab +ℤ lumhab;
                    lumval = lumval;
                    hablow = star_gethablow lum;
                    habhigh = star_gethabhigh lum;
                    temp = temp;
                  },
                  g,
                )

    -- The loop of `star_populate_system` with `n` rounds left, of `STELLAR_MUL_MAX - 1`; the result is what
    -- is pushed.
    unfoldable pub more_stars : ℕ → ℕ → ℕ → List ℕ → G → Run (List Star × G)
    unfolding star_generate_more star_init entry
    more_stars zero i mulodds name g = ok ([], (star_generate_more mulodds g).1)
    more_stars (suc n) i mulodds name g =
        let (more, g) = star_generate_more mulodds g in
        elim more [
          | false ↦ ok ([], g)
          | true ↦ do
            (sol, g) ← star_init (name ++ 32 ∷ (i + 65) ∷ []) g
            mul ← entry stellar_clsmul sol.cls
            (rest, g) ← more_stars n (suc i) (if ltb mul mulodds then mul else mulodds) name g
            ok (sol ∷ rest, g)
        ]

    unfoldable pub star_populate_system : List ℕ → G → Run (List Star × G)
    unfolding more_stars
    star_populate_system name g = do
      (sol, g) ← star_init (name ++ 32 ∷ b'A' ∷ []) g
      mulodds ← entry stellar_clsmul sol.cls
      (rest, g) ← more_stars 3 1 mulodds name g
      ok (sol ∷ rest, g)

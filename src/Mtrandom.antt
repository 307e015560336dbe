-- ===== src/Mtrandom.antt =====
-- mtrandom.c: random numbers of a range, over the generator as a parameter. `mtrandom_double` is left out.
use yastg.Prelude.{ℕ, ◌-◌, ◌*◌, ◌%◌, ◌^◌, bit_or, bit_and, ◌==◌, ltb, if◌then◌else◌}
use yastg.Prelude.Int.{ℤ, pos, negsuc, ltb_ℤ, eqb_ℤ, mod_ℤ, ◌-ℤ◌, to_int32}
use yastg.Prelude.{Bool-cases, arith, inl, inr, ◌<◌}
use yastg.Prelude.{false, ◌≡◌, ◌≤◌}

-- A number of 64 bits as an `int64_t`
unfoldable pub to_int64 : ℕ → ℤ
to_int64 r = if ltb r (2 ^ 63) then pos r else negsuc (2 ^ 64 - r - 1)

module _ {G : Type 0} (mt_genrand_int32 : G → ℕ × G) where
  unfoldable mtrandom_int64 : ℤ → G → ℤ × G
  unfolding to_int64
  mtrandom_int64 range g =
      if eqb_ℤ range (pos 0)
      then (range, g)
      else (let (high, g') = mt_genrand_int32 g in
          let (low, g'') = mt_genrand_int32 g' in
          let r = to_int64 (bit_or (high * 2 ^ 31 % 2 ^ 64) low) in
          (if ltb_ℤ (pos 0) range then mod_ℤ r range else pos 0 -ℤ mod_ℤ r (pos 0 -ℤ range), g''))

  unfoldable pub mtrandom_uint64 : ℕ → G → ℕ × G
  mtrandom_uint64 range g =
      if range == 0
      then (range, g)
      else (let (high, g') = mt_genrand_int32 g in
          let (low, g'') = mt_genrand_int32 g' in
          (bit_or (high * 2 ^ 32 % 2 ^ 64) low % range, g''))

  unfoldable pub mtrandom_uint : ℕ → G → ℕ × G
  mtrandom_uint range g =
      if range == 0 then (range, g) else (let (r, g') = mt_genrand_int32 g in (r % range, g'))

  -- A negative `range` is taken as an unsigned number.
  unfoldable mtrandom_int : ℤ → G → ℤ × G
  mtrandom_int range g =
      if eqb_ℤ range (pos 0)
      then (range, g)
      else (let (r, g') = mt_genrand_int32 g in (to_int32 (pos (r % unsigned range)), g'))
    where
      unsigned : ℤ → ℕ
      unsigned (pos n) = n
      unsigned (negsuc n) = 2 ^ 32 - n - 1

  unfoldable pub mtrandom_ulong : ℕ → G → ℕ × G
  unfolding mtrandom_uint64
  mtrandom_ulong range g = mtrandom_uint64 range g

  unfoldable pub mtrandom_long : ℤ → G → ℤ × G
  unfolding mtrandom_int64
  mtrandom_long range g = mtrandom_int64 range g

  unfoldable mtrandom_bool : G → ℕ × G
  mtrandom_bool g = let (r, g') = mt_genrand_int32 g in (bit_and r 1, g')

  pub mtrandom_uint-lt : (range : ℕ) (g : G) → 0 < range → (mtrandom_uint range g).0 < range
  unfolding mtrandom_uint
  mtrandom_uint-lt range g h = elim (Bool-cases (range == 0)) [
    | inl e ↦ absurd (ground (arith, h, e))
    | inr e ↦ rw e (ground (arith, h))
  ]

  pub mtrandom_ulong-lt : (range : ℕ) (g : G) → 0 < range → (mtrandom_ulong range g).0 < range
  unfolding mtrandom_ulong mtrandom_uint64
  mtrandom_ulong-lt range g h = elim (Bool-cases (range == 0)) [
    | inl e ↦ absurd (ground (arith, h, e))
    | inr e ↦ rw e (omega (arith, h))
  ]

  pub mtrandom_ulong-le : (range : ℕ) (g : G) → (mtrandom_ulong range g).0 ≤ range
  unfolding mtrandom_ulong mtrandom_uint64
  mtrandom_ulong-le range g = elim (Bool-cases (range == 0)) [
    | inl e ↦ rw e (omega arith)
    | inr e ↦ rw e (omega (arith, positive e))
  ]
    where
      positive : (range == 0) ≡ false → 0 < range
      positive e = ground (arith, e)

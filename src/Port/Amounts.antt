-- ===== src/Port/Amounts.antt =====
-- port.c: the numbers of a new cargo.
-- What is relied on of the floating point: a new maximum, from one of at most 2 ^ 62, is not negative and a
-- `long`, and 5 to the power of the logarithm to base 10 is not above the number.
use yastg.Civ.Ops.{to_ulong}
use yastg.Mtrandom.{mtrandom_ulong, mtrandom_ulong-le, to_int64}
use yastg.Port.Ops.{Floats, new_cargo}
use yastg.PortUpdate.Rounds.{Full}
use yastg.Prelude.{
  Bool-cases, [], arith, if◌then◌else◌, inl, inr, ltb→lt, lt→ltb, refl, subst, sym, ℕ, ◌<◌, ◌^◌,
  ◌≡◌, ◌≤◌,
}
use yastg.Prelude.Int.{long_max, ltb_ℤ, negsuc, pos, pos_part, ℤ, ◌≤ℤ◌}
use yastg.Trade.Ops.{Cargo}

pub record IsFloat (f : Floats) : Type 0 where
  pub in_range :
      (m : ℤ) (r : ℕ)
      → pos 0 ≤ℤ m
      → m ≤ℤ pos (2 ^ 62)
      → r ≤ f.max_range m
      → (pos 0 ≤ℤ f.new_max m r) × (f.new_max m r ≤ℤ long_max)
  pub less : (a : ℤ) → pos 10 ≤ℤ a → (pos 0 ≤ℤ f.pow_log a) × (f.pow_log a ≤ℤ a)

to_ulong-pos_part : (a : ℤ) → pos 0 ≤ℤ a → a ≤ℤ long_max → to_ulong a ≡ pos_part a
unfolding to_ulong
to_ulong-pos_part (pos n) lo hi = omega arith
to_ulong-pos_part (negsuc n) lo hi = absurd (omega arith)

to_int64-pos : (a : ℕ) → a < 2 ^ 63 → to_int64 a ≡ pos a
unfolding to_int64
to_int64-pos a h = rw (lt→ltb a (2 ^ 63) h) refl

amount-Full :
    (f : Floats) (max : ℤ) (a : ℕ)
    → IsFloat f
    → pos 0 ≤ℤ max
    → max ≤ℤ long_max
    → a ≤ to_ulong max
    → let new = if ltb_ℤ (pos 10) (to_int64 a) then f.pow_log (to_int64 a) else to_int64 a in
      (pos 0 ≤ℤ new) × (new ≤ℤ max)
amount-Full f (negsuc m) a h lo hi le = absurd (omega arith)
amount-Full f (pos m) a h lo hi le =
    let below : a ≤ m = subst (λ n. a ≤ n) (to_ulong-pos_part (pos m) lo hi) le in
    subst
      (λ (x : ℤ).
        let new = if ltb_ℤ (pos 10) x then f.pow_log x else x in (pos 0 ≤ℤ new) × (new ≤ℤ pos m))
      (sym (to_int64-pos a (omega arith)))
      (elim (Bool-cases (ltb_ℤ (pos 10) (pos a))) [
        | inr e ↦ rw e (omega arith, omega arith)
        | inl e ↦
            let (p, q) = h.less (pos a) (omega (arith, ltb→lt _ _ e)) in rw e (p, omega (arith, q))
      ])

module _ {G : Type 0} (mt_genrand_int32 : G → ℕ × G) (f : Floats) (is_float : IsFloat f) where
  pub new_cargo-Full :
      (c : Cargo) (g : G)
      → pos 0 ≤ℤ c.max
      → c.max ≤ℤ pos (2 ^ 62)
      → let new = (new_cargo mt_genrand_int32 f c g).0 in
        Full new new.amount × (new.item ≡ c.item) × (new.requires ≡ [])
  unfolding new_cargo
  new_cargo-Full c g lo hi =
      let drawn = mtrandom_ulong mt_genrand_int32 (f.max_range c.max) g in
      let (low, high) =
        is_float.in_range c.max drawn.0 lo hi
          (mtrandom_ulong-le mt_genrand_int32 (f.max_range c.max) g) in
      (
        amount-Full f (f.new_max c.max drawn.0) _ is_float low high
            (mtrandom_ulong-le mt_genrand_int32 _ _),
        refl,
        refl,
      )

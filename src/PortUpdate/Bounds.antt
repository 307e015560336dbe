-- ===== src/PortUpdate/Bounds.antt =====
-- port_update.c: the bounds of a change.
use yastg.Prelude.{ℕ, List, [], ◌∷◌, refl, arith, In, inl, inr, subst, sym, ◌⊎◌}
use yastg.Prelude.Int.{ℤ, pos, ◌+ℤ◌, ◌-ℤ◌, ◌≤ℤ◌, +ℤ_parts, -ℤ_parts}
use yastg.Trade.Ops.{Store, Cargo}
use yastg.PortUpdate.Ops.{change_at, change_of, limit_change, limit_required, limit_all}

-- `b` has the sign of `a`, or is 0, and is no larger in size.
abbrev Within : ℤ → ℤ → Type 0
Within b a = ((pos 0 ≤ℤ b) × (b ≤ℤ a)) ⊎ ((a ≤ℤ b) × (b ≤ℤ pos 0))

limit_change-bounds :
    (cargo : Cargo) (change : ℤ)
    → pos 0 ≤ℤ cargo.amount
    → cargo.amount ≤ℤ cargo.max
    → (pos 0 ≤ℤ cargo.amount +ℤ limit_change cargo change)
      × (cargo.amount +ℤ limit_change cargo change ≤ℤ cargo.max)
unfolding limit_change
limit_change-bounds cargo change low high = (
  ground (
    arith,
    -ℤ_parts (pos 0) change,
    -ℤ_parts cargo.max cargo.amount,
    -ℤ_parts (pos 0) cargo.amount,
    +ℤ_parts cargo.amount change,
    +ℤ_parts cargo.amount (cargo.max -ℤ cargo.amount),
    +ℤ_parts cargo.amount (pos 0 -ℤ cargo.amount),
  ),
  ground (
    arith,
    -ℤ_parts (pos 0) change,
    -ℤ_parts cargo.max cargo.amount,
    -ℤ_parts (pos 0) cargo.amount,
    +ℤ_parts cargo.amount change,
    +ℤ_parts cargo.amount (cargo.max -ℤ cargo.amount),
    +ℤ_parts cargo.amount (pos 0 -ℤ cargo.amount),
  ),
)

limit_required-bounds :
    (req : Cargo) (change : ℤ)
    → pos 0 ≤ℤ req.amount
    → (limit_required req change ≤ℤ req.amount)
      × (pos 0 -ℤ limit_required req change ≤ℤ req.amount)
      × Within (limit_required req change) change
unfolding limit_required
limit_required-bounds req change low = (
  ground (
    arith,
    -ℤ_parts (pos 0) change,
    -ℤ_parts (pos 0) req.amount,
    -ℤ_parts (pos 0) (pos 0 -ℤ req.amount),
  ),
  ground (
    arith,
    -ℤ_parts (pos 0) change,
    -ℤ_parts (pos 0) req.amount,
    -ℤ_parts (pos 0) (pos 0 -ℤ req.amount),
  ),
  ground (
    arith,
    -ℤ_parts (pos 0) change,
    -ℤ_parts (pos 0) req.amount,
    -ℤ_parts (pos 0) (pos 0 -ℤ req.amount),
  ),
)

Within-trans : (a b c : ℤ) → Within a b → Within b c → Within a c
Within-trans a b c h k = omega arith

-- A change within another is as good for what that one was good for.
Within-sides :
    (a b m : ℤ) → Within a b → b ≤ℤ m → pos 0 -ℤ b ≤ℤ m → pos 0 ≤ℤ m → (a ≤ℤ m) × (pos 0 -ℤ a ≤ℤ m)
Within-sides a b m h k l n = (
  omega (arith, -ℤ_parts (pos 0) a, -ℤ_parts (pos 0) b),
  omega (arith, -ℤ_parts (pos 0) a, -ℤ_parts (pos 0) b),
)

-- What the loop over the required cargo leaves of a change.
abbrev Limited : Store → List ℕ → ℤ → ℤ → Type 0
Limited s requires change l =
    Within l change
    × ((r : ℕ) → In r requires → (l ≤ℤ (s.cargo r).amount) × (pos 0 -ℤ l ≤ℤ (s.cargo r).amount))

limit_all-Limited :
    (s : Store) (requires : List ℕ) (change : ℤ)
    → ((r : ℕ) → In r requires → pos 0 ≤ℤ (s.cargo r).amount)
    → Limited s requires change (limit_all s requires change)
unfolding limit_all
limit_all-Limited s [] change low = (omega arith, λ r h. absurd h)
limit_all-Limited s (q ∷ requires) change low =
    let next = limit_required (s.cargo q) change in
    let last = limit_all s requires next in
    let (le, ge, w) = limit_required-bounds (s.cargo q) change (low q (inl refl)) in
    let (w', each) = limit_all-Limited s requires next (λ r h. low r (inr h)) in
    let here = Within-sides last next (s.cargo q).amount w' le ge (low q (inl refl)) in
    (
      Within-trans last next change w' w,
      λ r. elim [
        | inl e ↦
            subst (λ r. (last ≤ℤ (s.cargo r).amount) × (pos 0 -ℤ last ≤ℤ (s.cargo r).amount))
              (sym e) here
        | inr h ↦ each r h
      ],
    )

-- Where a cargo is between 0 and its maximum and what it requires is not negative, the change of a
-- round leaves it between 0 and its maximum, and is in size no more than any required cargo has.
pub change_of-bounds :
    (s : Store) (iteration c : ℕ)
    → pos 0 ≤ℤ (s.cargo c).amount
    → (s.cargo c).amount ≤ℤ (s.cargo c).max
    → ((r : ℕ) → In r (s.cargo c).requires → pos 0 ≤ℤ (s.cargo r).amount)
    → (pos 0 ≤ℤ (s.cargo c).amount +ℤ change_of s iteration c)
      × ((s.cargo c).amount +ℤ change_of s iteration c ≤ℤ (s.cargo c).max)
      × ((r : ℕ)
          → In r (s.cargo c).requires
          → (change_of s iteration c ≤ℤ (s.cargo r).amount)
            × (pos 0 -ℤ change_of s iteration c ≤ℤ (s.cargo r).amount))
unfolding change_of
change_of-bounds s iteration c low high reqs =
    let cargo = s.cargo c in
    let m = limit_change cargo (change_at iteration cargo.daily_change) in
    let l = limit_all s cargo.requires m in
    let (lo, hi) = limit_change-bounds cargo (change_at iteration cargo.daily_change) low high in
    let (w, each) = limit_all-Limited s cargo.requires m reqs in
    (
      omega (arith, +ℤ_parts cargo.amount m, +ℤ_parts cargo.amount l),
      omega (arith, +ℤ_parts cargo.amount m, +ℤ_parts cargo.amount l),
      each,
    )

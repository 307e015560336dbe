-- ===== src/Trade/Credits.antt =====
-- player.c: what buying costs.

use yastg.Trade.Ops.{Trader, move_cargo_to_ship, parse_buysell_cargo, cmd_buy}
use yastg.Trade.Moves.{min_ℤ-bounds}
use yastg.Prelude.{Run, arith, fault, ok, refl, ℕ, ◌-◌, ◌<◌, ◌>>=◌, ◌^◌, ◌≡◌}
use yastg.Prelude.Int.{pos, ℤ, ◌≤ℤ◌}
use yastg.Prelude.{false, subst, sym}
use yastg.Prelude.Int.{min_ℤ, ◌-ℤ◌}
use yastg.Prelude.{Option, some}
use yastg.Stringtrie.Ops.{st_lookup_string}
use yastg.Prelude.{none, true}
use yastg.Prelude.Int.{eqb_ℤ}
use yastg.Prelude.{List}
use yastg.Prelude.Int.{div_ℤ, ◌*ℤ◌}
use yastg.Prelude.{Bool, if◌then◌else◌}
use yastg.Prelude.{not, ◌&&◌}
use yastg.Stringtrie.Node.{Root}
use yastg.Trade.Payments.{Paid, Unless, Unless-bind, move_cargo_to_ship-Paid}
use yastg.Trade.Affordable.{Positive, affordable, div_ℤ-bounds, parse_buysell_cargo-Positive}

-- `cmd_buy` once the cargo and the affordable amount are known
abbrev pay : Trader → ℕ → ℤ → Run Trader
pay t c afford = do
  (moved, s, ship) ← move_cargo_to_ship t.store t.ship c afford
  ok (record { store = s; ship = ship; credits = t.credits -ℤ moved *ℤ (s.cargo c).price })

abbrev pub Solvent : Trader → Type 0
Solvent t = pos 0 ≤ℤ t.credits

-- An affordable amount leaves no debt.
pay-Solvent :
    (t : Trader) (c : ℕ) (afford : ℤ)
    → Solvent t
    → c < t.store.next
    → pos 0 ≤ℤ (t.store.cargo c).price
    → pos 0 ≤ℤ afford
    → (eqb_ℤ (t.store.cargo c).price (pos 0) ≡ false
        → (afford ≤ℤ pos (2 ^ 31 - 1)) × (afford ≤ℤ div_ℤ t.credits (t.store.cargo c).price))
    → Unless Solvent (pay t c afford)
pay-Solvent t c afford lo l nn some_units h =
    Unless-bind (λ q. Paid afford t.store (q.0, q.1)) Solvent
      (move_cargo_to_ship t.store t.ship c afford) _
      (move_cargo_to_ship-Paid t.store t.ship c afford some_units l)
      (λ q k.
        subst (λ (x : ℤ). pos 0 ≤ℤ t.credits -ℤ q.0 *ℤ x) (sym (k.1 c l))
          (affordable t.credits (t.store.cargo c).price q.0 lo nn
            (λ e. omega (arith, k.0 (h e).0, (h e).1))))

-- Where the credits of a player are an int from 0, and whatever cargo the tree of the port finds is
-- allocated and has no negative price, cmd_buy leaves no debt, unless it stops at a fault.
pub cmd_buy-Solvent :
    (items : Root ℕ) (t : Trader) (param : Option (List ℕ))
    → Solvent t
    → t.credits ≤ℤ pos (2 ^ 31 - 1)
    → ((name : List ℕ) (c : ℕ)
        → st_lookup_string items (some name) ≡ ok (some c)
        → (c < t.store.next) × (pos 0 ≤ℤ (t.store.cargo c).price))
    → Unless Solvent (cmd_buy items t param)
unfolding cmd_buy
cmd_buy-Solvent items t param lo hi known =
    Unless-bind Positive Solvent (parse_buysell_cargo param) _ (parse_buysell_cargo-Positive param)
      parsed
  where
    afforded :
        (amount : ℤ) (c : ℕ)
        → pos 0 ≤ℤ amount
        → (c < t.store.next) × (pos 0 ≤ℤ (t.store.cargo c).price)
        → Unless Solvent (
            let price = (t.store.cargo c).price in
            let afford =
              if eqb_ℤ price (pos 0) then amount else min_ℤ amount (div_ℤ t.credits price) in
            if not (eqb_ℤ price (pos 0)) && eqb_ℤ afford (pos 0) then ok t else pay t c afford)
    afforded amount c some_units (l, nn) = chosen (eqb_ℤ price (pos 0)) refl
      where
        price : ℤ
        price = (t.store.cargo c).price

        least : ℤ
        least = min_ℤ amount (div_ℤ t.credits price)

        settled :
            (z : Bool)
            → eqb_ℤ price (pos 0) ≡ false
            → Unless Solvent (if z then ok t else pay t c least)
        settled true e = lo
        settled false e =
            let (la, lb, ga) = min_ℤ-bounds amount (div_ℤ t.credits price) in
            let (none_less, at_most) = div_ℤ-bounds t.credits price lo nn in
            pay-Solvent t c least lo l nn (ga (pos 0) some_units none_less)
              (λ e'. (omega (arith, lb, at_most, hi), lb))

        chosen :
            (z : Bool)
            → eqb_ℤ price (pos 0) ≡ z
            → Unless Solvent (
                let afford = if z then amount else least in
                if not z && eqb_ℤ afford (pos 0) then ok t else pay t c afford)
        chosen true e = pay-Solvent t c amount lo l nn some_units (λ e'. absurd (grind arith))
        chosen false e = settled (eqb_ℤ least (pos 0)) e

    looked :
        (amount : ℤ) (name : List ℕ)
        → pos 0 ≤ℤ amount
        → (r : Run (Option ℕ)) → st_lookup_string items (some name) ≡ r
        → Unless Solvent (
            r >>= λ found. elim found [
              | none ↦ ok t
              | some c ↦
                  let price = (t.store.cargo c).price in
                  let afford =
                    if eqb_ℤ price (pos 0) then amount else min_ℤ amount (div_ℤ t.credits price) in
                  if not (eqb_ℤ price (pos 0)) && eqb_ℤ afford (pos 0) then ok t else pay t c afford
            ])
    looked amount name k (fault stop) e = tt
    looked amount name k (ok none) e = lo
    looked amount name k (ok (some c)) e = afforded amount c k (known name c e)

    parsed :
        (o : Option (ℤ × List ℕ))
        → Positive o
        → Unless Solvent (elim o [
          | none ↦ ok t
          | some (amount, name) ↦ do
            found ← st_lookup_string items (some name)
            elim found [
              | none ↦ ok t
              | some c ↦
                  let price = (t.store.cargo c).price in
                  let afford =
                    if eqb_ℤ price (pos 0) then amount else min_ℤ amount (div_ℤ t.credits price) in
                  if not (eqb_ℤ price (pos 0)) && eqb_ℤ afford (pos 0) then ok t else pay t c afford
            ]
        ])
    parsed none k = lo
    parsed (some (amount, name)) k = looked amount name k (st_lookup_string items (some name)) refl

-- ===== src/PortUpdate/Ops.antt =====
-- port_update.c: `update_port` and `update_all_ports`. The thread that calls them is left out.
use yastg.Prelude.{ℕ, List, [], ◌∷◌, not, ◌&&◌, if◌then◌else◌}
use yastg.Prelude.Int.{ℤ, pos, ◌+ℤ◌, ◌-ℤ◌, ltb_ℤ, eqb_ℤ, div_ℤ, mod_ℤ}
use yastg.Trade.Ops.{Store, Cargo, set_amount}

-- `PORT_UPDATE_FRACTION`, 24 * 60 * 60 / 10
abbrev port_update_fraction : ℤ
port_update_fraction = pos 8640

-- `change` before it is limited; the caller has seen that `daily_change` is not 0.
unfoldable pub change_at : ℕ → ℤ → ℤ
change_at iteration daily_change =
    let change = div_ℤ daily_change port_update_fraction in
    let remainder = mod_ℤ daily_change port_update_fraction in
    let fraction_iteration = div_ℤ port_update_fraction daily_change in
    if not (eqb_ℤ remainder (pos 0))
      && not (eqb_ℤ fraction_iteration (pos 0))
      && eqb_ℤ (mod_ℤ (pos iteration) fraction_iteration) (pos 0)
    then (if ltb_ℤ (pos 0) daily_change
        then change +ℤ pos 1
        else if ltb_ℤ daily_change (pos 0)
        then change -ℤ pos 1
        else change)
    else change

-- What a cargo can lose or take.
unfoldable pub limit_change : Cargo → ℤ → ℤ
limit_change cargo change =
    if ltb_ℤ change (pos 0) && ltb_ℤ cargo.amount (pos 0 -ℤ change)
    then pos 0 -ℤ cargo.amount
    else if ltb_ℤ (pos 0) change && ltb_ℤ (cargo.max -ℤ cargo.amount) change
    then cargo.max -ℤ cargo.amount
    else change

-- What a required cargo can give.
unfoldable pub limit_required : Cargo → ℤ → ℤ
limit_required req change =
    if ltb_ℤ (pos 0) change && ltb_ℤ req.amount change
    then req.amount
    else if ltb_ℤ change (pos 0) && ltb_ℤ req.amount (pos 0 -ℤ change)
    then pos 0 -ℤ req.amount
    else change

-- The loop over `requires`.
unfoldable pub limit_all : Store → List ℕ → ℤ → ℤ
unfolding limit_required
limit_all s [] change = change
limit_all s (r ∷ requires) change = limit_all s requires (limit_required (s.cargo r) change)

-- The loop that takes from the required cargo.
unfoldable pub take_all : ℤ → List ℕ → Store → Store
unfolding set_amount
take_all change [] s = s
take_all change (r ∷ requires) s =
    let amount =
      if ltb_ℤ change (pos 0) then (s.cargo r).amount +ℤ change else (s.cargo r).amount -ℤ change in
    take_all change requires (set_amount s r amount)

-- The change of a cargo in a round.
unfoldable pub change_of : Store → ℕ → ℕ → ℤ
unfolding change_at limit_change limit_all
change_of s iteration c =
    let cargo = s.cargo c in
    limit_all s cargo.requires (limit_change cargo (change_at iteration cargo.daily_change))

-- One round of the loop over a port's items.
unfoldable pub update_cargo : ℕ → Store → ℕ → Store
unfolding change_of take_all
update_cargo iteration s c =
    let cargo = s.cargo c in
    if eqb_ℤ cargo.daily_change (pos 0)
    then s
    else (let change = change_of s iteration c in
        take_all change cargo.requires (set_amount s c (cargo.amount +ℤ change)))

unfoldable pub update_port : ℕ → Store → List ℕ → Store
unfolding update_cargo
update_port iteration s [] = s
update_port iteration s (c ∷ items) = update_port iteration (update_cargo iteration s c) items

-- Over the items of each port of the universe.
unfoldable pub update_all_ports : ℕ → Store → List (List ℕ) → Store
unfolding update_port
update_all_ports iteration s [] = s
update_all_ports iteration s (items ∷ ports) =
    update_all_ports iteration (update_port iteration s items) ports

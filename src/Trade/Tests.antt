-- ===== src/Trade/Tests.antt =====
-- Cargo moved between two places of a store.
use yastg.Prelude.{[], ◌==◌, if◌then◌else◌, ◌≡◌, arith, ok, ◌∷◌}
use yastg.Prelude.Int.{ℤ, pos, to_int32}
use yastg.Trade.Ops.{Store, Item, fresh_cargo, move_to}
use yastg.Config.Lookups.{Found}
use yastg.Trade.Moves.{Moved, move_to-Moved}
use yastg.Config.Lookups.{
  st_add_string-IsLive, st_init-IsLive, st_lookup_string-Found, value-st_add_string,
}
use yastg.Prelude.{List, Returns, inl, inr, some, subst, ℕ, ◌<◌}
use yastg.Prelude.Int.{◌≤ℤ◌}
use yastg.Stringtrie.Node.{Root}
use yastg.Stringtrie.Ops.{st_add_string, st_init, st_lookup_string}
use yastg.Trade.Credits.{Solvent, cmd_buy-Solvent}
use yastg.Trade.Ops.{Trader, cmd_buy}
use yastg.Trade.Payments.{Unless}
use yastg.Stringtrie.Values.{value-empty_root}

abbrev iron : Item
iron = record { name = b'i' ∷ b'r' ∷ b'o' ∷ b'n' ∷ []; weight = pos 1; base_price = pos 5 }

-- Cargo 0 is ten of iron at a port, cargo 1 none of it in a ship.
abbrev store : Store
store = record {
  cargo = λ c. if c == 0 then record (fresh_cargo iron) { amount = pos 10 } else fresh_cargo iron;
  next = 2;
}

move_to-Moved_example :
    (b : ℤ) × (s' : Store) × (move_to store 0 1 (pos 4) ≡ ok (to_int32 b, s'))
    × Moved store s' 0 1 (pos 4) b
unfolding fresh_cargo
move_to-Moved_example =
    move_to-Moved store 0 1 (pos 4) (omega arith) (omega arith) (omega arith) (omega arith)

-- Cargo 0 is ten of iron for 5 each.
abbrev shop : Store
shop = record store {
  cargo = λ c.
      if c == 0
      then record (fresh_cargo iron) { amount = pos 10; price = pos 5 }
      else fresh_cargo iron;
}

abbrev goods : Root ℕ
goods = (st_add_string st_init (some iron.name) (some 0)).1

-- A trader with an empty hold, who can pay for two of iron
abbrev trader : Trader
trader = record { store = shop; ship = record { list = []; names = st_init }; credits = pos 12 }

goods-known :
    (name : List ℕ) (c : ℕ)
    → st_lookup_string goods (some name) ≡ ok (some c)
    → (c < 2) × (pos 0 ≤ℤ (shop.cargo c).price)
unfolding fresh_cargo st_init
goods-known name c e =
    let live = st_add_string-IsLive (st_init {A = ℕ}) (some iron.name) 0 (st_init-IsLive ℕ) in
    let (t, v) = subst (Returns (Found goods)) e (st_lookup_string-Found goods (some name) live) in
    elim (value-st_add_string st_init iron.name t 0 c v) [
      | inl z ↦ subst (λ c. (c < 2) × (pos 0 ≤ℤ (shop.cargo c).price)) z (omega arith, omega arith)
      | inr h ↦ absurd (cc (value-empty_root {A = ℕ} t, h))
    ]

cmd_buy-Solvent_example :
    Unless Solvent (cmd_buy goods trader (some (b'4' ∷ 32 ∷ b'i' ∷ b'r' ∷ b'o' ∷ b'n' ∷ [])))
cmd_buy-Solvent_example =
    cmd_buy-Solvent goods trader (some (b'4' ∷ 32 ∷ b'i' ∷ b'r' ∷ b'o' ∷ b'n' ∷ [])) (omega arith)
      (omega arith) goods-known

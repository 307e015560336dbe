-- ===== src/PortUpdate/Tests.antt =====
-- A port that makes steel from iron.
use yastg.Prelude.{ℕ, [], ◌∷◌, ◌==◌, if◌then◌else◌, ◌≡◌, refl, arith, In, inl, inr, subst, sym}
use yastg.Prelude.Int.{mod_ℤ, ◌*ℤ◌, pos, ◌+ℤ◌, ◌-ℤ◌, ◌≤ℤ◌}
use yastg.Trade.Ops.{Store, Item}
use yastg.PortUpdate.Ops.{change_of, update_port}
use yastg.PortUpdate.Bounds.{change_of-bounds}
use yastg.PortUpdate.Ops.{update_all_ports}
use yastg.PortUpdate.Rounds.{Apart, Stocked, update_all_ports-Stocked}
use yastg.Prelude.{suc, zero, ◌<◌}

abbrev item : Item
item = record { name = []; weight = pos 1; base_price = pos 5 }

-- Cargo 0 is steel, with a change of 17280 a day, and cargo 1 one unit of iron.
abbrev store : Store
store = record {
  cargo = λ c.
      if c == 0
      then record {
        item = item;
        min = pos 0;
        max = pos 100;
        amount = pos 10;
        daily_change = pos 17280;
        price = pos 0;
        requires = 1 ∷ [];
      }
      else record {
        item = item;
        min = pos 0;
        max = pos 100;
        amount = pos 1;
        daily_change = pos 0;
        price = pos 0;
        requires = [];
      };
  next = 2;
}

-- Only one unit is made, from the one of iron.
one_made :
    (((update_port 0 store (0 ∷ [])).cargo 0).amount ≡ pos 11)
    × (((update_port 0 store (0 ∷ [])).cargo 1).amount ≡ pos 0)
unfolding update_port ◌+ℤ◌ ◌-ℤ◌ mod_ℤ ◌*ℤ◌
one_made = (refl, refl)

change_of-bounds_example :
    (pos 0 ≤ℤ pos 10 +ℤ change_of store 0 0)
    × (pos 10 +ℤ change_of store 0 0 ≤ℤ pos 100)
    × ((r : ℕ)
        → In r (1 ∷ [])
        → (change_of store 0 0 ≤ℤ (store.cargo r).amount)
          × (pos 0 -ℤ change_of store 0 0 ≤ℤ (store.cargo r).amount))
change_of-bounds_example = change_of-bounds store 0 0 (omega arith) (omega arith) (λ r. elim [
  | inl e ↦ subst (λ r. pos 0 ≤ℤ (store.cargo r).amount) (sym e) (omega arith)
  | inr h ↦ absurd h
])

steel_and_iron : (Q : ℕ → Type 0) → Q 0 → Q 1 → (c : ℕ) → c < 2 → Q c
steel_and_iron Q steel iron zero l = steel
steel_and_iron Q steel iron (suc zero) l = iron
steel_and_iron Q steel iron (suc (suc c)) l = absurd (omega arith)

store-Stocked : Stocked store
store-Stocked = record {
  full =
      steel_and_iron
        (λ c. (pos 0 ≤ℤ (store.cargo c).amount) × ((store.cargo c).amount ≤ℤ (store.cargo c).max))
        (omega arith, omega arith) (omega arith, omega arith);
  known =
      steel_and_iron (λ c. (r : ℕ) → In r (store.cargo c).requires → r < 2)
        (λ r. elim [ inl e ↦ omega arith | inr h ↦ absurd h ]) (λ r h. absurd h);
  apart = steel_and_iron (λ c. Apart (store.cargo c).requires) ((λ h. h), tt) tt;
  other =
      steel_and_iron (λ c. ¬ In c (store.cargo c).requires)
        (elim [ inl e ↦ omega arith | inr h ↦ absurd h ]) (λ h. h);
}

update_all_ports-Stocked_example : Stocked (update_all_ports 0 store ((0 ∷ []) ∷ []))
update_all_ports-Stocked_example =
    update_all_ports-Stocked 0 store ((0 ∷ []) ∷ []) store-Stocked
      (λ items. elim [ inl e ↦ λ c k. one c (subst (In c) e k) | inr h ↦ absurd h ])
  where
    one : (c : ℕ) → In c (0 ∷ []) → c < 2
    one c (inl e) = omega arith
    one c (inr h) = absurd h

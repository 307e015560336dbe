-- ===== src/Port/Tests.antt =====
-- A port of a type that makes steel from iron.
use yastg.Port.Ops.{Floats, stock_port}
use yastg.Port.Requires.{StockedPort, stock_port-StockedPort}
use yastg.Port.Stock.{IsType}
use yastg.Prelude.{
  In, List, Returns, [], arith, if◌then◌else◌, inl, inr, subst, sym, ℕ, ◌+◌, ◌/◌, ◌<◌, ◌==◌, ◌^◌,
  ◌∷◌, ◌≢◌,
}
use yastg.Prelude.Int.{div_ℤ, pos, pos_part, ◌+ℤ◌, ◌≤ℤ◌}
use yastg.Trade.Ops.{Cargo, Store}
use yastg.Prelude.{◌≤◌}
use yastg.Prelude.Int.{long_max, negsuc, ℤ}
use yastg.Port.Amounts.{IsFloat}

abbrev named : List ℕ → Cargo
named name = record {
  item = record { name = name; weight = pos 1; base_price = pos 5 };
  min = pos 0;
  max = pos 100;
  amount = pos 0;
  daily_change = pos 10;
  price = pos 0;
  requires = [];
}

-- Cargo 0 of the type is steel, and requires cargo 1, iron.
abbrev store : Store
store = record {
  cargo = λ c.
      if c == 0
      then record (named (b's' ∷ b't' ∷ [])) { requires = 1 ∷ [] }
      else named (b'f' ∷ b'e' ∷ []);
  next = 2;
}

-- The floating point for numbers of this size; of the power it is only known that it is less.
abbrev floats : Floats
floats = record {
  max_range = λ m. pos_part m;
  new_max = λ m r. pos (pos_part m / 2 + r);
  change_range = λ c. c;
  new_change = λ c d. div_ℤ c (pos 2) +ℤ d;
  pow_log = λ a. pos (pos_part a / 2);
}

floats-IsFloat : IsFloat floats
floats-IsFloat = record { in_range = in_range; less = less }
  where
    in_range :
        (m : ℤ) (r : ℕ)
        → pos 0 ≤ℤ m
        → m ≤ℤ pos (2 ^ 62)
        → r ≤ pos_part m
        → (pos 0 ≤ℤ pos (pos_part m / 2 + r)) × (pos (pos_part m / 2 + r) ≤ℤ long_max)
    in_range (pos n) r lo hi le = (omega arith, omega arith)
    in_range (negsuc n) r lo hi le = absurd (omega arith)

    less : (a : ℤ) → pos 10 ≤ℤ a → (pos 0 ≤ℤ pos (pos_part a / 2)) × (pos (pos_part a / 2) ≤ℤ a)
    less (pos n) h = (omega arith, omega arith)
    less (negsuc n) h = absurd (omega arith)

store-IsType : IsType store (0 ∷ 1 ∷ [])
store-IsType = record {
  older = λ c. both (λ c. c < 2) (omega arith) (omega arith) c;
  has_name =
      λ c. both (λ c. (store.cargo c).item.name ≢ []) (λ e. absurd (cc e)) (λ e. absurd (cc e)) c;
  has_max = λ c.
      both (λ c. (pos 0 ≤ℤ (store.cargo c).max) × ((store.cargo c).max ≤ℤ pos (2 ^ 62)))
        (omega arith, omega arith) (omega arith, omega arith) c;
  closed = λ c.
      both (λ c. (r : ℕ) → In r (store.cargo c).requires → In r (0 ∷ 1 ∷ [])) (λ r k. inr k)
        (λ r k. absurd k) c;
}
  where
    both : (Q : ℕ → Type 0) → Q 0 → Q 1 → (c : ℕ) → In c (0 ∷ 1 ∷ []) → Q c
    both Q a b c (inl e) = subst Q (sym e) a
    both Q a b c (inr (inl e)) = subst Q (sym e) b
    both Q a b c (inr (inr k)) = absurd k

stock_port-StockedPort_example :
    Returns
      (StockedPort store (0 ∷ 1 ∷ []))
      (stock_port (λ g. (g, g + 1)) floats (0 ∷ 1 ∷ []) store 7)
stock_port-StockedPort_example =
    stock_port-StockedPort (λ g. (g, g + 1)) floats (0 ∷ 1 ∷ []) store 7 floats-IsFloat store-IsType

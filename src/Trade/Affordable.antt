-- ===== src/Trade/Affordable.antt =====
-- player.c: the amount that is asked for, and what can be paid.
use native.Mathlib.Nat.{div-add-mod, div-zero, zero-div}
use yastg.Trade.Ops.{parse_buysell_cargo}
use yastg.Prelude.{Bool-cases, arith, fault, inl, inr, ok, ℕ, ◌+◌, ◌<◌, ◌≡◌}
use yastg.Prelude.Int.{negsuc, pos, ℤ, ◌≤ℤ◌}
use yastg.Prelude.{false, subst}
use yastg.Prelude.Int.{int_laws, leb_ℤ, ◌-ℤ◌}
use yastg.Prelude.{Option, some}
use yastg.Prelude.{none, true}
use yastg.Prelude.Int.{eqb_ℤ}
use yastg.Prelude.{List}
use yastg.Prelude.Int.{div_ℤ, ◌*ℤ◌}
use yastg.Common.Ops.{strtol}
use yastg.Prelude.{Bool, [], if◌then◌else◌, out_of_bounds, suc, zero, ◌*◌, ◌/◌, ◌∷◌, ◌≤◌}
use yastg.Prelude.Int.{long_max}
use yastg.Trade.Ops.{after_space, begins_with_space, is_all, word_before}
use yastg.Prelude.Int.{neg_part, pos_part, sub_ℕ}
use yastg.Trade.Payments.{Unless}

abbrev pub Positive : Option (ℤ × List ℕ) → Type 0
Positive none = Unit
Positive (some (amount, name)) = pos 0 ≤ℤ amount

pub parse_buysell_cargo-Positive :
    (param : Option (List ℕ)) → Unless Positive (parse_buysell_cargo param)
unfolding parse_buysell_cargo
parse_buysell_cargo-Positive none = tt
parse_buysell_cargo-Positive (some input) = named (after_space input)
  where
    word : List ℕ
    word = word_before input

    ended :
        (name end : List ℕ) (amount : ℤ)
        → Unless Positive (elim end [
          | [] ↦ if leb_ℤ amount (pos 0) then ok none else ok (some (amount, name))
          | c ∷ cs ↦ ok none
        ])
    ended name [] amount = elim (Bool-cases (leb_ℤ amount (pos 0))) [
      | inl e ↦ rw e tt
      | inr e ↦ rw e (ground (arith, e))
    ]
    ended name (c ∷ cs) amount = tt

    tested :
        (name : List ℕ) (stray all : Bool)
        → Unless Positive (
            if stray
            then fault out_of_bounds
            else if all
            then ok (some (long_max, name))
            else elim (strtol word).2 [
              | [] ↦
                  if leb_ℤ (strtol word).0 (pos 0)
                  then ok none
                  else ok (some ((strtol word).0, name))
              | c ∷ cs ↦ ok none
            ])
    tested name true all = tt
    tested name false true = omega arith
    tested name false false = ended name (strtol word).2 (strtol word).0

    named :
        (o : Option (List ℕ))
        → Unless Positive (elim o [
          | none ↦ ok none
          | some name ↦
              if begins_with_space name
              then fault out_of_bounds
              else if is_all word
              then ok (some (long_max, name))
              else elim (strtol word).2 [
                | [] ↦
                    if leb_ℤ (strtol word).0 (pos 0)
                    then ok none
                    else ok (some ((strtol word).0, name))
                | c ∷ cs ↦ ok none
              ]
        ])
    named none = tt
    named (some name) = tested name (begins_with_space name) (is_all word)

product_bound : (n p k : ℕ) → 0 < p → k ≤ n / p → k * p ≤ n
product_bound n p k h l = grind (arith, div-add-mod n p)

sub_ℕ-parts : (a b : ℕ) → pos_part (sub_ℕ a b) + b ≡ neg_part (sub_ℕ a b) + a
sub_ℕ-parts a b = ground arith

*ℤ_parts :
    (a b : ℤ)
    → pos_part (a *ℤ b) + (pos_part a * neg_part b + neg_part a * pos_part b)
      ≡ neg_part (a *ℤ b) + (pos_part a * pos_part b + neg_part a * neg_part b)
unfolding ◌*ℤ◌
*ℤ_parts a b = sub_ℕ-parts _ _

quotient : (n p : ℕ) → div_ℤ (pos n) (pos (suc p)) ≡ pos (n / suc p)
unfolding div_ℤ
quotient n p =
    rw (div-zero 0, zero-div (suc p), div-zero n) (omega (int_laws, sub_ℕ-parts (n / suc p + 0) 0))

below_quotient : (n p k : ℕ) → pos k ≤ℤ div_ℤ (pos n) (pos (suc p)) → k ≤ n / suc p
below_quotient n p k h = omega (arith, subst (λ (x : ℤ). pos k ≤ℤ x) (quotient n p) h)

not_zero : (p : ℕ) → eqb_ℤ (pos (suc p)) (pos 0) ≡ false
not_zero p = ground arith

-- A price times an amount that is affordable is affordable.
pub affordable :
    (credits price moved : ℤ)
    → pos 0 ≤ℤ credits
    → pos 0 ≤ℤ price
    → (eqb_ℤ price (pos 0) ≡ false → moved ≤ℤ div_ℤ credits price)
    → pos 0 ≤ℤ credits -ℤ moved *ℤ price
affordable (pos n) (pos zero) moved lo nn h = omega (int_laws, *ℤ_parts moved (pos 0))
affordable (pos n) (pos (suc p)) (pos k) lo nn h = omega (
  int_laws,
  *ℤ_parts (pos k) (pos (suc p)),
  product_bound n (suc p) k (omega arith) (below_quotient n p k (h (not_zero p))),
)
affordable (pos n) (pos (suc p)) (negsuc k) lo nn h =
    omega (int_laws, *ℤ_parts (negsuc k) (pos (suc p)))
affordable (negsuc n) price moved lo nn h = absurd (omega arith)
affordable (pos n) (negsuc p) moved lo nn h = absurd (omega arith)

pub div_ℤ-bounds : (a b : ℤ) → pos 0 ≤ℤ a → pos 0 ≤ℤ b → (pos 0 ≤ℤ div_ℤ a b) × (div_ℤ a b ≤ℤ a)
unfolding div_ℤ
div_ℤ-bounds (pos n) (pos zero) la lb =
    let h = sub_ℕ-parts (n / 0 + 0 / 0) (n / 0 + 0 / 0) in
    (omega (int_laws, h), omega (int_laws, h))
div_ℤ-bounds (pos n) (pos (suc p)) la lb =
    rw (quotient n p) (omega arith, omega (arith, product_bound n (suc p) (n / suc p)))
div_ℤ-bounds (negsuc n) b la lb = absurd (omega arith)
div_ℤ-bounds (pos n) (negsuc p) la lb = absurd (omega arith)

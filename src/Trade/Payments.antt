-- ===== src/Trade/Payments.antt =====
-- player.c: the amount to pay for.

use yastg.Trade.Ops.{
  Store, Cargo, Hold, write, set_amount, fresh_cargo, new_cargo_to_ship, move_to,
  move_cargo_to_ship,
}
use yastg.Trade.Moves.{min_ℤ-bounds}
use yastg.Prelude.{
  ==_iff, Bool-cases, Run, ap, arith, fault, inl, inr, ok, refl, ℕ, ◌%◌, ◌+◌, ◌-◌, ◌<◌, ◌==◌, ◌>>=◌,
  ◌^◌, ◌≡◌,
}
use yastg.Prelude.Int.{negsuc, pos, to_int32, ℤ, ◌≤ℤ◌}
use yastg.Prelude.{false, leb→le, lt→ltb, subst, sym, ◌∙◌}
use yastg.Prelude.Int.{int_laws, leb_ℤ, min_ℤ, ◌+ℤ◌, ◌-ℤ◌}
use yastg.Prelude.{Option, some}
use yastg.Stringtrie.Ops.{st_lookup_string}
use yastg.Prelude.{none, true}
use yastg.Prelude.Int.{eqb_ℤ}
use yastg.Stringtrie.Ops.{st_add_string}

-- What is returned, if no fault comes first, has the property.
abbrev pub Unless : {X : Type 0} → (X → Type 0) → Run X → Type 0
Unless P (ok x) = P x
Unless P (fault stop) = Unit

pub Unless-bind :
    {X Y : Type 0} (P : X → Type 0) (Q : Y → Type 0) (r : Run X) (next : X → Run Y)
    → Unless P r
    → ((x : X) → P x → Unless Q (next x))
    → Unless Q (r >>= next)
Unless-bind P Q (ok x) next h k = k x h
Unless-bind P Q (fault stop) next h k = tt

-- The part of a store that prices are.
abbrev SamePrices : Store → Store → Type 0
SamePrices s s' = (q : ℕ) → q < s.next → (s'.cargo q).price ≡ (s.cargo q).price

price-set_amount :
    (s : Store) (p q : ℕ) (a : ℤ) → ((set_amount s p a).cargo q).price ≡ (s.cargo q).price
unfolding set_amount write
price-set_amount s p q a = elim (Bool-cases (p == q)) [
  | inl e ↦ rw e (ap (λ n. (s.cargo n).price) ((==_iff p q).0 e))
  | inr e ↦ rw e refl
]

-- Of an amount that is an `int`, what is moved is no more.
abbrev pub Paid : ℤ → Store → ℤ × Store → Type 0
Paid amount s q = (amount ≤ℤ pos (2 ^ 31 - 1) → q.0 ≤ℤ amount) × SamePrices s q.1

to_int32-pos : (b : ℤ) → pos 0 ≤ℤ b → b ≤ℤ pos (2 ^ 31 - 1) → to_int32 b ≡ b
unfolding to_int32
to_int32-pos (pos n) lo hi = rw (small n (omega arith), lt→ltb n (2 ^ 31) (omega arith)) refl
  where
    small : (n : ℕ) → n < 2 ^ 31 → (n + 2 ^ 32) % 2 ^ 32 ≡ n
    small n h = omega arith
to_int32-pos (negsuc n) lo hi = absurd (omega arith)

move_to-Paid :
    (s : Store) (c p : ℕ) (amount : ℤ)
    → pos 0 ≤ℤ amount
    → pos 0 ≤ℤ (s.cargo c).amount
    → Unless (Paid amount s) (move_to s c p amount)
unfolding move_to
move_to-Paid s c p amount lo some_c = elim (Bool-cases (leb_ℤ (s.cargo p).amount (s.cargo p).max)) [
  | inr e ↦ rw (e, move_to) tt
  | inl e ↦
      let a = min_ℤ amount (s.cargo c).amount in
      let room = (s.cargo p).max -ℤ (s.cargo p).amount in
      let (la, lc, ga) = min_ℤ-bounds amount (s.cargo c).amount in
      let (lb, lr, gb) = min_ℤ-bounds a room in
      let some_room : pos 0 ≤ℤ room = omega (int_laws, leb→le _ _ e) in
      let none_less : pos 0 ≤ℤ min_ℤ a room = gb (pos 0) (ga (pos 0) lo some_c) some_room in
      let b = min_ℤ a room in
      let s' = set_amount s c ((s.cargo c).amount -ℤ b) in
      rw (e, move_to)
        (
          λ hi.
              subst (λ (x : ℤ). x ≤ℤ amount)
                (sym (to_int32-pos b none_less (omega (arith, lb, la, hi))))
                (omega (arith, lb, la)),
          λ q l.
              price-set_amount s' p q ((s'.cargo p).amount +ℤ b)
              ∙ price-set_amount s c q ((s.cargo c).amount -ℤ b),
        )
]

-- A new cargo is none of the old.
cargo-write :
    (s : Store) (x : Cargo) (q next : ℕ)
    → q < s.next
    → (write (record s { next = next }) s.next x).cargo q ≡ s.cargo q
unfolding write
cargo-write s x q next l = rw (differs s.next q l) refl
  where
    differs : (p q : ℕ) → q < p → (p == q) ≡ false
    differs p q l = ground arith

cargo-new_cargo_to_ship :
    (s : Store) (ship : Hold) (c q : ℕ)
    → q < s.next
    → ((new_cargo_to_ship s ship c).1.cargo q ≡ s.cargo q)
      × (q < (new_cargo_to_ship s ship c).1.next)
unfolding new_cargo_to_ship write
cargo-new_cargo_to_ship s ship c q l =
    let item = (s.cargo c).item in
    let r = (st_add_string ship.names (some item.name) (some s.next)).0 in
    elim (Bool-cases (eqb_ℤ r (pos 0))) [
      | inl e ↦
          rw (e, new_cargo_to_ship) (cargo-write s (fresh_cargo item) q (s.next + 1) l, omega arith)
      | inr e ↦ rw (e, new_cargo_to_ship) (refl, omega arith)
    ]

pub move_cargo_to_ship-Paid :
    (s : Store) (ship : Hold) (c : ℕ) (amount : ℤ)
    → pos 0 ≤ℤ amount
    → c < s.next
    → Unless (λ q. Paid amount s (q.0, q.1)) (move_cargo_to_ship s ship c amount)
unfolding move_cargo_to_ship new_cargo_to_ship
move_cargo_to_ship-Paid s ship c amount lo known =
    elim (Bool-cases (leb_ℤ (pos 0) (s.cargo c).amount)) [
      | inr e ↦ rw (e, move_cargo_to_ship) tt
      | inl e ↦
          rw (e, move_cargo_to_ship)
            (Unless-bind (λ o. Unit) Result
              (st_lookup_string ship.names (some (s.cargo c).item.name)) _ (any _)
              (λ o k. found (ltb_lem e) o))
    ]
  where
    Result : ℤ × Store × Hold → Type 0
    Result q = Paid amount s (q.0, q.1)

    any : (r : Run (Option ℕ)) → Unless (λ o. Unit) r
    any (ok x) = tt
    any (fault stop) = tt

    ltb_lem : leb_ℤ (pos 0) (s.cargo c).amount ≡ true → pos 0 ≤ℤ (s.cargo c).amount
    ltb_lem e = leb→le _ _ e

    s1 : Store
    s1 = (new_cargo_to_ship s ship c).1

    made :
        pos 0 ≤ℤ (s.cargo c).amount
        → (o : Option ℕ)
        → Unless Result (elim o [
          | none ↦ ok (negsuc 0, s1, (new_cargo_to_ship s ship c).2)
          | some p ↦ do (r, s') ← move_to s1 c p amount; ok (r, s', (new_cargo_to_ship s ship c).2)
        ])
    made some_c none = (
      λ hi. omega arith,
      λ q l. ap (λ (x : Cargo). x.price) (cargo-new_cargo_to_ship s ship c q l).0,
    )
    made some_c (some p) =
        Unless-bind (Paid amount s1) Result (move_to s1 c p amount) _
          (move_to-Paid s1 c p amount lo (
            subst (λ (x : Cargo). pos 0 ≤ℤ x.amount)
              (sym (cargo-new_cargo_to_ship s ship c c known).0) some_c))
          (λ w k. (
            k.0,
            λ q l.
                k.1 q (cargo-new_cargo_to_ship s ship c q l).1
                ∙ ap (λ (x : Cargo). x.price) (cargo-new_cargo_to_ship s ship c q l).0,
          ))

    found :
        pos 0 ≤ℤ (s.cargo c).amount
        → (o : Option ℕ)
        → Unless Result (elim o [
          | none ↦ elim (new_cargo_to_ship s ship c).0 [
            | none ↦ ok (negsuc 0, s1, (new_cargo_to_ship s ship c).2)
            | some p ↦ do
              (r, s') ← move_to s1 c p amount
              ok (r, s', (new_cargo_to_ship s ship c).2)
          ]
          | some p ↦ do (r, s') ← move_to s c p amount; ok (r, s', ship)
        ])
    found some_c none = made some_c (new_cargo_to_ship s ship c).0
    found some_c (some p) =
        Unless-bind (Paid amount s) Result (move_to s c p amount) _
          (move_to-Paid s c p amount lo some_c) (λ w k. k)

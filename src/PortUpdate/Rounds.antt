-- ===== src/PortUpdate/Rounds.antt =====
-- port_update.c: what a round keeps of the cargo.
use yastg.Prelude.{
  ℕ, List, [], ◌∷◌, In, inl, inr, Bool-cases, ◌==◌, ==_iff, ◌<◌, ◌≡◌, refl, sym, subst, ap, arith,
}
use yastg.Prelude.Int.{ℤ, pos, ◌+ℤ◌, ◌-ℤ◌, ◌≤ℤ◌, +ℤ_parts, -ℤ_parts, eqb_ℤ, ltb_ℤ}
use yastg.Trade.Ops.{Store, Cargo, set_amount}
use yastg.Trade.Moves.{set_amount-same, set_amount-other}
use yastg.PortUpdate.Ops.{change_of, take_all, update_cargo, update_port, update_all_ports}
use yastg.PortUpdate.Bounds.{change_of-bounds}
use yastg.Player.Name.{ports}
use yastg.Prelude.{if◌then◌else◌, ◌∙◌}

-- No cargo is twice in the list.
abbrev pub Apart : List ℕ → Type 0
Apart [] = Unit
Apart (c ∷ cs) = ¬ In c cs × Apart cs

abbrev pub Full : Cargo → ℤ → Type 0
Full c a = (pos 0 ≤ℤ a) × (a ≤ℤ c.max)

-- Each allocated cargo is between 0 and its maximum, and requires allocated cargo, no other twice, and not itself.
pub record Stocked (s : Store) : Type 0 where
  pub full : (c : ℕ) → c < s.next → Full (s.cargo c) (s.cargo c).amount
  pub known : (c : ℕ) → c < s.next → (r : ℕ) → In r (s.cargo c).requires → r < s.next
  pub apart : (c : ℕ) → c < s.next → Apart (s.cargo c).requires
  pub other : (c : ℕ) → c < s.next → ¬ In c (s.cargo c).requires

-- The cargo of a store with one amount changed is one of these.
same_or_other :
    (Q : Cargo → Type 0) (s : Store) (p q : ℕ) (a : ℤ)
    → (p ≡ q → Q (record (s.cargo p) { amount = a }))
    → Q (s.cargo q)
    → Q ((set_amount s p a).cargo q)
same_or_other Q s p q a h k = elim (Bool-cases (p == q)) [
  | inl e ↦
      let i = (==_iff p q).0 e in
      subst (λ q. Q ((set_amount s p a).cargo q)) i (subst Q (sym (set_amount-same s p a)) (h i))
  | inr e ↦ subst Q (sym (set_amount-other s p q a (λ i. absurd (cc (e, (==_iff p q).1 i))))) k
]

-- What holds of what each cargo requires holds once an amount has changed.
requires-set_amount :
    (s : Store) (p q : ℕ) (a : ℤ) → ((set_amount s p a).cargo q).requires ≡ (s.cargo q).requires
requires-set_amount s p q a =
    same_or_other (λ c. c.requires ≡ (s.cargo q).requires) s p q a
      (λ e. ap (λ n. (s.cargo n).requires) e) refl

set_amount-Stocked :
    (s : Store) (p : ℕ) (a : ℤ) → Stocked s → Full (s.cargo p) a → Stocked (set_amount s p a)
unfolding set_amount
set_amount-Stocked s p a i h =
    let same = λ (c : ℕ). sym (requires-set_amount s p c a) in
    record {
      full = λ c l. same_or_other (λ x. Full x x.amount) s p c a (λ e. h) (i.full c l);
      known = λ c l r k. i.known c l r (subst (In r) (requires-set_amount s p c a) k);
      apart = λ c l. subst Apart (same c) (i.apart c l);
      other = λ c l. subst (λ rs. ¬ In c rs) (same c) (i.other c l);
    }

-- Each of these is allocated and has as much as the change.
abbrev Gives : Store → List ℕ → ℤ → Type 0
Gives s rs change =
    (r : ℕ)
    → In r rs
    → (r < s.next) × (change ≤ℤ (s.cargo r).amount) × (pos 0 -ℤ change ≤ℤ (s.cargo r).amount)

Gives-set_amount :
    (s : Store) (p : ℕ) (a : ℤ) (rs : List ℕ) (change : ℤ)
    → ¬ In p rs
    → Gives s rs change
    → Gives (set_amount s p a) rs change
unfolding set_amount
Gives-set_amount s p a rs change out h r k =
    let (l, lo, hi) = h r k in
    same_or_other (λ x. (r < s.next) × (change ≤ℤ x.amount) × (pos 0 -ℤ change ≤ℤ x.amount)) s p r a
      (λ e. absurd (out (subst (λ n. In n rs) (sym e) k))) (l, lo, hi)

less-Full :
    (c : Cargo) (change : ℤ)
    → Full c c.amount
    → change ≤ℤ c.amount
    → pos 0 -ℤ change ≤ℤ c.amount
    → Full c (if ltb_ℤ change (pos 0) then c.amount +ℤ change else c.amount -ℤ change)
less-Full c change (lo, hi) le ge = (
  ground (arith, +ℤ_parts c.amount change, -ℤ_parts c.amount change, -ℤ_parts (pos 0) change),
  ground (arith, +ℤ_parts c.amount change, -ℤ_parts c.amount change, -ℤ_parts (pos 0) change),
)

-- A store that has these properties and as many cargoes.
abbrev Keeps : Store → Store → Type 0
Keeps s s' = Stocked s' × (s'.next ≡ s.next)

take_all-Keeps :
    (change : ℤ) (rs : List ℕ) (s : Store)
    → Stocked s
    → Apart rs
    → Gives s rs change
    → Keeps s (take_all change rs s)
unfolding take_all set_amount
take_all-Keeps change [] s i a g = (i, refl)
take_all-Keeps change (r ∷ rs) s i (out, a) g =
    let (l, le, ge) = g r (inl refl) in
    let amount =
      if ltb_ℤ change (pos 0) then (s.cargo r).amount +ℤ change else (s.cargo r).amount -ℤ change in
    take_all-Keeps change rs (set_amount s r amount)
      (set_amount-Stocked s r amount i (less-Full (s.cargo r) change (i.full r l) le ge)) a
      (Gives-set_amount s r amount rs change out (λ q k. g q (inr k)))

update_cargo-Keeps :
    (iteration : ℕ) (s : Store) (c : ℕ)
    → Stocked s
    → c < s.next
    → Keeps s (update_cargo iteration s c)
unfolding update_cargo set_amount
update_cargo-Keeps iteration s c i l =
    let cargo = s.cargo c in
    let change = change_of s iteration c in
    let (lo, hi) = i.full c l in
    let (new_lo, new_hi, each) =
      change_of-bounds s iteration c lo hi (λ r k. (i.full r (i.known c l r k)).0) in
    elim (Bool-cases (eqb_ℤ cargo.daily_change (pos 0))) [
      | inl e ↦ rw e (i, refl)
      | inr e ↦ rw e (
          take_all-Keeps change cargo.requires (set_amount s c (cargo.amount +ℤ change))
            (set_amount-Stocked s c (cargo.amount +ℤ change) i (new_lo, new_hi)) (i.apart c l)
            (Gives-set_amount s c (cargo.amount +ℤ change) cargo.requires change (i.other c l)
              (λ r k. (i.known c l r k, (each r k).0, (each r k).1))))
    ]

update_port-Keeps :
    (iteration : ℕ) (s : Store) (items : List ℕ)
    → Stocked s
    → ((c : ℕ) → In c items → c < s.next)
    → Keeps s (update_port iteration s items)
unfolding update_port
update_port-Keeps iteration s [] i h = (i, refl)
update_port-Keeps iteration s (c ∷ items) i h =
    let (i', e) = update_cargo-Keeps iteration s c i (h c (inl refl)) in
    let (i'', e') =
      update_port-Keeps iteration (update_cargo iteration s c) items i'
        (λ q k. subst (λ n. q < n) (sym e) (h q (inr k))) in
    (i'', e' ∙ e)

-- Where the cargo of all ports is between 0 and its maximum, and each requires cargo that exists,
-- none of it twice and not itself, all this holds after a round over the ports.
pub update_all_ports-Stocked :
    (iteration : ℕ) (s : Store) (ports : List (List ℕ))
    → Stocked s
    → ((items : List ℕ) → In items ports → (c : ℕ) → In c items → c < s.next)
    → Stocked (update_all_ports iteration s ports)
unfolding update_all_ports
update_all_ports-Stocked iteration s [] i h = i
update_all_ports-Stocked iteration s (items ∷ ports) i h =
    let (i', e) = update_port-Keeps iteration s items i (h items (inl refl)) in
    update_all_ports-Stocked iteration (update_port iteration s items) ports i'
      (λ q k c m. subst (λ n. c < n) (sym e) (h q (inr k) c m))

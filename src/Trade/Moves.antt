-- ===== src/Trade/Moves.antt =====
-- ship.c: the amounts of cargo under a move.
use yastg.Prelude.{ℕ, true, ◌==◌, ◌≡◌, ◌≢◌, refl, arith, if◌then◌else◌, ok, sym, ◌∙◌, ap}
use yastg.Prelude.Int.{ℤ, pos, ◌+ℤ◌, ◌-ℤ◌, ◌≤ℤ◌, leb_ℤ, min_ℤ, to_int32, int_laws}
use yastg.Trade.Ops.{Store, Cargo, write, set_amount, move_to}

-- `b` is moved from the cargo `c` to the cargo `p`, of the wanted amount as much as there is and fits.
pub record Moved (s s' : Store) (c p : ℕ) (amount b : ℤ) : Type 0 where
  pub from : (s'.cargo c).amount +ℤ b ≡ (s.cargo c).amount
  pub to : (s'.cargo p).amount ≡ (s.cargo p).amount +ℤ b
  pub some_left : pos 0 ≤ℤ (s'.cargo c).amount
  pub fits : (s'.cargo p).amount ≤ℤ (s.cargo p).max
  pub no_less : pos 0 ≤ℤ b
  pub no_more : b ≤ℤ amount
  pub others : (q : ℕ) → q ≢ c → q ≢ p → s'.cargo q ≡ s.cargo q

abbrev shift : Store → ℕ → ℕ → ℤ → Store
shift s c p b =
    let s' = set_amount s c ((s.cargo c).amount -ℤ b) in set_amount s' p ((s'.cargo p).amount +ℤ b)

if_same : {X : Type 0} (p : ℕ) (a b : X) → (if p == p then a else b) ≡ a
if_same p a b = ground arith

if_other : {X : Type 0} (p q : ℕ) (a b : X) → p ≢ q → (if p == q then a else b) ≡ b
if_other p q a b h = ground arith

pub set_amount-same :
    (s : Store) (p : ℕ) (a : ℤ) → (set_amount s p a).cargo p ≡ record (s.cargo p) { amount = a }
unfolding set_amount write
set_amount-same s p a = if_same p _ _

pub set_amount-other :
    (s : Store) (p q : ℕ) (a : ℤ) → p ≢ q → (set_amount s p a).cargo q ≡ s.cargo q
unfolding set_amount write
set_amount-other s p q a h = if_other p q _ _ h

amount-shift :
    (s : Store) (c p : ℕ) (b : ℤ)
    → c ≢ p
    → (((shift s c p b).cargo c).amount ≡ (s.cargo c).amount -ℤ b)
      × (((shift s c p b).cargo p).amount ≡ (s.cargo p).amount +ℤ b)
      × ((q : ℕ) → q ≢ c → q ≢ p → (shift s c p b).cargo q ≡ s.cargo q)
amount-shift s c p b ne =
    let s' = set_amount s c ((s.cargo c).amount -ℤ b) in
    let a = (s'.cargo p).amount +ℤ b in
    (
      ap (λ (x : Cargo). x.amount)
          (set_amount-other s' p c a (λ e. ne (sym e)) ∙ set_amount-same s c _),
      ap (λ (x : Cargo). x.amount) (set_amount-same s' p a)
          ∙ ap (λ (x : Cargo). x.amount +ℤ b) (set_amount-other s c p _ ne),
      λ q nc np.
          set_amount-other s' p q a (λ e. np (sym e)) ∙ set_amount-other s c q _ (λ e. nc (sym e)),
    )

pub min_ℤ-bounds :
    (a b : ℤ) → (min_ℤ a b ≤ℤ a) × (min_ℤ a b ≤ℤ b) × ((c : ℤ) → c ≤ℤ a → c ≤ℤ b → c ≤ℤ min_ℤ a b)
unfolding min_ℤ
min_ℤ-bounds a b = (ground arith, ground arith, λ c h k. ground arith)

-- Of two cargoes the one is moved to the other.
shift-Moved :
    (s : Store) (c p : ℕ) (amount : ℤ)
    → c ≢ p
    → pos 0 ≤ℤ (s.cargo c).amount
    → pos 0 ≤ℤ amount
    → (s.cargo p).amount ≤ℤ (s.cargo p).max
    → let b = min_ℤ (min_ℤ amount (s.cargo c).amount) ((s.cargo p).max -ℤ (s.cargo p).amount) in
      Moved s (shift s c p b) c p amount b
shift-Moved s c p amount ne some_c some_a room =
    let a = min_ℤ amount (s.cargo c).amount in
    let r = (s.cargo p).max -ℤ (s.cargo p).amount in
    let b = min_ℤ a r in
    let (ec, ep, eo) = amount-shift s c p b ne in
    let (la, lc, ga) = min_ℤ-bounds amount (s.cargo c).amount in
    let (lb, lr, gb) = min_ℤ-bounds a r in
    let nn : pos 0 ≤ℤ b = gb (pos 0) (ga (pos 0) some_a some_c) (omega (int_laws, room)) in
    record {
      from = rw (ec) (omega int_laws);
      to = ep;
      some_left = rw (ec) (omega int_laws);
      fits = rw (ep) (omega int_laws);
      no_less = nn;
      no_more = omega int_laws;
      others = eo;
    }

-- Where the cargo of a port is not negative and that of a ship is not above its maximum, moving an
-- amount that is not negative from the one to the other ends without a fault. What one loses the
-- other gains, at most the amount; neither leaves its bounds, and no other cargo changes.
pub move_to-Moved :
    (s : Store) (c p : ℕ) (amount : ℤ)
    → c ≢ p
    → pos 0 ≤ℤ (s.cargo c).amount
    → pos 0 ≤ℤ amount
    → (s.cargo p).amount ≤ℤ (s.cargo p).max
    → (b : ℤ) × (s' : Store) × (move_to s c p amount ≡ ok (to_int32 b, s'))
      × Moved s s' c p amount b
unfolding move_to
move_to-Moved s c p amount ne some_c some_a room = (
  _,
  _,
  rw (leb_true (s.cargo p).amount (s.cargo p).max room, move_to) refl,
  shift-Moved s c p amount ne some_c some_a room,
)
  where
    leb_true : (a b : ℤ) → a ≤ℤ b → leb_ℤ a b ≡ true
    leb_true a b h = ground arith

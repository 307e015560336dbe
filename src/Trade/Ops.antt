-- ===== src/Trade/Ops.antt =====
-- cargo.h, item.h, ship.c: cargo, and its moves between a port and a ship; player.c: `cmd_buy` and
-- `cmd_sell`. A pointer to a `struct cargo` is an index of the store; `long` is an integer, and no sum
-- of the program is known to leave its range unless a lemma says so. Allocations succeed.
use yastg.Prelude.{
  ℕ, ◌+◌, List, [], ◌∷◌, Option, none, some, Bool, not, ◌==◌, if◌then◌else◌, Run, ok, fault,
  assert_failed, ◌>>=◌,
}
use yastg.Prelude.Int.{
  ℤ, pos, negsuc, ◌+ℤ◌, ◌-ℤ◌, ◌*ℤ◌, leb_ℤ, eqb_ℤ, min_ℤ, div_ℤ, to_int32, long_max,
}
use yastg.Common.Ops.{strtol}
use yastg.Cli.Ops.{isspace}
use yastg.Prelude.{list_eq, ◌&&◌}
use yastg.Stringtrie.Node.{Root}
use yastg.Stringtrie.Ops.{st_add_string, st_rm_string, st_lookup_string}
use yastg.Prelude.{false, out_of_bounds}

-- `struct item`
pub record Item : Type 0 where
  pub name : List ℕ
  pub weight : ℤ
  pub base_price : ℤ

-- `struct cargo`; `item` points to an item that nothing changes, `requires` to other cargo.
pub record Cargo : Type 0 where
  pub item : Item
  pub min : ℤ
  pub max : ℤ
  pub amount : ℤ
  pub daily_change : ℤ
  pub price : ℤ
  pub requires : List ℕ

-- The allocated cargo; `next` is where `malloc` puts a new one.
pub record Store : Type 0 where
  pub cargo : ℕ → Cargo
  pub next : ℕ

-- `cargo` and `cargo_names` of `struct ship`, or `items` and `item_names` of `struct port`
pub record Hold : Type 0 where
  pub list : List ℕ
  pub names : Root ℕ

unfoldable pub write : Store → ℕ → Cargo → Store
write s p c = record s { cargo = λ q. if p == q then c else s.cargo q }

unfoldable pub set_amount : Store → ℕ → ℤ → Store
unfolding write
set_amount s p a = write s p (record (s.cargo p) { amount = a })

-- `list_del`
unfoldable list_del : ℕ → List ℕ → List ℕ
list_del p [] = []
list_del p (q ∷ l) = if p == q then l else q ∷ list_del p l

-- `cargo_init`, and the fields that `new_cargo_to_ship` sets
unfoldable pub fresh_cargo : Item → Cargo
fresh_cargo item = record {
  item = item;
  min = pos 0;
  max = long_max;
  amount = pos 0;
  daily_change = pos 0;
  price = pos 0;
  requires = [];
}

-- `new_cargo_to_ship`; `none` is NULL.
unfoldable pub new_cargo_to_ship : Store → Hold → ℕ → Option ℕ × Store × Hold
unfolding write fresh_cargo
new_cargo_to_ship s ship c =
    let item = (s.cargo c).item in
    let p = s.next in
    let (r, names) = st_add_string ship.names (some item.name) (some p) in
    if eqb_ℤ r (pos 0)
    then (
      some p,
      write (record s { next = p + 1 }) p (fresh_cargo item),
      record { list = p ∷ ship.list; names = names },
    )
    else (none, record s { next = p + 1 }, ship)

-- `move_cargo_to_ship` once `ship_cargo` is known
unfoldable pub move_to : Store → ℕ → ℕ → ℤ → Run (ℤ × Store)
unfolding set_amount
move_to s c p amount =
    if leb_ℤ (s.cargo p).amount (s.cargo p).max
    then (let a = min_ℤ amount (s.cargo c).amount in
        let b = min_ℤ a ((s.cargo p).max -ℤ (s.cargo p).amount) in
        let s' = set_amount s c ((s.cargo c).amount -ℤ b) in
        ok (to_int32 b, set_amount s' p ((s'.cargo p).amount +ℤ b)))
    else fault assert_failed

-- `move_cargo_to_ship`
unfoldable pub move_cargo_to_ship : Store → Hold → ℕ → ℤ → Run (ℤ × Store × Hold)
unfolding move_to new_cargo_to_ship
move_cargo_to_ship s ship c amount =
    if leb_ℤ (pos 0) (s.cargo c).amount
    then (do
      found ← st_lookup_string ship.names (some (s.cargo c).item.name)
      elim found [
        | some p ↦ do (r, s') ← move_to s c p amount; ok (r, s', ship)
        | none ↦
            let (made, s', ship') = new_cargo_to_ship s ship c in
            elim made [
              | none ↦ ok (negsuc 0, s', ship')
              | some p ↦ do (r, s'') ← move_to s' c p amount; ok (r, s'', ship')
            ]
      ])
    else fault assert_failed

-- `move_cargo_from_ship`
unfoldable move_cargo_from_ship : Store → Hold → ℕ → ℤ → Run (ℤ × Store × Hold)
unfolding set_amount list_del
move_cargo_from_ship s ship c amount =
    let cargo = s.cargo c in
    if leb_ℤ (pos 0) cargo.amount && leb_ℤ cargo.amount cargo.max
    then (do
      found ← st_lookup_string ship.names (some cargo.item.name)
      elim found [
        | none ↦ fault assert_failed
        | some p ↦
            let a = min_ℤ amount (s.cargo p).amount in
            let b = min_ℤ a (cargo.max -ℤ cargo.amount) in
            let s' = set_amount s p ((s.cargo p).amount -ℤ b) in
            let s'' = set_amount s' c ((s'.cargo c).amount +ℤ b) in
            if eqb_ℤ (s''.cargo p).amount (pos 0)
            then ok (
              to_int32 b,
              s'',
              record {
                list = list_del p ship.list;
                names = (st_rm_string ship.names (some cargo.item.name)).1;
              },
            )
            else ok (to_int32 b, s'', ship)
      ])
    else fault assert_failed

-- What trading changes: the cargo, the ship's hold and the player's credits.
pub record Trader : Type 0 where
  pub store : Store
  pub ship : Hold
  pub credits : ℤ

-- `strchr(input, ' ')`: the text in front of the first space, and what follows it.
unfoldable pub word_before : List ℕ → List ℕ
word_before [] = []
word_before (c ∷ cs) = if c == 32 then [] else c ∷ word_before cs

unfoldable pub after_space : List ℕ → Option (List ℕ)
after_space [] = none
after_space (c ∷ cs) = if c == 32 then some cs else after_space cs

-- `!strcmp(input, "all")`
unfoldable pub is_all : List ℕ → Bool
is_all word = list_eq word (b'a' ∷ b'l' ∷ b'l' ∷ [])

-- `isspace(**name)`
unfoldable pub begins_with_space : List ℕ → Bool
begins_with_space [] = false
begins_with_space (c ∷ cs) = isspace c

-- `parse_buysell_cargo`; `none` is -1. Where the name begins with a space, `name++` moves past the caller's
-- variable.
unfoldable pub parse_buysell_cargo : Option (List ℕ) → Run (Option (ℤ × List ℕ))
unfolding strtol begins_with_space word_before after_space is_all
parse_buysell_cargo none = ok none
parse_buysell_cargo (some input) = elim (after_space input) [
  | none ↦ ok none
  | some name ↦
      let word = word_before input in
      if begins_with_space name
      then fault out_of_bounds
      else if is_all word
      then ok (some (long_max, name))
      else (let (amount, errno, end) = strtol word in
          elim end [
            | [] ↦ if leb_ℤ amount (pos 0) then ok none else ok (some (amount, name))
            | c ∷ cs ↦ ok none
          ])
]

-- `cmd_buy` at the port that the ship is docked at; `items` are the port's `item_names`.
unfoldable pub cmd_buy : Root ℕ → Trader → Option (List ℕ) → Run Trader
unfolding parse_buysell_cargo move_cargo_to_ship
cmd_buy items t param = parse_buysell_cargo param >>= λ parsed. elim parsed [
  | none ↦ ok t
  | some (amount, name) ↦ do
    found ← st_lookup_string items (some name)
    elim found [
      | none ↦ ok t
      | some c ↦
          let price = (t.store.cargo c).price in
          let afford =
            if eqb_ℤ price (pos 0) then amount else min_ℤ amount (div_ℤ t.credits price) in
          if not (eqb_ℤ price (pos 0)) && eqb_ℤ afford (pos 0) then ok t else (do
            (moved, s, ship) ← move_cargo_to_ship t.store t.ship c afford
            ok (record {
              store = s;
              ship = ship;
              credits = t.credits -ℤ moved *ℤ (s.cargo c).price;
            }))
    ]
]

-- `cmd_sell`
unfoldable pub cmd_sell : Root ℕ → Trader → Option (List ℕ) → Run Trader
unfolding parse_buysell_cargo move_cargo_from_ship
cmd_sell items t param = parse_buysell_cargo param >>= λ parsed. elim parsed [
  | none ↦ ok t
  | some (amount, name) ↦ do
    carried ← st_lookup_string t.ship.names (some name)
    elim carried [
      | none ↦ ok t
      | some p ↦ do
        found ← st_lookup_string items (some name)
        elim found [
          | none ↦ ok t
          | some c ↦ do
            (moved, s, ship) ← move_cargo_from_ship t.store t.ship c amount
            ok (record {
              store = s;
              ship = ship;
              credits = t.credits +ℤ moved *ℤ (s.cargo c).price;
            })
        ]
    ]
]

-- ===== src/Config/Items.antt =====
-- item.c: loading items. An item is known by its index. Its weight and price are what `malloc` returns
-- until they are set.
use yastg.Config.Tree.{Config, children_of, key_of, long_of}
use yastg.Prelude.{
  Bool, List, Option, Run, [], false, if◌then◌else◌, none, ok, some, true, ℕ, ◌+◌, ◌==◌, ◌∷◌,
}
use yastg.Prelude.Int.{eqb_ℤ, pos, ℤ}
use yastg.Stringtrie.Node.{Root}
use yastg.Stringtrie.Ops.{st_add_string, st_init, st_lookup_string}
use yastg.Trade.Ops.{Item}
use yastg.Prelude.{◌>>=◌}

pub record Items : Type 0 where
  pub item : ℕ → Item
  pub next : ℕ
  pub list : List ℕ
  pub item_names : Root ℕ

pub data ItemKey : Type 0 where
  set_base_price set_weight : ItemKey

abbrev pub price_key : List ℕ
price_key = b'p' ∷ b'r' ∷ b'i' ∷ b'c' ∷ b'e' ∷ []

abbrev pub weight_key : List ℕ
weight_key = b'w' ∷ b'e' ∷ b'i' ∷ b'g' ∷ b'h' ∷ b't' ∷ []

-- `build_command_tree`; the results of the additions are not looked at.
unfoldable pub item_keys : Root ItemKey
unfolding st_init
item_keys =
    let root = (st_add_string st_init (some price_key) (some set_base_price)).1 in
    (st_add_string root (some weight_key) (some set_weight)).1

unfoldable pub set_item_key : ItemKey → ℤ → Item → Item
set_item_key set_base_price l item = record item { base_price = l }
set_item_key set_weight l item = record item { weight = l }

unfoldable pub write_item : Items → ℕ → Item → Items
write_item s p i = record s { item = λ q. if p == q then i else s.item q }

-- The loop over the keys of an item; false is the jump to `err`.
unfoldable pub load_item_keys : ℕ → List Config → Items → Run (Bool × Items)
unfolding item_keys set_item_key write_item
load_item_keys p [] s = ok (true, s)
load_item_keys p (c ∷ cs) s = do
  f ← st_lookup_string item_keys (some (key_of c))
  elim f [
    | none ↦ ok (false, s)
    | some f ↦ load_item_keys p cs (write_item s p (set_item_key f (long_of c) (s.item p)))
  ]

-- The loop over the file; `junk` is what a fresh item holds.
unfoldable pub load_items : Item → List Config → Items → Run (Bool × Items)
unfolding load_item_keys write_item
load_items junk [] s = ok (true, s)
load_items junk (c ∷ cs) s =
    let p = s.next in
    let made = write_item (record s { next = p + 1 }) p (record junk { name = key_of c }) in
    let (r, names) = st_add_string s.item_names (some (key_of c)) (some p) in
    elim (eqb_ℤ r (pos 0)) [
      | false ↦ ok (false, made)
      | true ↦ do
        (done, s') ← load_item_keys p (children_of c) (record made { item_names = names })
        elim done [
          | false ↦ ok (false, s')
          | true ↦ load_items junk cs (record s' { list = p ∷ s'.list })
        ]
    ]

-- `conf` is what the parser returns, `none` for a failure; false is -1.
unfoldable pub load_items_from_file : Item → Option (List Config) → Items → Run (Bool × Items)
unfolding load_items
load_items_from_file junk none s = ok (false, s)
load_items_from_file junk (some conf) s = load_items junk conf s

-- ===== src/Config/Ports.antt =====
-- port_type.c: loading types of ports. The cargo of a type is in a store, and is known by its index.
use yastg.Config.Items.{Items}
use yastg.Config.Keys.{apply_known, key_tree, set_each}
use yastg.Config.Tree.{Config, children_of, key_of, long_of, str_of}
use yastg.Prelude.{
  Bool, List, Option, Run, [], false, if◌then◌else◌, none, ok, some, true, ℕ, ◌++◌, ◌+◌, ◌==◌,
  ◌>>=◌, ◌∷◌,
}
use yastg.Prelude.Int.{eqb_ℤ, pos, ◌+ℤ◌, ◌-ℤ◌}
use yastg.Stringtrie.Node.{Root}
use yastg.Stringtrie.Ops.{st_add_string, st_init, st_lookup_string}
use yastg.Trade.Ops.{Cargo, Hold, Item, Store, write}

-- `struct port_type`; `zones` are the flags that are set.
pub record PortType : Type 0 where
  pub name : List ℕ
  pub desc : Option (List ℕ)
  pub items : Hold
  pub zones : ℕ → Bool

-- The type that is loaded, with the store that has its cargo.
pub record PortLoad : Type 0 where
  pub type : PortType
  pub store : Store

abbrev port_zone_names : List (List ℕ × ℕ)
port_zone_names =
    (b'o' ∷ b'c' ∷ b'e' ∷ b'a' ∷ b'n' ∷ b'i' ∷ b'c' ∷ [], 0)
    ∷ (b's' ∷ b'u' ∷ b'r' ∷ b'f' ∷ b'a' ∷ b'c' ∷ b'e' ∷ [], 1)
    ∷ (b'o' ∷ b'r' ∷ b'b' ∷ b'i' ∷ b't' ∷ [], 2)
    ∷ (b'r' ∷ b'o' ∷ b'g' ∷ b'u' ∷ b'e' ∷ [], 3)
    ∷ []

unfoldable port_type_init : List ℕ → PortType
unfolding st_init
port_type_init name = record {
  name = name;
  desc = none;
  items = record { list = []; names = st_init };
  zones = λ z. false;
}

unfoldable set_zone : ℕ → PortLoad → PortLoad
set_zone j s = record s {
  type = record (s.type) { zones = λ z. if j == z then true else s.type.zones z };
}

unfoldable add_zone : PortLoad → Config → Run (Bool × PortLoad)
unfolding key_tree set_each set_zone
add_zone s conf = elim (key_tree port_zone_names) [
  | none ↦ ok (false, s)
  | some zone_root ↦ set_each zone_root set_zone (children_of conf) s
]

unfoldable set_port_description : PortLoad → Config → PortLoad
set_port_description s conf = record s {
  type = record (s.type) { desc = some (elim (str_of conf) [ none ↦ [] | some d ↦ d ]) };
}

pub data CargoKey : Type 0 where
  set_item_capacity set_item_produces set_item_consumes set_item_requires : CargoKey

abbrev cargo_key_names : List (List ℕ × CargoKey)
cargo_key_names =
    (b'c' ∷ b'a' ∷ b'p' ∷ b'a' ∷ b'c' ∷ b'i' ∷ b't' ∷ b'y' ∷ [], set_item_capacity)
    ∷ (b'p' ∷ b'r' ∷ b'o' ∷ b'd' ∷ b'u' ∷ b'c' ∷ b'e' ∷ b's' ∷ [], set_item_produces)
    ∷ (b'c' ∷ b'o' ∷ b'n' ∷ b's' ∷ b'u' ∷ b'm' ∷ b'e' ∷ b's' ∷ [], set_item_consumes)
    ∷ (b'r' ∷ b'e' ∷ b'q' ∷ b'u' ∷ b'i' ∷ b'r' ∷ b'e' ∷ b's' ∷ [], set_item_requires)
    ∷ []

-- `build_item_cmdtree`
unfoldable cargo_keys : Option (Root CargoKey)
unfolding key_tree
cargo_keys = key_tree cargo_key_names

-- The functions of the keys of an item, on the cargo `p`; `item_names` are those of the port.
unfoldable set_cargo_key : Root ℕ → ℕ → CargoKey → Store → Config → Run (Bool × Store)
unfolding write
set_cargo_key item_names p set_item_capacity s conf =
    ok (true, write s p (record (s.cargo p) { max = long_of conf }))
set_cargo_key item_names p set_item_produces s conf = ok (
  true,
  write s p (record (s.cargo p) { daily_change = (s.cargo p).daily_change +ℤ long_of conf }),
)
set_cargo_key item_names p set_item_consumes s conf = ok (
  true,
  write s p (record (s.cargo p) { daily_change = (s.cargo p).daily_change -ℤ long_of conf }),
)
set_cargo_key item_names p set_item_requires s conf = do
  req ← st_lookup_string item_names (str_of conf)
  elim req [
    | none ↦ ok (false, s)
    | some r ↦
        ok (true, write s p (record (s.cargo p) { requires = (s.cargo p).requires ++ r ∷ [] }))
  ]

-- The second step for an item.
unfoldable add_item : PortLoad → Config → Run (Bool × PortLoad)
unfolding cargo_keys set_cargo_key apply_known
add_item s conf = elim cargo_keys [
  | none ↦ ok (false, s)
  | some cmd_root ↦ elim (str_of conf) [
    | none ↦ ok (false, s)
    | some name ↦ do
      cargo ← st_lookup_string s.type.items.names (some name)
      elim cargo [
        | none ↦ ok (false, s)
        | some p ↦ do
          store ←
              apply_known cmd_root (set_cargo_key s.type.items.names p) (children_of conf) s.store
          ok (true, record s { store = store })
      ]
  ]
]

-- `cargo_init` and the item
unfoldable cargo_of : Item → Cargo
cargo_of item = record {
  item = item;
  min = pos 0;
  max = pos 0;
  amount = pos 0;
  daily_change = pos 0;
  price = pos 0;
  requires = [];
}

-- The first step for an item: it gets cargo in the type's string tree.
unfoldable pre_add_item : Items → PortLoad → Config → Run (Bool × PortLoad)
unfolding write cargo_of
pre_add_item univ s conf = elim (str_of conf) [
  | none ↦ ok (false, s)
  | some name ↦ do
    found ← st_lookup_string univ.item_names (some name)
    elim found [
      | none ↦ ok (false, s)
      | some i ↦
          let item = univ.item i in
          let p = s.store.next in
          let store = write (record (s.store) { next = p + 1 }) p (cargo_of item) in
          let (r, names) = st_add_string s.type.items.names (some item.name) (some p) in
          elim (eqb_ℤ r (pos 0)) [
            | false ↦ ok (false, record s { store = store })
            | true ↦ ok (
              true,
              record {
                type = record (s.type) {
                  items = record { list = p ∷ s.type.items.list; names = names };
                };
                store = store;
              },
            )
          ]
    ]
]

pub data PortKey : Type 0 where
  port_description port_zones port_item : PortKey

abbrev item_key : List ℕ
item_key = b'i' ∷ b't' ∷ b'e' ∷ b'm' ∷ []

abbrev port_key_names : List (List ℕ × PortKey)
port_key_names =
    (
      b'd' ∷ b'e' ∷ b's' ∷ b'c' ∷ b'r' ∷ b'i' ∷ b'p' ∷ b't' ∷ b'i' ∷ b'o' ∷ b'n' ∷ [],
      port_description,
    )
    ∷ (b'z' ∷ b'o' ∷ b'n' ∷ b'e' ∷ b's' ∷ [], port_zones)
    ∷ (item_key, port_item)
    ∷ []

-- `build_command_tree`
unfoldable port_keys : Option (Root PortKey)
unfolding key_tree
port_keys = key_tree port_key_names

unfoldable set_port_key : Items → PortKey → PortLoad → Config → Run (Bool × PortLoad)
unfolding set_port_description add_zone pre_add_item
set_port_key univ port_description s conf = ok (true, set_port_description s conf)
set_port_key univ port_zones s conf = add_zone s conf
set_port_key univ port_item s conf = pre_add_item univ s conf

-- The first loop over the keys of a type: an unknown key is skipped, a failure is the jump to `err`.
unfoldable first_step : Items → Root PortKey → List Config → PortLoad → Run (Bool × PortLoad)
unfolding set_port_key
first_step univ cmd_root [] s = ok (true, s)
first_step univ cmd_root (c ∷ cs) s = do
  f ← st_lookup_string cmd_root (some (key_of c))
  elim f [
    | none ↦ first_step univ cmd_root cs s
    | some f ↦ do
      (done, s') ← set_port_key univ f s c
      elim done [ false ↦ ok (false, s') | true ↦ first_step univ cmd_root cs s' ]
  ]

-- The second loop, which looks at the items only.
unfoldable second_step : Root (Unit {0}) → List Config → PortLoad → Run (Bool × PortLoad)
unfolding add_item
second_step item_root [] s = ok (true, s)
second_step item_root (c ∷ cs) s = do
  f ← st_lookup_string item_root (some (key_of c))
  elim f [
    | none ↦ second_step item_root cs s
    | some f ↦ do
      (done, s') ← add_item s c
      elim done [ false ↦ ok (false, s') | true ↦ second_step item_root cs s' ]
  ]

-- `port_types` and `port_type_names` of the universe, and the store that has all cargo
pub record PortTypes : Type 0 where
  pub list : List PortType
  pub port_type_names : Root PortType
  pub store : Store

-- The loop over the file.
unfoldable load_ports :
    Items → Root PortKey → Root (Unit {0}) → List Config → PortTypes → Run (Bool × PortTypes)
unfolding first_step second_step port_type_init
load_ports univ cmd_root item_root [] s = ok (true, s)
load_ports univ cmd_root item_root (c ∷ cs) s = do
  (done, p) ←
      first_step univ cmd_root (children_of c)
        (record { type = port_type_init (key_of c); store = s.store })
  elim done [
    | false ↦ ok (false, record s { store = p.store })
    | true ↦ do
      (done, q) ← second_step item_root (children_of c) p
      elim done [
        | false ↦ ok (false, record s { store = q.store })
        | true ↦
            let (r, names) = st_add_string s.port_type_names (some q.type.name) (some q.type) in
            elim (eqb_ℤ r (pos 0)) [
              | false ↦ ok (false, record s { store = q.store })
              | true ↦
                  load_ports univ cmd_root item_root cs
                    (record { list = q.type ∷ s.list; port_type_names = names; store = q.store })
            ]
      ]
  ]

-- What the jump to `err` does to the types that are loaded is left out.
unfoldable load_ports_from_file : Items → Option (List Config) → PortTypes → Run (Bool × PortTypes)
unfolding port_keys key_tree load_ports
load_ports_from_file univ conf s = elim port_keys [
  | none ↦ ok (false, s)
  | some cmd_root ↦ elim (key_tree ((item_key, tt {0}) ∷ [])) [
    | none ↦ ok (false, s)
    | some item_root ↦ elim conf [
      | none ↦ ok (false, s)
      | some conf ↦ load_ports univ cmd_root item_root conf s
    ]
  ]
]

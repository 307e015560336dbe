-- ===== src/Config/Ships.antt =====
-- ship_type.c: loading types of ships.
use yastg.Config.Keys.{apply_known, key_tree}
use yastg.Config.Tree.{Config, children_of, key_of, long_of, str_of}
use yastg.Prelude.{Bool, List, Option, Run, [], false, none, ok, some, true, ℕ, ◌++◌, ◌∷◌}
use yastg.Prelude.Int.{eqb_ℤ, pos, to_int32, ℤ}
use yastg.Stringtrie.Node.{Root}
use yastg.Stringtrie.Ops.{st_add_string}
use yastg.Prelude.{◌>>=◌}

-- `struct ship_type`; `carry_weight` is an `int`.
pub record ShipType : Type 0 where
  pub name : List ℕ
  pub desc : Option (List ℕ)
  pub carry_weight : ℤ

pub record ShipTypes : Type 0 where
  pub list : List ShipType
  pub ship_type_names : Root ShipType

pub data ShipKey : Type 0 where
  set_carry_weight set_description : ShipKey

abbrev pub ship_key_names : List (List ℕ × ShipKey)
ship_key_names =
    (
      b'c' ∷ b'a' ∷ b'r' ∷ b'r' ∷ b'y' ∷ b'w' ∷ b'e' ∷ b'i' ∷ b'g' ∷ b'h' ∷ b't' ∷ [],
      set_carry_weight,
    )
    ∷ (
      b'd' ∷ b'e' ∷ b's' ∷ b'c' ∷ b'r' ∷ b'i' ∷ b'p' ∷ b't' ∷ b'i' ∷ b'o' ∷ b'n' ∷ [],
      set_description,
    )
    ∷ []

-- `build_command_tree`
unfoldable pub ship_keys : Option (Root ShipKey)
unfolding key_tree
ship_keys = key_tree ship_key_names

unfoldable pub set_ship_key : ShipKey → ShipType → Config → Run (Bool × ShipType)
set_ship_key set_carry_weight type conf =
    ok (true, record type { carry_weight = to_int32 (long_of conf) })
set_ship_key set_description type conf = elim (str_of conf) [
  | none ↦ ok (false, type)
  | some s ↦ ok (true, record type { desc = some s })
]

-- The loop over the file; false is the jump to `err`.
unfoldable pub load_ships : Root ShipKey → List Config → ShipTypes → Run (Bool × ShipTypes)
unfolding set_ship_key apply_known
load_ships root [] s = ok (true, s)
load_ships root (c ∷ cs) s = do
  type ←
      apply_known root set_ship_key (children_of c)
        (record { name = key_of c; desc = none; carry_weight = pos 0 })
  let (r, names) = st_add_string s.ship_type_names (some type.name) (some type) in
      elim (eqb_ℤ r (pos 0)) [
        | false ↦ ok (false, s)
        | true ↦ load_ships root cs (record { list = s.list ++ type ∷ []; ship_type_names = names })
      ]

unfoldable pub load_ships_from_file : Option (List Config) → ShipTypes → Run (Bool × ShipTypes)
unfolding ship_keys load_ships
load_ships_from_file conf s = elim ship_keys [
  | none ↦ ok (false, s)
  | some root ↦ elim conf [ none ↦ ok (false, s) | some conf ↦ load_ships root conf s ]
]

-- ===== src/Config/Planets.antt =====
-- planet_type.c: loading types of planets.
use yastg.Common.Ops.{limit_long_to_uint}
use yastg.Config.Keys.{apply_known, key_tree, set_each}
use yastg.Config.Ports.{PortType}
use yastg.Config.Tree.{Config, children_of, key_of, long_of, str_of}
use yastg.Prelude.{
  Bool, List, Option, Run, [], false, get_elem?, if◌then◌else◌, none, ok, some, true, ℕ, ◌++◌, ◌==◌,
  ◌>>=◌, ◌∷◌,
}
use yastg.Prelude.Int.{pos, ℤ}
use yastg.Stringtrie.Node.{Root, put}
use yastg.Stringtrie.Ops.{st_lookup_string}
use yastg.Stringtrie.Values.{value}

-- `struct planet_type`; `zones` are the flags that are set, a zone or a kind of life is its number.
pub record PlanetType : Type 0 where
  pub letter : Option ℕ
  pub name : Option (List ℕ)
  pub desc : Option (List ℕ)
  pub surface : Option (List ℕ)
  pub atmo : Option (List ℕ)
  pub zones : ℕ → Bool
  pub mindia : ℤ
  pub maxdia : ℤ
  pub minlife : ℕ
  pub maxlife : ℕ
  pub port_types : List PortType

abbrev pub planet_life_names : List (List ℕ × ℕ)
planet_life_names =
    (b'T' ∷ b'O' ∷ b'X' ∷ b'I' ∷ b'C' ∷ [], 0)
    ∷ (b'B' ∷ b'A' ∷ b'R' ∷ b'R' ∷ b'E' ∷ b'N' ∷ [], 1)
    ∷ (b'D' ∷ b'E' ∷ b'A' ∷ b'D' ∷ [], 2)
    ∷ (b'S' ∷ b'I' ∷ b'N' ∷ b'G' ∷ b'L' ∷ b'E' ∷ b'C' ∷ b'E' ∷ b'L' ∷ b'L' ∷ [], 3)
    ∷ (b'B' ∷ b'A' ∷ b'C' ∷ b'T' ∷ b'E' ∷ b'R' ∷ b'I' ∷ b'A' ∷ [], 4)
    ∷ (b'S' ∷ b'I' ∷ b'M' ∷ b'P' ∷ b'L' ∷ b'E' ∷ [], 5)
    ∷ (b'R' ∷ b'E' ∷ b'S' ∷ b'I' ∷ b'S' ∷ b'T' ∷ b'A' ∷ b'N' ∷ b'T' ∷ [], 6)
    ∷ (b'C' ∷ b'O' ∷ b'M' ∷ b'P' ∷ b'L' ∷ b'E' ∷ b'X' ∷ [], 7)
    ∷ (b'A' ∷ b'N' ∷ b'I' ∷ b'M' ∷ b'A' ∷ b'L' ∷ [], 8)
    ∷ (b'I' ∷ b'N' ∷ b'T' ∷ b'E' ∷ b'L' ∷ b'L' ∷ b'I' ∷ b'G' ∷ b'E' ∷ b'N' ∷ b'T' ∷ [], 9)
    ∷ []

abbrev pub planet_zone_names : List (List ℕ × ℕ)
planet_zone_names =
    (b'H' ∷ b'O' ∷ b'T' ∷ [], 0)
    ∷ (b'E' ∷ b'C' ∷ b'O' ∷ [], 1)
    ∷ (b'C' ∷ b'O' ∷ b'L' ∷ b'D' ∷ [], 2)
    ∷ []

pub data PlanetKey : Type 0 where
  set_atmosphere set_port_types set_planet_description set_maximum_diameter set_maximum_life
        set_minimum_diameter set_minimum_life set_name set_surface set_zones :
      PlanetKey

abbrev pub planet_key_names : List (List ℕ × PlanetKey)
planet_key_names =
    (b'a' ∷ b't' ∷ b'm' ∷ b'o' ∷ b's' ∷ b'p' ∷ b'h' ∷ b'e' ∷ b'r' ∷ b'e' ∷ [], set_atmosphere)
    ∷ (b'p' ∷ b'o' ∷ b'r' ∷ b't' ∷ b's' ∷ [], set_port_types)
    ∷ (
      b'd' ∷ b'e' ∷ b's' ∷ b'c' ∷ b'r' ∷ b'i' ∷ b'p' ∷ b't' ∷ b'i' ∷ b'o' ∷ b'n' ∷ [],
      set_planet_description,
    )
    ∷ (
      b'm' ∷ b'a' ∷ b'x' ∷ b'd' ∷ b'i' ∷ b'a' ∷ b'm' ∷ b'e' ∷ b't' ∷ b'e' ∷ b'r' ∷ [],
      set_maximum_diameter,
    )
    ∷ (b'm' ∷ b'a' ∷ b'x' ∷ b'l' ∷ b'i' ∷ b'f' ∷ b'e' ∷ [], set_maximum_life)
    ∷ (
      b'm' ∷ b'i' ∷ b'n' ∷ b'd' ∷ b'i' ∷ b'a' ∷ b'm' ∷ b'e' ∷ b't' ∷ b'e' ∷ b'r' ∷ [],
      set_minimum_diameter,
    )
    ∷ (b'm' ∷ b'i' ∷ b'n' ∷ b'l' ∷ b'i' ∷ b'f' ∷ b'e' ∷ [], set_minimum_life)
    ∷ (b'n' ∷ b'a' ∷ b'm' ∷ b'e' ∷ [], set_name)
    ∷ (b's' ∷ b'u' ∷ b'r' ∷ b'f' ∷ b'a' ∷ b'c' ∷ b'e' ∷ [], set_surface)
    ∷ (b'z' ∷ b'o' ∷ b'n' ∷ b'e' ∷ b's' ∷ [], set_zones)
    ∷ []

-- `build_command_tree`
unfoldable pub planet_keys : Option (Root PlanetKey)
unfolding key_tree
planet_keys = key_tree planet_key_names

-- The first character of the key; `none` is the NUL of an empty key.
unfoldable pub planet_type_init : List ℕ → PlanetType
planet_type_init key = record {
  letter = get_elem? key 0;
  name = none;
  desc = none;
  surface = none;
  atmo = none;
  zones = λ z. false;
  mindia = pos 0;
  maxdia = pos 0;
  minlife = 0;
  maxlife = 0;
  port_types = [];
}

-- `set_life`: the number of the life, `none` is -1.
unfoldable pub set_life : Option (List ℕ) → Run (Option ℕ)
unfolding key_tree
set_life none = ok none
set_life (some value) = elim (key_tree planet_life_names) [
  | none ↦ ok none
  | some life_root ↦ st_lookup_string life_root (some value)
]

unfoldable pub push_port_type : PortType → PlanetType → PlanetType
push_port_type port type = record type { port_types = type.port_types ++ port ∷ [] }

unfoldable pub set_planet_zone : ℕ → PlanetType → PlanetType
set_planet_zone j type = record type { zones = λ z. if j == z then true else type.zones z }

-- A key that needs a string; false where it has none.
unfoldable pub with_str : Config → PlanetType → (List ℕ → PlanetType) → Run (Bool × PlanetType)
with_str conf type put = elim (str_of conf) [ none ↦ ok (false, type) | some s ↦ ok (true, put s) ]

-- A key that needs the name of a life.
unfoldable pub with_life : Config → PlanetType → (ℕ → PlanetType) → Run (Bool × PlanetType)
unfolding set_life
with_life conf type put = do
  life ← set_life (str_of conf)
  ok (elim life [ none ↦ (false, type) | some j ↦ (true, put j) ])

-- The functions of the keys; `port_type_names` are those of the universe.
unfoldable pub set_planet_key :
    Root PortType → PlanetKey → PlanetType → Config → Run (Bool × PlanetType)
unfolding with_str with_life set_each push_port_type set_planet_zone key_tree limit_long_to_uint
set_planet_key ports set_atmosphere type conf =
    with_str conf type (λ s. record type { atmo = some s })
set_planet_key ports set_port_types type conf =
    set_each ports push_port_type (children_of conf) type
set_planet_key ports set_planet_description type conf =
    with_str conf type (λ s. record type { desc = some s })
set_planet_key ports set_maximum_diameter type conf =
    ok (true, record type { maxdia = limit_long_to_uint (long_of conf) })
set_planet_key ports set_maximum_life type conf =
    with_life conf type (λ j. record type { maxlife = j })
set_planet_key ports set_minimum_diameter type conf =
    ok (true, record type { mindia = limit_long_to_uint (long_of conf) })
set_planet_key ports set_minimum_life type conf =
    with_life conf type (λ j. record type { minlife = j })
set_planet_key ports set_name type conf = with_str conf type (λ s. record type { name = some s })
set_planet_key ports set_surface type conf =
    with_str conf type (λ s. record type { surface = some s })
set_planet_key ports set_zones type conf = elim (key_tree planet_zone_names) [
  | none ↦ ok (false, type)
  | some zone_root ↦ set_each zone_root set_planet_zone (children_of conf) type
]

-- The loop over the file, which fails only where memory runs out.
unfoldable pub load_planets :
    Root PortType → Root PlanetKey → List Config → List PlanetType → Run (List PlanetType)
unfolding set_planet_key apply_known planet_type_init
load_planets ports root [] types = ok types
load_planets ports root (c ∷ cs) types = do
  type ← apply_known root (set_planet_key ports) (children_of c) (planet_type_init (key_of c))
  load_planets ports root cs (types ++ type ∷ [])

-- False is -1.
unfoldable pub load_planets_from_file :
    Root PortType → Option (List Config) → List PlanetType → Run (Bool × List PlanetType)
unfolding planet_keys load_planets
load_planets_from_file ports conf types = elim planet_keys [
  | none ↦ ok (false, types)
  | some root ↦ elim conf [
    | none ↦ ok (false, types)
    | some conf ↦ do types' ← load_planets ports root conf types; ok (true, types')
  ]
]

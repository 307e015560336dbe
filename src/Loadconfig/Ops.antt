-- ===== src/Loadconfig/Ops.antt =====
-- loadconfig.c: which files are loaded. The search for files is a parameter, and what the parser returns
-- is an argument.
use yastg.Config.Keys.{key_tree}
use yastg.Config.Tree.{Config, key_of, str_of}
use yastg.Prelude.{
  Bool, List, Option, Run, [], assert_failed, false, fault, if◌then◌else◌, none, ok, some, suc,
  true, zero, ℕ, ◌++◌, ◌==◌, ◌>>=◌, ◌∷◌,
}
use yastg.Stringtrie.Node.{Root}
use yastg.Stringtrie.Ops.{st_lookup_string}
use yastg.Config.Items.{Items}
use yastg.Config.Planets.{PlanetType}
use yastg.Config.Ports.{PortTypes}
use yastg.Config.Ships.{ShipTypes}
use yastg.Prelude.{not, ◌&&◌}
use yastg.Stringtrie.Ops.{st_is_empty}
use yastg.Config.Civs.{Civ}
use yastg.Names.Ops.{NameList, is_names_loaded}

-- `key` and the file names at `head` of `struct config_type`; the functions are known by the key.
pub record ConfigType : Type 0 where
  pub key : List ℕ
  pub files : List (List ℕ)

-- `configs[i]`: a name is added at the end of its list.
unfoldable add_file : ℕ → List ℕ → List ConfigType → List ConfigType
add_file i file [] = []
add_file zero file (c ∷ cs) = record c { files = c.files ++ file ∷ [] } ∷ cs
add_file (suc i) file (c ∷ cs) = c ∷ add_file i file cs

-- The names with their indices.
abbrev indexed : ℕ → List ConfigType → List (List ℕ × ℕ)
indexed i [] = []
indexed i (c ∷ cs) = (c.key, i) ∷ indexed (suc i) cs

abbrev config_prefix : List ℕ
config_prefix = b'y' ∷ b'a' ∷ b's' ∷ b't' ∷ b'g' ∷ b'/' ∷ []

-- `xdgConfigFind` returns an empty string where there is no file.
module _ (xdgConfigFind : List ℕ → List ℕ) where
  unfoldable get_conf_file : List ℕ → Option (List ℕ)
  get_conf_file [] = none
  get_conf_file (c ∷ cs) = elim (xdgConfigFind (config_prefix ++ c ∷ cs)) [
    | [] ↦ none
    | d ∷ ds ↦ some (d ∷ ds)
  ]

  -- The loop: what is not known, has no name or is not found is skipped.
  unfoldable list_files : Root ℕ → List Config → List ConfigType → Run (List ConfigType)
  unfolding get_conf_file add_file
  list_files root [] configs = ok configs
  list_files root (conf ∷ cs) configs = do
    head ← st_lookup_string root (some (key_of conf))
    elim head [
      | none ↦ list_files root cs configs
      | some i ↦ elim (str_of conf) [
        | none ↦ list_files root cs configs
        | some name ↦ elim (get_conf_file name) [
          | none ↦ list_files root cs configs
          | some file ↦ list_files root cs (add_file i file configs)
        ]
      ]
    ]

  -- False is -1.
  unfoldable build_list_of_file_names : List Config → List ConfigType → Run (Bool × List ConfigType)
  unfolding list_files key_tree
  build_list_of_file_names conf_root configs = elim (key_tree (indexed 0 configs)) [
    | none ↦ ok (false, configs)
    | some root ↦ do configs' ← list_files root conf_root configs; ok (true, configs')
  ]

-- The functions are a parameter, `none` where a kind of file has none; false is the end at an error.
module _ {U : Type 0} (func : List ℕ → Option (List ℕ → U → Run (Bool × U))) where
  unfoldable load_files : (List ℕ → U → Run (Bool × U)) → List (List ℕ) → U → Run (Bool × U)
  load_files load [] u = ok (true, u)
  load_files load (f ∷ fs) u = do
    (done, u') ← load f u
    elim done [ false ↦ ok (false, u') | true ↦ load_files load fs u' ]

  unfoldable do_load_from_files : List ConfigType → U → Run (Bool × U)
  unfolding load_files
  do_load_from_files [] u = ok (true, u)
  do_load_from_files (c ∷ cs) u = elim (func c.key) [
    | none ↦ do_load_from_files cs u
    | some load ↦ do
      (done, u') ← load_files load c.files u
      elim done [ false ↦ ok (false, u') | true ↦ do_load_from_files cs u' ]
  ]

-- The string of each variable of `load_names_from_files`, by its place in `key_vals`.
abbrev Vals : Type 0
Vals = ℕ → Option (List ℕ)

abbrev name_keys : List (List ℕ × ℕ)
name_keys =
    (
      b'c' ∷ b'o' ∷ b'n' ∷ b's' ∷ b't' ∷ b'e' ∷ b'l' ∷ b'l' ∷ b'a' ∷ b't' ∷ b'i' ∷ b'o' ∷ b'n'
          ∷ b's' ∷ [],
      0,
    )
    ∷ (b'f' ∷ b'i' ∷ b'r' ∷ b's' ∷ b't' ∷ b'n' ∷ b'a' ∷ b'm' ∷ b'e' ∷ b's' ∷ [], 1)
    ∷ (b's' ∷ b'u' ∷ b'r' ∷ b'n' ∷ b'a' ∷ b'm' ∷ b'e' ∷ b's' ∷ [], 2)
    ∷ (b'p' ∷ b'l' ∷ b'a' ∷ b'c' ∷ b'e' ∷ b'n' ∷ b'a' ∷ b'm' ∷ b'e' ∷ b's' ∷ [], 3)
    ∷ (b'p' ∷ b'l' ∷ b'a' ∷ b'c' ∷ b'e' ∷ b'p' ∷ b'r' ∷ b'e' ∷ b'f' ∷ b'i' ∷ b'x' ∷ [], 4)
    ∷ (b'p' ∷ b'l' ∷ b'a' ∷ b'c' ∷ b'e' ∷ b's' ∷ b'u' ∷ b'f' ∷ b'f' ∷ b'i' ∷ b'x' ∷ [], 5)
    ∷ []

unfoldable pub set_val : ℕ → List ℕ → Vals → Vals
set_val j file vals k = if j == k then some file else vals k

-- The loop: the first file of each kind that has names.
unfoldable pub first_files : Root ℕ → List ConfigType → Vals → Run Vals
unfolding set_val
first_files root [] vals = ok vals
first_files root (c ∷ cs) vals = do
  s ← st_lookup_string root (some c.key)
  elim s [
    | none ↦ first_files root cs vals
    | some j ↦ elim c.files [
      | [] ↦ fault assert_failed
      | f ∷ fs ↦ first_files root cs (set_val j f vals)
    ]
  ]

-- A call of `names_load`: the list of names that it is for, and the files.
pub data NameLists : Type 0 where
  avail_constellations avail_player_names avail_port_names : NameLists

pub record NamesLoad : Type 0 where
  pub list : NameLists
  pub prefix : Option (List ℕ)
  pub first : Option (List ℕ)
  pub second : Option (List ℕ)
  pub suffix : Option (List ℕ)

-- The calls that are made: a group of names is loaded only if it is whole.
unfoldable pub names_calls : Vals → List NamesLoad
names_calls v =
    (elim (v 0) [
      | none ↦ []
      | some c ↦
          record {
            list = avail_constellations;
            prefix = none;
            first = some c;
            second = none;
            suffix = none;
          }
          ∷ []
    ])
    ++ (elim (v 1) [
      | none ↦ []
      | some f ↦ elim (v 2) [
        | none ↦ []
        | some s ↦
            record {
              list = avail_player_names;
              prefix = none;
              first = some f;
              second = some s;
              suffix = none;
            }
            ∷ []
      ]
    ])
    ++ (elim (v 3) [
      | none ↦ []
      | some p ↦ elim (v 4) [
        | none ↦ []
        | some x ↦ elim (v 5) [
          | none ↦ []
          | some y ↦
              record {
                list = avail_port_names;
                prefix = some x;
                first = some p;
                second = none;
                suffix = some y;
              }
              ∷ []
        ]
      ]
    ])

-- `none` is -1.
unfoldable pub load_names_from_files : List ConfigType → Run (Option (List NamesLoad))
unfolding key_tree first_files names_calls
load_names_from_files configs = elim (key_tree name_keys) [
  | none ↦ ok none
  | some root ↦ do v ← first_files root configs (λ j. none); ok (some (names_calls v))
]

abbrev pub config_keys : List (List ℕ)
config_keys =
    (b'c' ∷ b'i' ∷ b'v' ∷ b'i' ∷ b'l' ∷ b'i' ∷ b'z' ∷ b'a' ∷ b't' ∷ b'i' ∷ b'o' ∷ b'n' ∷ b's' ∷ [])
    ∷ (b'c' ∷ b'o' ∷ b'n' ∷ b's' ∷ b't' ∷ b'e' ∷ b'l' ∷ b'l' ∷ b'a' ∷ b't' ∷ b'i' ∷ b'o' ∷ b'n'
        ∷ b's' ∷ [])
    ∷ (b'f' ∷ b'i' ∷ b'r' ∷ b's' ∷ b't' ∷ b'n' ∷ b'a' ∷ b'm' ∷ b'e' ∷ b's' ∷ [])
    ∷ (b's' ∷ b'u' ∷ b'r' ∷ b'n' ∷ b'a' ∷ b'm' ∷ b'e' ∷ b's' ∷ [])
    ∷ (b'p' ∷ b'l' ∷ b'a' ∷ b'c' ∷ b'e' ∷ b'n' ∷ b'a' ∷ b'm' ∷ b'e' ∷ b's' ∷ [])
    ∷ (b'p' ∷ b'l' ∷ b'a' ∷ b'c' ∷ b'e' ∷ b'p' ∷ b'r' ∷ b'e' ∷ b'f' ∷ b'i' ∷ b'x' ∷ [])
    ∷ (b'p' ∷ b'l' ∷ b'a' ∷ b'c' ∷ b'e' ∷ b's' ∷ b'u' ∷ b'f' ∷ b'f' ∷ b'i' ∷ b'x' ∷ [])
    ∷ (b'i' ∷ b't' ∷ b'e' ∷ b'm' ∷ b's' ∷ [])
    ∷ (b's' ∷ b'h' ∷ b'i' ∷ b'p' ∷ b's' ∷ [])
    ∷ (b'p' ∷ b'o' ∷ b'r' ∷ b't' ∷ b's' ∷ [])
    ∷ (b'p' ∷ b'l' ∷ b'a' ∷ b'n' ∷ b'e' ∷ b't' ∷ b's' ∷ [])
    ∷ []

-- Each kind of file with the names that are given for it.
abbrev pub with_files : List (List ℕ) → List (List (List ℕ)) → List ConfigType
with_files [] files = []
with_files (k ∷ ks) [] = record { key = k; files = [] } ∷ with_files ks []
with_files (k ∷ ks) (f ∷ fs) = record { key = k; files = f } ∷ with_files ks fs

module _ {U : Type 0} (func : List ℕ → Option (List ℕ → U → Run (Bool × U)))
    (xdgConfigFind : List ℕ → List ℕ) where
  -- `none` in place of the calls is the end at an error.
  unfoldable load_config : List Config → U → Run (Option (List NamesLoad) × U)
  unfolding build_list_of_file_names do_load_from_files load_names_from_files
  load_config config_root u = do
    (built, configs) ←
        build_list_of_file_names xdgConfigFind config_root (with_files config_keys [])
    elim built [
      | false ↦ ok (none, u)
      | true ↦ do
        (loaded, u') ← do_load_from_files func configs u
        elim loaded [
          | false ↦ ok (none, u')
          | true ↦ do calls ← load_names_from_files configs; ok (calls, u')
        ]
    ]

-- The lists and the string trees that `is_config_sane` looks at.
pub record Loaded : Type 0 where
  pub items : Items
  pub ports : PortTypes
  pub planet_types : List PlanetType
  pub ships : ShipTypes
  pub civs : List Civ
  pub constellations : NameList
  pub port_names : NameList
  pub player_names : NameList

abbrev pub list_empty : {A : Type 0} → List A → Bool
list_empty [] = true
list_empty (x ∷ xs) = false

-- A list, and the tree that is asserted not to be empty where the list is not.
unfoldable pub is_listed : {A B : Type 0} → List A → Root B → Run Bool
unfolding st_is_empty
is_listed xs names = elim (list_empty xs) [
  | true ↦ ok false
  | false ↦ elim (st_is_empty names) [ true ↦ fault assert_failed | false ↦ ok true ]
]

unfoldable pub is_config_sane : Loaded → Run Bool
unfolding is_listed is_names_loaded
is_config_sane u = do
  items ← is_listed u.items.list u.items.item_names
  ports ← is_listed u.ports.list u.ports.port_type_names
  let planets = not (list_empty u.planet_types) in
      do
        ships ← is_listed u.ships.list u.ships.ship_type_names
        ok (
            items
            && ports
            && planets
            && ships
            && not (list_empty u.civs)
            && is_names_loaded u.constellations
            && is_names_loaded u.port_names
            && is_names_loaded u.player_names)

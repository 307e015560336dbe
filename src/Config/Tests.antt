-- ===== src/Config/Tests.antt =====
-- Configurations that are loaded.
use yastg.Config.Index.{st_init-IsIndexed}
use yastg.Config.Keys.{add_keys, apply_known, key_tree}
use yastg.Config.Life.{FileLoaded, load_planets_from_file-Loaded}
use yastg.Config.Loading.{ShipsIndexed, ShipsLoaded, load_ships_from_file-Parsed}
use yastg.Config.Planets.{load_planets_from_file}
use yastg.Config.Ports.{PortType}
use yastg.Config.Ships.{ShipTypes, load_ships, load_ships_from_file, set_ship_key, ship_keys}
use yastg.Config.Tree.{Config, config, no_more}
use yastg.Prelude.{List, Returns, [], map, none, some, true, ℕ, ◌∷◌, ◌≡◌}
use yastg.Prelude.Int.{pos, to_int32}
use yastg.Stringtrie.Live.{IsLive}
use yastg.Stringtrie.Node.{empty_root}
use yastg.Stringtrie.Ops.{st_add_string, st_init, st_lookup_string}
use yastg.Config.Tree.{more}
use yastg.Prelude.{refl}
use yastg.Stringtrie.Chars.{crunch, get_char_lsb, get_char_msb}
use yastg.Stringtrie.Ops.{add_path, find_node, get_the_only_child, is_lsb_free, is_msb_free, walk}
use yastg.Stringtrie.Ops.{is_free, scan}
use yastg.Config.ItemLoading.{AreItems, FileItems, item_name, load_items_from_file-FileItems}
use yastg.Config.Items.{
  Items, item_keys, load_item_keys, load_items, load_items_from_file, set_item_key, write_item,
}
use yastg.Trade.Ops.{Item}

abbrev carry_weight_key : List ℕ
carry_weight_key = b'c' ∷ b'a' ∷ b'r' ∷ b'r' ∷ b'y' ∷ []

abbrev life_key : List ℕ
life_key = b'm' ∷ b'a' ∷ b'x' ∷ b'l' ∷ []

-- A ship with an abbreviated key, an unknown one and a description without text; and another ship.
abbrev ships_file : List Config
ships_file =
    config (b's' ∷ b'h' ∷ b'i' ∷ b'p' ∷ []) none (pos 0) (
      more (config carry_weight_key none (pos 40) no_more) (
        more (config (b'z' ∷ []) none (pos 1) no_more)
          (more (config (b'd' ∷ b'e' ∷ []) none (pos 0) no_more) no_more)))
    ∷ config (b't' ∷ b'u' ∷ b'g' ∷ []) none (pos 0) no_more
    ∷ []

abbrev no_ships : ShipTypes
no_ships = record { list = []; ship_type_names = empty_root }

no_ships-IsIndexed : ShipsIndexed no_ships
unfolding st_init
no_ships-IsIndexed = st_init-IsIndexed (λ t. t.name)

load_ships_from_file-Parsed_example :
    Returns
      (ShipsLoaded no_ships (some ships_file))
      (load_ships_from_file (some ships_file) no_ships)
load_ships_from_file-Parsed_example =
    load_ships_from_file-Parsed (some ships_file) no_ships no_ships-IsIndexed

two_ships :
    Returns
      (λ r. (r.0 ≡ true) × (map (λ t. t.carry_weight) r.1.list ≡ pos 40 ∷ pos 0 ∷ []))
      (load_ships_from_file (some ships_file) no_ships)
unfolding load_ships_from_file load_ships ship_keys key_tree add_keys apply_known set_ship_key
    st_add_string st_lookup_string st_init to_int32 add_path walk find_node scan is_free crunch
    get_char_msb get_char_lsb get_the_only_child is_msb_free is_lsb_free
two_ships = (refl, refl)

abbrev planets_file : List Config
planets_file =
    config (b'M' ∷ []) none (pos 0)
      (more (config life_key (some (b'S' ∷ b'I' ∷ b'M' ∷ [])) (pos 0) no_more) no_more)
    ∷ []

load_planets_from_file-Loaded_example :
    Returns
      (FileLoaded [] (some planets_file))
      (load_planets_from_file empty_root (some planets_file) [])
load_planets_from_file-Loaded_example =
    load_planets_from_file-Loaded empty_root (some planets_file) [] empty (λ type. absurd)
  where
    empty : IsLive {A = PortType} empty_root
    empty i h = tt

abbrev items_file : List Config
items_file =
    config (b'o' ∷ b'r' ∷ b'e' ∷ []) none (pos 0)
      (more (config (b'p' ∷ b'r' ∷ []) none (pos 12) no_more) no_more)
    ∷ config (b't' ∷ b'e' ∷ b'a' ∷ []) none (pos 0) no_more
    ∷ []

abbrev blank : Item
blank = record { name = []; weight = pos 0; base_price = pos 0 }

abbrev no_items : Items
no_items = record { item = λ p. blank; next = 0; list = []; item_names = st_init }

no_items-AreItems : AreItems no_items
no_items-AreItems = record { indexed = st_init-IsIndexed (item_name no_items); made = λ p. absurd }

load_items_from_file-FileItems_example :
    Returns
      (FileItems no_items (some items_file))
      (load_items_from_file blank (some items_file) no_items)
load_items_from_file-FileItems_example =
    load_items_from_file-FileItems blank (some items_file) no_items no_items-AreItems

two_items :
    Returns
      (λ r.
        (r.0 ≡ true)
        × (map (item_name r.1) r.1.list
            ≡ (b't' ∷ b'e' ∷ b'a' ∷ []) ∷ (b'o' ∷ b'r' ∷ b'e' ∷ []) ∷ []))
      (load_items_from_file blank (some items_file) no_items)
unfolding load_items_from_file load_items load_item_keys item_keys set_item_key write_item
    st_add_string st_lookup_string st_init add_path walk find_node scan is_free crunch get_char_msb
    get_char_lsb get_the_only_child is_msb_free is_lsb_free
two_items = (refl, refl)

-- ===== src/Loadconfig/Tests.antt =====
-- A configuration with names, and one without the names of players.
use yastg.Config.Index.{st_add_string-IsIndexed, st_init-IsIndexed}
use yastg.Config.Ships.{ShipType}
use yastg.Loadconfig.Needed.{load_names_from_files-needed}
use yastg.Loadconfig.Ops.{Loaded, config_keys, is_config_sane, load_names_from_files, with_files}
use yastg.Loadconfig.Sane.{IsLoaded, is_config_sane-IsLoaded, nothing_missing}
use yastg.Names.Ops.{NameList}
use yastg.Prelude.{List, [], assert_failed, fault, inl, inr, none, ok, refl, some, sym, ℕ, ◌∷◌, ◌≡◌}
use yastg.Prelude.Int.{pos}
use yastg.Stringtrie.Node.{empty_root}
use yastg.Stringtrie.Ops.{st_add_string, st_init}

abbrev file : List (List ℕ)
file = (b'f' ∷ []) ∷ []

load_names_from_files-needed_example :
    load_names_from_files (
      with_files config_keys
        (file ∷ file ∷ [] ∷ file ∷ file ∷ file ∷ file ∷ file ∷ file ∷ file ∷ file ∷ []))
    ≡ fault assert_failed
load_names_from_files-needed_example =
    load_names_from_files-needed file file [] file file file file file file file file

abbrev no_names : NameList
no_names = record {
  taken = empty_root;
  prefix = record { array = []; alloc = 0 };
  first = record { array = []; alloc = 0 };
  second = record { array = []; alloc = 0 };
  suffix = record { array = []; alloc = 0 };
}

abbrev tug : ShipType
tug = record { name = b't' ∷ b'u' ∷ b'g' ∷ []; desc = none; carry_weight = pos 4 }

abbrev loaded : Loaded
loaded = record {
  items = record {
    item = λ p. record { name = []; weight = pos 0; base_price = pos 0 };
    next = 0;
    list = [];
    item_names = st_init;
  };
  ports = record {
    list = [];
    port_type_names = st_init;
    store = record {
      cargo = λ p. record {
        item = record { name = []; weight = pos 0; base_price = pos 0 };
        min = pos 0;
        max = pos 0;
        amount = pos 0;
        daily_change = pos 0;
        price = pos 0;
        requires = [];
      };
      next = 0;
    };
  };
  planet_types = [];
  ships = record {
    list = tug ∷ [];
    ship_type_names = (st_add_string st_init (some tug.name) (some tug)).1;
  };
  civs = [];
  constellations = no_names;
  port_names = no_names;
  player_names = no_names;
}

loaded-IsLoaded : IsLoaded loaded
unfolding st_add_string
loaded-IsLoaded = record {
  items = st_init-IsIndexed _;
  ports = st_init-IsIndexed _;
  ships =
      st_add_string-IsIndexed (λ t. t.name) [] (tug ∷ []) st_init tug
        (st_init-IsIndexed (λ t. t.name)) refl
        (λ y. (
          elim [ inl e ↦ inl (sym e) | inr k ↦ inr k ],
          elim [ inl e ↦ inl (sym e) | inr k ↦ inr k ],
        ));
}

is_config_sane-IsLoaded_example : is_config_sane loaded ≡ ok (nothing_missing loaded)
is_config_sane-IsLoaded_example = is_config_sane-IsLoaded loaded loaded-IsLoaded

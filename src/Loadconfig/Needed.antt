-- ===== src/Loadconfig/Needed.antt =====
-- loadconfig.c: which names the configuration has to give.
use yastg.Config.Keys.{add_keys, key_tree}
use yastg.Loadconfig.Ops.{
  NamesLoad, avail_constellations, avail_player_names, avail_port_names, config_keys, first_files,
  load_names_from_files, names_calls, set_val, with_files,
}
use yastg.Prelude.{List, Option, Run, [], assert_failed, fault, none, ok, refl, some, ℕ, ◌∷◌, ◌≡◌}
use yastg.Stringtrie.Chars.{crunch, get_char_lsb, get_char_msb}
use yastg.Stringtrie.Ops.{
  add_path, find_node, get_the_only_child, is_free, is_lsb_free, is_msb_free, scan, st_add_string,
  st_init, st_lookup_string, walk,
}

-- The calls of `names_load`, from the files of the six kinds of names.
abbrev needed :
    List (List ℕ)
    → List (List ℕ)
    → List (List ℕ)
    → List (List ℕ)
    → List (List ℕ)
    → List (List ℕ)
    → Run (Option (List NamesLoad))
needed (c ∷ cs) (f ∷ fs) (s ∷ ss) (p ∷ ps) (x ∷ xs) (y ∷ ys) = ok (
    some (
      record {
        list = avail_constellations;
        prefix = none;
        first = some c;
        second = none;
        suffix = none;
      }
      ∷ record {
        list = avail_player_names;
        prefix = none;
        first = some f;
        second = some s;
        suffix = none;
      }
      ∷ record {
        list = avail_port_names;
        prefix = some x;
        first = some p;
        second = none;
        suffix = some y;
      }
      ∷ []))
needed [] firsts surs places prefixes suffixes = fault assert_failed
needed (c ∷ cs) [] surs places prefixes suffixes = fault assert_failed
needed (c ∷ cs) (f ∷ fs) [] places prefixes suffixes = fault assert_failed
needed (c ∷ cs) (f ∷ fs) (s ∷ ss) [] prefixes suffixes = fault assert_failed
needed (c ∷ cs) (f ∷ fs) (s ∷ ss) (p ∷ ps) [] suffixes = fault assert_failed
needed (c ∷ cs) (f ∷ fs) (s ∷ ss) (p ∷ ps) (x ∷ xs) [] = fault assert_failed

-- load_names_from_files fails its assertion if any of the six kinds of names has no file. Else it
-- loads all three lists of names, each from the first files of its kinds.
pub load_names_from_files-needed :
    (civs constellations firsts surs places prefixes suffixes items ships ports planets : List
      (List ℕ))
    → load_names_from_files (
        with_files config_keys (
          civs ∷ constellations ∷ firsts ∷ surs ∷ places ∷ prefixes ∷ suffixes ∷ items ∷ ships
          ∷ ports ∷ planets ∷ []))
      ≡ needed constellations firsts surs places prefixes suffixes
unfolding load_names_from_files key_tree add_keys first_files set_val names_calls st_init
    st_add_string st_lookup_string find_node walk scan get_the_only_child crunch get_char_lsb
    get_char_msb is_free add_path is_lsb_free is_msb_free
load_names_from_files-needed civs [] firsts surs places prefixes suffixes items ships ports
      planets =
    refl
load_names_from_files-needed civs (c ∷ cs) [] surs places prefixes suffixes items ships ports
      planets =
    refl
load_names_from_files-needed civs (c ∷ cs) (f ∷ fs) [] places prefixes suffixes items ships ports
      planets =
    refl
load_names_from_files-needed civs (c ∷ cs) (f ∷ fs) (s ∷ ss) [] prefixes suffixes items ships ports
      planets =
    refl
load_names_from_files-needed civs (c ∷ cs) (f ∷ fs) (s ∷ ss) (p ∷ ps) [] suffixes items ships ports
      planets =
    refl
load_names_from_files-needed civs (c ∷ cs) (f ∷ fs) (s ∷ ss) (p ∷ ps) (x ∷ xs) [] items ships ports
      planets =
    refl
load_names_from_files-needed civs (c ∷ cs) (f ∷ fs) (s ∷ ss) (p ∷ ps) (x ∷ xs) (y ∷ ys) items ships
      ports planets =
    refl

-- ===== src/Stringtrie/Tests.antt =====
-- Runs of the string tree on concrete strings, and its theorems at concrete inputs.
use yastg.Prelude.{
  ℕ, List, [], ◌∷◌, ◌++◌, none, some, ok, fault, null_deref, ◌≡◌, refl, arith, In, arith, ◌↔◌,
  length, ◌<◌,
}
use yastg.Stringtrie.Chars.{crunch, get_char_lsb, get_char_msb, get_char_from_msb_lsb}
use yastg.Stringtrie.Node.{Root}
use yastg.Stringtrie.Keys.{get_char_from_msb_lsb-shown}
use yastg.Stringtrie.Ops.{
  st_init, st_add_string, st_lookup_string, st_lookup_exact, st_rm_string, st_foreach_data, scan,
  get_the_only_child, find_node, walk, is_free, add_path, prune, rm_up, rm_below, is_lsb_free,
  is_msb_free, add_path, prune, rm_up, rm_below,
}
use yastg.Stringtrie.Map.{st_lookup_exact-st_add_string, st_lookup_exact-st_rm_string}
use yastg.Stringtrie.Dead.{st_lookup_string-after_rm}
use yastg.Stringtrie.Visits.{st_foreach_data_visits, displayed}
use yastg.Stringtrie.Values.{value}
use yastg.Stringtrie.Lookup.{Outcome}
use yastg.Prelude.{length, ◌<◌, ◌↔◌}
use yastg.Stringtrie.History.{Built, init, add, rm, st_lookup_string-Built}
use yastg.Stringtrie.Kept.{st_init-IsKept}

-- "test", "tert" and "TEST"
abbrev test : List ℕ
test = b't' ∷ b'e' ∷ b's' ∷ b't' ∷ []

abbrev tert : List ℕ
tert = b't' ∷ b'e' ∷ b'r' ∷ b't' ∷ []

abbrev upper : List ℕ
upper = b'T' ∷ b'E' ∷ b'S' ∷ b'T' ∷ []

abbrev one : Root ℕ
one = (st_add_string st_init (some test) (some 1)).1

abbrev two : Root ℕ
two = (st_add_string one (some tert) (some 2)).1

program : Unit {0}
unfolding st_init st_add_string st_lookup_string st_lookup_exact st_rm_string find_node walk scan
    get_the_only_child crunch get_char_lsb get_char_msb is_free add_path prune rm_up rm_below
    is_lsb_free is_msb_free
program = tt

lookups :
    (st_lookup_exact two (some upper) ≡ ok (some 1))
    × (st_lookup_string one (some (b't' ∷ [])) ≡ ok (some 1))
    × (st_lookup_string two (some (b't' ∷ b'e' ∷ [])) ≡ ok none)
    × (st_lookup_string two (some (b't' ∷ b'e' ∷ b'r' ∷ [])) ≡ ok (some 2))
    × (st_lookup_string two (some (b'x' ∷ [])) ≡ ok none)
unfolding program
lookups = (refl, refl, refl, refl, refl)

removals :
    ((st_rm_string two (some tert)).0 ≡ some 2)
    × (st_lookup_string (st_rm_string two (some tert)).1 (some (b't' ∷ b'e' ∷ [])) ≡ ok (some 1))
    × (st_lookup_string (st_rm_string one (some test)).1 (some (b't' ∷ [])) ≡ fault null_deref)
    × (st_lookup_string (st_rm_string one (some test)).1 (some (b't' ∷ b'e' ∷ [])) ≡ ok none)
unfolding program
removals = (refl, refl, refl, refl)

st_lookup_exact-st_add_string_example :
    st_lookup_exact (st_add_string one (some tert) (some 2)).1 (some upper)
    ≡ st_lookup_exact one (some upper)
unfolding crunch
st_lookup_exact-st_add_string_example =
    st_lookup_exact-st_add_string one b't' (b'e' ∷ b'r' ∷ b't' ∷ []) (some 2) upper

st_lookup_exact-st_rm_string_example :
    (ok (st_rm_string two (some test)).0 ≡ st_lookup_exact two (some test))
    × (st_lookup_exact (st_rm_string two (some test)).1 (some upper) ≡ ok none)
unfolding crunch
st_lookup_exact-st_rm_string_example =
    st_lookup_exact-st_rm_string two b't' (b'e' ∷ b's' ∷ b't' ∷ []) upper

get_char_from_msb_lsb-shown_example :
    get_char_from_msb_lsb (get_char_msb b'Q') (get_char_lsb b'Q') ≡ b'q'
get_char_from_msb_lsb-shown_example = get_char_from_msb_lsb-shown b'Q' (omega arith)

-- Adding and removing "test" in an empty trie.
abbrev none_added : Root ℕ
none_added = st_init

abbrev removed : Root ℕ
removed = (st_rm_string (st_add_string none_added (some test) (some 1)).1 (some test)).1

st_lookup_string-after_rm_example : st_lookup_string removed (some (b't' ∷ [])) ≡ fault null_deref
unfolding st_init
st_lookup_string-after_rm_example =
    st_lookup_string-after_rm none_added b't' (b'e' ∷ b's' ∷ b't' ∷ []) 1 (st_init-IsKept ℕ) refl

two-Built : Built two
two-Built = add (add init (some test) 1) (some tert) 2

st_lookup_string-Built_example :
    Outcome
      (λ t. value (st_rm_string two (some test)).1 ((b't' ∷ b'e' ∷ []) ++ t))
      (st_lookup_string (st_rm_string two (some test)).1 (some (b't' ∷ b'e' ∷ [])))
st_lookup_string-Built_example = st_lookup_string-Built b't' b'e' [] (rm two-Built (some test))

st_foreach_data_visits_example : In (b't' ∷ b'e' ∷ b's' ∷ b't' ∷ [], 1) (st_foreach_data two) ↔ (
    (s : List ℕ) × (length s < 64)
    × (value two s ≡ some 1)
    × (b't' ∷ b'e' ∷ b's' ∷ b't' ∷ [] ≡ displayed s))
st_foreach_data_visits_example = st_foreach_data_visits two (b't' ∷ b'e' ∷ b's' ∷ b't' ∷ []) 1

-- ===== src/Loadconfig/Sane.antt =====
-- loadconfig.c: the checks after the configuration is loaded.
use yastg.Config.Index.{IsIndexed, st_is_empty-IsIndexed}
use yastg.Config.Loading.{ShipsIndexed}
use yastg.Loadconfig.Ops.{Loaded, is_config_sane, is_listed, list_empty}
use yastg.Prelude.{
  Bool, List, [], ap, assert_failed, false, fault, inl, not, ok, refl, true, ℕ, ◌&&◌, ◌∷◌, ◌≡◌,
}
use yastg.Stringtrie.Node.{Root}
use yastg.Names.Ops.{is_names_loaded}

-- The lists agree with the string trees.
pub record IsLoaded (u : Loaded) : Type 0 where
  pub items : IsIndexed (λ p. (u.items.item p).name) u.items.list u.items.item_names
  pub ports : IsIndexed (λ t. t.name) u.ports.list u.ports.port_type_names
  pub ships : ShipsIndexed u.ships

-- Nothing is missing.
abbrev pub nothing_missing : Loaded → Bool
nothing_missing u =
    not (list_empty u.items.list)
    && not (list_empty u.ports.list)
    && not (list_empty u.planet_types)
    && not (list_empty u.ships.list)
    && not (list_empty u.civs)
    && is_names_loaded u.constellations
    && is_names_loaded u.port_names
    && is_names_loaded u.player_names

is_listed-ok :
    {A : Type 0} (name : A → List ℕ) (xs : List A) (names : Root A)
    → IsIndexed name xs names
    → is_listed xs names ≡ ok (not (list_empty xs))
unfolding is_listed
is_listed-ok name [] names h = refl
is_listed-ok name (x ∷ xs) names h =
    ap (λ b. elim b [ true ↦ fault assert_failed | false ↦ ok true ])
      (st_is_empty-IsIndexed name (x ∷ xs) names x h (inl refl))

-- Where the lists of items, types of ports and types of ships agree with their string trees,
-- is_config_sane fails none of its assertions, and returns whether none of the eight things that it
-- looks for is missing.
pub is_config_sane-IsLoaded : (u : Loaded) → IsLoaded u → is_config_sane u ≡ ok (nothing_missing u)
unfolding is_config_sane
is_config_sane-IsLoaded u h =
    rw
      (
        is_listed-ok (λ p. (u.items.item p).name) u.items.list u.items.item_names h.items,
        is_listed-ok (λ t. t.name) u.ports.list u.ports.port_type_names h.ports,
        is_listed-ok (λ t. t.name) u.ships.list u.ships.ship_type_names h.ships,
        is_config_sane,
      )
      refl

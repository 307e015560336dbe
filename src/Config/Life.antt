-- ===== src/Config/Life.antt =====
-- planet_type.c: the kinds of life of the types of planets that are loaded, which index planet_life_names.
use yastg.Config.Keys.{apply_known, key_tree}
use yastg.Config.Lookups.{
  Found, apply_known-Returns, key_tree-Built, set_each-Returns, st_lookup_string-Found,
}
use yastg.Config.Planets.{
  set_atmosphere, set_port_types, set_planet_description, set_maximum_diameter, set_maximum_life,
  set_minimum_diameter, set_minimum_life, set_name, set_surface, set_zones, PlanetKey, PlanetType,
  load_planets, planet_life_names, planet_type_init, planet_zone_names, push_port_type, set_life,
  set_planet_key, set_planet_zone, with_life, with_str,
}
use yastg.Config.Ports.{PortType}
use yastg.Config.Tree.{Config, children_of, config, key_of, str_of}
use yastg.Prelude.{
  In, List, Option, Returns, Returns-bind, Returns-some, Returns-weaken, [], append-nil, false,
  get_elem?, length, map, none, ok, refl, some, sym, ℕ, ◌++◌, ◌<◌, ◌∷◌, ◌≡◌,
}
use yastg.Stringtrie.Live.{IsLive}
use yastg.Stringtrie.Node.{Root, put}
use yastg.Stringtrie.Ops.{st_lookup_string}
use yastg.Config.Loading.{map-append}
use yastg.Config.Planets.{load_planets_from_file, planet_key_names, planet_keys}
use yastg.Prelude.{
  Bool, In-append_cases, ap, append_assoc, arith, inl, inr, ltb, ltb→lt, subst, true, ◌&&◌, ◌>>=◌,
  ◌∙◌,
}

abbrev HasLife : PlanetType → Type 0
HasLife type = (type.minlife < length planet_life_names) × (type.maxlife < length planet_life_names)

-- The kinds of life are in range, and the letter is that of the key.
abbrev Made : Option ℕ → PlanetType → Type 0
Made letter type = HasLife type × (type.letter ≡ letter)

abbrev IsLife : Option ℕ → Type 0
IsLife none = Unit
IsLife (some j) = j < 10

abbrev all_of : {A : Type 0} → (A → Bool) → List A → Bool
all_of p [] = true
all_of p (x ∷ xs) = p x && all_of p xs

all_of-In :
    {A : Type 0} (p : A → Bool) (xs : List A) (x : A) → all_of p xs ≡ true → In x xs → p x ≡ true
all_of-In p [] x e h = absurd h
all_of-In p (y ∷ xs) x e (inl h) = ground (arith, e, ap p h)
all_of-In p (y ∷ xs) x e (inr h) = all_of-In p xs x (ground (arith, e)) h

life_names_lem : (k : List ℕ × ℕ) → In k planet_life_names → k.1 < 10
life_names_lem k h = ltb→lt k.1 10 (all_of-In (λ n. ltb n.1 10) planet_life_names k refl h)

set_life-IsLife : (name : Option (List ℕ)) → Returns IsLife (set_life name)
unfolding set_life
set_life-IsLife none = tt
set_life-IsLife (some name) =
    let (root, (e, (live, found))) =
      key_tree-Built (λ j. j < 10) planet_life_names refl life_names_lem in
    Returns-some IsLife (key_tree planet_life_names) root (ok none) _ e (
      Returns-weaken (Found root) IsLife (st_lookup_string root (some name))
        (elim [ none ↦ λ _. tt | some j ↦ λ (t, v). found t j v ])
        (st_lookup_string-Found root (some name) live))

with_str-Made :
    (letter : Option ℕ) (conf : Config) (type : PlanetType) (put : List ℕ → PlanetType)
    → Made letter type
    → ((s : List ℕ) → Made letter (put s))
    → Returns (λ r. Made letter r.1) (with_str conf type put)
unfolding with_str
with_str-Made letter (config key none l children) type put h k = h
with_str-Made letter (config key (some s) l children) type put h k = k s

with_life-Made :
    (letter : Option ℕ) (conf : Config) (type : PlanetType) (put : ℕ → PlanetType)
    → Made letter type
    → ((j : ℕ) → j < 10 → Made letter (put j))
    → Returns (λ r. Made letter r.1) (with_life conf type put)
unfolding with_life
with_life-Made letter conf type put h k =
    Returns-bind IsLife _ (set_life (str_of conf)) _ (set_life-IsLife (str_of conf))
      (elim [ none ↦ λ _. h | some j ↦ k j ])

set_planet_key-Made :
    (ports : Root PortType) (letter : Option ℕ) (f : PlanetKey) (type : PlanetType) (conf : Config)
    → IsLive ports
    → Made letter type
    → Returns (λ r. Made letter r.1) (set_planet_key ports f type conf)
unfolding set_planet_key push_port_type set_planet_zone
set_planet_key-Made ports letter set_atmosphere type conf live h =
    with_str-Made letter conf type _ h (λ s. h)
set_planet_key-Made ports letter set_port_types type conf live h =
    set_each-Returns (Made letter) ports push_port_type (children_of conf) type live (λ f t _ k. k)
      h
set_planet_key-Made ports letter set_planet_description type conf live h =
    with_str-Made letter conf type _ h (λ s. h)
set_planet_key-Made ports letter set_maximum_diameter type conf live h = h
set_planet_key-Made ports letter set_maximum_life type conf live h =
    with_life-Made letter conf type _ h (λ j k. ((h.0.0, k), h.1))
set_planet_key-Made ports letter set_minimum_diameter type conf live h = h
set_planet_key-Made ports letter set_minimum_life type conf live h =
    with_life-Made letter conf type _ h (λ j k. ((k, h.0.1), h.1))
set_planet_key-Made ports letter set_name type conf live h =
    with_str-Made letter conf type _ h (λ s. h)
set_planet_key-Made ports letter set_surface type conf live h =
    with_str-Made letter conf type _ h (λ s. h)
set_planet_key-Made ports letter set_zones type conf live h =
    let (root, (e, (zones, _))) = key_tree-Built (λ j. Unit) planet_zone_names refl (λ k _. tt) in
    Returns-some _ (key_tree planet_zone_names) root (ok (false, type)) _ e (
      set_each-Returns (Made letter) root set_planet_zone (children_of conf) type zones
        (λ f t _ k. k) h)

abbrev letter_of : Config → Option ℕ
letter_of c = get_elem? (key_of c) 0

abbrev type_letter : PlanetType → Option ℕ
type_letter type = type.letter

-- One more type for each key, with its first character, and every type's life is in range.
abbrev PlanetsLoaded : List PlanetType → List Config → List PlanetType → Type 0
PlanetsLoaded old cs new =
    (map type_letter new ≡ map type_letter old ++ map letter_of cs)
    × ((type : PlanetType) → In type new → HasLife type)

-- Without a configuration nothing is loaded.
abbrev pub FileLoaded : List PlanetType → Option (List Config) → Bool × List PlanetType → Type 0
FileLoaded old none (done, new) = (done ≡ false) × (new ≡ old)
FileLoaded old (some cs) (done, new) = (done ≡ true) × PlanetsLoaded old cs new

load_planets-Loaded :
    (ports : Root PortType) (root : Root PlanetKey) (cs : List Config) (types : List PlanetType)
    → IsLive ports
    → IsLive root
    → ((type : PlanetType) → In type types → HasLife type)
    → Returns (PlanetsLoaded types cs) (load_planets ports root cs types)
unfolding load_planets planet_type_init
load_planets-Loaded ports root [] types live keys h = (sym (append-nil _), h)
load_planets-Loaded ports root (c ∷ cs) types live keys h =
    Returns-bind (Made (letter_of c)) _
      (apply_known root (set_planet_key ports) (children_of c) (planet_type_init (key_of c))) _
      (apply_known-Returns (Made (letter_of c)) root (set_planet_key ports) (children_of c) _ keys
        (λ f type conf k. set_planet_key-Made ports (letter_of c) f type conf live k)
        ((omega arith, omega arith), refl))
      (λ type k.
        Returns-weaken (PlanetsLoaded (types ++ type ∷ []) cs) (PlanetsLoaded types (c ∷ cs))
          (load_planets ports root cs (types ++ type ∷ []))
          (λ new r. (letters type new k.1 r.0, r.1))
          (load_planets-Loaded ports root cs (types ++ type ∷ []) live keys (each type k.0)))
  where
    letters :
        (type : PlanetType) (new : List PlanetType)
        → type.letter ≡ letter_of c
        → map type_letter new ≡ map type_letter (types ++ type ∷ []) ++ map letter_of cs
        → map type_letter new ≡ map type_letter types ++ map letter_of (c ∷ cs)
    letters type new e r =
        r
        ∙ ap (λ l. l ++ map letter_of cs) (map-append type_letter types (type ∷ []))
        ∙ append_assoc (map type_letter types) (type.letter ∷ []) (map letter_of cs)
        ∙ ap (λ l. map type_letter types ++ l ∷ map letter_of cs) e

    each :
        (type : PlanetType)
        → HasLife type
        → (t : PlanetType) → In t (types ++ type ∷ [])
        → HasLife t
    each type k t i = elim (In-append_cases types (type ∷ []) t i) [
      | inl i ↦ h t i
      | inr (inl e) ↦ subst HasLife (sym e) k
      | inr (inr i) ↦ absurd i
    ]

-- Where the names of port types are held by a live string tree, one in which every node leads to
-- data, and the listed planet types have kinds of life that are in the table,
-- load_planets_from_file ends without a fault. Without a configuration it returns -1 and changes
-- nothing. Else it returns 0 and adds one type for each key of the file, with the first character
-- of the key as its letter, and all types have kinds of life in the table.
pub load_planets_from_file-Loaded :
    (ports : Root PortType) (conf : Option (List Config)) (types : List PlanetType)
    → IsLive ports
    → ((type : PlanetType) → In type types → HasLife type)
    → Returns (FileLoaded types conf) (load_planets_from_file ports conf types)
unfolding load_planets_from_file planet_keys
load_planets_from_file-Loaded ports conf types live h =
    let (root, (e, (keys, _))) = key_tree-Built (λ f. Unit) planet_key_names refl (λ k _. tt) in
    Returns-some (FileLoaded types conf) planet_keys root (ok (false, types)) _ e
      (go root keys conf)
  where
    go :
        (root : Root PlanetKey)
        → IsLive root
        → (conf : Option (List Config))
        → Returns (FileLoaded types conf) (elim conf [
          | none ↦ ok (false, types)
          | some conf ↦ do types' ← load_planets ports root conf types; ok (true, types')
        ])
    go root keys none = (refl, refl)
    go root keys (some cs) =
        Returns-bind (PlanetsLoaded types cs) _ (load_planets ports root cs types) _
          (load_planets-Loaded ports root cs types live keys h) (λ new k. (refl, k))

-- ===== src/Config/Loading.antt =====
-- item.c, ship_type.c, port_type.c: the names of what a file's loop has loaded, in a list and in a tree.
use yastg.Config.Index.{IsIndexed}
use yastg.Config.Ships.{
  ShipKey, ShipType, ShipTypes, load_ships, set_carry_weight, set_description, set_ship_key,
}
use yastg.Config.Tree.{Config, key_of}
use yastg.Prelude.{
  Bool, In, List, Option, Returns, [], ap, append-nil, append_assoc, false, inr, map, none, refl,
  some, sym, true, ℕ, ◌++◌, ◌∙◌, ◌∷◌, ◌≡◌,
}
use yastg.Stringtrie.Live.{IsLive}
use yastg.Stringtrie.Node.{Root}
use yastg.Config.Keys.{apply_known}
use yastg.Config.Lookups.{apply_known-Returns}
use yastg.Config.Tree.{children_of, config}
use yastg.Prelude.{
  In-append_cases, In-append_left, In-append_right, Returns-bind, inl, ok, ◌↔◌, ◌⊎◌,
}
use yastg.Prelude.Int.{eqb_ℤ, pos}
use yastg.Stringtrie.Ops.{st_add_string}
use yastg.Config.Index.{st_add_string-IsIndexed}
use yastg.Config.Lookups.{st_add_string_refused}
use yastg.Prelude.{Returns-test, Returns-weaken, subst}
use yastg.Config.Lookups.{key_tree-Built}
use yastg.Config.Ships.{load_ships_from_file, ship_keys}
use yastg.Config.Ships.{ship_key_names}
use yastg.Prelude.{Returns-some}

-- The keys that are loaded, after those that were there before. Loading stops early where there is no
-- configuration, or a key of it is empty.
abbrev Appended : List (List ℕ) → List Config → Bool → List (List ℕ) → Type 0
Appended old cs true new = new ≡ old ++ map key_of cs
Appended old cs false new = (c : Config) × (In c cs × (key_of c ≡ []))

abbrev Parsed : List (List ℕ) → Option (List Config) → Bool → List (List ℕ) → Type 0
Parsed old none true new = ⊥
Parsed old none false new = Unit
Parsed old (some cs) done new = Appended old cs done new

Appended-next :
    (old : List (List ℕ)) (c : Config) (cs : List Config) (done : Bool) (new : List (List ℕ))
    → Appended (old ++ key_of c ∷ []) cs done new
    → Appended old (c ∷ cs) done new
Appended-next old c cs true new h = h ∙ append_assoc old (key_of c ∷ []) (map key_of cs)
Appended-next old c cs false new (d, (k, e)) = (d, (inr k, e))

pub map-append :
    {A B : Type 0} (f : A → B) (xs ys : List A) → map f (xs ++ ys) ≡ map f xs ++ map f ys
map-append f [] ys = refl
map-append f (x ∷ xs) ys = ap (λ l. f x ∷ l) (map-append f xs ys)

In-snoc : {A : Type 0} (xs : List A) (x y : A) → In y (xs ++ x ∷ []) ↔ ((x ≡ y) ⊎ In y xs)
In-snoc xs x y = (
  λ h. elim (In-append_cases xs (x ∷ []) y h) [
    | inl h ↦ inr h
    | inr (inl e) ↦ inl (sym e)
    | inr (inr k) ↦ absurd k
  ],
  elim [
    | inl e ↦ In-append_right xs (x ∷ []) y (inl (sym e))
    | inr h ↦ In-append_left xs (x ∷ []) y h
  ],
)

abbrev ship_name : ShipType → List ℕ
ship_name type = type.name

set_ship_key-name :
    (name : List ℕ) (f : ShipKey) (type : ShipType) (c : Config)
    → type.name ≡ name
    → Returns (λ r. r.1.name ≡ name) (set_ship_key f type c)
unfolding set_ship_key
set_ship_key-name name set_carry_weight type c h = h
set_ship_key-name name set_description type (config key none l children) h = h
set_ship_key-name name set_description type (config key (some s) l children) h = h

abbrev pub ShipsIndexed : ShipTypes → Type 0
ShipsIndexed s = IsIndexed ship_name s.list s.ship_type_names

load_ships-Appended :
    (root : Root ShipKey) (cs : List Config) (s : ShipTypes)
    → IsLive root
    → ShipsIndexed s
    → Returns
        (λ r. ShipsIndexed r.1 × Appended (map ship_name s.list) cs r.0 (map ship_name r.1.list))
        (load_ships root cs s)
unfolding load_ships
load_ships-Appended root [] s live h = (h, sym (append-nil _))
load_ships-Appended root (c ∷ cs) s live h =
    Returns-bind (λ type. type.name ≡ key_of c) _
      (apply_known root set_ship_key (children_of c)
        (record { name = key_of c; desc = none; carry_weight = pos 0 }))
      _
      (apply_known-Returns (λ type. type.name ≡ key_of c) root set_ship_key (children_of c) _ live
        (λ f type conf e. set_ship_key-name (key_of c) f type conf e) refl)
      (λ type e.
        Returns-test _
          (eqb_ℤ (st_add_string s.ship_type_names (some type.name) (some type)).0 (pos 0)) _ _
          (λ added.
            Returns-weaken _ _
              (load_ships root cs (record {
                list = s.list ++ type ∷ [];
                ship_type_names = (st_add_string s.ship_type_names (some type.name) (some type)).1;
              }))
              (λ r k. (
                k.0,
                Appended-next (map ship_name s.list) c cs r.0 (map ship_name r.1.list) (
                    subst (λ l. Appended l cs r.0 (map ship_name r.1.list))
                      (map-append ship_name s.list (type ∷ [])
                        ∙ ap (λ n. map ship_name s.list ++ n ∷ []) e)
                      k.1),
              ))
              (load_ships-Appended root cs _ live (
                st_add_string-IsIndexed ship_name s.list (s.list ++ type ∷ []) s.ship_type_names
                  type h added (In-snoc s.list type))))
          (λ refused. (
            h,
            (c, (inl refl, sym e ∙ st_add_string_refused s.ship_type_names type.name type refused)),
          )))

-- Names and list agree, and the list is what the file names.
abbrev pub ShipsLoaded : ShipTypes → Option (List Config) → Bool × ShipTypes → Type 0
ShipsLoaded s conf (done, s') =
    ShipsIndexed s' × Parsed (map ship_name s.list) conf done (map ship_name s'.list)

-- From a list and a string tree that agree, load_ships_from_file ends without a fault and they
-- agree again: every listed type has a name that the tree finds, and every type that the tree finds
-- is listed. If 0 is returned the keys of the file, in order, follow the names that were there. If
-- not, there was no configuration or a key in it is empty.
pub load_ships_from_file-Parsed :
    (conf : Option (List Config)) (s : ShipTypes)
    → ShipsIndexed s
    → Returns (ShipsLoaded s conf) (load_ships_from_file conf s)
unfolding load_ships_from_file ship_keys
load_ships_from_file-Parsed conf s h =
    let (root, (e, (live, _))) = key_tree-Built (λ f. Unit) ship_key_names refl (λ k _. tt) in
    Returns-some _ ship_keys root (ok (false, s)) _ e (go root live conf)
  where
    go :
        (root : Root ShipKey)
        → IsLive root
        → (conf : Option (List Config))
        → Returns
            (ShipsLoaded s conf)
            (elim conf [ none ↦ ok (false, s) | some conf ↦ load_ships root conf s ])
    go root live none = (h, tt)
    go root live (some cs) = load_ships-Appended root cs s live h

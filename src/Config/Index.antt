-- ===== src/Config/Index.antt =====
-- item.c, ship_type.c, port_type.c: the string tree that has what is loaded, by its name.
use yastg.Config.Lookups.{st_add_string-IsLive, st_init-IsLive, value-st_add_string}
use yastg.Prelude.{
  Bool-cases, In, List, [], false, inl, inr, none, refl, some, sym, true, ℕ, ◌↔◌, ◌∙◌, ◌∷◌, ◌≡◌,
  ◌≢◌, ◌⊎◌,
}
use yastg.Prelude.Int.{eqb_ℤ, pos}
use yastg.Stringtrie.Arrays.{child-is_msb_free}
use yastg.Stringtrie.Live.{IsLive}
use yastg.Stringtrie.Node.{Root}
use yastg.Stringtrie.Ops.{is_msb_free, st_add_string, st_init, st_is_empty}
use yastg.Stringtrie.Values.{value, value-empty_root, value-no_child}
use yastg.Config.Lookups.{st_add_string_added}
use yastg.Prelude.{if◌then◌else◌, subst}
use yastg.Stringtrie.Keys.{same_key, same_key_refl}

module _ {A : Type 0} (name : A → List ℕ) where
  -- All that is in the list is found under its name, and all that is found is in the list.
  pub record IsIndexed (list : List A) (names : Root A) : Type 0 where
    pub live : IsLive names
    pub named : (x : A) → In x list → (name x ≢ []) × ((y : A) × (value names (name x) ≡ some y))
    pub listed : (s : List ℕ) (y : A) → value names s ≡ some y → In y list

  pub st_init-IsIndexed : IsIndexed [] st_init
  unfolding st_init
  st_init-IsIndexed = record {
    live = st_init-IsLive A;
    named = λ x. absurd;
    listed = λ s y h. absurd (cc (value-empty_root {A = A} s, h));
  }

  pub st_add_string-IsIndexed :
      (list list' : List A) (names : Root A) (x : A)
      → IsIndexed list names
      → eqb_ℤ (st_add_string names (some (name x)) (some x)).0 (pos 0) ≡ true
      → ((y : A) → In y list' ↔ ((x ≡ y) ⊎ In y list))
      → IsIndexed list' (st_add_string names (some (name x)) (some x)).1
  st_add_string-IsIndexed list list' names x old h same = record {
    live = st_add_string-IsLive names (some (name x)) x old.live;
    named = λ y k. elim ((same y).0 k) [
      | inl e ↦ subst Stored e (added.0, (x, added.1 (name x) ∙ rw (same_key_refl (name x)) refl))
      | inr k ↦ let (full, (z, v)) = old.named y k in (full, kept (name y) z v)
    ];
    listed = λ s y k. (same y).1 (elim (value-st_add_string names (name x) s x y k) [
      | inl e ↦ inl e
      | inr k ↦ inr (old.listed s y k)
    ]);
  }
    where
      Stored : A → Type 0
      Stored y =
          (name y ≢ [])
          × ((z : A) × (value (st_add_string names (some (name x)) (some x)).1 (name y) ≡ some z))

      added :
          (name x ≢ [])
          × ((t : List ℕ)
              → value (st_add_string names (some (name x)) (some x)).1 t
                ≡ (if same_key (name x) t then some x else value names t))
      added = st_add_string_added names (name x) x h

      kept :
          (t : List ℕ) (y : A)
          → value names t ≡ some y
          → (z : A) × (value (st_add_string names (some (name x)) (some x)).1 t ≡ some z)
      kept t y v = elim (Bool-cases (same_key (name x) t)) [
        | inl e ↦ (x, added.1 t ∙ rw e refl)
        | inr e ↦ (y, added.1 t ∙ rw e v)
      ]

  -- Where something is in the list, the tree is not empty.
  pub st_is_empty-IsIndexed :
      (list : List A) (names : Root A) (x : A)
      → IsIndexed list names
      → In x list
      → st_is_empty names ≡ false
  unfolding st_is_empty
  st_is_empty-IsIndexed list names x h k = elim (Bool-cases (is_msb_free names)) [
    | inr e ↦ e
    | inl e ↦ let (some_name, (y, v)) = h.named x k in absurd (cc (full (name x) y some_name v e))
  ]
    where
      full :
          (s : List ℕ) (y : A)
          → s ≢ []
          → value names s ≡ some y
          → is_msb_free names ≡ true
          → none ≡ some y
      full [] y s_empty v e = absurd (s_empty refl)
      full (c ∷ cs) y s_empty v e =
          sym (value-no_child names c cs (child-is_msb_free names c e)) ∙ v

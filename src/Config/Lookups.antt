-- ===== src/Config/Lookups.antt =====
-- item.c, ship_type.c, planet_type.c, port_type.c: looking keys up in a tree that names were only added to.
use yastg.Config.Keys.{add_keys, apply_known, key_tree, set_each}
use yastg.Config.Tree.{Config, key_of}
use yastg.Prelude.{
  Bool, Bool-cases, In, List, Option, Returns, Returns-bind, Run, [], arith, fault, inl, inr, none,
  ok, refl, some, some-injective, subst, ℕ, ◌++◌, ◌∙◌, ◌∷◌, ◌≡◌, ◌⊎◌,
}
use yastg.Prelude.Int.{eqb_ℤ, pos}
use yastg.Stringtrie.Keys.{same_key}
use yastg.Stringtrie.Live.{IsLive}
use yastg.Stringtrie.Lookup.{Outcome}
use yastg.Stringtrie.Node.{Root, put}
use yastg.Stringtrie.Ops.{st_add_string, st_init, st_lookup_string}
use yastg.Stringtrie.Upkeep.{IsLive-add_path}
use yastg.Stringtrie.Values.{value, value-add_path, value-empty_root}
use yastg.Stringtrie.Lookup.{st_lookup_string-IsLive}
use yastg.Prelude.{if◌then◌else◌, true, ◌≢◌}
use yastg.Prelude.{false}
use yastg.Stringtrie.Ops.{add_path}

pub st_init-IsLive : (A : Type 0) → IsLive (st_init {A = A})
unfolding st_init
st_init-IsLive A i hi = tt

module _ {A : Type 0} where
  -- What a lookup finds is some string's data.
  abbrev pub Found : Root A → Option A → Type 0
  Found root none = Unit
  Found root (some x) = (t : List ℕ) × (value root t ≡ some x)

  Outcome-Found :
      (root : Root A) (v : List ℕ → Option A) (f : List ℕ → List ℕ) (r : Run (Option A))
      → ((t : List ℕ) → value root (f t) ≡ v t)
      → Outcome v r
      → Returns (Found root) r
  Outcome-Found root v f (ok none) e h = tt
  Outcome-Found root v f (ok (some x)) e (inl h) = (f [], e [] ∙ h)
  Outcome-Found root v f (ok (some x)) e (inr (_, (t, h, _))) = (f t, e t ∙ h)
  Outcome-Found root v f (fault stop) e h = h

  pub st_lookup_string-Found :
      (root : Root A) (s : Option (List ℕ))
      → IsLive root
      → Returns (Found root) (st_lookup_string root s)
  unfolding st_lookup_string
  st_lookup_string-Found root none live = tt
  st_lookup_string-Found root (some []) live = tt
  st_lookup_string-Found root (some (c ∷ cs)) live =
      Outcome-Found root (λ t. value root ((c ∷ cs) ++ t)) (λ t. (c ∷ cs) ++ t) _ (λ t. refl)
        (st_lookup_string-IsLive root c cs live)

  pub st_add_string-IsLive :
      (root : Root A) (s : Option (List ℕ)) (x : A)
      → IsLive root
      → IsLive (st_add_string root s (some x)).1
  unfolding st_add_string
  st_add_string-IsLive root none x live = live
  st_add_string-IsLive root (some []) x live = live
  st_add_string-IsLive root (some (c ∷ cs)) x live = (IsLive-add_path root (c ∷ cs) x live).0

  pub value-st_add_string :
      (root : Root A) (s t : List ℕ) (x y : A)
      → value (st_add_string root (some s) (some x)).1 t ≡ some y
      → (x ≡ y) ⊎ (value root t ≡ some y)
  unfolding st_add_string
  value-st_add_string root [] t x y h = inr h
  value-st_add_string root (c ∷ cs) t x y h = elim (Bool-cases (same_key (c ∷ cs) t)) [
    | inl e ↦ inl (some-injective _ _ (ground (arith, value-add_path root (c ∷ cs) (some x) t)))
    | inr e ↦ inr (ground (arith, value-add_path root (c ∷ cs) (some x) t))
  ]

  pub st_add_string_refused :
      (root : Root A) (s : List ℕ) (x : A)
      → eqb_ℤ (st_add_string root (some s) (some x)).0 (pos 0) ≡ false
      → s ≡ []
  unfolding st_add_string
  st_add_string_refused root [] x h = refl
  st_add_string_refused root (c ∷ cs) x h = absurd (ground (arith, h))

  pub st_add_string_added :
      (root : Root A) (s : List ℕ) (x : A)
      → eqb_ℤ (st_add_string root (some s) (some x)).0 (pos 0) ≡ true
      → (s ≢ [])
        × ((t : List ℕ)
            → value (st_add_string root (some s) (some x)).1 t
              ≡ (if same_key s t then some x else value root t))
  unfolding st_add_string
  st_add_string_added root [] x h = absurd (ground arith)
  st_add_string_added root (c ∷ cs) x h =
      (λ e. ground (arith, e), λ t. value-add_path root (c ∷ cs) (some x) t)

module _ {F : Type 0} where
  -- A tree of keys is live, and its data is of the keys.
  abbrev pub Keys : (F → Type 0) → Option (Root F) → Type 0
  Keys P none = Unit
  Keys P (some root) = IsLive root × ((t : List ℕ) (x : F) → value root t ≡ some x → P x)

  add_keys-Keys :
      (P : F → Type 0) (keys : List (List ℕ × F)) (root : Root F)
      → IsLive root
      → ((t : List ℕ) (x : F) → value root t ≡ some x → P x)
      → ((k : List ℕ × F) → In k keys → P k.1)
      → Keys P (add_keys keys root)
  unfolding add_keys
  add_keys-Keys P [] root live old new = (live, old)
  add_keys-Keys P ((name, f) ∷ keys) root live old new =
      elim (Bool-cases (eqb_ℤ (st_add_string root (some name) (some f)).0 (pos 0))) [
        | inr e ↦ rw (e, add_keys) tt
        | inl e ↦
            rw (e, add_keys)
              (add_keys-Keys P keys (st_add_string root (some name) (some f)).1
                (st_add_string-IsLive root (some name) f live) stored (λ k h. new k (inr h)))
      ]
    where
      stored :
          (t : List ℕ) (x : F) → value (st_add_string root (some name) (some f)).1 t ≡ some x → P x
      stored t x h = elim (value-st_add_string root name t f x h) [
        | inl e ↦ subst P e (new (name, f) (inl refl))
        | inr h ↦ old t x h
      ]

  key_tree-Keys :
      (P : F → Type 0) (keys : List (List ℕ × F))
      → ((k : List ℕ × F) → In k keys → P k.1)
      → Keys P (key_tree keys)
  unfolding key_tree st_init
  key_tree-Keys P keys new =
      add_keys-Keys P keys st_init (st_init-IsLive F)
        (λ t x h. absurd (cc (value-empty_root {A = F} t, h))) new

module _ {F T : Type 0} where
  -- The property is kept by the functions of the keys, and so by the loop.
  pub apply_known-Returns :
      (P : T → Type 0) (root : Root F) (func : F → T → Config → Run (Bool × T)) (cs : List Config)
      (t : T)
      → IsLive root
      → ((f : F) (t : T) (c : Config) → P t → Returns (λ r. P r.1) (func f t c))
      → P t
      → Returns P (apply_known root func cs t)
  unfolding apply_known
  apply_known-Returns P root func [] t live keeps h = h
  apply_known-Returns P root func (c ∷ cs) t live keeps h =
      Returns-bind (Found root) P (st_lookup_string root (some (key_of c))) _
        (st_lookup_string-Found root (some (key_of c)) live)
        (elim [
          | none ↦ λ _. apply_known-Returns P root func cs t live keeps h
          | some f ↦ λ _.
              Returns-bind (λ r. P r.1) P (func f t c) _ (keeps f t c h)
                (λ r k. apply_known-Returns P root func cs r.1 live keeps k)
        ])

  pub set_each-Returns :
      (P : T → Type 0) (root : Root F) (put : F → T → T) (cs : List Config) (t : T)
      → IsLive root
      → ((f : F) (t : T) → Found root (some f) → P t → P (put f t))
      → P t
      → Returns (λ r. P r.1) (set_each root put cs t)
  unfolding set_each
  set_each-Returns P root put [] t live keeps h = h
  set_each-Returns P root put (c ∷ cs) t live keeps h =
      Returns-bind (Found root) (λ r. P r.1) (st_lookup_string root (some (key_of c))) _
        (st_lookup_string-Found root (some (key_of c)) live)
        (elim [
          | none ↦ λ _. h
          | some f ↦ λ k. set_each-Returns P root put cs (put f t) live keeps (keeps f t k h)
        ])

module _ {F : Type 0} where
  abbrev all_named : List (List ℕ × F) → Bool
  all_named [] = true
  all_named (([], f) ∷ keys) = false
  all_named ((c ∷ cs, f) ∷ keys) = all_named keys

  add_keys-some :
      (keys : List (List ℕ × F)) (root : Root F)
      → all_named keys ≡ true
      → (r : Root F) × (add_keys keys root ≡ some r)
  unfolding add_keys st_add_string
  add_keys-some [] root h = (root, refl)
  add_keys-some (([], f) ∷ keys) root h = absurd (ground (arith, h))
  add_keys-some ((c ∷ cs, f) ∷ keys) root h = add_keys-some keys (add_path root (c ∷ cs) (some f)) h

  key_tree-some :
      (keys : List (List ℕ × F)) → all_named keys ≡ true → (r : Root F) × (key_tree keys ≡ some r)
  unfolding key_tree
  key_tree-some keys h = add_keys-some keys st_init h

  -- Where no name is empty, the tree is built.
  pub key_tree-Built :
      (P : F → Type 0) (keys : List (List ℕ × F))
      → all_named keys ≡ true
      → ((k : List ℕ × F) → In k keys → P k.1)
      → (r : Root F) × ((key_tree keys ≡ some r) × Keys P (some r))
  key_tree-Built P keys named all =
      let (r, e) = key_tree-some keys named in (r, (e, subst (Keys P) e (key_tree-Keys P keys all)))

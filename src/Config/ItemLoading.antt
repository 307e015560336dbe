-- ===== src/Config/ItemLoading.antt =====
-- item.c: the items that are loaded, in the list and in the tree of names.
use yastg.Config.Index.{IsIndexed}
use yastg.Config.Items.{ItemKey, Items, set_base_price, set_weight}
use yastg.Config.Lookups.{Found, st_add_string-IsLive, st_init-IsLive, st_lookup_string-Found}
use yastg.Config.Tree.{Config, key_of, long_of}
use yastg.Prelude.{
  ==_iff, Bool, Bool-cases, In, List, Returns, Returns-bind, Returns-weaken, [], ap, ap₂, false,
  inl, inr, map, none, refl, some, subst, true, ℕ, ◌+◌, ◌<◌, ◌==◌, ◌∙◌, ◌∷◌, ◌≡◌, ◌≢◌,
}
use yastg.Prelude.Int.{eqb_ℤ, pos, ℤ}
use yastg.Stringtrie.Live.{IsLive}
use yastg.Stringtrie.Node.{Root}
use yastg.Stringtrie.Ops.{st_add_string, st_init, st_lookup_string}
use yastg.Stringtrie.Values.{value}
use yastg.Trade.Ops.{Item}
use yastg.Config.Index.{st_add_string-IsIndexed}
use yastg.Config.Items.{item_keys, load_item_keys, price_key, set_item_key, weight_key, write_item}
use yastg.Prelude.{arith, sym}
use yastg.Config.Items.{load_items}
use yastg.Config.Tree.{children_of}
use yastg.Prelude.{Returns-test}
use yastg.Config.Items.{load_items_from_file}
use yastg.Prelude.{Option}

abbrev pub item_name : Items → ℕ → List ℕ
item_name s p = (s.item p).name

-- The list and the tree agree, and the listed items are not those that are made later.
pub record AreItems (s : Items) : Type 0 where
  pub indexed : IsIndexed (item_name s) s.list s.item_names
  pub made : (p : ℕ) → In p s.list → p < s.next

-- Only weights and prices differ.
record Same (s t : Items) : Type 0 where
  same_list : t.list ≡ s.list
  same_names : t.item_names ≡ s.item_names
  same_next : t.next ≡ s.next
  same_name : (p : ℕ) → item_name t p ≡ item_name s p

item_keys-IsLive : IsLive item_keys
unfolding item_keys
item_keys-IsLive =
    st_add_string-IsLive (st_add_string st_init (some price_key) (some set_base_price)).1
      (some weight_key) set_weight
      (st_add_string-IsLive st_init (some price_key) set_base_price (st_init-IsLive ItemKey))

set_item_key-name : (f : ItemKey) (l : ℤ) (i : Item) → (set_item_key f l i).name ≡ i.name
unfolding set_item_key
set_item_key-name set_base_price l i = refl
set_item_key-name set_weight l i = refl

write_item-Same :
    (s : Items) (p : ℕ) (f : ItemKey) (l : ℤ)
    → Same s (write_item s p (set_item_key f l (s.item p)))
unfolding write_item
write_item-Same s p f l = record {
  same_list = refl;
  same_names = refl;
  same_next = refl;
  same_name = λ q. elim (Bool-cases (p == q)) [
    | inl e ↦
        rw (e, item_name) (set_item_key-name f l (s.item p) ∙ ap (item_name s) ((==_iff p q).0 e))
    | inr e ↦ rw (e, item_name) refl
  ];
}

Same-trans : (s t u : Items) → Same s t → Same t u → Same s u
Same-trans s t u h k = record {
  same_list = k.same_list ∙ h.same_list;
  same_names = k.same_names ∙ h.same_names;
  same_next = k.same_next ∙ h.same_next;
  same_name = λ p. k.same_name p ∙ h.same_name p;
}

load_item_keys-Same :
    (p : ℕ) (cs : List Config) (s : Items) → Returns (λ r. Same s r.1) (load_item_keys p cs s)
unfolding load_item_keys
load_item_keys-Same p [] s = record {
  same_list = refl;
  same_names = refl;
  same_next = refl;
  same_name = λ q. refl;
}
load_item_keys-Same p (c ∷ cs) s =
    Returns-bind (Found item_keys) _ (st_lookup_string item_keys (some (key_of c))) _
      (st_lookup_string-Found item_keys (some (key_of c)) item_keys-IsLive)
      (elim [
        | none ↦ λ _. record {
          same_list = refl;
          same_names = refl;
          same_next = refl;
          same_name = λ q. refl;
        }
        | some f ↦ λ _.
            let t = write_item s p (set_item_key f (long_of c) (s.item p)) in
            Returns-weaken (λ r. Same t r.1) (λ r. Same s r.1) (load_item_keys p cs t)
              (λ r k. Same-trans s t r.1 (write_item-Same s p f (long_of c)) k)
              (load_item_keys-Same p cs t)
      ])

-- The keys that are loaded, the last in front.
abbrev Prepended : List (List ℕ) → List Config → List (List ℕ) → Type 0
Prepended old [] new = new ≡ old
Prepended old (c ∷ cs) new = Prepended (key_of c ∷ old) cs new

abbrev ItemsLoaded : Items → List Config → Bool × Items → Type 0
ItemsLoaded s cs (true, t) =
    AreItems t × Prepended (map (item_name s) s.list) cs (map (item_name t) t.list)
ItemsLoaded s cs (false, t) = Unit

IsIndexed-congr :
    {A : Type 0} (name name' : A → List ℕ) (xs : List A) (names : Root A)
    → ((x : A) → In x xs → name x ≡ name' x)
    → IsIndexed name xs names
    → IsIndexed name' xs names
IsIndexed-congr {A = A} name name' xs names same h = record {
  live = h.live;
  named =
      λ x k. subst (λ n. (n ≢ []) × ((y : A) × (value names n ≡ some y))) (same x k) (h.named x k);
  listed = h.listed;
}

map-congr :
    {A B : Type 0} (f g : A → B) (xs : List A)
    → ((x : A) → In x xs → f x ≡ g x)
    → map f xs ≡ map g xs
map-congr f g [] h = refl
map-congr f g (x ∷ xs) h =
    ap₂ (λ y ys. y ∷ ys) (h x (inl refl)) (map-congr f g xs (λ y k. h y (inr k)))

-- The next item, once its name is in the tree and its keys are set.
add-AreItems :
    (s t : Items) (key : List ℕ)
    → AreItems s
    → t.list ≡ s.list
    → t.next ≡ s.next + 1
    → t.item_names ≡ (st_add_string s.item_names (some key) (some s.next)).1
    → eqb_ℤ (st_add_string s.item_names (some key) (some s.next)).0 (pos 0) ≡ true
    → item_name t s.next ≡ key
    → ((p : ℕ) → p < s.next → item_name t p ≡ item_name s p)
    → AreItems (record t { list = s.next ∷ t.list })
      × (map (item_name t) (s.next ∷ t.list) ≡ key ∷ map (item_name s) s.list)
add-AreItems s t key h e n names added here others = (
  record {
    indexed =
        subst (λ l. IsIndexed (item_name t) (s.next ∷ l) t.item_names) (sym e)
          (subst (IsIndexed (item_name t) (s.next ∷ s.list)) (sym names') (
            st_add_string-IsIndexed (item_name t) s.list (s.next ∷ s.list) s.item_names s.next
              (IsIndexed-congr (item_name s) (item_name t) s.list s.item_names
                (λ p i. sym (others p (h.made p i))) h.indexed)
              (subst
                (λ k. eqb_ℤ (st_add_string s.item_names (some k) (some s.next)).0 (pos 0) ≡ true)
                (sym here) added)
              (λ p. (
                elim [ inl k ↦ inl (sym k) | inr k ↦ inr k ],
                elim [ inl k ↦ inl (sym k) | inr k ↦ inr k ],
              ))));
    made = λ p. elim [
      | inl k ↦ omega (arith, k, n)
      | inr k ↦ omega (arith, h.made p (subst (In p) e k), n)
    ];
  },
  ap₂ (λ k ks. k ∷ ks) here
      (ap (map (item_name t)) e
        ∙ map-congr (item_name t) (item_name s) s.list (λ p i. others p (h.made p i))),
)
  where
    names' : t.item_names ≡ (st_add_string s.item_names (some (item_name t s.next)) (some s.next)).1
    names' = names ∙ ap (λ k. (st_add_string s.item_names (some k) (some s.next)).1) (sym here)

ItemsLoaded-next :
    (s u : Items) (c : Config) (cs : List Config)
    → map (item_name u) u.list ≡ key_of c ∷ map (item_name s) s.list
    → (r : Bool × Items) → ItemsLoaded u cs r
    → ItemsLoaded s (c ∷ cs) r
ItemsLoaded-next s u c cs names (true, t) k =
    (k.0, subst (λ l. Prepended l cs (map (item_name t) t.list)) names k.1)
ItemsLoaded-next s u c cs names (false, t) k = tt

load_items-ItemsLoaded :
    (junk : Item) (cs : List Config) (s : Items)
    → AreItems s
    → Returns (ItemsLoaded s cs) (load_items junk cs s)
unfolding load_items write_item
load_items-ItemsLoaded junk [] s h = (h, refl)
load_items-ItemsLoaded junk (c ∷ cs) s h =
    Returns-test _ (eqb_ℤ (st_add_string s.item_names (some (key_of c)) (some s.next)).0 (pos 0)) _
      _
      (λ added.
        Returns-bind (λ r. Same fresh r.1) _ (load_item_keys s.next (children_of c) fresh) _
          (load_item_keys-Same s.next (children_of c) fresh)
          (λ (done, t) k.
            Returns-test _ done _ _ (λ _. next t k added (load_items-ItemsLoaded junk cs))
              (λ _. tt)))
      (λ _. tt)
  where
    fresh : Items
    fresh =
        record (write_item (record s { next = s.next + 1 }) s.next
          (record junk { name = key_of c })) {
            item_names = (st_add_string s.item_names (some (key_of c)) (some s.next)).1;
          }

    here : item_name fresh s.next ≡ key_of c
    here = elim (Bool-cases (s.next == s.next)) [
      | inl e ↦ rw (e, item_name) refl
      | inr e ↦ absurd (ground (arith, e))
    ]

    others : (p : ℕ) → p < s.next → item_name fresh p ≡ item_name s p
    others p k = elim (Bool-cases (s.next == p)) [
      | inl e ↦ absurd (ground (arith, e, k))
      | inr e ↦ rw (e, item_name) refl
    ]

    next :
        (t : Items)
        → Same fresh t
        → eqb_ℤ (st_add_string s.item_names (some (key_of c)) (some s.next)).0 (pos 0) ≡ true
        → ((u : Items) → AreItems u → Returns (ItemsLoaded u cs) (load_items junk cs u))
        → Returns
            (ItemsLoaded s (c ∷ cs))
            (load_items junk cs (record t { list = s.next ∷ t.list }))
    next t k added rest =
        let (a, names) =
          add-AreItems s t (key_of c) h k.same_list k.same_next k.same_names added
            (k.same_name s.next ∙ here) (λ p l. k.same_name p ∙ others p l) in
        Returns-weaken (ItemsLoaded (record t { list = s.next ∷ t.list }) cs)
          (ItemsLoaded s (c ∷ cs)) (load_items junk cs (record t { list = s.next ∷ t.list }))
          (ItemsLoaded-next s (record t { list = s.next ∷ t.list }) c cs names)
          (rest (record t { list = s.next ∷ t.list }) a)

-- Where the parser fails nothing is loaded.
abbrev pub FileItems : Items → Option (List Config) → Bool × Items → Type 0
FileItems s none (done, t) = (done ≡ false) × (t ≡ s)
FileItems s (some cs) r = ItemsLoaded s cs r

-- From a list of items and a string tree that agree, load_items_from_file ends without a fault.
-- Where the parser fails it returns -1 and changes nothing. If 0 is returned, list and tree agree
-- again: every listed item has a name that the tree finds, every item that the tree finds is
-- listed, and the keys of the file stand in front of the names that were there, the last first.
pub load_items_from_file-FileItems :
    (junk : Item) (conf : Option (List Config)) (s : Items)
    → AreItems s
    → Returns (FileItems s conf) (load_items_from_file junk conf s)
unfolding load_items_from_file
load_items_from_file-FileItems junk none s h = (refl, refl)
load_items_from_file-FileItems junk (some cs) s h = load_items-ItemsLoaded junk cs s h

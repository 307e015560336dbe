-- ===== src/Stringtrie/Values.antt =====
-- stringtrie.c: the data that a trie holds for a string, and what a write to it changes.
use yastg.Prelude.{
  ℕ, List, [], ◌∷◌, Option, none, true, ◌==◌, if◌then◌else◌, ◌≡◌, refl, sym, ap, ◌∙◌, arith, inl,
  inr, ◌⊎◌,
}
use yastg.Stringtrie.Chars.{crunch, get_char_msb, get_char_lsb}
use yastg.Stringtrie.Keys.{same_key}
use yastg.Stringtrie.Node.{Root, Ptr, st_root, no_root, ptr, msb_of, data_of, open_ptr, empty_root}
use yastg.Stringtrie.Ops.{add_path, child, walk, data_at, set_child}
use yastg.Stringtrie.Arrays.{child-set_child}

-- The data that a trie holds for a string.
unfoldable pub value {ℓ} : {A : Type ℓ} → Root A → List ℕ → Option A
unfolding walk
value root s = data_at (walk root s)

module _ {A : Type 0} where
  pub value-empty_root : (s : List ℕ) → value {A = A} empty_root s ≡ none
  unfolding value
  value-empty_root [] = refl
  value-empty_root (c ∷ cs) = refl

  pub value-cons :
      (root : Root A) (c : ℕ) (cs : List ℕ)
      → value root (c ∷ cs) ≡ value (open_ptr (child root c)) cs
  unfolding value walk
  value-cons root c cs = ground (arith, value-empty_root cs)

  pub value-nil : (root : Root A) → value root [] ≡ data_of root
  unfolding value walk
  value-nil root = refl

  -- Below a node its data does not matter.
  pub value-data_of :
      (root : Root A) (d : Option A) (c : ℕ) (cs : List ℕ)
      → value (st_root (msb_of root) d) (c ∷ cs) ≡ value root (c ∷ cs)
  unfolding value walk
  value-data_of root d c cs = refl

  pub value-set_child :
      (root : Root A) (c : ℕ) (p : Ptr A) (b : ℕ) (bs : List ℕ)
      → value (set_child root c p) (b ∷ bs)
        ≡ (if crunch c == crunch b then value (open_ptr p) bs else value root (b ∷ bs))
  value-set_child root c p b bs =
      rw (value-cons (set_child root c p) b bs, child-set_child root c p b)
        (ground (arith, value-cons root b bs))

  -- Characters that crunch alike lead to one child.
  pub child_congr :
      (root : Root A) (c b : ℕ) → (crunch c == crunch b) ≡ true → child root c ≡ child root b
  unfolding get_char_msb get_char_lsb
  child_congr root c b h = ground arith

  -- After `st_add_string` the string, and each string of the same key, has the new data. All others
  -- have what they had.
  pub value-add_path :
      (root : Root A) (s : List ℕ) (d : Option A) (t : List ℕ)
      → value (add_path root s d) t ≡ (if same_key s t then d else value root t)
  unfolding add_path
  value-add_path root [] d [] = value-nil (st_root (msb_of root) d)
  value-add_path root [] d (b ∷ bs) = value-data_of root d b bs
  value-add_path root (c ∷ cs) d [] = value-nil (add_path root (c ∷ cs) d) ∙ sym (value-nil root)
  value-add_path root (c ∷ cs) d (b ∷ bs) =
      let next = open_ptr (child root c) in
      ground (
        arith,
        value-set_child root c (ptr (add_path next cs d)) b bs,
        value-add_path next cs d bs,
        value-cons root b bs,
        child_congr root c b,
      )

  pub value-same_key :
      (root : Root A) (s t : List ℕ) → same_key s t ≡ true → value root s ≡ value root t
  value-same_key root [] [] h = refl
  value-same_key root [] (b ∷ bs) h = cc
  value-same_key root (c ∷ cs) [] h = cc
  value-same_key root (c ∷ cs) (b ∷ bs) h = ground (
    arith,
    value-cons root c cs,
    value-cons root b bs,
    child_congr root c b,
    value-same_key (open_ptr (child root c)) cs bs,
  )

  pub Ptr-cases : (p : Ptr A) → (p ≡ no_root) ⊎ ((next : Root A) × (p ≡ ptr next))
  Ptr-cases no_root = inl refl
  Ptr-cases (ptr next) = inr (next, refl)

  pub value-no_child :
      (node : Root A) (c : ℕ) (cs : List ℕ) → child node c ≡ no_root → value node (c ∷ cs) ≡ none
  value-no_child node c cs e =
      value-cons node c cs ∙ ap (λ p. value (open_ptr p) cs) e ∙ value-empty_root cs

  pub value-child :
      (node : Root A) (c : ℕ) (cs : List ℕ) (next : Root A)
      → child node c ≡ ptr next
      → value node (c ∷ cs) ≡ value next cs
  value-child node c cs next e = value-cons node c cs ∙ ap (λ p. value (open_ptr p) cs) e

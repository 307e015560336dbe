-- ===== src/Stringtrie/Map.antt =====
-- stringtrie.c: `st_add_string`, `st_rm_string` and `st_lookup_exact` as operations on keys, where a key is
-- a string up to the characters that crunch alike.
use yastg.Prelude.{
  ℕ, List, [], ◌∷◌, Option, none, some, Bool, if◌then◌else◌, ◌≡◌, refl, sym, ap, ◌∙◌, arith, inl,
  inr, ok,
}
use yastg.Stringtrie.Keys.{same_key}
use yastg.Stringtrie.Node.{Root, ptr}
use yastg.Stringtrie.Ops.{
  add_path, st_add_string, child, set_child, rm_below, st_rm_string, st_lookup_exact, find_node,
}
use yastg.Stringtrie.Values.{
  value, value-add_path, value-same_key, Ptr-cases, value-no_child, value-child,
}
use yastg.Stringtrie.Removal.{RemovesIf, rm_below-Removes, value-remove_child}

module _ {A : Type 0} where
  st_lookup_exact-value :
      (root : Root A) (c : ℕ) (cs : List ℕ)
      → st_lookup_exact root (some (c ∷ cs)) ≡ ok (value root (c ∷ cs))
  unfolding st_lookup_exact find_node value
  st_lookup_exact-value root c cs = ground arith

  st_lookup_exact-nil : (root : Root A) → st_lookup_exact root (some []) ≡ ok none
  unfolding st_lookup_exact
  st_lookup_exact-nil root = refl

  -- After a string that is not empty is added, an exact lookup of any string finds the new data if
  -- it is the same key, and what it found before otherwise.
  pub st_lookup_exact-st_add_string :
      (root : Root A) (c : ℕ) (cs : List ℕ) (d : Option A) (t : List ℕ)
      → st_lookup_exact (st_add_string root (some (c ∷ cs)) d).1 (some t)
        ≡ (if same_key (c ∷ cs) t then ok d else st_lookup_exact root (some t))
  unfolding st_add_string st_lookup_exact
  st_lookup_exact-st_add_string root c cs d [] = refl
  st_lookup_exact-st_add_string root c cs d (b ∷ bs) = ground (
    arith,
    st_lookup_exact-value (add_path root (c ∷ cs) d) b bs,
    st_lookup_exact-value root b bs,
    value-add_path root (c ∷ cs) d (b ∷ bs),
  )

  -- What `st_rm_string` returns and leaves, in terms of the data of each string.
  pub st_rm_string-value :
      (root : Root A) (c : ℕ) (cs : List ℕ)
      → ((st_rm_string root (some (c ∷ cs))).0 ≡ value root (c ∷ cs))
        × ((t : List ℕ)
            → value (st_rm_string root (some (c ∷ cs))).1 t
              ≡ (if same_key (c ∷ cs) t then none else value root t))
  unfolding st_rm_string
  st_rm_string-value root c cs = elim (Ptr-cases (child root c)) [
    | inl e ↦
        let gone = value-no_child root c cs e in rw (e, st_rm_string) (sym gone, unchanged gone)
    | inr (next, e) ↦
        rw (e, st_rm_string) (below next e (rm_below next cs) (rm_below-Removes next cs))
  ]
    where
      unchanged :
          value root (c ∷ cs) ≡ none
          → (t : List ℕ) → value root t ≡ (if same_key (c ∷ cs) t then none else value root t)
      unchanged gone t = ground (arith, value-same_key root (c ∷ cs) t)

      below :
          (next : Root A)
          → child root c ≡ ptr next
          → (o : Option (Option A × Root A × Bool)) → RemovesIf next cs o
          → let r : Option A × Root A = elim o [
            | none ↦ (none, root)
            | some r ↦ (r.0, set_child root c (ptr r.1))
          ] in
            (r.0 ≡ value root (c ∷ cs))
            × ((t : List ℕ) → value r.1 t ≡ (if same_key (c ∷ cs) t then none else value root t))
      below next e none ih =
          let gone = value-child root c cs next e ∙ ih in (sym gone, unchanged gone)
      below next e (some r) ih = (
        ih.returns ∙ sym (value-child root c cs next e),
        value-remove_child root c cs next r.1 e ih.clears,
      )

  -- st_rm_string of a string that is not empty returns the data that an exact lookup would find.
  -- After it an exact lookup of the same key finds nothing, and any other what it found before.
  pub st_lookup_exact-st_rm_string :
      (root : Root A) (c : ℕ) (cs : List ℕ) (t : List ℕ)
      → (ok (st_rm_string root (some (c ∷ cs))).0 ≡ st_lookup_exact root (some (c ∷ cs)))
        × (st_lookup_exact (st_rm_string root (some (c ∷ cs))).1 (some t)
            ≡ (if same_key (c ∷ cs) t then ok none else st_lookup_exact root (some t)))
  st_lookup_exact-st_rm_string root c cs t =
      (ap ok (st_rm_string-value root c cs).0 ∙ sym (st_lookup_exact-value root c cs), after t)
    where
      after :
          (t : List ℕ)
          → st_lookup_exact (st_rm_string root (some (c ∷ cs))).1 (some t)
            ≡ (if same_key (c ∷ cs) t then ok none else st_lookup_exact root (some t))
      after [] = st_lookup_exact-nil _ ∙ sym (st_lookup_exact-nil root)
      after (b ∷ bs) = ground (
        arith,
        st_lookup_exact-value (st_rm_string root (some (c ∷ cs))).1 b bs,
        st_lookup_exact-value root b bs,
        (st_rm_string-value root c cs).1 (b ∷ bs),
      )

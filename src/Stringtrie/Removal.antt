-- ===== src/Stringtrie/Removal.antt =====
-- stringtrie.c: the key of `st_rm_string`.
use yastg.Prelude.{
  ℕ, List, [], ◌∷◌, Option, none, some, Bool, true, false, if◌then◌else◌, ◌≡◌, refl, sym, ap, ◌∙◌,
  arith, inl, inr,
}
use yastg.Stringtrie.Keys.{same_key}
use yastg.Stringtrie.Node.{Root, st_root, ptr, msb_of, open_ptr}
use yastg.Stringtrie.Ops.{child, set_child, prune, rm_up, rm_below, is_msb_free}
use yastg.Stringtrie.Values.{
  value, value-nil, value-cons, value-set_child, value-data_of, child_congr, Ptr-cases,
  value-no_child, value-child,
}
use yastg.Stringtrie.Prune.{value-prune, prune-go}

module _ {A : Type 0} where
  -- What `rm_below` does: it answers the data, clears the key and keeps all others, and goes on up only
  -- from a node without children.
  pub record Removes (node : Root A) (s : List ℕ) (r : Option A × Root A × Bool) : Type 0 where
    pub returns : r.0 ≡ value node s
    pub clears : (t : List ℕ) → value r.1 t ≡ (if same_key s t then none else value node t)
    pub goes : r.2 ≡ true → is_msb_free r.1 ≡ true

  pub value-remove_child :
      (root : Root A) (c : ℕ) (cs : List ℕ) (next next' : Root A)
      → child root c ≡ ptr next
      → ((t : List ℕ) → value next' t ≡ (if same_key cs t then none else value next t))
      → (t : List ℕ)
      → value (set_child root c (ptr next')) t
        ≡ (if same_key (c ∷ cs) t then none else value root t)
  value-remove_child root c cs next next' e h [] =
      value-nil (set_child root c (ptr next')) ∙ sym (value-nil root)
  value-remove_child root c cs next next' e h (b ∷ bs) = ground (
    arith,
    value-set_child root c (ptr next') b bs,
    h bs,
    value-cons root b bs,
    child_congr root c b,
  )

  -- Where the walk meets NULL there was no data.
  abbrev pub RemovesIf : Root A → List ℕ → Option (Option A × Root A × Bool) → Type 0
  RemovesIf node s none = value node s ≡ none
  RemovesIf node s (some r) = Removes node s r

  Removes-prune :
      (node : Root A) (c : ℕ) (cs : List ℕ) (next : Root A) (d : Option A) (next' : Root A)
      → child node c ≡ ptr next
      → Removes next cs (d, next', true)
      → Removes node (c ∷ cs) (d, (prune node c next').0, (prune node c next').1)
  Removes-prune node c cs next d next' e ih = record {
    returns = ih.returns ∙ sym (value-cons node c cs ∙ ap (λ p. value (open_ptr p) cs) e);
    clears = λ t.
        value-prune node c next' t (ih.goes refl)
        ∙ value-remove_child node c cs next next' e ih.clears t;
    goes = prune-go node c next';
  }

  Removes-keep :
      (node : Root A) (c : ℕ) (cs : List ℕ) (next : Root A) (d : Option A) (next' : Root A)
      (go : Bool)
      → child node c ≡ ptr next
      → Removes next cs (d, next', go)
      → Removes node (c ∷ cs) (d, set_child node c (ptr next'), false)
  Removes-keep node c cs next d next' go e ih = record {
    returns = ih.returns ∙ sym (value-cons node c cs ∙ ap (λ p. value (open_ptr p) cs) e);
    clears = value-remove_child node c cs next next' e ih.clears;
    goes = λ h. cc;
  }

  clears-nil :
      (node : Root A) (t : List ℕ)
      → value (st_root (msb_of node) none) t ≡ (if same_key [] t then none else value node t)
  clears-nil node [] = value-nil (st_root (msb_of node) none)
  clears-nil node (b ∷ bs) = value-data_of node none b bs

  Removes-up :
      (node : Root A) (c : ℕ) (cs : List ℕ) (next : Root A) (r : Option A × Root A × Bool)
      → child node c ≡ ptr next
      → Removes next cs r
      → Removes node (c ∷ cs) (rm_up node c r)
  unfolding rm_up
  Removes-up node c cs next (d, next', false) e ih = Removes-keep node c cs next d next' false e ih
  Removes-up node c cs next (d, next', true) e ih = Removes-prune node c cs next d next' e ih

  pub rm_below-Removes : (node : Root A) (s : List ℕ) → RemovesIf node s (rm_below node s)
  unfolding rm_below
  rm_below-Removes node [] = record {
    returns = sym (value-nil node);
    clears = clears-nil node;
    goes = λ h. h;
  }
  rm_below-Removes node (c ∷ cs) = elim (Ptr-cases (child node c)) [
    | inl e ↦ rw (e, rm_below) (value-no_child node c cs e)
    | inr (next, e) ↦ rw (e, rm_below) (up next e (rm_below next cs) (rm_below-Removes next cs))
  ]
    where
      up :
          (next : Root A)
          → child node c ≡ ptr next
          → (o : Option (Option A × Root A × Bool)) → RemovesIf next cs o
          → RemovesIf node (c ∷ cs) (elim o [ none ↦ none | some r ↦ some (rm_up node c r) ])
      up next e none ih = value-child node c cs next e ∙ ih
      up next e (some r) ih = Removes-up node c cs next r e ih

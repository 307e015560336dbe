-- ===== src/Stringtrie/Prune.antt =====
-- stringtrie.c: the nodes that `st_rm_string` frees.
use yastg.Prelude.{
  ℕ, List, [], ◌∷◌, Option, none, some, true, false, ◌==◌, if◌then◌else◌, ◌≡◌, sym, ◌∙◌, arith,
  Bool-cases, Option-cases, inl, inr,
}
use yastg.Stringtrie.Chars.{crunch, get_char_msb, get_char_lsb}
use yastg.Stringtrie.Keys.{get_char_lsb_lem, get_char_msb_lem, get_char_lsb-lt}
use yastg.Stringtrie.Node.{Root, Ptr, st_root, no_lsb, no_root, ptr, put, msb_of, data_of, open_lsb}
use yastg.Stringtrie.Ops.{child, set_child, prune, is_msb_free, is_lsb_free}
use yastg.Stringtrie.Arrays.{child-is_msb_free, is_lsb_free_lem}
use yastg.Stringtrie.Values.{value, value-nil, value-empty_root, value-cons, value-set_child}

module _ {A : Type 0} where
  value-dead :
      (node : Root A) (s : List ℕ)
      → data_of node ≡ none
      → is_msb_free node ≡ true
      → value node s ≡ none
  value-dead node [] h free = value-nil node ∙ h
  value-dead node (c ∷ cs) h free =
      rw (value-cons node c cs, child-is_msb_free node c free) (value-empty_root cs)

  child-put_no_lsb :
      (root : Root A) (m : ℕ) (d : Option A) (b : ℕ)
      → child (st_root (put (msb_of root) m no_lsb) d) b
        ≡ (if m == get_char_msb b then no_root else child root b)
  child-put_no_lsb root m d b = ground arith

  -- A node array whose entries are all NULL has no string left in it.
  child-lsb_free :
      (root : Root A) (c b : ℕ)
      → is_lsb_free (put (open_lsb (msb_of root (get_char_msb c))) (get_char_lsb c) no_root) ≡ true
      → (get_char_msb c == get_char_msb b) ≡ true
      → (crunch c == crunch b) ≡ false
      → child root b ≡ no_root
  child-lsb_free root c b free same other = ground (
    arith,
    is_lsb_free_lem (put (open_lsb (msb_of root (get_char_msb c))) (get_char_lsb c) no_root)
        (get_char_lsb b) free (get_char_lsb-lt b),
    get_char_lsb_lem b,
    get_char_lsb_lem c,
    get_char_msb_lem b,
    get_char_msb_lem c,
  )

  -- The array of a node after its entry for `c` is set to NULL, and the node without that array.
  abbrev pub lsb_without : Root A → ℕ → ℕ → Ptr A
  lsb_without root c = put (open_lsb (msb_of root (get_char_msb c))) (get_char_lsb c) no_root

  abbrev pub msb_without : Root A → ℕ → Root A
  msb_without root c = st_root (put (msb_of root) (get_char_msb c) no_lsb) (data_of root)

  pub prune-data :
      (root : Root A) (c : ℕ) (next : Root A) (x : A)
      → data_of next ≡ some x
      → prune root c next ≡ (set_child root c (ptr next), false)
  unfolding prune
  prune-data root c next x e = rw (e, prune)

  pub prune-shared :
      (root : Root A) (c : ℕ) (next : Root A)
      → data_of next ≡ none
      → is_lsb_free (lsb_without root c) ≡ false
      → prune root c next ≡ (set_child root c no_root, false)
  unfolding prune
  prune-shared root c next e h = rw (e, prune, h)

  pub prune-gone :
      (root : Root A) (c : ℕ) (next : Root A)
      → data_of next ≡ none
      → is_lsb_free (lsb_without root c) ≡ true
      → prune root c next ≡ (msb_without root c, is_msb_free (msb_without root c))
  unfolding prune
  prune-gone root c next e h = rw (e, prune, h)

  value-no_root :
      (root : Root A) (c : ℕ) (next : Root A) (s : List ℕ)
      → data_of next ≡ none
      → is_msb_free next ≡ true
      → value (set_child root c no_root) s ≡ value (set_child root c (ptr next)) s
  value-no_root root c next [] e free =
      value-nil (set_child root c no_root) ∙ sym (value-nil (set_child root c (ptr next)))
  value-no_root root c next (b ∷ bs) e free = ground (
    arith,
    value-set_child root c (ptr next) b bs,
    value-set_child root c no_root b bs,
    value-empty_root {A = A} bs,
    value-dead next bs,
  )

  value-msb_without :
      (root : Root A) (c : ℕ) (s : List ℕ)
      → is_lsb_free (lsb_without root c) ≡ true
      → value (msb_without root c) s ≡ value (set_child root c no_root) s
  value-msb_without root c [] free =
      value-nil (msb_without root c) ∙ sym (value-nil (set_child root c no_root))
  value-msb_without root c (b ∷ bs) free = ground (
    arith,
    value-set_child root c no_root b bs,
    value-empty_root {A = A} bs,
    value-cons root b bs,
    value-cons (msb_without root c) b bs,
    child-lsb_free root c b,
    child-put_no_lsb root (get_char_msb c) (data_of root) b,
    get_char_msb_lem b,
    get_char_msb_lem c,
  )

  -- Freeing a node without data and without children changes no value.
  pub value-prune :
      (root : Root A) (c : ℕ) (next : Root A) (s : List ℕ)
      → is_msb_free next ≡ true
      → value (prune root c next).0 s ≡ value (set_child root c (ptr next)) s
  value-prune root c next s free = elim (Option-cases (data_of next)) [
    | inr (x, e) ↦ rw (prune-data root c next x e)
    | inl e ↦ elim (Bool-cases (is_lsb_free (lsb_without root c))) [
      | inl h ↦
          rw (prune-gone root c next e h)
            (value-msb_without root c s h ∙ value-no_root root c next s e free)
      | inr h ↦ rw (prune-shared root c next e h) (value-no_root root c next s e free)
    ]
  ]

  pub prune-go :
      (root : Root A) (c : ℕ) (next : Root A)
      → (prune root c next).1 ≡ true
      → is_msb_free (prune root c next).0 ≡ true
  prune-go root c next h = elim (Option-cases (data_of next)) [
    | inr (x, e) ↦ absurd (cc (prune-data root c next x e))
    | inl e ↦ elim (Bool-cases (is_lsb_free (lsb_without root c))) [
      | inl f ↦ rw (prune-gone root c next e f) (rw (prune-gone root c next e f) at h)
      | inr f ↦ absurd (cc (prune-shared root c next e f))
    ]
  ]

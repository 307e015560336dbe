-- ===== src/Stringtrie/Dead.antt =====
-- stringtrie.c: the node for a first character under `st_rm_string`, and the lookup of that character.
use yastg.Prelude.{
  ℕ, List, [], ◌∷◌, Option, none, some, Bool, false, ◌≡◌, refl, sym, ap, ◌∙◌, arith, inl, inr,
  Bool-cases, subst, ok, fault, Run, null_deref,
}
use yastg.Stringtrie.Node.{Root, Ptr, st_root, no_root, ptr, data_of, is_lsb, open_ptr}
use yastg.Stringtrie.Ops.{
  Scan, scan, absent, several, only, only_child_of_lsb, is_msb_free, child, set_child,
  get_the_only_child, st_add_string, st_rm_string, st_lookup_string, add_path, rm_below, Scan,
}
use yastg.Stringtrie.Values.{value, value-child, value-no_child, value-add_path}
use yastg.Stringtrie.Map.{st_rm_string-value}
use yastg.Stringtrie.Lookup.{st_lookup_string-walk, walk-child}
use yastg.Stringtrie.Scans.{is_free-scan}
use yastg.Stringtrie.Arrays.{child-set_child}
use yastg.Stringtrie.Ops.{walk}
use yastg.Stringtrie.Live.{IsLive, in_use, IsLive-Reaches}
use yastg.Stringtrie.Upkeep.{IsKept}
use yastg.Stringtrie.Kept.{IsKept-child, st_rm_string-IsKept, st_add_string-IsKept}

module _ {A : Type 0} where
  dead-fault : (node : Root A) → in_use node ≡ false → get_the_only_child node ≡ fault null_deref
  unfolding get_the_only_child is_msb_free
  dead-fault (st_root msb (some x)) h = cc
  dead-fault (st_root msb none) h =
      let e : scan 8 0 (λ i. is_lsb (msb i)) absent ≡ absent =
        is_free-scan 8 0 (λ i. is_lsb (msb i)) (ground arith) in
      let answer : Scan → Run (Option (Root A)) = elim [
        | several ↦ ok none
        | absent ↦ fault null_deref
        | only i ↦ only_child_of_lsb (msb i)
      ] in
      ap answer e

  data_of-dead : (node : Root A) → in_use node ≡ false → data_of node ≡ none
  data_of-dead (st_root msb (some x)) h = cc
  data_of-dead (st_root msb none) h = refl

  -- The lookup of a first character whose node is out of use.
  pub lookup-dead :
      (root : Root A) (c : ℕ) (node : Root A)
      → child root c ≡ ptr node
      → in_use node ≡ false
      → st_lookup_string root (some (c ∷ [])) ≡ fault null_deref
  unfolding walk
  lookup-dead root c node e h =
      st_lookup_string-walk root c [] node (walk-child root c [] node e)
      ∙ (rw (data_of-dead node h, dead-fault node h) refl)

  -- A live node below which no string has data is out of use.
  out_of_use :
      (node : Root A) → IsLive node → ((t : List ℕ) → value node t ≡ none) → in_use node ≡ false
  out_of_use node live h = elim (Bool-cases (in_use node)) [
    | inl e ↦ let (s, n) = IsLive-Reaches node live e in absurd (n (h s))
    | inr e ↦ e
  ]

  -- The node for the first character is there before and after a removal.
  child_kept :
      (root : Root A) (c : ℕ) (cs : List ℕ)
      → (next : Root A) × (child root c ≡ ptr next)
      → (next : Root A) × (child (st_rm_string root (some (c ∷ cs))).1 c ≡ ptr next)
  unfolding st_rm_string
  child_kept root c cs (next, e) = rw (e, st_rm_string) (kept (rm_below next cs))
    where
      kept :
          (o : Option (Option A × Root A × Bool))
          → let r : Option A × Root A = elim o [
            | none ↦ (none, root)
            | some r ↦ (r.0, set_child root c (ptr r.1))
          ] in
            (next : Root A) × (child r.1 c ≡ ptr next)
      kept none = (next, e)
      kept (some r) = (r.1, child_self (ptr r.1))
        where
          child_self : (p : Ptr A) → child (set_child root c p) c ≡ p
          child_self p = child-set_child root c p c ∙ ground arith

  child-add :
      (root : Root A) (c : ℕ) (cs : List ℕ) (d : Option A)
      → child (st_add_string root (some (c ∷ cs)) d).1 c
        ≡ ptr (add_path (open_ptr (child root c)) cs d)
  unfolding st_add_string add_path
  child-add root c cs d =
      child-set_child root c (ptr (add_path (open_ptr (child root c)) cs d)) c ∙ ground arith

  -- No string from its character on has data after the only such string is added and removed.
  value-after_rm :
      (root : Root A) (c : ℕ) (cs : List ℕ) (x : A)
      → child root c ≡ no_root
      → (t : List ℕ)
      → value
          (st_rm_string (st_add_string root (some (c ∷ cs)) (some x)).1 (some (c ∷ cs))).1
          (c ∷ t)
        ≡ none
  unfolding st_add_string
  value-after_rm root c cs x e t = ground (
    arith,
    (st_rm_string-value (add_path root (c ∷ cs) (some x)) c cs).1 (c ∷ t),
    value-add_path root (c ∷ cs) (some x) (c ∷ t),
    value-no_child root c t e,
  )

  -- In a kept string tree without a node for some character, when a string that begins with it is
  -- added and removed again, st_lookup_string of that character alone reads a NULL pointer.
  pub st_lookup_string-after_rm :
      (root : Root A) (c : ℕ) (cs : List ℕ) (x : A)
      → IsKept root
      → child root c ≡ no_root
      → st_lookup_string
          (st_rm_string (st_add_string root (some (c ∷ cs)) (some x)).1 (some (c ∷ cs))).1
          (some (c ∷ []))
        ≡ fault null_deref
  st_lookup_string-after_rm root c cs x kept e =
      let added = (st_add_string root (some (c ∷ cs)) (some x)).1 in
      let (next, en) = child_kept added c cs (_, child-add root c cs (some x)) in
      lookup-dead (st_rm_string added (some (c ∷ cs))).1 c next en (
        out_of_use next
          (subst (λ p. IsLive (open_ptr p)) en
            (IsKept-child (st_rm_string added (some (c ∷ cs))).1 c (
              st_rm_string-IsKept added (some (c ∷ cs))
                (st_add_string-IsKept root (some (c ∷ cs)) x kept))))
          (λ t.
            sym (value-child (st_rm_string added (some (c ∷ cs))).1 c t next en)
            ∙ value-after_rm root c cs x e t))

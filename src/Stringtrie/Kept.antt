-- ===== src/Stringtrie/Kept.antt =====
-- stringtrie.c: the tries that removals, and sequences of operations, leave.
use yastg.Prelude.{
  ℕ, ◌<◌, List, [], ◌∷◌, Option, none, some, Bool, true, false, ◌≡◌, refl, inl, inr, Bool-cases,
  Option-cases, subst,
}
use yastg.Stringtrie.Chars.{get_char_msb, get_char_lsb}
use yastg.Stringtrie.Node.{
  Root, Lsb, Ptr, st_root, no_lsb, st_lsb, no_root, ptr, put, msb_of, data_of, open_lsb, open_ptr,
}
use yastg.Stringtrie.Keys.{get_char_msb-lt, get_char_lsb-lt}
use yastg.Stringtrie.Ops.{
  is_lsb_free, child, set_child, add_path, prune, rm_up, rm_below, st_rm_string, st_add_string,
  st_init,
}
use yastg.Stringtrie.Values.{Ptr-cases}
use yastg.Stringtrie.Prune.{lsb_without, prune-data, prune-shared, prune-gone}
use yastg.Stringtrie.Live.{IsLive, LivePtr, in_use}
use yastg.Stringtrie.Upkeep.{
  TopLsb, IsKept, put-all, empty_root-IsLive, LivePtr-IsLive, IsLive-child, in_use_of_msb,
  in_use-set_child, IsLive-write, IsLive-set_child, IsLive-msb_without, in_use-data,
  IsLive-add_path,
}

module _ {A : Type 0} where
  -- What is left of a live node on the way up: it is live, and in use if the loop has ended.
  abbrev Left : Option A × Root A × Bool → Type 0
  Left r = IsLive r.1 × (r.2 ≡ false → in_use r.1 ≡ true)

  abbrev LeftIf : Option (Option A × Root A × Bool) → Type 0
  LeftIf none = Unit {0}
  LeftIf (some r) = Left r

  Left-prune :
      (node : Root A) (c : ℕ) (d : Option A) (next : Root A)
      → IsLive node
      → IsLive next
      → Left (d, (prune node c next).0, (prune node c next).1)
  Left-prune node c d next live ln = elim (Option-cases (data_of next)) [
    | inr (x, e) ↦ rw (prune-data node c next x e) (
      IsLive-set_child node c next live ln (in_use-data next x e),
      λ h. in_use-set_child node c (ptr next),
    )
    | inl e ↦ elim (Bool-cases (is_lsb_free (lsb_without node c))) [
      | inl h ↦ rw (prune-gone node c next e h) (
        IsLive-msb_without node c live,
        in_use_of_msb (put (msb_of node) (get_char_msb c) no_lsb) (data_of node),
      )
      | inr h ↦
          rw (prune-shared node c next e h)
            (IsLive-write node c no_root live tt h, λ h. in_use-set_child node c no_root)
    ]
  ]

  Left-up :
      (node : Root A) (c : ℕ) (r : Option A × Root A × Bool)
      → IsLive node
      → Left r
      → Left (rm_up node c r)
  unfolding rm_up
  Left-up node c (d, next, false) live h =
      (IsLive-set_child node c next live h.0 (h.1 refl), λ e. in_use-set_child node c (ptr next))
  Left-up node c (d, next, true) live h = Left-prune node c d next live h.0

  LivePtr-ptr : (p : Ptr A) (next : Root A) → p ≡ ptr next → LivePtr p → IsLive next
  LivePtr-ptr p next e h = LivePtr-IsLive (ptr next) (subst LivePtr e h)

  clear_data-IsLive : (node : Root A) → IsLive node → IsLive (st_root (msb_of node) none)
  clear_data-IsLive (st_root msb d) live = live

  rm_below-Left : (node : Root A) (s : List ℕ) → IsLive node → LeftIf (rm_below node s)
  unfolding rm_below
  rm_below-Left node [] live = (clear_data-IsLive node live, in_use_of_msb (msb_of node) none)
  rm_below-Left node (c ∷ cs) live = elim (Ptr-cases (child node c)) [
    | inl e ↦ rw (e, rm_below) tt
    | inr (next, e) ↦
        rw (e, rm_below)
          (up (rm_below next cs)
            (rm_below-Left next cs (LivePtr-ptr (child node c) next e (IsLive-child node c live))))
  ]
    where
      up :
          (o : Option (Option A × Root A × Bool))
          → LeftIf o
          → LeftIf (elim o [ none ↦ none | some r ↦ some (rm_up node c r) ])
      up none h = tt
      up (some r) h = Left-up node c r live h

  pub IsKept-child : (root : Root A) (c : ℕ) → IsKept root → IsLive (open_ptr (child root c))
  IsKept-child root c kept =
      through (msb_of root (get_char_msb c)) (kept (get_char_msb c) (get_char_msb-lt c))
    where
      through : (p : Lsb A) → TopLsb p → IsLive (open_ptr (open_lsb p (get_char_lsb c)))
      through no_lsb h = empty_root-IsLive A
      through (st_lsb f) h = h (get_char_lsb c) (get_char_lsb-lt c)

  TopLsb-open : (p : Lsb A) → TopLsb p → (j : ℕ) → j < 8 → IsLive (open_ptr (open_lsb p j))
  TopLsb-open no_lsb h j hj = empty_root-IsLive A
  TopLsb-open (st_lsb f) h j hj = h j hj

  IsKept-set_child :
      (root : Root A) (c : ℕ) (next : Root A)
      → IsKept root
      → IsLive next
      → IsKept (set_child root c (ptr next))
  IsKept-set_child root c next kept ln =
      put-all TopLsb (msb_of root) (get_char_msb c) _
        (put-all (λ p. IsLive (open_ptr p)) (open_lsb (msb_of root (get_char_msb c)))
          (get_char_lsb c) (ptr next) ln
          (TopLsb-open (msb_of root (get_char_msb c)) (kept (get_char_msb c) (get_char_msb-lt c))))
        kept

  -- `st_add_string` of data that is not NULL keeps the trie live below the first characters, whether or
  -- not the string is refused.
  pub st_add_string-IsKept :
      (root : Root A) (s : Option (List ℕ)) (x : A)
      → IsKept root
      → IsKept (st_add_string root s (some x)).1
  unfolding st_add_string add_path
  st_add_string-IsKept root none x kept = kept
  st_add_string-IsKept root (some []) x kept = kept
  st_add_string-IsKept root (some (c ∷ cs)) x kept =
      IsKept-set_child root c (add_path (open_ptr (child root c)) cs (some x)) kept
        (IsLive-add_path (open_ptr (child root c)) cs x (IsKept-child root c kept)).0

  -- So does `st_rm_string`, of any string.
  pub st_rm_string-IsKept :
      (root : Root A) (s : Option (List ℕ)) → IsKept root → IsKept (st_rm_string root s).1
  unfolding st_rm_string
  st_rm_string-IsKept root none kept = kept
  st_rm_string-IsKept root (some []) kept = kept
  st_rm_string-IsKept root (some (c ∷ cs)) kept = elim (Ptr-cases (child root c)) [
    | inl e ↦ rw (e, st_rm_string) kept
    | inr (next, e) ↦
        rw (e, st_rm_string)
          (top (rm_below next cs)
            (rm_below-Left next cs (subst (λ p. IsLive (open_ptr p)) e (IsKept-child root c kept))))
  ]
    where
      top :
          (o : Option (Option A × Root A × Bool))
          → LeftIf o
          → let r : Option A × Root A = elim o [
            | none ↦ (none, root)
            | some r ↦ (r.0, set_child root c (ptr r.1))
          ] in
            IsKept r.1
      top none h = kept
      top (some r) h = IsKept-set_child root c r.1 kept h.0

pub st_init-IsKept : (A : Type 0) → IsKept {A = A} st_init
unfolding st_init
st_init-IsKept A i hi = tt

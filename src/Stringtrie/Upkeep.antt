-- ===== src/Stringtrie/Upkeep.antt =====
-- stringtrie.c: live tries, and what `st_add_string` does to them.
use yastg.Prelude.{
  ℕ, ◌<◌, List, [], ◌∷◌, Option, none, some, true, false, ◌≡◌, refl, arith, inl, inr, Bool-cases,
  ◌==◌,
}
use yastg.Stringtrie.Chars.{get_char_msb, get_char_lsb}
use yastg.Stringtrie.Node.{
  Root, Lsb, Ptr, st_root, no_lsb, st_lsb, no_root, ptr, put, msb_of, data_of, open_lsb, open_ptr,
  empty_root,
}
use yastg.Stringtrie.Keys.{get_char_msb-lt, get_char_lsb-lt}
use yastg.Stringtrie.Ops.{is_msb_free, is_lsb_free, child, set_child, add_path}
use yastg.Stringtrie.Arrays.{is_msb_free_lem, is_lsb_free_lem}
use yastg.Stringtrie.Prune.{msb_without}
use yastg.Stringtrie.Live.{IsLive, LiveLsb, LivePtr, in_use}

-- The trie is live below the nodes for the first characters; those may be out of use.
abbrev pub TopLsb : {A : Type 0} → Lsb A → Type 0
TopLsb no_lsb = Unit {0}
TopLsb (st_lsb f) = (j : ℕ) → j < 8 → IsLive (open_ptr (f j))

abbrev pub IsKept : {A : Type 0} → Root A → Type 0
IsKept root = (i : ℕ) → i < 8 → TopLsb (msb_of root i)

pub put-all :
    {X : Type 0} (P : X → Type 0) (f : ℕ → X) (k : ℕ) (x : X)
    → P x
    → ((i : ℕ) → i < 8 → P (f i))
    → (i : ℕ) → i < 8
    → P (put f k x i)
put-all P f k x hx h i hi = elim (Bool-cases (k == i)) [ inl e ↦ rw e hx | inr e ↦ rw e (h i hi) ]

pub empty_root-IsLive : (A : Type 0) → IsLive {A = A} empty_root
empty_root-IsLive A i hi = tt

module _ {A : Type 0} where
  pub LivePtr-IsLive : (p : Ptr A) → LivePtr p → IsLive (open_ptr p)
  LivePtr-IsLive no_root h = empty_root-IsLive A
  LivePtr-IsLive (ptr node) h = h.1

  IsLive-open :
      (node : Root A) (i : ℕ)
      → IsLive node
      → i < 8
      → (j : ℕ) → j < 8
      → LivePtr (open_lsb (msb_of node i) j)
  IsLive-open (st_root msb d) i live hi = through (msb i) (live i hi)
    where
      through : (p : Lsb A) → LiveLsb p → (j : ℕ) → j < 8 → LivePtr (open_lsb p j)
      through no_lsb h j hj = tt
      through (st_lsb f) h j hj = h.1 j hj

  pub IsLive-child : (node : Root A) (c : ℕ) → IsLive node → LivePtr (child node c)
  IsLive-child node c live =
      IsLive-open node (get_char_msb c) live (get_char_msb-lt c) (get_char_lsb c)
        (get_char_lsb-lt c)

  not_free-lsb :
      (f : ℕ → Ptr A) (l : ℕ) (next : Root A) → l < 8 → is_lsb_free (put f l (ptr next)) ≡ false
  not_free-lsb f l next hl = elim (Bool-cases (is_lsb_free (put f l (ptr next)))) [
    | inl e ↦ absurd (ground (arith, is_lsb_free_lem (put f l (ptr next)) l e hl))
    | inr e ↦ e
  ]

  not_free-msb :
      (msb : ℕ → Lsb A) (d : Option A) (m : ℕ) (f : ℕ → Ptr A)
      → m < 8
      → is_msb_free (st_root (put msb m (st_lsb f)) d) ≡ false
  not_free-msb msb d m f hm = elim (Bool-cases (is_msb_free (st_root (put msb m (st_lsb f)) d))) [
    | inl e ↦ absurd (ground (arith, is_msb_free_lem (st_root (put msb m (st_lsb f)) d) m e hm))
    | inr e ↦ e
  ]

  pub in_use_of_msb :
      (msb : ℕ → Lsb A) (d : Option A)
      → is_msb_free (st_root msb d) ≡ false
      → in_use (st_root msb d) ≡ true
  in_use_of_msb msb (some x) e = refl
  in_use_of_msb msb none e = ground arith

  pub in_use-set_child : (node : Root A) (c : ℕ) (p : Ptr A) → in_use (set_child node c p) ≡ true
  in_use-set_child node c p =
      in_use_of_msb _ (data_of node)
        (not_free-msb (msb_of node) (data_of node) (get_char_msb c) _ (get_char_msb-lt c))

  pub IsLive-write :
      (node : Root A) (c : ℕ) (p : Ptr A)
      → IsLive node
      → LivePtr p
      → is_lsb_free (put (open_lsb (msb_of node (get_char_msb c))) (get_char_lsb c) p) ≡ false
      → IsLive (set_child node c p)
  IsLive-write (st_root msb d) c p live lp nf =
      put-all LiveLsb msb (get_char_msb c) _
        (
          nf,
          put-all LivePtr (open_lsb (msb (get_char_msb c))) (get_char_lsb c) p lp
              (IsLive-open (st_root msb d) (get_char_msb c) live (get_char_msb-lt c)),
        )
        live

  pub IsLive-set_child :
      (node : Root A) (c : ℕ) (next : Root A)
      → IsLive node
      → IsLive next
      → in_use next ≡ true
      → IsLive (set_child node c (ptr next))
  IsLive-set_child node c next live ln un =
      IsLive-write node c (ptr next) live (un, ln)
        (not_free-lsb (open_lsb (msb_of node (get_char_msb c))) (get_char_lsb c) next
          (get_char_lsb-lt c))

  pub IsLive-msb_without : (node : Root A) (c : ℕ) → IsLive node → IsLive (msb_without node c)
  IsLive-msb_without (st_root msb d) c live = put-all LiveLsb msb (get_char_msb c) no_lsb tt live

  pub in_use-data : (node : Root A) (x : A) → data_of node ≡ some x → in_use node ≡ true
  in_use-data (st_root msb (some y)) x e = refl
  in_use-data (st_root msb none) x e = cc

  -- Data that is not NULL keeps a live trie live.
  pub IsLive-add_path :
      (node : Root A) (s : List ℕ) (x : A)
      → IsLive node
      → IsLive (add_path node s (some x)) × (in_use (add_path node s (some x)) ≡ true)
  unfolding add_path
  IsLive-add_path (st_root msb d) [] x live = (live, refl)
  IsLive-add_path (st_root msb d) (c ∷ cs) x live =
      let node = st_root msb d in
      let next = open_ptr (child node c) in
      let ih =
        IsLive-add_path next cs x (LivePtr-IsLive (child node c) (IsLive-child node c live)) in
      (
        IsLive-set_child node c (add_path next cs (some x)) live ih.0 ih.1,
        in_use-set_child node c (ptr (add_path next cs (some x))),
      )

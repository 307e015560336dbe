-- ===== src/Stringtrie/Live.antt =====
-- stringtrie.c: tries in which every allocated node leads to data.
use yastg.Prelude.{
  ℕ, ◌<◌, List, [], ◌∷◌, none, some, Bool, true, false, not, ◌≡◌, ◌≢◌, arith, ap₂, ◌∙◌, sym, ap,
}
use yastg.Stringtrie.Node.{
  Root, Lsb, Ptr, st_root, no_lsb, st_lsb, no_root, ptr, msb_of, is_lsb, is_root, open_lsb,
  open_ptr,
}
use yastg.Stringtrie.Keys.{char_at, char_at_lem}
use yastg.Stringtrie.Ops.{is_msb_free, is_lsb_free, child}
use yastg.Stringtrie.Scans.{is_free-false}
use yastg.Stringtrie.Values.{value, value-nil, value-cons}

module _ {A : Type 0} where
  -- The node has data or an allocated child.
  abbrev pub in_use : Root A → Bool
  in_use (st_root msb (some x)) = true
  in_use (st_root msb none) = not (is_msb_free (st_root msb none))

-- Below the root no array is empty, and every node has data or a child.
abbrev mutual
  pub IsLive : {A : Type 0} → Root A → Type 0
  IsLive (st_root msb d) = (i : ℕ) → i < 8 → LiveLsb (msb i)

  pub LiveLsb : {A : Type 0} → Lsb A → Type 0
  LiveLsb no_lsb = Unit
  LiveLsb (st_lsb f) = (is_lsb_free f ≡ false) × ((j : ℕ) → j < 8 → LivePtr (f j))

  pub LivePtr : {A : Type 0} → Ptr A → Type 0
  LivePtr no_root = Unit
  LivePtr (ptr node) = (in_use node ≡ true) × IsLive node

-- Some string from this node on has data.
abbrev Reaches : {A : Type 0} → Root A → Type 0
Reaches node = (s : List ℕ) × (value node s ≢ none)

module _ {A : Type 0} where
  child-char_at :
      (root : Root A) (i j : ℕ)
      → i < 8
      → j < 8
      → child root (char_at i j) ≡ open_lsb (msb_of root i) j
  child-char_at root i j hi hj =
      let e = char_at_lem i j hi hj in ap₂ (λ m l. open_lsb (msb_of root m) l) e.0 e.1

  pub value-char_at :
      (root : Root A) (i j : ℕ) (s : List ℕ)
      → i < 8
      → j < 8
      → value root (char_at i j ∷ s) ≡ value (open_ptr (open_lsb (msb_of root i) j)) s
  value-char_at root i j s hi hj =
      value-cons root (char_at i j) s
      ∙ ap (λ p. value (open_ptr p) s) (child-char_at root i j hi hj)

mutual
  unfolding is_msb_free is_lsb_free

  reach_root : {A : Type 0} (node : Root A) → IsLive node → in_use node ≡ true → Reaches node
  reach_root (st_root msb (some x)) live used = ([], λ e. cc (value-nil (st_root msb (some x))))
  reach_root (st_root msb none) live used =
      let (i, lo, hi, t) = is_free-false 8 0 (λ k. is_lsb (msb k)) (ground arith) in
      let (j, hj, s, h) = reach_lsb (msb i) (live i (omega arith)) t in
      (char_at i j ∷ s, λ e. h (sym (value-char_at (st_root msb none) i j s (omega arith) hj) ∙ e))

  reach_lsb :
      {A : Type 0} (p : Lsb A)
      → LiveLsb p
      → is_lsb p ≡ true
      → (j : ℕ) × (j < 8) × (s : List ℕ) × (value (open_ptr (open_lsb p j)) s ≢ none)
  reach_lsb no_lsb live t = cc
  reach_lsb (st_lsb f) live t =
      let (j, lo, hj, tj) = is_free-false 8 0 (λ k. is_root (f k)) live.0 in
      let (s, h) = reach_ptr (f j) (live.1 j (omega arith)) tj in (j, omega arith, s, h)

  reach_ptr :
      {A : Type 0} (p : Ptr A)
      → LivePtr p
      → is_root p ≡ true
      → (s : List ℕ) × (value (open_ptr p) s ≢ none)
  reach_ptr no_root live t = cc
  reach_ptr (ptr node) live t = reach_root node live.1 live.0

-- From a node that is in use in a live trie some string has data.
pub IsLive-Reaches : {A : Type 0} (node : Root A) → IsLive node → in_use node ≡ true → Reaches node
IsLive-Reaches node live used = reach_root node live used

pub LivePtr-reaches :
    {A : Type 0} (p : Ptr A)
    → LivePtr p
    → is_root p ≡ true
    → (s : List ℕ) × (value (open_ptr p) s ≢ none)
LivePtr-reaches p live t = reach_ptr p live t

pub LiveLsb-reaches :
    {A : Type 0} (p : Lsb A)
    → LiveLsb p
    → is_lsb p ≡ true
    → (j : ℕ) × (j < 8) × (s : List ℕ) × (value (open_ptr (open_lsb p j)) s ≢ none)
LiveLsb-reaches p live t = reach_lsb p live t

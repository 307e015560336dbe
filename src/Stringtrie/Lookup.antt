-- ===== src/Stringtrie/Lookup.antt =====
-- stringtrie.c: what `st_lookup_string` finds by an abbreviation, and where it reads a NULL pointer.
use yastg.Prelude.{
  ℕ, List, [], ◌∷◌, ◌++◌, Option, none, some, ◌≡◌, sym, ap, ◌∙◌, inl, inr, ◌⊎◌, Option-cases, subst,
  ok, fault, Run, ◌>>=◌, some-injective, fun_ext,
}
use yastg.Stringtrie.Node.{Root, st_root, no_root, ptr, data_of, open_ptr}
use yastg.Stringtrie.Ops.{child, walk, find_node, data_at, st_lookup_string, get_the_only_child}
use yastg.Stringtrie.Values.{value, value-nil, value-child, value-no_child, Ptr-cases}
use yastg.Stringtrie.Live.{IsLive, LivePtr}
use yastg.Stringtrie.Prefix.{Single, Many, Answer}
use yastg.Stringtrie.Answers.{get_the_only_child-Answer}
use yastg.Stringtrie.Upkeep.{IsKept, IsLive-child}
use yastg.Stringtrie.Kept.{IsKept-child}

-- What a lookup finds, in terms of the data `v` of each way to go on from the string: the data of the
-- string itself, else the data of the only key that begins with it; nothing, if there is no such key or
-- more than one.
abbrev pub Outcome : {A : Type 0} → (List ℕ → Option A) → Run (Option A) → Type 0
Outcome v (ok (some x)) = (v [] ≡ some x) ⊎ ((v [] ≡ none) × Single v x)
Outcome v (ok none) = (v [] ≡ none) × (((t : List ℕ) → v t ≡ none) ⊎ Many v)
Outcome v (fault e) = ⊥

module _ {A : Type 0} where
  pub walk-child :
      (root : Root A) (c : ℕ) (cs : List ℕ) (next : Root A)
      → child root c ≡ ptr next
      → walk root (c ∷ cs) ≡ walk next cs
  unfolding walk
  walk-child root c cs next e = rw (e, walk)

  pub walk-no_child :
      (root : Root A) (c : ℕ) (cs : List ℕ) → child root c ≡ no_root → walk root (c ∷ cs) ≡ none
  unfolding walk
  walk-no_child root c cs e = rw (e, walk)

  value-walk :
      (root : Root A) (s : List ℕ) (node : Root A)
      → walk root s ≡ some node
      → (t : List ℕ) → value root (s ++ t) ≡ value node t
  unfolding walk
  value-walk root [] node h t = ap (λ n. value n t) (some-injective _ _ h)
  value-walk root (c ∷ cs) node h t = elim (Ptr-cases (child root c)) [
    | inl e ↦ absurd (cc (walk-no_child root c cs e))
    | inr (next, e) ↦
        value-child root c (cs ++ t) next e
        ∙ value-walk next cs node (sym (walk-child root c cs next e) ∙ h) t
  ]

  value-walk-none :
      (root : Root A) (s : List ℕ) → walk root s ≡ none → (t : List ℕ) → value root (s ++ t) ≡ none
  unfolding walk
  value-walk-none root [] h t = cc
  value-walk-none root (c ∷ cs) h t = elim (Ptr-cases (child root c)) [
    | inl e ↦ value-no_child root c (cs ++ t) e
    | inr (next, e) ↦
        value-child root c (cs ++ t) next e
        ∙ value-walk-none next cs (sym (walk-child root c cs next e) ∙ h) t
  ]

  -- The walk stays among live nodes that are in use.
  walk-LivePtr :
      (root : Root A) (s : List ℕ) (node : Root A)
      → LivePtr (ptr root)
      → walk root s ≡ some node
      → LivePtr (ptr node)
  unfolding walk
  walk-LivePtr root [] node live h = subst (λ n. LivePtr (ptr n)) (some-injective _ _ h) live
  walk-LivePtr root (c ∷ cs) node live h = elim (Ptr-cases (child root c)) [
    | inl e ↦ absurd (cc (walk-no_child root c cs e))
    | inr (next, e) ↦
        walk-LivePtr next cs node (subst LivePtr e (IsLive-child root c live.1))
          (sym (walk-child root c cs next e) ∙ h)
  ]

  Outcome-Answer :
      (v : List ℕ → Option A) (r : Run (Option (Root A)))
      → v [] ≡ none
      → Answer v r
      → Outcome v (r >>= λ node. ok (data_at node))
  Outcome-Answer v (ok none) h a = (h, inr a)
  Outcome-Answer v (ok (some node)) h (x, e, a) = subst (λ d. Outcome v (ok d)) (sym e) (inr (h, a))
  Outcome-Answer v (fault e) h a = a

  -- `st_lookup_string` at the end of the walk.
  abbrev pub lookup_end : Root A → Run (Option A)
  lookup_end node =
      elim (data_of node) [ some x ↦ ok (some node) | none ↦ get_the_only_child node ] >>= λ node.
      ok (data_at node)

  -- The end of the walk at a live node that is in use.
  pub Outcome-node :
      (node : Root A)
      → LivePtr (ptr node)
      → Outcome (value node) (
          elim (data_of node) [ some x ↦ ok (some node) | none ↦ get_the_only_child node ]
          >>= λ node. ok (data_at node))
  Outcome-node (st_root msb (some x)) live = inl (value-nil (st_root msb (some x)))
  Outcome-node (st_root msb none) live =
      Outcome-Answer (value (st_root msb none)) (get_the_only_child (st_root msb none))
        (value-nil (st_root msb none)) (get_the_only_child-Answer (st_root msb none) live.1 live.0)

  pub st_lookup_string-walk :
      (root : Root A) (c : ℕ) (cs : List ℕ) (node : Root A)
      → walk root (c ∷ cs) ≡ some node
      → st_lookup_string root (some (c ∷ cs)) ≡ (
          elim (data_of node) [ some x ↦ ok (some node) | none ↦ get_the_only_child node ]
          >>= λ node. ok (data_at node))
  unfolding st_lookup_string find_node
  st_lookup_string-walk root c cs node h = rw (h, st_lookup_string, find_node)

  pub st_lookup_string-walk-none :
      (root : Root A) (c : ℕ) (cs : List ℕ)
      → walk root (c ∷ cs) ≡ none
      → st_lookup_string root (some (c ∷ cs)) ≡ ok none
  unfolding st_lookup_string find_node
  st_lookup_string-walk-none root c cs h = rw (h, st_lookup_string, find_node)

  -- A string whose walk ends at live nodes in use.
  Outcome-walk :
      (root : Root A) (c : ℕ) (cs : List ℕ)
      → ((node : Root A) → walk root (c ∷ cs) ≡ some node → LivePtr (ptr node))
      → Outcome (λ t. value root ((c ∷ cs) ++ t)) (st_lookup_string root (some (c ∷ cs)))
  Outcome-walk root c cs live = elim (Option-cases (walk root (c ∷ cs))) [
    | inl e ↦
        let gone = value-walk-none root (c ∷ cs) e in
        rw (st_lookup_string-walk-none root c cs e) (gone [], inl gone)
    | inr (node, e) ↦
        let v : (λ t. value root ((c ∷ cs) ++ t)) ≡ value node =
          fun_ext (value-walk root (c ∷ cs) node e) in
        rw (st_lookup_string-walk root c cs node e)
          (subst (λ v. Outcome v (lookup_end node)) (sym v) (Outcome-node node (live node e)))
  ]

  -- In a trie that strings were only added to, a lookup of any string that is not empty ends without a
  -- fault and finds what its abbreviation stands for.
  pub st_lookup_string-IsLive :
      (root : Root A) (c : ℕ) (cs : List ℕ)
      → IsLive root
      → Outcome (λ t. value root ((c ∷ cs) ++ t)) (st_lookup_string root (some (c ∷ cs)))
  st_lookup_string-IsLive root c cs live = Outcome-walk root c cs below
    where
      below : (node : Root A) → walk root (c ∷ cs) ≡ some node → LivePtr (ptr node)
      below node h = elim (Ptr-cases (child root c)) [
        | inl e ↦ absurd (cc (walk-no_child root c cs e))
        | inr (next, e) ↦
            walk-LivePtr next cs node (subst LivePtr e (IsLive-child root c live))
              (sym (walk-child root c cs next e) ∙ h)
      ]

  -- After any additions and removals a lookup of two characters or more ends without a fault and finds
  -- what its abbreviation stands for.
  pub st_lookup_string-IsKept :
      (root : Root A) (c b : ℕ) (bs : List ℕ)
      → IsKept root
      → Outcome (λ t. value root ((c ∷ b ∷ bs) ++ t)) (st_lookup_string root (some (c ∷ b ∷ bs)))
  st_lookup_string-IsKept root c b bs kept = Outcome-walk root c (b ∷ bs) below
    where
      below : (node : Root A) → walk root (c ∷ b ∷ bs) ≡ some node → LivePtr (ptr node)
      below node h = elim (Ptr-cases (child root c)) [
        | inl e ↦ absurd (cc (walk-no_child root c (b ∷ bs) e))
        | inr (top, e) ↦
            let live : IsLive top = subst (λ p. IsLive (open_ptr p)) e (IsKept-child root c kept) in
            elim (Ptr-cases (child top b)) [
              | inl e' ↦ absurd (cc (walk-child root c (b ∷ bs) top e, walk-no_child top b bs e'))
              | inr (next, e') ↦
                  walk-LivePtr next bs node (subst LivePtr e' (IsLive-child top b live))
                    (sym (walk-child top b bs next e') ∙ sym (walk-child root c (b ∷ bs) top e) ∙ h)
            ]
      ]

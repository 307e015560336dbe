-- ===== src/Stringtrie/Ops.antt =====
-- stringtrie.c: the operations. A string is the list of its bytes before the terminating NUL, and
-- `none` where it is a NULL pointer; data is `none` where its pointer is NULL.
use yastg.Prelude.{
  ℕ, zero, suc, ◌+◌, List, [], ◌∷◌, ◌++◌, Option, none, some, Bool, true, false, if◌then◌else◌, Run,
  ok, fault, null_deref, assert_failed, ◌>>=◌,
}
use yastg.Prelude.Int.{ℤ, pos, negsuc}
use yastg.Stringtrie.Chars.{get_char_lsb, get_char_msb, get_char_from_msb_lsb}
use yastg.Stringtrie.Node.{
  Root, Lsb, Ptr, st_root, no_lsb, st_lsb, no_root, ptr, put, msb_of, data_of, is_lsb, is_root,
  empty_root, open_lsb, open_ptr,
}

-- What the loops over an array that look for its only pointer have found.
pub data Scan : Type 0 where
  absent several : Scan
  only : ℕ → Scan

-- `n` rounds from index `i`; a second pointer ends the loop.
unfoldable pub scan : ℕ → ℕ → (ℕ → Bool) → Scan → Scan
scan zero i p found = found
scan (suc n) i p found = elim (p i) [
  | true ↦ elim found [ absent ↦ scan n (i + 1) p (only i) | _ ↦ several ]
  | false ↦ scan n (i + 1) p found
]

-- `n` rounds from index `i` of a loop that returns 0 at the first pointer.
unfoldable pub is_free : ℕ → ℕ → (ℕ → Bool) → Bool
is_free zero i p = true
is_free (suc n) i p = if p i then false else is_free n (i + 1) p

-- `n` rounds from index `i` of a loop that appends what each round yields.
unfoldable pub gather {ℓ} : {X : Type ℓ} → ℕ → ℕ → (ℕ → List X) → List X
gather zero i g = []
gather (suc n) i g = g i ++ gather n (i + 1) g

module _ {ℓ} {A : Type ℓ} where
  unfoldable pub st_init : Root A
  st_init = empty_root

  unfoldable pub is_msb_free : Root A → Bool
  unfolding is_free
  is_msb_free root = is_free 8 0 (λ i. is_lsb (msb_of root i))

  unfoldable pub is_lsb_free : (ℕ → Ptr A) → Bool
  unfolding is_free
  is_lsb_free f = is_free 8 0 (λ j. is_root (f j))

  -- The loop of `st_add_string`: the nodes on the way are made where they lack.
  unfoldable pub add_path : Root A → List ℕ → Option A → Root A
  add_path node [] d = st_root (msb_of node) d
  add_path node (c ∷ cs) d =
      let c_lsb = get_char_lsb c in
      let c_msb = get_char_msb c in
      let lsb = open_lsb (msb_of node c_msb) in
      st_root
        (put (msb_of node) c_msb
          (st_lsb (put lsb c_lsb (ptr (add_path (open_ptr (lsb c_lsb)) cs d)))))
        (data_of node)

  unfoldable pub st_add_string : Root A → Option (List ℕ) → Option A → ℤ × Root A
  st_add_string root none d = (negsuc 0, root)
  st_add_string root (some []) d = (negsuc 0, root)
  st_add_string root (some (c ∷ cs)) d = (pos 0, add_path root (c ∷ cs) d)

  -- `lsb->lsb[c_lsb]` of `node->msb[c_msb]`, NULL where either is.
  abbrev pub child : Root A → ℕ → Ptr A
  child node c = open_lsb (msb_of node (get_char_msb c)) (get_char_lsb c)

  -- The loop of `find_node`.
  unfoldable pub walk : Root A → List ℕ → Option (Root A)
  walk node [] = some node
  walk node (c ∷ cs) = elim (child node c) [ no_root ↦ none | ptr next ↦ walk next cs ]

  unfoldable mutual
    pub get_the_only_child : Root A → Run (Option (Root A))
    get_the_only_child (st_root msb (some x)) = elim (scan 8 0 (λ i. is_lsb (msb i)) absent) [
      | several ↦ ok none
      | absent ↦ ok (some (st_root msb (some x)))
      | only i ↦ ok none
    ]
    get_the_only_child (st_root msb none) = elim (scan 8 0 (λ i. is_lsb (msb i)) absent) [
      | several ↦ ok none
      | absent ↦ fault null_deref
      | only i ↦ only_child_of_lsb (msb i)
    ]

    pub only_child_of_lsb : Lsb A → Run (Option (Root A))
    only_child_of_lsb no_lsb = fault null_deref
    only_child_of_lsb (st_lsb f) = elim (scan 8 0 (λ j. is_root (f j)) absent) [
      | several ↦ ok none
      | absent ↦ fault assert_failed
      | only j ↦ only_child_of_ptr (f j)
    ]

    pub only_child_of_ptr : Ptr A → Run (Option (Root A))
    only_child_of_ptr no_root = fault assert_failed
    only_child_of_ptr (ptr node) = get_the_only_child node

  -- `find_node`, with `exact_match_only` as a Boolean
  unfoldable pub find_node : Root A → List ℕ → Bool → Run (Option (Root A))
  unfolding walk
  find_node root string exact_match_only = elim (walk root string) [
    | none ↦ ok none
    | some node ↦ elim (data_of node) [
      | some x ↦ ok (some node)
      | none ↦ if exact_match_only then ok (some node) else get_the_only_child node
    ]
  ]

  -- `node ? node->data : NULL`
  abbrev pub data_at : Option (Root A) → Option A
  data_at none = none
  data_at (some node) = data_of node

  unfoldable pub st_lookup_string : Root A → Option (List ℕ) → Run (Option A)
  st_lookup_string root none = ok none
  st_lookup_string root (some []) = ok none
  st_lookup_string root (some (c ∷ cs)) = do node ← find_node root (c ∷ cs) false; ok (data_at node)

  unfoldable pub st_lookup_exact : Root A → Option (List ℕ) → Run (Option A)
  st_lookup_exact root none = ok none
  st_lookup_exact root (some []) = ok none
  st_lookup_exact root (some (c ∷ cs)) = do node ← find_node root (c ∷ cs) true; ok (data_at node)

  -- `root` with its child at `c` overwritten
  abbrev pub set_child : Root A → ℕ → Ptr A → Root A
  set_child root c p =
      st_root
        (put (msb_of root) (get_char_msb c)
          (st_lsb (put (open_lsb (msb_of root (get_char_msb c))) (get_char_lsb c) p)))
        (data_of root)

  -- One round of the loop of `st_rm_string` that frees nodes, at the node `root` on the path with the
  -- node `next` below it. The Boolean says that the loop goes on to the node above `root`.
  unfoldable pub prune : Root A → ℕ → Root A → Root A × Bool
  unfolding is_lsb_free is_msb_free
  prune root c next = elim (data_of next) [
    | some x ↦ (set_child root c (ptr next), false)
    | none ↦
        let lsb = put (open_lsb (msb_of root (get_char_msb c))) (get_char_lsb c) no_root in
        elim (is_lsb_free lsb) [
          | false ↦ (set_child root c no_root, false)
          | true ↦
              let node = st_root (put (msb_of root) (get_char_msb c) no_lsb) (data_of root) in
              (node, is_msb_free node)
        ]
  ]

  -- The way back up to `node` from its child for `c`: the loop has ended, or frees on.
  unfoldable pub rm_up : Root A → ℕ → Option A × Root A × Bool → Option A × Root A × Bool
  unfolding prune
  rm_up node c (d, next, false) = (d, set_child node c (ptr next), false)
  rm_up node c (d, next, true) = (d, (prune node c next).0, (prune node c next).1)

  -- `st_rm_string` from a node below the root on: the walk, the removal of the data, and the loop that
  -- frees nodes, which runs up the path that the walk went down. `none` means that the walk met NULL.
  unfoldable pub rm_below : Root A → List ℕ → Option (Option A × Root A × Bool)
  unfolding rm_up
  rm_below node [] =
      let node' = st_root (msb_of node) none in some (data_of node, node', is_msb_free node')
  rm_below node (c ∷ cs) = elim (child node c) [
    | no_root ↦ none
    | ptr next ↦ elim (rm_below next cs) [ none ↦ none | some r ↦ some (rm_up node c r) ]
  ]

  -- The loop stops before the root: the node for the first character is never freed.
  unfoldable pub st_rm_string : Root A → Option (List ℕ) → Option A × Root A
  st_rm_string root none = (none, root)
  st_rm_string root (some []) = (none, root)
  st_rm_string root (some (c ∷ cs)) = elim (child root c) [
    | no_root ↦ (none, root)
    | ptr next ↦ elim (rm_below next cs) [
      | none ↦ (none, root)
      | some r ↦ (r.0, set_child root c (ptr r.1))
    ]
  ]

  unfoldable pub st_is_empty : Root A → Bool
  unfolding is_msb_free
  st_is_empty root = is_msb_free root

  -- `__st_foreach_data`: the calls of `func`, each with the string in `buf` and the data. `buf` holds
  -- the characters before `idx`, and `room` is `len - idx`.
  unfoldable pub foreach : ℕ → List ℕ → Root A → List (List ℕ × A)
  unfolding gather get_char_from_msb_lsb
  foreach zero buf root = []
  foreach (suc room) buf root =
      elim (data_of root) [ some x ↦ (buf, x) ∷ [] | none ↦ [] ]
      ++ gather 8 0 (λ i. gather 8 0 (λ j. elim (open_lsb (msb_of root i) j) [
        | no_root ↦ []
        | ptr next ↦ foreach room (buf ++ get_char_from_msb_lsb i j ∷ []) next
      ]))

  -- `char buf[64]`
  unfoldable pub st_foreach_data : Root A → List (List ℕ × A)
  unfolding foreach
  st_foreach_data root = foreach 64 [] root

  -- `n` rounds from index `i` that set pointers to NULL
  unfoldable pub clear : ℕ → ℕ → (ℕ → Lsb A) → ℕ → Lsb A
  clear zero i msb = msb
  clear (suc n) i msb = clear n (i + 1) (put msb i no_lsb)

  -- The data that `st_destroy_root` frees, in its order.
  unfoldable mutual
    unfolding gather

    destroyed : Root A → List A
    destroyed (st_root msb d) =
        elim d [ some x ↦ x ∷ [] | none ↦ [] ] ++ gather 8 0 (λ i. destroyed_lsb (msb i))

    destroyed_lsb : Lsb A → List A
    destroyed_lsb no_lsb = []
    destroyed_lsb (st_lsb f) = gather 8 0 (λ j. destroyed_ptr (f j))

    destroyed_ptr : Ptr A → List A
    destroyed_ptr no_root = []
    destroyed_ptr (ptr node) = destroyed node

  -- `st_destroy`: the data that it frees, and the root that it leaves.
  unfoldable pub st_destroy : Root A → Bool → List A × Root A
  unfolding clear destroyed
  st_destroy root do_free_data =
      (if do_free_data then destroyed root else [], st_root (clear 8 0 (msb_of root)) none)

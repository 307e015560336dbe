-- ===== src/Stringtrie/Visits.antt =====
-- stringtrie.c: the calls that `st_foreach_data` makes.
use yastg.Prelude.{
  ℕ, zero, suc, ◌+◌, ◌<◌, ◌≤◌, List, [], ◌∷◌, ◌++◌, Option, none, some, ◌≡◌, refl, sym, ap, ◌∙◌,
  arith, inl, inr, length, ℕ_discrete, subst, append_assoc, append-nil, In, In-append_left,
  In-append_right, In-append_cases, ◌↔◌,
}
use yastg.Stringtrie.Chars.{get_char_msb, get_char_lsb, get_char_from_msb_lsb}
use yastg.Stringtrie.Node.{Root, Ptr, no_root, ptr, msb_of, data_of, open_lsb, open_ptr}
use yastg.Stringtrie.Keys.{get_char_msb-lt, get_char_lsb-lt, char_at, char_at_lem}
use yastg.Stringtrie.Ops.{gather, foreach, st_foreach_data, child}
use yastg.Stringtrie.Values.{value, value-nil, value-child, value-no_child, Ptr-cases}
use yastg.Stringtrie.Live.{value-char_at}

In-gather :
    {X : Type 0} (n i : ℕ) (g : ℕ → List X) (k : ℕ) (e : X)
    → i ≤ k
    → k < i + n
    → In e (g k)
    → In e (gather n i g)
unfolding gather
In-gather zero i g k e lo hi h = absurd (omega arith)
In-gather (suc n) i g k e lo hi h = elim (ℕ_discrete i k) [
  | yes p ↦ In-append_left (g i) (gather n (i + 1) g) e (subst (λ j. In e (g j)) (sym p) h)
  | no p ↦
      In-append_right (g i) (gather n (i + 1) g) e
        (In-gather n (i + 1) g k e (omega arith) (omega arith) h)
]

In-gather_cases :
    {X : Type 0} (n i : ℕ) (g : ℕ → List X) (e : X)
    → In e (gather n i g)
    → (k : ℕ) × (i ≤ k) × (k < i + n) × In e (g k)
unfolding gather
In-gather_cases zero i g e h = absurd h
In-gather_cases (suc n) i g e h = elim (In-append_cases (g i) (gather n (i + 1) g) e h) [
  | inl a ↦ (i, omega arith, omega arith, a)
  | inr b ↦ let (k, lo, hi, c) = In-gather_cases n (i + 1) g e b in (k, omega arith, omega arith, c)
]

-- How the trie shows a string.
abbrev pub displayed : List ℕ → List ℕ
displayed [] = []
displayed (c ∷ cs) = get_char_from_msb_lsb (get_char_msb c) (get_char_lsb c) ∷ displayed cs

module _ {A : Type 0} where
  -- The calls below one pointer.
  abbrev below : ℕ → List ℕ → Root A → ℕ → ℕ → List (List ℕ × A)
  below room buf root i j = elim (open_lsb (msb_of root i) j) [
    | no_root ↦ []
    | ptr next ↦ foreach room (buf ++ get_char_from_msb_lsb i j ∷ []) next
  ]

  abbrev here : List ℕ → Root A → List (List ℕ × A)
  here buf root = elim (data_of root) [ some x ↦ (buf, x) ∷ [] | none ↦ [] ]

  below-ptr :
      (room : ℕ) (buf : List ℕ) (root : Root A) (i j : ℕ) (next : Root A)
      → open_lsb (msb_of root i) j ≡ ptr next
      → below room buf root i j ≡ foreach room (buf ++ get_char_from_msb_lsb i j ∷ []) next
  below-ptr room buf root i j next e =
      let f : Ptr A → List (List ℕ × A) = elim [
        | no_root ↦ []
        | ptr next ↦ foreach room (buf ++ get_char_from_msb_lsb i j ∷ []) next
      ] in
      ap f e

  foreach-suc :
      (room : ℕ) (buf : List ℕ) (root : Root A)
      → foreach (suc room) buf root
        ≡ here buf root ++ gather 8 0 (λ i. gather 8 0 (λ j. below room buf root i j))
  unfolding foreach
  foreach-suc room buf root = refl

  foreach_complete :
      (room : ℕ) (buf : List ℕ) (root : Root A) (s : List ℕ) (x : A)
      → length s < room
      → value root s ≡ some x
      → In (buf ++ displayed s, x) (foreach room buf root)
  foreach_complete zero buf root s x lt h = absurd (omega arith)
  foreach_complete (suc room) buf root [] x lt h =
      rw (foreach-suc room buf root, append-nil)
        (In-append_left (here buf root) _ (buf, x) (mine (data_of root) (sym (value-nil root) ∙ h)))
    where
      mine :
          (d : Option A)
          → d ≡ some x
          → In {A = List ℕ × A} (buf, x) (elim d [ some y ↦ (buf, y) ∷ [] | none ↦ [] ])
      mine none e = cc
      mine (some y) e = inl (cc)
  foreach_complete (suc room) buf root (c ∷ cs) x lt h = elim (Ptr-cases (child root c)) [
    | inl e ↦ cc (value-no_child root c cs e)
    | inr (next, e) ↦
        let i = get_char_msb c in
        let j = get_char_lsb c in
        let k = get_char_from_msb_lsb i j in
        let ih =
          foreach_complete room (buf ++ k ∷ []) next cs x (omega arith)
            (sym (value-child root c cs next e) ∙ h) in
        let there : In {A = List ℕ × A} (buf ++ k ∷ displayed cs, x) (below room buf root i j) =
          rw (below-ptr room buf root i j next e) (rw append_assoc at ih) in
        rw (foreach-suc room buf root) (
          In-append_right (here buf root) _ _ (
            In-gather 8 0 _ i _ (omega arith) (get_char_msb-lt c)
              (In-gather 8 0 _ j _ (omega arith) (get_char_lsb-lt c) there)))
  ]

  -- What a visit below a pointer says, given what it says of the node behind the pointer.
  abbrev Visited : ℕ → List ℕ → Root A → List ℕ → A → Type 0
  Visited room buf root key x =
      (s : List ℕ) × (length s < room) × (value root s ≡ some x) × (key ≡ buf ++ displayed s)

  here_sound :
      (room : ℕ) (buf : List ℕ) (root : Root A) (key : List ℕ) (x : A) (d : Option A)
      → data_of root ≡ d
      → In {A = List ℕ × A} (key, x) (elim d [ some y ↦ (buf, y) ∷ [] | none ↦ [] ])
      → Visited (suc room) buf root key x
  here_sound room buf root key x none e h = absurd h
  here_sound room buf root key x (some y) e (inr h) = absurd h
  here_sound room buf root key x (some y) e (inl p) = (
    [],
    omega arith,
    value-nil root ∙ e ∙ ap (λ (q : List ℕ × A). some q.1) (sym p),
    rw append-nil (ap (λ (q : List ℕ × A). q.0) p),
  )

  below_sound :
      (room : ℕ) (buf : List ℕ) (root : Root A) (key : List ℕ) (x : A) (i j : ℕ) (p : Ptr A)
      → i < 8
      → j < 8
      → ((next : Root A)
          → In (key, x) (foreach room (buf ++ get_char_from_msb_lsb i j ∷ []) next)
          → Visited room (buf ++ get_char_from_msb_lsb i j ∷ []) next key x)
      → open_lsb (msb_of root i) j ≡ p
      → In
          (key, x)
          (elim p [
            | no_root ↦ []
            | ptr next ↦ foreach room (buf ++ get_char_from_msb_lsb i j ∷ []) next
          ])
      → Visited (suc room) buf root key x
  below_sound room buf root key x i j no_root hi hj ih e h = absurd h
  below_sound room buf root key x i j (ptr next) hi hj ih e h =
      let (s, lt, v, k) = ih next h in
      let at = char_at_lem i j hi hj in
      (
        char_at i j ∷ s,
        omega arith,
        value-char_at root i j s hi hj ∙ ap (λ p. value (open_ptr p) s) e ∙ v,
        rw (at.0, at.1) (rw append_assoc at k),
      )

  foreach_sound :
      (room : ℕ) (buf : List ℕ) (root : Root A) (key : List ℕ) (x : A)
      → In (key, x) (foreach room buf root)
      → Visited room buf root key x
  unfolding foreach
  foreach_sound zero buf root key x h = absurd h
  foreach_sound (suc room) buf root key x h =
      elim (In-append_cases (here buf root)
        (gather 8 0 (λ i. gather 8 0 (λ j. below room buf root i j))) (key, x) h) [
          | inl a ↦ here_sound room buf root key x (data_of root) refl a
          | inr b ↦
              let (i, li, hi, b') =
                In-gather_cases 8 0 (λ i. gather 8 0 (λ j. below room buf root i j)) (key, x) b in
              let (j, lj, hj, b'') =
                In-gather_cases 8 0 (λ j. below room buf root i j) (key, x) b' in
              below_sound room buf root key x i j (open_lsb (msb_of root i) j) (omega arith)
                (omega arith)
                (λ next. foreach_sound room (buf ++ get_char_from_msb_lsb i j ∷ []) next key x) refl
                b''
        ]

  -- st_foreach_data calls its function with a string and data exactly when some string of fewer
  -- than 64 characters has that data and is shown as that string.
  pub st_foreach_data_visits :
      (root : Root A) (key : List ℕ) (x : A)
      → In (key, x) (st_foreach_data root)
        ↔ ((s : List ℕ) × (length s < 64) × (value root s ≡ some x) × (key ≡ displayed s))
  unfolding st_foreach_data
  st_foreach_data_visits root key x = (
    foreach_sound 64 [] root key x,
    λ (s, lt, v, k).
        subst (λ k. In {A = List ℕ × A} (k, x) (foreach 64 [] root)) (sym k)
          (foreach_complete 64 [] root s x lt v),
  )

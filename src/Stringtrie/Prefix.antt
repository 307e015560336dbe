-- ===== src/Stringtrie/Prefix.antt =====
-- stringtrie.c: about `get_the_only_child`.
use yastg.Prelude.{
  ℕ, ◌<◌, ◌≤◌, List, [], ◌∷◌, Option, none, some, true, false, ◌≡◌, ◌≢◌, refl, sym, ◌∙◌, arith, ◌⊎◌,
  inr, ok, fault, Run, ◌==◌, subst,
}
use yastg.Stringtrie.Chars.{crunch, get_char_msb, get_char_lsb}
use yastg.Stringtrie.Node.{
  Root, Lsb, Ptr, st_root, no_lsb, st_lsb, no_root, ptr, data_of, is_lsb, is_root, open_lsb,
  open_ptr,
}
use yastg.Stringtrie.Keys.{
  char_at, char_at_lem, same_key, get_char_msb_lem, get_char_lsb_lem, get_char_msb-lt,
  get_char_lsb-lt,
}
use yastg.Stringtrie.Values.{value, value-nil, value-cons, value-empty_root}
use yastg.Stringtrie.Live.{LiveLsb, LiveLsb-reaches, value-char_at}

-- Exactly one key has data, which is `x`.
abbrev pub Single : {A : Type 0} → (List ℕ → Option A) → A → Type 0
Single v x = (s : List ℕ) × (v s ≡ some x) × ((t : List ℕ) → v t ≢ none → same_key s t ≡ true)

-- Two keys at least have data.
abbrev pub Many : {A : Type 0} → (List ℕ → Option A) → Type 0
Many v = (s : List ℕ) × (t : List ℕ) × (v s ≢ none) × (v t ≢ none) × (same_key s t ≡ false)

-- What the search for the only string answers, without a fault.
abbrev pub Answer : {A : Type 0} → (List ℕ → Option A) → Run (Option (Root A)) → Type 0
Answer v (ok none) = Many v
Answer {A} v (ok (some node)) = (x : A) × (data_of node ≡ some x) × Single v x
Answer v (fault e) = ⊥

-- The same below an array, where a string stands behind its index.
abbrev SingleAt : {A : Type 0} → (ℕ → List ℕ → Option A) → A → Type 0
SingleAt w x =
    (j : ℕ) × (s : List ℕ) × (j < 8)
    × (w j s ≡ some x)
    × ((k : ℕ) → k < 8 → (t : List ℕ) → w k t ≢ none → (j ≡ k) × (same_key s t ≡ true))

abbrev ManyAt : {A : Type 0} → (ℕ → List ℕ → Option A) → Type 0
ManyAt w =
    (j : ℕ) × (k : ℕ) × (s : List ℕ) × (t : List ℕ) × (j < 8)
    × (k < 8)
    × (w j s ≢ none)
    × (w k t ≢ none)
    × ((j ≢ k) ⊎ (same_key s t ≡ false))

abbrev pub AnswerAt : {A : Type 0} → (ℕ → List ℕ → Option A) → Run (Option (Root A)) → Type 0
AnswerAt w (ok none) = ManyAt w
AnswerAt {A} w (ok (some node)) = (x : A) × (data_of node ≡ some x) × SingleAt w x
AnswerAt w (fault e) = ⊥

pub same_key-char_at :
    (i j k l : ℕ) (s t : List ℕ)
    → i < 8
    → j < 8
    → k < 8
    → l < 8
    → (i ≢ k) ⊎ (j ≢ l) ⊎ (same_key s t ≡ false)
    → same_key (char_at i j ∷ s) (char_at k l ∷ t) ≡ false
same_key-char_at i j k l s t hi hj hk hl d = ground (
  arith,
  char_at_lem i j hi hj,
  char_at_lem k l hk hl,
  get_char_msb_lem (char_at i j),
  get_char_msb_lem (char_at k l),
  get_char_lsb_lem (char_at i j),
  get_char_lsb_lem (char_at k l),
)

crunch-char_at :
    (c i j : ℕ)
    → i < 8
    → j < 8
    → i ≡ get_char_msb c
    → j ≡ get_char_lsb c
    → (crunch (char_at i j) == crunch c) ≡ true
crunch-char_at c i j hi hj ei ej = ground (
  arith,
  char_at_lem i j hi hj,
  get_char_msb_lem (char_at i j),
  get_char_lsb_lem (char_at i j),
  get_char_msb_lem c,
  get_char_lsb_lem c,
)

module _ {A : Type 0} where
  -- The data below `msb[i]`, and below `lsb[j]` of an array.
  abbrev pub below_msb : Lsb A → ℕ → List ℕ → Option A
  below_msb p j s = value (open_ptr (open_lsb p j)) s

  is_lsb_of_data : (p : Lsb A) (j : ℕ) (s : List ℕ) → below_msb p j s ≢ none → is_lsb p ≡ true
  is_lsb_of_data no_lsb j s h = absurd (h (value-empty_root s))
  is_lsb_of_data (st_lsb f) j s h = refl

  is_root_of_data : (p : Ptr A) (s : List ℕ) → value (open_ptr p) s ≢ none → is_root p ≡ true
  is_root_of_data no_root s h = absurd (h (value-empty_root s))
  is_root_of_data (ptr node) s h = refl

  -- From an array to the node that it is the only array of.
  pub lift :
      (msb : ℕ → Lsb A) (i : ℕ) (r : Run (Option (Root A)))
      → i < 8
      → ((k : ℕ) → k < 8 → is_lsb (msb k) ≡ true → i ≡ k)
      → AnswerAt (below_msb (msb i)) r
      → Answer (value (st_root msb none)) r
  lift msb i (ok none) hi alone (j, k, s, t, hj, hk, ns, nt, d) = (
    char_at i j ∷ s,
    char_at i k ∷ t,
    λ e. ns (sym (value-char_at (st_root msb none) i j s hi hj) ∙ e),
    λ e. nt (sym (value-char_at (st_root msb none) i k t hi hk) ∙ e),
    same_key-char_at i j i k s t hi hj hi hk (inr d),
  )
  lift msb i (ok (some node)) hi alone (x, dx, (j, s, hj, e, u)) =
      (x, dx, (char_at i j ∷ s, value-char_at (st_root msb none) i j s hi hj ∙ e, unique))
    where
      unique :
          (t : List ℕ) → value (st_root msb none) t ≢ none → same_key (char_at i j ∷ s) t ≡ true
      unique [] h = absurd (h (value-nil (st_root msb none)))
      unique (c ∷ cs) h =
          let m = get_char_msb c in
          let l = get_char_lsb c in
          let h' : below_msb (msb m) l cs ≢ none =
            λ e'. h (value-cons (st_root msb none) c cs ∙ e') in
          let ei : i ≡ m = alone m (get_char_msb-lt c) (is_lsb_of_data (msb m) l cs h') in
          let v =
            u l (get_char_lsb-lt c) cs (subst (λ k. below_msb (msb k) l cs ≢ none) (sym ei) h') in
          ground (arith, crunch-char_at c i j hi hj ei v.0, v.1)
  lift msb i (fault e) hi alone h = absurd h

  -- From a pointer to the array that it is the only pointer of.
  pub lift_ptr :
      (f : ℕ → Ptr A) (j : ℕ) (r : Run (Option (Root A)))
      → j < 8
      → ((k : ℕ) → k < 8 → is_root (f k) ≡ true → j ≡ k)
      → Answer (value (open_ptr (f j))) r
      → AnswerAt (λ k. value (open_ptr (f k))) r
  lift_ptr f j (ok none) hj alone (s, t, ns, nt, d) = (j, j, s, t, hj, hj, ns, nt, inr d)
  lift_ptr f j (ok (some node)) hj alone (x, dx, (s, e, u)) = (
    x,
    dx,
    (
      j,
      s,
      hj,
      e,
      λ k hk t h.
          let ek : j ≡ k = alone k hk (is_root_of_data (f k) t h) in
          (ek, u t (subst (λ k. value (open_ptr (f k)) t ≢ none) (sym ek) h)),
    ),
  )
  lift_ptr f j (fault e) hj alone h = absurd h

  -- No array: only the node's own data is left.
  pub alone_here :
      (msb : ℕ → Lsb A) (x : A)
      → ((k : ℕ) → 0 ≤ k → k < 8 → is_lsb (msb k) ≡ false)
      → Single (value (st_root msb (some x))) x
  alone_here msb x off = ([], value-nil (st_root msb (some x)), unique)
    where
      unique : (t : List ℕ) → value (st_root msb (some x)) t ≢ none → same_key [] t ≡ true
      unique [] h = refl
      unique (c ∷ cs) h =
          let m = get_char_msb c in
          let l = get_char_lsb c in
          let on : is_lsb (msb m) ≡ true =
            is_lsb_of_data (msb m) l cs (λ e'. h (value-cons (st_root msb (some x)) c cs ∙ e')) in
          absurd (cc (off m (omega arith) (get_char_msb-lt c)))

  -- A string through the array `msb[i]`.
  pub through :
      (msb : ℕ → Lsb A) (d : Option A) (i : ℕ)
      → i < 8
      → LiveLsb (msb i)
      → is_lsb (msb i) ≡ true
      → (j : ℕ) × (s : List ℕ) × (j < 8) × (value (st_root msb d) (char_at i j ∷ s) ≢ none)
  through msb d i hi live on =
      let (j, hj, s, h) = LiveLsb-reaches (msb i) live on in
      (j, s, hj, λ e. h (sym (value-char_at (st_root msb d) i j s hi hj) ∙ e))

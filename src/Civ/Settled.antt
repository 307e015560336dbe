-- ===== src/Civ/Settled.antt =====
-- civ.c: which systems are whose, and how many.
use yastg.Civ.Ops.{Realm, Galaxy, set_owner, set_civ}
use yastg.PortUpdate.Rounds.{Apart}
use yastg.Prelude.{
  ==_iff, Bool-cases, In, In-append_cases, List, Option, Option-cases, [], ap, ap₂, arith, inl, inr,
  length, none, refl, some, subst, suc, sym, ℕ, ◌++◌, ◌<◌, ◌==◌, ◌↔◌, ◌∙◌, ◌∷◌, ◌≡◌, ◌≢◌,
}
use yastg.Prelude.{if◌then◌else◌}

-- The number of systems with an owner.
abbrev pub owned : (ℕ → Option ℕ) → List ℕ → ℕ
owned owner [] = 0
owned owner (s ∷ ss) = elim (owner s) [ none ↦ owned owner ss | some c ↦ suc (owned owner ss) ]

-- A civilization has the systems that it owns, each once, and its border and its home are among them.
pub record Rules (owner : ℕ → Option ℕ) (c : ℕ) (r : Realm) : Type 0 where
  pub own : (s : ℕ) → In s r.systems.list ↔ (owner s ≡ some c)
  pub once : Apart r.systems.list
  pub border : (s : ℕ) → In s r.border_systems.list → owner s ≡ some c
  pub border_len : r.border_systems.len ≡ length r.border_systems.list
  pub home_own : (s : ℕ) → r.home ≡ some s → owner s ≡ some c

-- This holds of all civilizations, and only systems of the universe have an owner.
pub record Settled (systems : List ℕ) (g : Galaxy) : Type 0 where
  pub rules : (c : ℕ) → Rules g.owner c (g.civ c)
  pub known : (s c : ℕ) → g.owner s ≡ some c → In s systems

pub set_owner-same : (owner : ℕ → Option ℕ) (s c : ℕ) → set_owner owner s c s ≡ some c
unfolding set_owner
set_owner-same owner s c = ground arith

pub set_owner-other : (owner : ℕ → Option ℕ) (s c q : ℕ) → s ≢ q → set_owner owner s c q ≡ owner q
unfolding set_owner
set_owner-other owner s c q h = ground arith

pub set_civ-same : (civ : ℕ → Realm) (c : ℕ) (r : Realm) → set_civ civ c r c ≡ r
unfolding set_civ
set_civ-same civ c r = elim (Bool-cases (c == c)) [
  | inl e ↦ rw e refl
  | inr e ↦ absurd (ground (arith, e))
]

pub set_civ-other : (civ : ℕ → Realm) (c d : ℕ) (r : Realm) → c ≢ d → set_civ civ c r d ≡ civ d
unfolding set_civ
set_civ-other civ c d r h = elim (Bool-cases (c == d)) [
  | inl e ↦ absurd (h ((==_iff c d).0 e))
  | inr e ↦ rw e refl
]

pub Apart-push : (xs : List ℕ) (x : ℕ) → Apart xs → ¬ In x xs → Apart (xs ++ x ∷ [])
Apart-push [] x a h = (λ k. k, tt)
Apart-push (y ∷ xs) x (out, a) h = (
  λ k. elim (In-append_cases xs (x ∷ []) y k) [
    | inl i ↦ out i
    | inr (inl e) ↦ h (inl (sym e))
    | inr (inr i) ↦ i
  ],
  Apart-push xs x a (λ i. h (inr i)),
)

-- A free system is no one's.
pub others_keep :
    (owner : ℕ → Option ℕ) (s c d q : ℕ)
    → owner s ≡ none
    → owner q ≡ some d
    → set_owner owner s c q ≡ some d
others_keep owner s c d q free e = set_owner-other owner s c q (λ i. absurd (cc (free, e, i))) ∙ e

owned-other :
    (owner : ℕ → Option ℕ) (s c : ℕ) (ss : List ℕ)
    → ¬ In s ss
    → owned (set_owner owner s c) ss ≡ owned owner ss
owned-other owner s c [] h = refl
owned-other owner s c (q ∷ ss) h =
    let e = set_owner-other owner s c q (λ i. h (inl i)) in
    let k = owned-other owner s c ss (λ i. h (inr i)) in
    ap₂ (λ (o : Option ℕ) (n : ℕ). elim o [ none ↦ n | some d ↦ suc n ]) e k

-- One more system of the universe has an owner.
pub owned-set_owner :
    (owner : ℕ → Option ℕ) (s c : ℕ) (ss : List ℕ)
    → Apart ss
    → In s ss
    → owner s ≡ none
    → owned (set_owner owner s c) ss ≡ suc (owned owner ss)
owned-set_owner owner s c (q ∷ ss) (out, a) (inl e) free =
    ap₂ (λ (o : Option ℕ) (n : ℕ). elim o [ none ↦ n | some d ↦ suc n ])
      (ap (set_owner owner s c) (sym e) ∙ set_owner-same owner s c)
      (owned-other owner s c ss (λ i. out (subst (λ n. In n ss) e i)))
    ∙ ap suc (
        ap (λ (o : Option ℕ). elim o [ none ↦ owned owner ss | some d ↦ suc (owned owner ss) ])
          (sym (ap owner (sym e) ∙ free)))
owned-set_owner owner s c (q ∷ ss) (out, a) (inr k) free =
    ap₂ (λ (o : Option ℕ) (n : ℕ). elim o [ none ↦ n | some d ↦ suc n ])
      (set_owner-other owner s c q (λ i. out (subst (λ n. In n ss) i k)))
      (owned-set_owner owner s c ss a k free)
    ∙ one_more (owner q)
  where
    one_more :
        (o : Option ℕ)
        → elim o [ none ↦ suc (owned owner ss) | some d ↦ suc (suc (owned owner ss)) ]
          ≡ suc (elim o [ none ↦ owned owner ss | some d ↦ suc (owned owner ss) ])
    one_more none = refl
    one_more (some d) = refl
owned-set_owner owner s c [] a h free = absurd h

owned-same :
    (owner other : ℕ → Option ℕ) (ss : List ℕ)
    → ((q : ℕ) → owner q ≡ other q)
    → owned owner ss ≡ owned other ss
owned-same owner other [] h = refl
owned-same owner other (q ∷ ss) h =
    ap₂ (λ (o : Option ℕ) (n : ℕ). elim o [ none ↦ n | some d ↦ suc n ]) (h q)
      (owned-same owner other ss h)

abbrev clear_owner : (ℕ → Option ℕ) → ℕ → ℕ → Option ℕ
clear_owner owner s q = if s == q then none else owner q

set_owner-clear_owner :
    (owner : ℕ → Option ℕ) (s c q : ℕ)
    → owner s ≡ some c
    → set_owner (clear_owner owner s) s c q ≡ owner q
unfolding set_owner
set_owner-clear_owner owner s c q e = elim (Bool-cases (s == q)) [
  | inl h ↦ rw h (sym e ∙ ap owner ((==_iff s q).0 h))
  | inr h ↦ rw h refl
]

-- Where fewer of these have an owner than there are of those, which are among them, one of those has none.
pub free_system :
    (owner : ℕ → Option ℕ) (those these : List ℕ)
    → Apart those
    → Apart these
    → ((q : ℕ) → In q those → In q these)
    → owned owner these < length those
    → (s : ℕ) × In s those × (owner s ≡ none)
free_system owner [] these a b inside h = absurd (omega arith)
free_system owner (q ∷ those) these (out, a) b inside h = elim (Option-cases (owner q)) [
  | inl e ↦ (q, inl refl, e)
  | inr (c, e) ↦
      let owner' = clear_owner owner q in
      let free : owner' q ≡ none = rw ((==_iff q q).1 refl) refl in
      let one_more =
        sym
          (owned-same (set_owner owner' q c) owner these (λ p. set_owner-clear_owner owner q c p e))
        ∙ owned-set_owner owner' q c these b (inside q (inl refl)) free in
      let (s, i, k) =
        free_system owner' those these a b (λ p j. inside p (inr j)) (omega (arith, one_more)) in
      (
        s,
        inr i,
        elim (Bool-cases (q == s)) [
          | inl h ↦ absurd (out (subst (λ n. In n those) (sym ((==_iff q s).0 h)) i))
          | inr h ↦ sym (rw h refl) ∙ k
        ],
      )
]

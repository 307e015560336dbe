-- ===== src/Civ/Claims.antt =====
-- civ.c: a civilization takes a system that no one has.
use yastg.Civ.Ops.{Realm, Galaxy, set_owner, set_civ}
use yastg.Civ.Settled.{
  Rules, Settled, others_keep, set_owner-same, set_owner-other, set_civ-same, set_civ-other,
  Apart-push,
}
use yastg.PortUpdate.Rounds.{Apart}
use yastg.Prelude.{
  ==_iff, Bool-cases, In, In-append_cases, In-append_left, In-append_right, List, Option, [], ap,
  inl, inr, length, none, some, some-injective, subst, sym, ℕ, ◌++◌, ◌==◌, ◌∙◌, ◌∷◌, ◌≡◌, ◌≢◌, ◌⊎◌,
}

-- The civilization with the system: of its border and its home nothing but the system is new.
pub record Gains (s : ℕ) (r r' : Realm) : Type 0 where
  pub systems : r'.systems.list ≡ r.systems.list ++ s ∷ []
  pub border : (q : ℕ) → In q r'.border_systems.list → (q ≡ s) ⊎ In q r.border_systems.list
  pub border_len : r'.border_systems.len ≡ length r'.border_systems.list
  pub home : (q : ℕ) → r'.home ≡ some q → (q ≡ s) ⊎ (r.home ≡ some q)

owner_cases :
    (owner : ℕ → Option ℕ) (s c q d : ℕ)
    → set_owner owner s c q ≡ some d
    → ((s ≡ q) × (c ≡ d)) ⊎ (owner q ≡ some d)
owner_cases owner s c q d e = elim (Bool-cases (s == q)) [
  | inl i ↦
      let k = (==_iff s q).0 i in
      inl (k, some-injective _ _ (sym (set_owner-same owner s c) ∙ ap (set_owner owner s c) k ∙ e))
  | inr i ↦ inr (sym (set_owner-other owner s c q (λ k. absurd (cc (i, (==_iff s q).1 k)))) ∙ e)
]

module _ (owner : ℕ → Option ℕ) (s c : ℕ) (free : owner s ≡ none) where
  Rules-other : (d : ℕ) (r : Realm) → c ≢ d → Rules owner d r → Rules (set_owner owner s c) d r
  Rules-other d r ne h = record {
    own = λ q. (
      λ i. others_keep owner s c d q free ((h.own q).0 i),
      λ e. elim (owner_cases owner s c q d e) [
        | inl (k, same) ↦ absurd (ne same)
        | inr k ↦ (h.own q).1 k
      ],
    );
    once = h.once;
    border = λ q i. others_keep owner s c d q free (h.border q i);
    border_len = h.border_len;
    home_own = λ q i. others_keep owner s c d q free (h.home_own q i);
  }

  Rules-Gains : (r r' : Realm) → Gains s r r' → Rules owner c r → Rules (set_owner owner s c) c r'
  Rules-Gains r r' k h =
      let taken : (q : ℕ) → q ≡ s → set_owner owner s c q ≡ some c =
        λ q e. ap (set_owner owner s c) e ∙ set_owner-same owner s c in
      let kept : (q : ℕ) → owner q ≡ some c → set_owner owner s c q ≡ some c =
        λ q e. others_keep owner s c c q free e in
      record {
        own = λ q. (
          λ i. elim (In-append_cases r.systems.list (s ∷ []) q (subst (In q) k.systems i)) [
            | inl j ↦ kept q ((h.own q).0 j)
            | inr (inl e) ↦ taken q e
            | inr (inr j) ↦ absurd j
          ],
          λ e. subst (In q) (sym k.systems) (elim (owner_cases owner s c q c e) [
            | inl (j, same) ↦ In-append_right r.systems.list (s ∷ []) q (inl (sym j))
            | inr j ↦ In-append_left r.systems.list (s ∷ []) q ((h.own q).1 j)
          ]),
        );
        once =
            subst Apart (sym k.systems)
              (Apart-push r.systems.list s h.once (λ i. absurd (cc (free, (h.own s).0 i))));
        border = λ q i. elim (k.border q i) [ inl e ↦ taken q e | inr j ↦ kept q (h.border q j) ];
        border_len = k.border_len;
        home_own = λ q i. elim (k.home q i) [ inl e ↦ taken q e | inr j ↦ kept q (h.home_own q j) ];
      }

-- All stays settled.
pub Settled-Gains :
    (systems : List ℕ) (g : Galaxy) (s c : ℕ) (r' : Realm) (links : ℕ → List ℕ) (n : ℕ)
    → Settled systems g
    → g.owner s ≡ none
    → In s systems
    → Gains s (g.civ c) r'
    → Settled systems (record {
      owner = set_owner g.owner s c;
      links = links;
      civ = set_civ g.civ c r';
      inhabited_systems = n;
    })
Settled-Gains systems g s c r' links n h free i k = record {
  rules = λ d. elim (Bool-cases (c == d)) [
    | inl e ↦
        let same = (==_iff c d).0 e in
        subst (λ d. Rules (set_owner g.owner s c) d (set_civ g.civ c r' d)) same
          (subst (Rules (set_owner g.owner s c) c) (sym (set_civ-same g.civ c r'))
            (Rules-Gains g.owner s c free (g.civ c) r' k (h.rules c)))
    | inr e ↦
        let ne : c ≢ d = λ j. absurd (cc (e, (==_iff c d).1 j)) in
        subst (Rules (set_owner g.owner s c) d) (sym (set_civ-other g.civ c d r' ne))
          (Rules-other g.owner s c free d (g.civ d) ne (h.rules d))
  ];
  known = λ q d e. elim (owner_cases g.owner s c q d e) [
    | inl (j, same) ↦ subst (λ q. In q systems) j i
    | inr j ↦ h.known q d j
  ];
}

-- ===== src/Stringtrie/Found.antt =====
-- stringtrie.c: where the data that `st_lookup_string` finds comes from.
use yastg.Prelude.{
  ℕ, List, [], ◌∷◌, ◌++◌, Option, none, some, ok, fault, null_deref, assert_failed, Run, ◌≡◌, refl,
  ◌∙◌, subst, inl, inr, Bool-cases,
}
use yastg.Stringtrie.Node.{Root, open_ptr}
use yastg.Stringtrie.Ops.{child, st_lookup_string, walk}
use yastg.Stringtrie.Values.{value, value-child, Ptr-cases}
use yastg.Stringtrie.Live.{IsLive, in_use}
use yastg.Stringtrie.Upkeep.{IsKept}
use yastg.Stringtrie.Kept.{IsKept-child}
use yastg.Stringtrie.Lookup.{
  Outcome, Outcome-node, lookup_end, walk-child, walk-no_child, st_lookup_string-walk,
  st_lookup_string-walk-none, st_lookup_string-IsKept,
}
use yastg.Stringtrie.Dead.{lookup-dead}
use yastg.Prelude.{out_of_bounds}
use yastg.Prelude.{sym, ◌⊎◌}
use yastg.Stringtrie.Values.{value-no_child}
use yastg.Prelude.{fun_ext}

module _ {A : Type 0} where
  -- The result of a lookup is the data of a string, NULL, or, for one character, the read of a NULL
  -- pointer.
  abbrev pub Stored : Option (List ℕ) → (List ℕ → Option A) → Run (Option A) → Type 0
  Stored s v (ok (some x)) = (t : List ℕ) × (v t ≡ some x)
  Stored s v (ok none) = Unit
  Stored s v (fault null_deref) = (c : ℕ) × (s ≡ some (c ∷ []))
  Stored s v (fault assert_failed) = ⊥
  Stored s v (fault out_of_bounds) = ⊥

  Outcome-Stored :
      (s : Option (List ℕ)) (v w : List ℕ → Option A) (f : List ℕ → List ℕ) (r : Run (Option A))
      → ((t : List ℕ) → v (f t) ≡ w t)
      → Outcome w r
      → Stored s v r
  Outcome-Stored s v w f (ok (some x)) e (inl h) = (f [], e [] ∙ h)
  Outcome-Stored s v w f (ok (some x)) e (inr (_, (t, h, _))) = (f t, e t ∙ h)
  Outcome-Stored s v w f (ok none) e h = tt
  Outcome-Stored s v w f (fault _) e h = absurd h

  one-Stored :
      (root : Root A) (c : ℕ)
      → IsKept root
      → Stored (some (c ∷ [])) (value root) (st_lookup_string root (some (c ∷ [])))
  unfolding walk
  one-Stored root c kept = elim (Ptr-cases (child root c)) [
    | inl e ↦ rw (st_lookup_string-walk-none root c [] (walk-no_child root c [] e)) tt
    | inr (next, e) ↦
        let live : IsLive next = subst (λ p. IsLive (open_ptr p)) e (IsKept-child root c kept) in
        elim (Bool-cases (in_use next)) [
          | inl u ↦ rw (st_lookup_string-walk root c [] next (walk-child root c [] next e)) (
              Outcome-Stored _ (value root) (value next) (λ t. c ∷ t) (lookup_end next)
                (λ t. value-child root c t next e) (Outcome-node next (u, live)))
          | inr u ↦ rw (lookup-dead root c next e u) (c, refl)
        ]
  ]

  pub st_lookup_string-Stored :
      (root : Root A) (s : Option (List ℕ))
      → IsKept root
      → Stored s (value root) (st_lookup_string root s)
  unfolding st_lookup_string
  st_lookup_string-Stored root none kept = tt
  st_lookup_string-Stored root (some []) kept = tt
  st_lookup_string-Stored root (some (c ∷ [])) kept = one-Stored root c kept
  st_lookup_string-Stored root (some (c ∷ b ∷ bs)) kept =
      Outcome-Stored _ (value root) (λ t. value root ((c ∷ b ∷ bs) ++ t)) (λ t. (c ∷ b ∷ bs) ++ t) _
        (λ t. refl) (st_lookup_string-IsKept root c b bs kept)

  -- A lookup has the outcome of the data below the string, or it reads a NULL pointer, which happens only
  -- for one character.
  pub st_lookup_string-Outcome :
      (root : Root A) (c : ℕ) (cs : List ℕ)
      → IsKept root
      → Outcome (λ t. value root ((c ∷ cs) ++ t)) (st_lookup_string root (some (c ∷ cs)))
        ⊎ ((cs ≡ []) × (st_lookup_string root (some (c ∷ cs)) ≡ fault null_deref))
  unfolding walk
  st_lookup_string-Outcome root c (b ∷ bs) kept = inl (st_lookup_string-IsKept root c b bs kept)
  st_lookup_string-Outcome root c [] kept = elim (Ptr-cases (child root c)) [
    | inl e ↦
        rw (st_lookup_string-walk-none root c [] (walk-no_child root c [] e))
          (inl (value-no_child root c [] e, inl (λ t. value-no_child root c t e)))
    | inr (next, e) ↦
        let live : IsLive next = subst (λ p. IsLive (open_ptr p)) e (IsKept-child root c kept) in
        elim (Bool-cases (in_use next)) [
          | inl u ↦ rw (st_lookup_string-walk root c [] next (walk-child root c [] next e)) (
              inl (
                subst (λ v. Outcome v (lookup_end next))
                  (fun_ext (λ t. sym (value-child root c t next e))) (Outcome-node next (u, live))))
          | inr u ↦ rw (lookup-dead root c next e u) (inr (refl, refl))
        ]
  ]

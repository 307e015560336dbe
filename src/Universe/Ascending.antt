-- ===== src/Universe/Ascending.antt =====
-- universe.c: lists of systems in the order of their x coordinate.
use yastg.Prelude.{
  In, In-append_cases, In-append_left, In-append_right, List, [], arith, inl, inr, refl, subst, sym,
  true, ℕ, ◌++◌, ◌∷◌, ◌≡◌,
}
use yastg.Prelude.Int.{ltb_ℤ}
use yastg.Universe.Ops.{Pos}
use yastg.Prelude.{◌≢◌}

module _ (system : ℕ → Pos) where
  abbrev pub Ascending : List ℕ → Type 0
  Ascending [] = Unit
  Ascending (p ∷ ps) = ((q : ℕ) → In q ps → ltb_ℤ (system p).x (system q).x ≡ true) × Ascending ps

  -- The parts of a list around one of its systems.
  pub record Around (xs : List ℕ) (p : ℕ) (ys : List ℕ) : Type 0 where
    pub below : (q : ℕ) → In q xs → ltb_ℤ (system q).x (system p).x ≡ true
    pub above : (q : ℕ) → In q ys → ltb_ℤ (system p).x (system q).x ≡ true
    pub left : Ascending xs
    pub right : Ascending ys

  pub Ascending-Around :
      (xs : List ℕ) (p : ℕ) (ys : List ℕ) → Ascending (xs ++ p ∷ ys) → Around xs p ys
  Ascending-Around [] p ys h = record { below = λ q. absurd; above = h.0; left = tt; right = h.1 }
  Ascending-Around (z ∷ xs) p ys h =
      let rest = Ascending-Around xs p ys h.1 in
      record {
        below = λ q. elim [
          | inl e ↦
              subst (λ n. ltb_ℤ (system n).x (system p).x ≡ true) (sym e)
                (h.0 p (In-append_right xs (p ∷ ys) p (inl refl)))
          | inr k ↦ rest.below q k
        ];
        above = rest.above;
        left = (λ q k. h.0 q (In-append_left xs (p ∷ ys) q k), rest.left);
        right = rest.right;
      }

  pub Around-Ascending :
      (xs : List ℕ) (p : ℕ) (ys : List ℕ) → Around xs p ys → Ascending (xs ++ p ∷ ys)
  Around-Ascending [] p ys h = (h.above, h.right)
  Around-Ascending (z ∷ xs) p ys h = (
    first,
    Around-Ascending xs p ys (record {
      below = λ q k. h.below q (inr k);
      above = h.above;
      left = h.left.1;
      right = h.right;
    }),
  )
    where
      first : (q : ℕ) → In q (xs ++ p ∷ ys) → ltb_ℤ (system z).x (system q).x ≡ true
      first q k = elim (In-append_cases xs (p ∷ ys) q k) [
        | inl k ↦ h.left.0 q k
        | inr (inl e) ↦
            subst (λ n. ltb_ℤ (system z).x (system n).x ≡ true) (sym e) (h.below z (inl refl))
        | inr (inr k) ↦ ground (arith, h.below z (inl refl), h.above q k)
      ]

  pub Ascending-append : (xs ys : List ℕ) → Ascending (xs ++ ys) → Ascending xs × Ascending ys
  Ascending-append [] ys h = (tt, h)
  Ascending-append (z ∷ xs) ys h =
      let (left, right) = Ascending-append xs ys h.1 in
      ((λ q k. h.0 q (In-append_left xs ys q k), left), right)

  -- Without the one in the middle.
  pub Ascending-without :
      (xs : List ℕ) (p : ℕ) (ys : List ℕ) → Ascending (xs ++ p ∷ ys) → Ascending (xs ++ ys)
  Ascending-without [] p ys h = h.1
  Ascending-without (z ∷ xs) p ys h = (first, Ascending-without xs p ys h.1)
    where
      first : (q : ℕ) → In q (xs ++ ys) → ltb_ℤ (system z).x (system q).x ≡ true
      first q k = elim (In-append_cases xs ys q k) [
        | inl k ↦ h.0 q (In-append_left xs (p ∷ ys) q k)
        | inr k ↦ h.0 q (In-append_right xs (p ∷ ys) q (inr k))
      ]

  -- No other system is where one of them is.
  pub Ascending-apart :
      (xs : List ℕ) (p : ℕ) (ys : List ℕ) (q : ℕ)
      → Ascending (xs ++ p ∷ ys)
      → In q (xs ++ ys)
      → (system q).x ≢ (system p).x
  Ascending-apart xs p ys q h k e =
      let a = Ascending-Around xs p ys h in
      elim (In-append_cases xs ys q k) [
        | inl k ↦ ground (arith, a.below q k, e)
        | inr k ↦ ground (arith, a.above q k, e)
      ]

pub Ascending-congr :
    (system system' : ℕ → Pos) (ps : List ℕ)
    → ((q : ℕ) → In q ps → system q ≡ system' q)
    → Ascending system ps
    → Ascending system' ps
Ascending-congr system system' [] same h = tt
Ascending-congr system system' (p ∷ ps) same h = (
  λ q k.
      subst (λ s. ltb_ℤ (system' p).x s.x ≡ true) (same q (inr k))
        (subst (λ s. ltb_ℤ s.x (system q).x ≡ true) (same p (inl refl)) (h.0 q k)),
  Ascending-congr system system' ps (λ q k. same q (inr k)) h.1,
)

pub not_in :
    (system : ℕ → Pos) (xs : List ℕ) (p : ℕ) (ys : List ℕ) → Around system xs p ys → ¬ In p xs
not_in system xs p ys a i = ground (arith, a.below p i)

-- ===== src/Cli/Trim.antt =====
-- cli.c: what `trim_and_validate` leaves of a string.
use mathlib.Core.List.{reverse-cons}
-- Spaces are those of `isspace`.
use yastg.Cli.Ops.{cut_space, isspace, lead, skip_space, trim_and_validate}
use yastg.Prelude.{
  Bool-cases, List, Option, [], ap, append-nil, false, inl, inr, none, refl, reverse,
  reverse-append, reverse-reverse, some, subst, sym, true, ℕ, ◌++◌, ◌∙◌, ◌∷◌, ◌≡◌, ◌⊎◌,
}

abbrev pub AllSpace : List ℕ → Type 0
AllSpace [] = Unit
AllSpace (c ∷ cs) = (isspace c ≡ true) × AllSpace cs

-- The first character is no space.
abbrev pub BeginsWord : List ℕ → Type 0
BeginsWord [] = ⊥
BeginsWord (c ∷ cs) = isspace c ≡ false

-- Between spaces, of which these are in front, a string has this text, which has no space at either end.
pub record IsTrimmed (before s text : List ℕ) : Type 0 where
  pub after : List ℕ
  pub whole : s ≡ before ++ (text ++ after)
  pub blank_before : AllSpace before
  pub blank_after : AllSpace after
  pub first : BeginsWord text
  pub last : BeginsWord (reverse text)

abbrev pub Trim : List ℕ → Option (List ℕ) → Type 0
Trim s none = AllSpace s
Trim s (some text) = (before : List ℕ) × IsTrimmed before s text

skip_space_lem : (s : List ℕ) → (s ≡ lead s ++ skip_space s) × AllSpace (lead s)
unfolding skip_space lead
skip_space_lem [] = (refl, tt)
skip_space_lem (c ∷ cs) = elim (Bool-cases (isspace c)) [
  | inl e ↦ let (h, k) = skip_space_lem cs in rw e (ap (λ l. c ∷ l) h, (e, k))
  | inr e ↦ rw e (refl, tt)
]

skip_space-cases : (s : List ℕ) → (skip_space s ≡ []) ⊎ BeginsWord (skip_space s)
unfolding skip_space
skip_space-cases [] = inl refl
skip_space-cases (c ∷ cs) = elim (Bool-cases (isspace c)) [
  | inl e ↦ rw e (skip_space-cases cs)
  | inr e ↦ rw e (inr e)
]

AllSpace-append : (s t : List ℕ) → AllSpace s → AllSpace t → AllSpace (s ++ t)
AllSpace-append [] t h k = k
AllSpace-append (c ∷ s) t (e, h) k = (e, AllSpace-append s t h k)

AllSpace-reverse : (s : List ℕ) → AllSpace s → AllSpace (reverse s)
AllSpace-reverse [] h = tt
AllSpace-reverse (c ∷ s) (e, h) =
    subst AllSpace (sym (reverse-cons c s))
      (AllSpace-append (reverse s) (c ∷ []) (AllSpace-reverse s h) (e, tt))

-- What is cut off at the end.
cut_space_lem : (s : List ℕ) → (after : List ℕ) × (s ≡ cut_space s ++ after) × AllSpace after
unfolding cut_space
cut_space_lem s =
    let r = reverse s in
    let (e, blank) = skip_space_lem r in
    (
      reverse (lead r),
      sym (reverse-reverse s) ∙ ap reverse e ∙ reverse-append (lead r) (skip_space r),
      AllSpace-reverse (lead r) blank,
    )

-- A text that begins with a word does so when its end is cut.
cut_space-BeginsWord :
    (s : List ℕ) → BeginsWord s → BeginsWord (cut_space s) × BeginsWord (reverse (cut_space s))
unfolding cut_space
cut_space-BeginsWord s h =
    let (after, e, blank) = cut_space_lem s in
    let begins = front (cut_space s) after (subst BeginsWord e h) blank in (begins, back begins)
  where
    front : (t after : List ℕ) → BeginsWord (t ++ after) → AllSpace after → BeginsWord t
    front (c ∷ t) after k blank = k
    front [] [] k blank = k
    front [] (c ∷ after) k (e, blank) = absurd (cc (e, k))

    back : BeginsWord (cut_space s) → BeginsWord (reverse (cut_space s))
    back k = elim (skip_space-cases (reverse s)) [
      | inl e ↦ absurd (subst (λ t. BeginsWord (reverse t)) e k)
      | inr w ↦ subst BeginsWord (sym (reverse-reverse (skip_space (reverse s)))) w
    ]

-- Trimming finds nothing in spaces, else the text between the spaces.
pub trim_and_validate-IsTrimmed :
    (s : List ℕ)
    → (AllSpace s × (trim_and_validate (some s) ≡ none))
      ⊎ ((text : List ℕ) × (trim_and_validate (some s) ≡ some text) × IsTrimmed (lead s) s text)
unfolding trim_and_validate
trim_and_validate-IsTrimmed [] = inl (tt, refl)
trim_and_validate-IsTrimmed (c ∷ cs) = skipped (skip_space s) refl
  where
    s : List ℕ
    s = c ∷ cs

    Trimmed : List ℕ → Type 0
    Trimmed t =
        (AllSpace s
          × ((elim t [
            | [] ↦ none
            | b ∷ bs ↦ elim (cut_space (b ∷ bs)) [ [] ↦ none | a ∷ aa ↦ some (a ∷ aa) ]
          ])
              ≡ none))
        ⊎ ((text : List ℕ) × ((elim t [
          | [] ↦ none
          | b ∷ bs ↦ elim (cut_space (b ∷ bs)) [ [] ↦ none | a ∷ aa ↦ some (a ∷ aa) ]
        ])
              ≡ some text)
            × IsTrimmed (lead s) s text)

    cut :
        (t text : List ℕ)
        → cut_space t ≡ text
        → BeginsWord t
        → s ≡ lead s ++ t
        → ((elim text [ [] ↦ none | a ∷ aa ↦ some (a ∷ aa) ]) ≡ some text)
          × IsTrimmed (lead s) s text
    cut t text e w h =
        let (first, last) = cut_space-BeginsWord t w in
        let (after, k, blank) = cut_space_lem t in
        let first' = subst BeginsWord e first in
        (
          not_empty text first',
          record {
            after = after;
            whole = h ∙ ap (λ l. lead s ++ l) (k ∙ ap (λ l. l ++ after) e);
            blank_before = (skip_space_lem s).1;
            blank_after = blank;
            first = first';
            last = subst (λ l. BeginsWord (reverse l)) e last;
          },
        )
      where
        not_empty :
            (text : List ℕ)
            → BeginsWord text
            → (elim text [ [] ↦ none | a ∷ aa ↦ some (a ∷ aa) ]) ≡ some text
        not_empty [] h = absurd h
        not_empty (a ∷ aa) h = refl

    skipped : (t : List ℕ) → skip_space s ≡ t → Trimmed t
    skipped [] e =
        let (h, blank) = skip_space_lem s in
        inl (subst AllSpace (sym (h ∙ ap (λ l. lead s ++ l) e ∙ append-nil (lead s))) blank, refl)
    skipped (b ∷ bs) e = elim (skip_space-cases s) [
      | inl n ↦ absurd (cc (n, e))
      | inr w ↦
          let (k, h) =
            cut (b ∷ bs) (cut_space (b ∷ bs)) refl (subst BeginsWord e w)
              ((skip_space_lem s).0 ∙ ap (λ l. lead s ++ l) e) in
          inr (cut_space (b ∷ bs), k, h)
    ]

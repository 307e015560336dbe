-- ===== src/Common/Bounds.antt =====
-- common.c: about the limits and `chomp`.
use yastg.Prelude.{
  ℕ, List, [], ◌∷◌, ◌++◌, reverse, Bool, true, false, ◌==◌, ◌||◌, ◌≡◌, refl, arith, if◌then◌else◌,
  reverse-reverse, reverse-append, ◌⊎◌, inl, inr, ◌∙◌, sym, ap, Bool-cases,
}
use yastg.Prelude.Int.{ℤ, pos, ◌≤ℤ◌, ltb_ℤ}
use yastg.Common.Ops.{
  limit_long_to_int, limit_long_to_uint, int_max, int_min, uint_max, chomp, drop_newlines,
}

-- The nearest integer of a range.
abbrev pub Nearest : ℤ → ℤ → ℤ → ℤ → Type 0
Nearest low high l r =
    (low ≤ℤ r) × (r ≤ℤ high) × ((r ≡ l) ⊎ (((r ≡ low) × (l ≤ℤ low)) ⊎ ((r ≡ high) × (high ≤ℤ l))))

limit-Nearest :
    (low high l : ℤ)
    → low ≤ℤ high
    → Nearest low high l (if ltb_ℤ l low then low else if ltb_ℤ high l then high else l)
limit-Nearest low high l h = ground (arith, h)

-- limit_long_to_int and limit_long_to_uint return the nearest number in the range of their type,
-- which is the argument itself if it is in the range.
pub limit_long-Nearest :
    (l : ℤ)
    → Nearest int_min int_max l (limit_long_to_int l)
      × Nearest (pos 0) uint_max l (limit_long_to_uint l)
unfolding limit_long_to_int limit_long_to_uint
limit_long-Nearest l =
    (limit-Nearest int_min int_max l (omega arith), limit-Nearest (pos 0) uint_max l (omega arith))

abbrev is_newline : ℕ → Bool
is_newline c = c == 10 || c == 13

abbrev pub Newlines : List ℕ → Type 0
Newlines [] = Unit
Newlines (c ∷ cs) = (is_newline c ≡ true) × Newlines cs

abbrev pub NoNewline : List ℕ → Type 0
NoNewline [] = Unit
NoNewline (c ∷ cs) = is_newline c ≡ false

dropped :
    (s : List ℕ)
    → (cut : List ℕ) × Newlines cut × (s ≡ cut ++ drop_newlines s) × NoNewline (drop_newlines s)
unfolding drop_newlines
dropped [] = ([], tt, refl, tt)
dropped (c ∷ cs) = elim (Bool-cases (is_newline c)) [
  | inl e ↦
      let (cut, n, s, last) = dropped cs in
      rw (e, drop_newlines) (c ∷ cut, (e, n), ap (λ t. c ∷ t) s, last)
  | inr e ↦ rw (e, drop_newlines) ([], tt, refl, e)
]

-- chomp cuts off newline characters only, from the end, and leaves none there.
pub chomp_lem :
    (s : List ℕ)
    → (cut : List ℕ) × Newlines cut × (s ≡ chomp s ++ reverse cut) × NoNewline (reverse (chomp s))
unfolding chomp
chomp_lem s =
    let (cut, n, e, last) = dropped (reverse s) in
    let back : s ≡ reverse (drop_newlines (reverse s)) ++ reverse cut =
      sym (reverse-reverse s) ∙ ap reverse e ∙ reverse-append cut (drop_newlines (reverse s)) in
    (cut, n, back, rw (reverse-reverse (drop_newlines (reverse s))) last)

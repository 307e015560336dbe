-- ===== src/Cli/Words.antt =====
-- cli.c: the command and the parameter that `cli_run_cmd` takes from a line.
use yastg.Cli.Ops.{indent, isspace, lead, split_line, trim_and_validate, word_end}
use yastg.Cli.Trim.{AllSpace, BeginsWord, Trim, trim_and_validate-IsTrimmed}
use yastg.Prelude.{
  Bool-cases, List, Option, [], ap, arith, drop, false, if◌then◌else◌, inl, inr, length, ltb, none,
  refl, reverse, reverse-append, some, subst, suc, sym, take, true, ℕ, ◌++◌, ◌+◌, ◌-◌, ◌<◌, ◌∷◌,
  ◌≡◌, ◌⊎◌,
}
use yastg.Prelude.{lt→ltb, ◌≤◌}
use yastg.Prelude.{Bool}

abbrev AllWord : List ℕ → Type 0
AllWord [] = Unit
AllWord (c ∷ cs) = (isspace c ≡ false) × AllWord cs

-- The command's name and its parameter in a text with these spaces in front. The name ends in front of the
-- first space. But where there are spaces in front, the text is not split: all of it is the name, and the
-- parameter is all but its first character.
abbrev pub Named : List ℕ → List ℕ → List ℕ → Option (List ℕ) → Type 0
Named [] cmd name param =
    AllWord name
    × (((cmd ≡ name) × (param ≡ none))
        ⊎ ((space : ℕ) × (rest : List ℕ) × (cmd ≡ name ++ space ∷ rest)
            × (isspace space ≡ true)
            × Trim rest param))
Named (b ∷ before) cmd name param = (name ≡ cmd) × Trim (drop 1 cmd) param

-- What `word_end` finds.
abbrev Ends : List ℕ → ℕ → Type 0
Ends cmd i =
    AllWord (take i cmd)
    × (((cmd ≡ take i cmd) × (i ≡ length cmd))
        ⊎ ((space : ℕ) × (rest : List ℕ) × (cmd ≡ take i cmd ++ space ∷ rest)
            × (isspace space ≡ true)
            × (drop (i + 1) cmd ≡ rest)
            × (length cmd ≡ i + 1 + length rest)))

word_end-Ends : (cmd : List ℕ) → Ends cmd (word_end (length cmd) cmd)
unfolding word_end
word_end-Ends [] = (tt, inl (refl, refl))
word_end-Ends (c ∷ cs) = elim (Bool-cases (isspace c)) [
  | inl e ↦ rw (e, word_end) (tt, inr (c, cs, refl, e, refl, omega arith))
  | inr e ↦ rw (e, word_end) (one_more (word_end (length cs) cs) (word_end-Ends cs) e)
]
  where
    one_more : (i : ℕ) → Ends cs i → isspace c ≡ false → Ends (c ∷ cs) (suc i)
    one_more i (w, inl (h, k)) e = ((e, w), inl (ap (λ l. c ∷ l) h, omega (arith, k)))
    one_more i (w, inr (space, rest, h, s, d, l)) e =
        let k : suc (i + 1) ≡ suc i + 1 = omega arith in
        (
          (e, w),
          inr (
            space,
            rest,
            ap (λ l. c ∷ l) h,
            s,
            subst (λ n. drop n (c ∷ cs) ≡ rest) k d,
            omega (arith, l),
          ),
        )

pub indent-lead : (s : List ℕ) → indent s ≡ length (lead s)
unfolding indent lead
indent-lead [] = refl
indent-lead (c ∷ cs) = elim (Bool-cases (isspace c)) [
  | inl e ↦ rw e (ap suc (indent-lead cs))
  | inr e ↦ rw e refl
]

trimmed-Trim : (s : List ℕ) → Trim s (trim_and_validate (some s))
trimmed-Trim s = elim (trim_and_validate-IsTrimmed s) [
  | inl (blank, e) ↦ subst (Trim s) (sym e) blank
  | inr (text, e, h) ↦ subst (Trim s) (sym e) (lead s, h)
]

-- Where the text is not followed by a space there is more behind a space in it.
more_behind :
    (name rest : List ℕ) (space : ℕ)
    → isspace space ≡ true
    → BeginsWord (reverse (name ++ space ∷ rest))
    → 0 < length rest
more_behind name (c ∷ rest) space e h = omega arith
more_behind name [] space e h =
    absurd (cc (e, subst BeginsWord (reverse-append name (space ∷ [])) h))

not_below : (i n : ℕ) → n ≤ i → ltb i n ≡ false
not_below i n h = ground arith

pub split_line-Named :
    (before cmd : List ℕ)
    → AllSpace before
    → BeginsWord cmd
    → BeginsWord (reverse cmd)
    → let w = split_line (before ++ cmd) (length before) cmd in Named before cmd w.0 w.1
unfolding split_line
split_line-Named [] cmd blank first last =
    unindented (word_end (length cmd) cmd) (word_end-Ends cmd)
  where
    at_name : (i : ℕ) → (if ltb i 0 then cmd else take (i - 0) cmd) ≡ take i cmd
    at_name i = rw (not_below i 0 (omega arith)) (ap (λ n. take n cmd) (omega arith))

    past_end : (i : ℕ) → length cmd ≤ i → ltb i (length cmd - 1) ≡ false
    past_end i h = not_below i (length cmd - 1) (omega arith)

    unindented :
        (i : ℕ)
        → Ends cmd i
        → Named [] cmd
            (if ltb i 0 then cmd else take (i - 0) cmd)
            (if ltb i (length cmd - 1) then trim_and_validate (some (drop (i + 1) cmd)) else none)
    unindented i (w, inl (h, k)) = rw (at_name i, past_end i (omega arith)) (w, inl (h, refl))
    unindented i (w, inr (space, rest, h, s, d, l)) =
        let more =
          more_behind (take i cmd) rest space s (subst (λ t. BeginsWord (reverse t)) h last) in
        rw (at_name i, lt→ltb i (length cmd - 1) (omega (arith, l, more)))
          (
            w,
            inr (
              space,
              rest,
              h,
              s,
              subst (λ t. Trim rest (trim_and_validate (some t))) (sym d) (trimmed-Trim rest),
            ),
          )
split_line-Named (b ∷ before) [] blank first last = absurd first
split_line-Named (b ∷ before) (c ∷ cs) (e, blank) first last =
    rw (e, word_end, lt→ltb 0 (suc (length before)) (omega arith)) (refl, behind cs)
  where
    nothing : (b : Bool) → Trim [] (if b then trim_and_validate (some []) else none)
    nothing true = trimmed-Trim []
    nothing false = tt

    behind :
        (cs : List ℕ)
        → Trim cs (if ltb 0 (length (c ∷ cs) - 1) then trim_and_validate (some cs) else none)
    behind [] = nothing (ltb 0 (length (c ∷ []) - 1))
    behind (d ∷ ds) =
        rw (lt→ltb 0 (suc (suc (length ds)) - 1) (omega arith)) (trimmed-Trim (d ∷ ds))

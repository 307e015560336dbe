-- ===== src/Console/Parts.antt =====
-- cli.c, common.c: the characters of a trimmed line and of a command's parameter are from the line.
use yastg.Prelude.{
  ℕ, List, [], ◌∷◌, ◌++◌, length, length-append, In, In-append_cases, reverse, inl, inr, subst, ◌≤◌,
  arith,
}
use mathlib.Core.List.{reverse-cons}
use yastg.Cli.Ops.{
  CliData, Call, cli_run_cmd, trim_and_validate, split_line, skip_space, cut_space, isspace, lead,
  indent,
}
use yastg.Common.Ops.{drop_newlines, chomp}
use yastg.Prelude.{Bool-cases, Option, drop, none, some, suc, sym, zero, ◌==◌, ◌||◌}
use yastg.Prelude.{Bool, Option-cases, Returns, false, if◌then◌else◌, true}
use yastg.Stringtrie.Live.{IsLive}
use yastg.Stringtrie.Node.{Root}
use yastg.Config.Lookups.{Found, st_lookup_string-Found}
use yastg.Prelude.{Returns-bind}
use yastg.Stringtrie.Ops.{st_lookup_string}
use yastg.Prelude.{take}

-- No longer, and with no other character.
abbrev Part : List ℕ → List ℕ → Type 0
Part s t = (length s ≤ length t) × ((x : ℕ) → In x s → In x t)

Part-refl : (s : List ℕ) → Part s s
Part-refl s = (omega arith, λ x h. h)

Part-trans : (s t u : List ℕ) → Part s t → Part t u → Part s u
Part-trans s t u (l, h) (m, k) = (omega arith, λ x i. k x (h x i))

Part-cons : (c : ℕ) (s t : List ℕ) → Part s t → Part s (c ∷ t)
Part-cons c s t (l, h) = (omega arith, λ x i. inr (h x i))

reverse-Part : (s : List ℕ) → Part (reverse s) s
reverse-Part [] = Part-refl []
reverse-Part (c ∷ s) =
    let (l, h) = reverse-Part s in
    subst (λ r. Part r (c ∷ s)) (sym (reverse-cons c s))
      (
        omega (arith, length-append (reverse s) (c ∷ [])),
        λ x i. elim (In-append_cases (reverse s) (c ∷ []) x i) [
          | inl k ↦ inr (h x k)
          | inr (inl e) ↦ inl e
          | inr (inr k) ↦ absurd k
        ],
      )

-- What is cut at the end.
reversed-Part :
    (f : List ℕ → List ℕ)
    → ((s : List ℕ) → Part (f s) s)
    → (s : List ℕ) → Part (reverse (f (reverse s))) s
reversed-Part f h s =
    Part-trans _ _ _ (reverse-Part (f (reverse s)))
      (Part-trans _ _ _ (h (reverse s)) (reverse-Part s))

skip_space-Part : (s : List ℕ) → Part (skip_space s) s
unfolding skip_space
skip_space-Part [] = Part-refl []
skip_space-Part (c ∷ s) = elim (Bool-cases (isspace c)) [
  | inl e ↦ rw e (Part-cons c _ _ (skip_space-Part s))
  | inr e ↦ rw e (Part-refl (c ∷ s))
]

drop_newlines-Part : (s : List ℕ) → Part (drop_newlines s) s
unfolding drop_newlines
drop_newlines-Part [] = Part-refl []
drop_newlines-Part (c ∷ s) = elim (Bool-cases (c == 10 || c == 13)) [
  | inl e ↦ rw e (Part-cons c _ _ (drop_newlines-Part s))
  | inr e ↦ rw e (Part-refl (c ∷ s))
]

pub chomp-Part : (s : List ℕ) → Part (chomp s) s
unfolding chomp
chomp-Part s = reversed-Part drop_newlines drop_newlines-Part s

cut_space-Part : (s : List ℕ) → Part (cut_space s) s
unfolding cut_space
cut_space-Part s = reversed-Part skip_space skip_space-Part s

pub drop-Part : (n : ℕ) (s : List ℕ) → Part (drop n s) s
drop-Part zero s = Part-refl s
drop-Part (suc n) [] = Part-refl []
drop-Part (suc n) (c ∷ s) = Part-cons c _ _ (drop-Part n s)

pub take-Part : (n : ℕ) (s : List ℕ) → Part (take n s) s
take-Part zero s = (omega arith, λ x h. absurd h)
take-Part (suc n) [] = Part-refl []
take-Part (suc n) (c ∷ s) =
    let (l, h) = take-Part n s in (omega arith, λ x. elim [ inl e ↦ inl e | inr i ↦ inr (h x i) ])

-- A part of the string, or NULL.
abbrev pub OptPart : Option (List ℕ) → List ℕ → Type 0
OptPart none s = Unit
OptPart (some t) s = Part t s

OptPart-trans : (o : Option (List ℕ)) (s t : List ℕ) → OptPart o s → Part s t → OptPart o t
OptPart-trans none s t h k = tt
OptPart-trans (some u) s t h k = Part-trans u s t h k

trim_and_validate-OptPart : (s : List ℕ) → OptPart (trim_and_validate (some s)) s
unfolding trim_and_validate
trim_and_validate-OptPart [] = tt
trim_and_validate-OptPart (c ∷ cs) = go (skip_space (c ∷ cs)) (skip_space-Part (c ∷ cs))
  where
    cut : (s t : List ℕ) → Part t s → OptPart (elim t [ [] ↦ none | u ∷ us ↦ some (u ∷ us) ]) s
    cut s [] h = tt
    cut s (u ∷ us) h = h

    go :
        (s : List ℕ)
        → Part s (c ∷ cs)
        → OptPart
            (elim s [
              | [] ↦ none
              | t ∷ ts ↦ elim (cut_space (t ∷ ts)) [ [] ↦ none | u ∷ us ↦ some (u ∷ us) ]
            ])
            (c ∷ cs)
    go [] h = tt
    go (t ∷ ts) h =
        cut (c ∷ cs) (cut_space (t ∷ ts))
          (Part-trans (cut_space (t ∷ ts)) (t ∷ ts) (c ∷ cs) (cut_space-Part (t ∷ ts)) h)

split_line-OptPart : (line : List ℕ) (k : ℕ) (cmd : List ℕ) → OptPart (split_line line k cmd).1 cmd
unfolding split_line
split_line-OptPart line k cmd = when _ _
  where
    when :
        (b : Bool) (n : ℕ) → OptPart (if b then trim_and_validate (some (drop n cmd)) else none) cmd
    when false n = tt
    when true n =
        OptPart-trans (trim_and_validate (some (drop n cmd))) (drop n cmd) cmd
          (trim_and_validate-OptPart (drop n cmd)) (drop-Part n cmd)

module _ {F P : Type 0} where
  abbrev pub OptCall : List ℕ → Option (Call F P) → Type 0
  OptCall line none = Unit
  OptCall line (some c) = OptPart c.param line

  called :
      (line : List ℕ) (param : Option (List ℕ))
      → OptPart param line
      → (node : Option (CliData F P))
      → OptCall line (elim node [
        | none ↦ none
        | some d ↦ elim d.func [
          | none ↦ none
          | some f ↦ some (record { func = f; arg = d.arg; param = param })
        ]
      ])
  called line param h none = tt
  called line param h (some d) = with_func d.func
    where
      with_func :
          (func : Option F)
          → OptCall line (elim func [
            | none ↦ none
            | some f ↦ some (record { func = f; arg = d.arg; param = param })
          ])
      with_func none = tt
      with_func (some f) = h

  -- Where commands were only added, a line ends without a fault, and the parameter of the call is part of it.
  pub cli_run_cmd-OptCall :
      (root : Root (CliData F P)) (line : List ℕ)
      → IsLive root
      → Returns (OptCall line) (cli_run_cmd root (some line))
  unfolding cli_run_cmd
  cli_run_cmd-OptCall root line live = elim (Option-cases (trim_and_validate (some line))) [
    | inl e ↦ rw (e, cli_run_cmd) tt
    | inr (cmd, e) ↦
        rw (e, cli_run_cmd)
          (let w = split_line (lead line ++ cmd) (indent line) cmd in
            let part =
              OptPart-trans w.1 cmd line (split_line-OptPart (lead line ++ cmd) (indent line) cmd)
                (subst (λ o. OptPart o line) e (trim_and_validate-OptPart line)) in
            Returns-bind (Found root) (OptCall line) (st_lookup_string root (some w.0)) _
              (st_lookup_string-Found root (some w.0) live) (λ node k. called line w.1 part node))
  ]

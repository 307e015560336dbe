-- ===== src/Cli/Calls.antt =====
-- cli.c: the call that `cli_run_cmd` makes, by an independent description of a line.
use yastg.Cli.Lines.{call}
use yastg.Cli.Ops.{Call, CliData, cli_run_cmd, lead, split_line}
use yastg.Cli.Table.{Holds, Table, lookup}
use yastg.Cli.Trim.{AllSpace, BeginsWord, IsTrimmed, trim_and_validate-IsTrimmed}
use yastg.Cli.Words.{Named, split_line-Named}
use yastg.Prelude.{
  List, Option, Run, [], ap, fault, fun_ext, inl, inr, length, none, null_deref, ok, refl, some,
  subst, sym, ℕ, ◌++◌, ◌>>=◌, ◌∷◌, ◌≡◌, ◌⊎◌,
}
use yastg.Stringtrie.Found.{st_lookup_string-Outcome}
use yastg.Stringtrie.Lookup.{Outcome}
use yastg.Stringtrie.Node.{Root}
use yastg.Stringtrie.Ops.{st_lookup_string}
use yastg.Cli.Words.{indent-lead}

Named-BeginsWord :
    (before cmd name : List ℕ) (param : Option (List ℕ))
    → BeginsWord cmd
    → Named before cmd name param
    → BeginsWord name
Named-BeginsWord (b ∷ before) cmd name param h (e, k) = subst BeginsWord (sym e) h
Named-BeginsWord [] cmd name param h (w, inl (e, k)) = subst BeginsWord e h
Named-BeginsWord [] cmd (c ∷ name) param h (w, inr k) = w.0
Named-BeginsWord [] cmd [] param h (w, inr (space, rest, e, s, k)) =
    absurd (cc (s, subst BeginsWord e h))

module _ {F P : Type 0} where
  -- What a lookup of the name in the table comes to, and then the call of its function with its argument and
  -- the parameter. Without a function there is no call. A NULL pointer is read only if the name is one
  -- character.
  abbrev Makes : Table (CliData F P) → List ℕ → Option (List ℕ) → Run (Option (Call F P)) → Type 0
  Makes l name param r =
      ((found : Option (CliData F P)) × Outcome (λ t. lookup l (name ++ t)) (ok found)
        × (r ≡ ok (call param found)))
      ⊎ ((c : ℕ) × (name ≡ c ∷ []) × (r ≡ fault null_deref))

  -- The line is spaces, and no call is made, or it has a text with a name.
  abbrev pub Understood : Table (CliData F P) → List ℕ → Run (Option (Call F P)) → Type 0
  Understood l line r =
      (AllSpace line × (r ≡ ok none))
      ⊎ ((before : List ℕ) × (cmd : List ℕ) × (name : List ℕ) × (param : Option (List ℕ))
          × IsTrimmed before line cmd
          × Named before cmd name param
          × Makes l name param r)

  Outcome-Makes :
      (l : Table (CliData F P)) (name : List ℕ) (param : Option (List ℕ))
      (r : Run (Option (CliData F P)))
      → Outcome (λ t. lookup l (name ++ t)) r
      → Makes l name param (r >>= λ node. ok (call param node))
  Outcome-Makes l name param (ok found) h = inl (found, h, refl)
  Outcome-Makes l name param (fault stop) h = absurd h

  looked_up :
      {root : Root (CliData F P)} {l : Table (CliData F P)} (name : List ℕ)
      (param : Option (List ℕ))
      → Holds root l
      → BeginsWord name
      → Makes l name param (st_lookup_string root (some name) >>= λ node. ok (call param node))
  looked_up [] param h w = absurd w
  looked_up {root} {l} (c ∷ cs) param h w = elim (st_lookup_string-Outcome root c cs h.kept) [
    | inl o ↦ Outcome-Makes l (c ∷ cs) param (st_lookup_string root (some (c ∷ cs))) (
        subst (λ v. Outcome v (st_lookup_string root (some (c ∷ cs))))
          (fun_ext (λ t. h.values ((c ∷ cs) ++ t))) o)
    | inr (e, k) ↦ inr (
      c,
      ap (λ t. c ∷ t) e,
      ap (λ (r : Run (Option (CliData F P))). r >>= λ node. ok (call param node)) k,
    )
  ]

  -- Of a string tree that holds a table of commands, cli_run_cmd of a line of spaces makes no call.
  -- Any other line has a text between spaces. If no space is in front of it, the name is its first
  -- word and the parameter is what follows, trimmed; else the name is the whole text and the
  -- parameter all but its first character, trimmed. The call is that of the command of the name,
  -- else of the only command that begins with the name, with its argument and the parameter. There
  -- is no call if the name has neither or the command has no function. Only with a name of one
  -- character may a NULL pointer be read instead.
  pub cli_run_cmd-Understood :
      {root : Root (CliData F P)} {l : Table (CliData F P)} (line : List ℕ)
      → Holds root l
      → Understood l line (cli_run_cmd root (some line))
  unfolding cli_run_cmd call
  cli_run_cmd-Understood {root} {l} line h = elim (trim_and_validate-IsTrimmed line) [
    | inl (blank, e) ↦ rw (e, cli_run_cmd) (inl (blank, refl))
    | inr (cmd, e, t) ↦
        let w = split_line (lead line ++ cmd) (length (lead line)) cmd in
        let named = split_line-Named (lead line) cmd t.blank_before t.first t.last in
        rw (e, cli_run_cmd, indent-lead line)
          (inr (
            lead line,
            cmd,
            w.0,
            w.1,
            t,
            named,
            looked_up w.0 w.1 h (Named-BeginsWord (lead line) cmd w.0 w.1 t.first named),
          ))
  ]

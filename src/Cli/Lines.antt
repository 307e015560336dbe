-- ===== src/Cli/Lines.antt =====
-- cli.c: what `cli_run_cmd` makes of a line.
use yastg.Prelude.{
  ℕ, List, [], ◌∷◌, ◌++◌, Option, none, some, ok, fault, null_deref, assert_failed, Run, ◌>>=◌, ◌≡◌,
  refl, sym, ◌∙◌, inl, inr, Option-cases, some-injective,
}
use yastg.Stringtrie.Node.{Root}
use yastg.Stringtrie.Ops.{st_lookup_string}
use yastg.Stringtrie.Values.{value}
use yastg.Stringtrie.Found.{Stored, st_lookup_string-Stored}
use yastg.Cli.Ops.{CliData, Call, cli_run_cmd, trim_and_validate, split_line, lead, indent}
use yastg.Cli.Table.{Table, Holds, lookup}
use yastg.Prelude.{out_of_bounds}

-- The command and parameter in a line; `none` where the line is empty.
abbrev pub words : List ℕ → Option (List ℕ × Option (List ℕ))
words string = elim (trim_and_validate (some string)) [
  | none ↦ none
  | some cmd ↦ some (split_line (lead string ++ cmd) (indent string) cmd)
]

module _ {F P : Type 0} where
  -- A call is of a function of the table, with the parameter of the line. A NULL pointer is read only if
  -- the command is one character.
  abbrev pub Called :
      Table (CliData F P) → Option (List ℕ × Option (List ℕ)) → Run (Option (Call F P)) → Type 0
  Called l none r = r ≡ ok none
  Called l (some w) (ok none) = Unit
  Called l (some w) (ok (some c)) =
      (c.param ≡ w.1)
      × ((t : List ℕ) × (d : CliData F P) × (lookup l t ≡ some d)
          × (d.func ≡ some c.func)
          × (d.arg ≡ c.arg))
  Called l (some w) (fault null_deref) = (c : ℕ) × (w.0 ≡ c ∷ [])
  Called l (some w) (fault assert_failed) = ⊥
  Called l (some w) (fault out_of_bounds) = ⊥

  -- Of a command without a function no call is made.
  unfoldable pub call : Option (List ℕ) → Option (CliData F P) → Option (Call F P)
  call param none = none
  call param (some d) = elim d.func [
    | none ↦ none
    | some f ↦ some (record { func = f; arg = d.arg; param = param })
  ]

  found-Called :
      {root : Root (CliData F P)} {l : Table (CliData F P)} (name : List ℕ)
      (param : Option (List ℕ)) (r : Run (Option (CliData F P)))
      → Holds root l
      → Stored (some name) (value root) r
      → Called l (some (name, param)) (r >>= λ node. ok (call param node))
  unfolding call
  found-Called name param (ok none) h s = tt
  found-Called name param (ok (some d)) h (t, e) = elim (Option-cases d.func) [
    | inl n ↦ rw (n) tt
    | inr (f, n) ↦ rw (n) (refl, (t, d, sym (h.values t) ∙ e, n, refl))
  ]
  found-Called name param (fault null_deref) h (c, e) = (c, some-injective _ _ e)
  found-Called name param (fault assert_failed) h s = absurd s
  found-Called name param (fault out_of_bounds) h s = absurd s

  -- Of a string tree that holds a table of commands, cli_run_cmd of a line without words makes no
  -- call. Of any other line it makes no call, or that of a function in the table with its argument
  -- and the parameter of the line, or it reads a NULL pointer, which happens only if the command is
  -- one character. It fails no assertion.
  pub cli_run_cmd-Called :
      {root : Root (CliData F P)} {l : Table (CliData F P)} (line : List ℕ)
      → Holds root l
      → Called l (words line) (cli_run_cmd root (some line))
  unfolding cli_run_cmd call
  cli_run_cmd-Called {root} {l} line h = elim (Option-cases (trim_and_validate (some line))) [
    | inl e ↦ rw (e, words, cli_run_cmd) refl
    | inr (cmd, e) ↦
        rw (e, words, cli_run_cmd)
          (let (name, param) = split_line (lead line ++ cmd) (indent line) cmd in
            found-Called name param (st_lookup_string root (some name)) h
              (st_lookup_string-Stored root (some name) h.kept))
  ]

-- ===== src/Cli/Ops.antt =====
-- cli.c: `trim_and_validate`, and adding, removing and running a command. Allocations succeed. A string
-- that a function changes in place is returned, from the pointer that the function returns.
use yastg.Prelude.{
  ℕ, zero, suc, ◌+◌, ◌-◌, List, [], ◌∷◌, ◌++◌, reverse, Option, none, some, Bool, ◌&&◌, ◌||◌, ◌==◌,
  leb, ltb, if◌then◌else◌, Run, ok, ◌>>=◌, length, take, drop,
}
use yastg.Prelude.Int.{ℤ, pos, negsuc}
use yastg.Stringtrie.Node.{Root}
use yastg.Stringtrie.Ops.{st_add_string, st_rm_string, st_lookup_string}
use yastg.Prelude.{true}
use yastg.Stringtrie.Ops.{st_destroy}

-- `struct cli_data`, over the functions `F` and what `data` points to. `func` may be NULL.
pub record CliData (F P : Type 0) : Type 0 where
  pub func : Option F
  pub help : Option (List ℕ)
  pub arg : P

-- The call `node->func(node->data, param)`.
pub record Call (F P : Type 0) : Type 0 where
  pub func : F
  pub arg : P
  pub param : Option (List ℕ)

-- `isspace` in the C locale: space, and tab to carriage return.
abbrev pub isspace : ℕ → Bool
isspace c = c == 32 || leb 9 c && leb c 13

-- `while (isspace(*string)) string++`
unfoldable pub skip_space : List ℕ → List ℕ
skip_space [] = []
skip_space (c ∷ cs) = if isspace c then skip_space cs else c ∷ cs

-- The loop that overwrites the spaces at the end, from the last character down. It never reaches the
-- first character, which is no space.
unfoldable pub cut_space : List ℕ → List ℕ
unfolding skip_space
cut_space s = reverse (skip_space (reverse s))

unfoldable pub trim_and_validate : Option (List ℕ) → Option (List ℕ)
unfolding skip_space cut_space
trim_and_validate none = none
trim_and_validate (some []) = none
trim_and_validate (some (c ∷ cs)) = elim (skip_space (c ∷ cs)) [
  | [] ↦ none
  | s ∷ ss ↦ elim (cut_space (s ∷ ss)) [ [] ↦ none | t ∷ ts ↦ some (t ∷ ts) ]
]

-- `for (i = 0; i < len && !isspace(line[i]); i++)`
unfoldable pub word_end : ℕ → List ℕ → ℕ
word_end zero line = 0
word_end (suc n) [] = 0
word_end (suc n) (c ∷ cs) = if isspace c then 0 else suc (word_end n cs)

-- The spaces in front of the first character, in number.
unfoldable pub indent : List ℕ → ℕ
indent [] = 0
indent (c ∷ cs) = if isspace c then suc (indent cs) else 0

-- The prefix of the string that is left in front of the pointer `cmd`.
unfoldable pub lead : List ℕ → List ℕ
lead [] = []
lead (c ∷ cs) = if isspace c then c ∷ lead cs else []

-- The command and its parameter in a line whose trimmed text is `cmd`, which stands behind `line`'s
-- first `k` characters. The loop looks at `line`, and `cmd` ends where it writes the NUL, if that is
-- not in front of `cmd`.
unfoldable pub split_line : List ℕ → ℕ → List ℕ → List ℕ × Option (List ℕ)
unfolding word_end trim_and_validate
split_line line k cmd =
    let len = length cmd in
    let i = word_end len line in
    (
      if ltb i k then cmd else take (i - k) cmd,
      if ltb i (len - 1) then trim_and_validate (some (drop (i + 1) cmd)) else none,
    )

module _ {F P : Type 0} where
  unfoldable pub cli_add_cmd :
      Root (CliData F P) → Option (List ℕ) → Option F → P → Option (List ℕ) → ℤ × Root (CliData F P)
  cli_add_cmd root cmd func arg help = elim (trim_and_validate cmd) [
    | none ↦ (negsuc 0, root)
    | some s ↦ st_add_string root (some s) (some (record { func = func; help = help; arg = arg }))
  ]

  -- `cli_tree_destroy`: the root that is left.
  unfoldable pub cli_tree_destroy : Root (CliData F P) → Root (CliData F P)
  unfolding st_destroy
  cli_tree_destroy root = (st_destroy root true).1

  unfoldable pub cli_rm_cmd : Root (CliData F P) → Option (List ℕ) → ℤ × Root (CliData F P)
  cli_rm_cmd root cmd =
      let (node, root') = st_rm_string root cmd in
      elim node [ none ↦ (negsuc 0, root') | some x ↦ (pos 0, root') ]

  -- The call that `cli_run_cmd` makes and whose result it returns; `none` where it returns -1.
  unfoldable pub cli_run_cmd : Root (CliData F P) → Option (List ℕ) → Run (Option (Call F P))
  unfolding split_line trim_and_validate indent lead
  cli_run_cmd root none = ok none
  cli_run_cmd root (some string) = elim (trim_and_validate (some string)) [
    | none ↦ ok none
    | some cmd ↦
        let (name, param) = split_line (lead string ++ cmd) (indent string) cmd in
        do
          node ← st_lookup_string root (some name)
          ok (elim node [
            | none ↦ none
            | some d ↦ elim d.func [
              | none ↦ none
              | some f ↦ some (record { func = f; arg = d.arg; param = param })
            ]
          ])
  ]

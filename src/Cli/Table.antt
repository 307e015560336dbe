-- ===== src/Cli/Table.antt =====
-- cli.c: the commands that a string tree holds, as a list of names with what they stand for, the last
-- added first.
use yastg.Prelude.{ℕ, List, [], ◌∷◌, Option, none, some, true, if◌then◌else◌, ◌≡◌, refl, arith}
use yastg.Prelude.Int.{ℤ, pos, negsuc}
use yastg.Stringtrie.Keys.{same_key}
use yastg.Stringtrie.Node.{Root}
use yastg.Stringtrie.Ops.{st_add_string, st_rm_string}
use yastg.Stringtrie.Values.{value, value-add_path}
use yastg.Stringtrie.Map.{st_rm_string-value}
use yastg.Stringtrie.Upkeep.{IsKept}
use yastg.Stringtrie.Kept.{st_add_string-IsKept, st_rm_string-IsKept}
use yastg.Cli.Ops.{CliData, cli_add_cmd, cli_rm_cmd, trim_and_validate}
use yastg.Cli.Ops.{cli_tree_destroy}
use yastg.Player.Name.{help}
use yastg.Stringtrie.Arrays.{child-is_msb_free}
use yastg.Stringtrie.Ops.{clear, is_msb_free, scan, st_destroy}
use yastg.Stringtrie.Values.{value-nil, value-no_child}

abbrev pub Table : Type 0 → Type 0
Table X = List (List ℕ × X)

module _ {X : Type 0} where
  abbrev pub lookup : Table X → List ℕ → Option X
  lookup [] t = none
  lookup ((s, x) ∷ l) t = if same_key s t then some x else lookup l t

  abbrev pub erase : List ℕ → Table X → Table X
  erase k [] = []
  erase k ((s, x) ∷ l) = if same_key s k then erase k l else (s, x) ∷ erase k l

-- Strings of one key are alike to every third string.
same_key_left : (s k t : List ℕ) → same_key s k ≡ true → same_key k t ≡ same_key s t
same_key_left [] [] t h = refl
same_key_left [] (b ∷ k) t h = cc
same_key_left (a ∷ s) [] t h = cc
same_key_left (a ∷ s) (b ∷ k) [] h = refl
same_key_left (a ∷ s) (b ∷ k) (c ∷ t) h = ground (arith, same_key_left s k t)

same_key_symm : (s k : List ℕ) → same_key s k ≡ same_key k s
same_key_symm [] [] = refl
same_key_symm [] (b ∷ k) = refl
same_key_symm (a ∷ s) [] = refl
same_key_symm (a ∷ s) (b ∷ k) = ground (arith, same_key_symm s k)

module _ {X : Type 0} where
  lookup-erase :
      (k : List ℕ) (l : Table X) (t : List ℕ)
      → lookup (erase k l) t ≡ (if same_key k t then none else lookup l t)
  lookup-erase k [] t = ground arith
  lookup-erase k ((s, x) ∷ l) t = ground (
    arith,
    lookup-erase k l t,
    same_key_left s k t,
    same_key_left k t s,
    same_key_symm s k,
    same_key_symm t s,
  )

module _ {F P : Type 0} where
  -- The tree holds these commands, and can be built by additions and removals.
  pub record Holds (root : Root (CliData F P)) (l : Table (CliData F P)) : Type 0 where
    pub kept : IsKept root
    pub values : (t : List ℕ) → value root t ≡ lookup l t

  -- Where a string tree holds a table of commands, cli_add_cmd of a name that trimming leaves as it
  -- is makes it hold the table with the new command in front.
  pub cli_add_cmd-Holds :
      {root : Root (CliData F P)} {l : Table (CliData F P)} (c : ℕ) (cs : List ℕ) (f : Option F)
      (arg : P) (help : Option (List ℕ))
      → Holds root l
      → trim_and_validate (some (c ∷ cs)) ≡ some (c ∷ cs)
      → Holds
          (cli_add_cmd root (some (c ∷ cs)) f arg help).1
          ((c ∷ cs, record { func = f; help = help; arg = arg }) ∷ l)
  unfolding cli_add_cmd st_add_string
  cli_add_cmd-Holds {root} {l} c cs f arg help h e =
      let d : CliData F P = record { func = f; help = help; arg = arg } in
      rw (e, cli_add_cmd)
        (record {
          kept = st_add_string-IsKept root (some (c ∷ cs)) d h.kept;
          values = λ t. ground (arith, value-add_path root (c ∷ cs) (some d) t, h.values t);
        })

  -- `cli_rm_cmd` takes out the commands of the name's key.
  pub cli_rm_cmd-Holds :
      {root : Root (CliData F P)} {l : Table (CliData F P)} (c : ℕ) (cs : List ℕ)
      → Holds root l
      → Holds (cli_rm_cmd root (some (c ∷ cs))).1 (erase (c ∷ cs) l)
  unfolding cli_rm_cmd
  cli_rm_cmd-Holds {root} {l} c cs h = rw (rm-root (st_rm_string root (some (c ∷ cs))).0) (record {
    kept = st_rm_string-IsKept root (some (c ∷ cs)) h.kept;
    values = λ t.
        ground (arith, (st_rm_string-value root c cs).1 t, h.values t, lookup-erase (c ∷ cs) l t);
  })
    where
      rm-root :
          (node : Option (CliData F P))
          → let r : ℤ × Root (CliData F P) = elim node [
            | none ↦ (negsuc 0, (st_rm_string root (some (c ∷ cs))).1)
            | some x ↦ (pos 0, (st_rm_string root (some (c ∷ cs))).1)
          ] in
            r.1 ≡ (st_rm_string root (some (c ∷ cs))).1
      rm-root none = refl
      rm-root (some x) = refl

  -- Where the commands are destroyed, none is registered.
  pub value-cli_tree_destroy :
      (root : Root (CliData F P)) (t : List ℕ) → value (cli_tree_destroy root) t ≡ none
  unfolding cli_tree_destroy st_destroy clear is_msb_free scan
  value-cli_tree_destroy root [] = value-nil (cli_tree_destroy root)
  value-cli_tree_destroy root (c ∷ cs) =
      value-no_child (cli_tree_destroy root) c cs (child-is_msb_free (cli_tree_destroy root) c refl)

-- ===== src/Config/Civs.antt =====
-- civ.c: loading a civilization.
use yastg.Common.Ops.{limit_long_to_int}
use yastg.Config.Tree.{Config, key_of, long_of, str_of}
use yastg.Prelude.{
  Bool, List, Option, Run, [], false, fault, if◌then◌else◌, list_eq, none, null_deref, ok, some,
  true, ℕ, ◌++◌, ◌>>=◌, ◌∷◌,
}
use yastg.Prelude.Int.{pos, ℤ}

-- What a file sets of `struct civ`
pub record Civ : Type 0 where
  pub name : Option (List ℕ)
  pub power : ℤ
  pub availnames : List (List ℕ)

-- A key of the file, compared with `strcmp`; `strdup` reads the string.
unfoldable loadciv_key : Civ → Config → Run Civ
unfolding limit_long_to_int
loadciv_key c conf =
    if list_eq (key_of conf) (b'N' ∷ b'A' ∷ b'M' ∷ b'E' ∷ [])
    then elim (str_of conf) [ none ↦ fault null_deref | some s ↦ ok (record c { name = some s }) ]
    else if list_eq (key_of conf) (b'P' ∷ b'O' ∷ b'W' ∷ b'E' ∷ b'R' ∷ [])
    then ok (record c { power = limit_long_to_int (long_of conf) })
    else if list_eq (key_of conf) (b'S' ∷ b'N' ∷ b'A' ∷ b'M' ∷ b'E' ∷ [])
    then elim (str_of conf) [
      | none ↦ fault null_deref
      | some s ↦ ok (record c { availnames = c.availnames ++ s ∷ [] })
    ]
    else ok c

unfoldable loadciv : Civ → List Config → Run Civ
unfolding loadciv_key
loadciv c [] = ok c
loadciv c (conf ∷ cs) = do c' ← loadciv_key c conf; loadciv c' cs

-- False is -1.
unfoldable load_civs_from_file : Option (List Config) → List Civ → Run (Bool × List Civ)
unfolding loadciv
load_civs_from_file none civs = ok (false, civs)
load_civs_from_file (some conf) civs = do
  c ← loadciv (record { name = none; power = pos 0; availnames = [] }) conf
  ok (true, civs ++ c ∷ [])

-- ===== src/Config/Keys.antt =====
-- item.c, ship_type.c, planet_type.c, port_type.c: the tree of the keys that a file may have, and the loops
-- that look keys up in it. Allocations succeed.
use yastg.Config.Tree.{Config, key_of}
use yastg.Prelude.{Bool, List, Option, Run, [], false, none, ok, some, true, ℕ, ◌∷◌}
use yastg.Prelude.Int.{eqb_ℤ, pos}
use yastg.Stringtrie.Node.{Root}
use yastg.Stringtrie.Ops.{st_add_string, st_init, st_lookup_string}
use yastg.Prelude.{◌>>=◌}
use yastg.Stringtrie.Node.{put}

module _ {F : Type 0} where
  -- `build_command_tree`, and the loops that add names: -1 (`none`) at the first that is refused.
  unfoldable pub add_keys : List (List ℕ × F) → Root F → Option (Root F)
  add_keys [] root = some root
  add_keys ((name, f) ∷ keys) root =
      let (r, root') = st_add_string root (some name) (some f) in
      elim (eqb_ℤ r (pos 0)) [ true ↦ add_keys keys root' | false ↦ none ]

  unfoldable pub key_tree : List (List ℕ × F) → Option (Root F)
  unfolding add_keys st_init
  key_tree keys = add_keys keys st_init

module _ {F T : Type 0} where
  -- The loop that skips an unknown key, and one whose function fails; the function may have changed the
  -- target before.
  unfoldable pub apply_known : Root F → (F → T → Config → Run (Bool × T)) → List Config → T → Run T
  apply_known root func [] t = ok t
  apply_known root func (c ∷ cs) t = do
    f ← st_lookup_string root (some (key_of c))
    elim f [
      | none ↦ apply_known root func cs t
      | some f ↦ do (done, t') ← func f t c; apply_known root func cs t'
    ]

  -- The loop that looks each child up in a tree of names and sets a flag by what it finds; false at the
  -- first that is not found.
  unfoldable pub set_each : Root F → (F → T → T) → List Config → T → Run (Bool × T)
  set_each root put [] t = ok (true, t)
  set_each root put (c ∷ cs) t = do
    f ← st_lookup_string root (some (key_of c))
    elim f [ none ↦ ok (false, t) | some f ↦ set_each root put cs (put f t) ]

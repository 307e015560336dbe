-- ===== src/Stringtrie/History.antt =====
-- stringtrie.c: the tries that a program builds with the operations, and what a lookup finds in them.
use yastg.Prelude.{ℕ, List, ◌∷◌, ◌++◌, Option, some}
use yastg.Stringtrie.Node.{Root}
use yastg.Stringtrie.Ops.{st_init, st_add_string, st_rm_string, st_lookup_string}
use yastg.Stringtrie.Values.{value}
use yastg.Stringtrie.Upkeep.{IsKept}
use yastg.Stringtrie.Kept.{st_init-IsKept, st_add_string-IsKept, st_rm_string-IsKept}
use yastg.Stringtrie.Lookup.{Outcome, st_lookup_string-IsKept}

-- Built by `st_init`, additions of data that is not NULL, and removals.
pub data Built {A : Type 0} : Root A → Type 0 where
  init : Built st_init
  add :
      {root : Root A}
      → Built root
      → (s : Option (List ℕ)) (x : A) → Built (st_add_string root s (some x)).1
  rm : {root : Root A} → Built root → (s : Option (List ℕ)) → Built (st_rm_string root s).1

module _ {A : Type 0} where
  Built-IsKept : {root : Root A} → Built root → IsKept root
  Built-IsKept init = st_init-IsKept A
  Built-IsKept (add {root} b s x) = st_add_string-IsKept root s x (Built-IsKept b)
  Built-IsKept (rm {root} b s) = st_rm_string-IsKept root s (Built-IsKept b)

  -- After any additions of data and removals, st_lookup_string of two characters or more ends
  -- without a fault. It finds the data of the string itself, else that of the only stored key that
  -- begins with the string, and nothing if no stored key begins with it or more than one does.
  pub st_lookup_string-Built :
      {root : Root A} (c b : ℕ) (bs : List ℕ)
      → Built root
      → Outcome (λ t. value root ((c ∷ b ∷ bs) ++ t)) (st_lookup_string root (some (c ∷ b ∷ bs)))
  st_lookup_string-Built {root} c b bs h = st_lookup_string-IsKept root c b bs (Built-IsKept h)

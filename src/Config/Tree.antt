-- ===== src/Config/Tree.antt =====
-- parseconfig.h: a parsed configuration. The parser is generated; what it returns is an argument of the
-- code that calls it.
use yastg.Prelude.{List, Option, [], ℕ, ◌∷◌}
use yastg.Prelude.Int.{ℤ}

mutual
  -- `struct config`: `key`, `str`, `l` and `children`
  pub data Config : Type 0 where
    config : List ℕ → Option (List ℕ) → ℤ → Children → Config

  pub data Children : Type 0 where
    no_more : Children
    more : Config → Children → Children

abbrev pub key_of : Config → List ℕ
key_of (config key str l children) = key

abbrev pub str_of : Config → Option (List ℕ)
str_of (config key str l children) = str

abbrev pub long_of : Config → ℤ
long_of (config key str l children) = l

abbrev listed : Children → List Config
listed no_more = []
listed (more c cs) = c ∷ listed cs

abbrev pub children_of : Config → List Config
children_of (config key str l children) = listed children

-- ===== src/Starmap/Ops.antt =====
-- map.c: `flatten_array`. A row is what is in front of its NUL.
use yastg.Prelude.{List, [], if◌then◌else◌, leb, length, ℕ, ◌++◌, ◌-◌, ◌∷◌}

-- The characters that are written in front of the NUL, where `out_len` is what is left of the buffer.
unfoldable pub flatten_array : ℕ → List (List ℕ) → List ℕ
flatten_array out_len [] = []
flatten_array out_len (row ∷ []) = if leb out_len (length row) then [] else row
flatten_array out_len (row ∷ next ∷ rows) =
    let rest = flatten_array (out_len - length row - 1) (next ∷ rows) in
    if leb out_len (length row) then [] else row ++ 10 ∷ rest

-- All rows, as lines.
abbrev pub lines : List (List ℕ) → List ℕ
lines [] = []
lines (row ∷ []) = row
lines (row ∷ next ∷ rows) = row ++ 10 ∷ lines (next ∷ rows)

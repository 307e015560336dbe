-- ===== src/Starmap/Tests.antt =====
-- map.c: a map of two rows.
use yastg.Prelude.{List, [], length, refl, ℕ, ◌∷◌, ◌≡◌, ◌≤◌, ◌⊎◌}
use yastg.Starmap.Bounds.{Fits, flatten_array_lem}
use yastg.Starmap.Ops.{flatten_array, lines}
use yastg.Prelude.{Option, Run, fault, none, ok, some}
use yastg.Starmap.Drawing.{draw_square, each_from, rows_from, string_at, write_char}

abbrev two_rows : List (List ℕ)
two_rows = (b'/' ∷ b'-' ∷ []) ∷ (b'|' ∷ []) ∷ []

flatten_array_lem_example :
    Fits 3 two_rows (flatten_array 3 two_rows)
    × ((flatten_array 3 two_rows ≡ lines two_rows) ⊎ (3 ≤ length (lines two_rows)))
flatten_array_lem_example = flatten_array_lem 3 two_rows

-- The buffer is full, so that the NUL is written past its end.
no_room_for_nul : length (flatten_array 3 two_rows) ≡ 3
unfolding flatten_array
no_room_for_nul = refl

abbrev square : Run (Option (ℕ → ℕ)) → Run (List (List ℕ))
square (ok (some buf)) = rows_from 40 10 4 0 buf
square (ok none) = ok []
square (fault stop) = fault stop

-- A square of nine characters and four rows
nine_wide :
    square (draw_square 40 10 4 9 (λ i. 0))
    ≡ ok (
        (b'/' ∷ b'-' ∷ b'-' ∷ b'-' ∷ b'-' ∷ b'-' ∷ b'-' ∷ b'-' ∷ 92 ∷ [])
        ∷ (b'|' ∷ 32 ∷ 32 ∷ 32 ∷ 32 ∷ 32 ∷ 32 ∷ 32 ∷ b'|' ∷ [])
        ∷ (b'|' ∷ 32 ∷ 32 ∷ 32 ∷ 32 ∷ 32 ∷ 32 ∷ 32 ∷ b'|' ∷ [])
        ∷ (92 ∷ b'-' ∷ b'-' ∷ b'-' ∷ b'-' ∷ b'-' ∷ b'-' ∷ b'-' ∷ b'/' ∷ [])
        ∷ [])
unfolding draw_square each_from write_char rows_from string_at
nine_wide = refl

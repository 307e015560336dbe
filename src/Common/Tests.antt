-- ===== src/Common/Tests.antt =====
-- The helpers on concrete input.
use yastg.Prelude.{ℕ, List, [], ◌∷◌, ◌++◌, reverse, none, some, ◌≡◌, refl, ◌^◌}
use yastg.Prelude.Int.{pos, negsuc}
use yastg.Common.Ops.{
  limit_long_to_int, limit_long_to_uint, int_max, int_min, uint_max, chomp, str_to_long,
}
use yastg.Common.Bounds.{Nearest, limit_long-Nearest, Newlines, NoNewline, chomp_lem}

numbers :
    (str_to_long (32 ∷ b'-' ∷ b'4' ∷ b'2' ∷ []) ≡ some (negsuc 41))
    × (str_to_long (b'4' ∷ b'x' ∷ []) ≡ none)
unfolding str_to_long
numbers = (refl, refl)

limit_long-Nearest_example :
    Nearest int_min int_max (pos (2 ^ 40)) (limit_long_to_int (pos (2 ^ 40)))
    × Nearest (pos 0) uint_max (pos (2 ^ 40)) (limit_long_to_uint (pos (2 ^ 40)))
limit_long-Nearest_example = limit_long-Nearest (pos (2 ^ 40))

abbrev line : List ℕ
line = b'g' ∷ b'o' ∷ 13 ∷ 10 ∷ []

chomp_lem_example :
    (cut : List ℕ) × Newlines cut
    × (line ≡ chomp line ++ reverse cut)
    × NoNewline (reverse (chomp line))
chomp_lem_example = chomp_lem line

-- ===== src/Star/Tests.antt =====
-- Stars from a generator that counts.
use yastg.Mtrandom.{mtrandom_uint}
use yastg.Prelude.{Returns, [], length, map, refl, ℕ, ◌+◌, ◌∷◌, ◌≡◌, ◌≤◌}
use yastg.Star.Bounds.{AreStars, star_populate_system-AreStars}
use yastg.Star.Ops.{
  entry, between, more_stars, pick, star_gencls, star_generate_more, star_genlum, star_init,
  star_populate_system,
}

abbrev counting : ℕ → ℕ × ℕ
counting g = (g, g + 7)

star_populate_system-AreStars_example :
    Returns
      (λ r. AreStars (b'S' ∷ []) 0 r.0 × ((1 ≤ length r.0) × (length r.0 ≤ 4)))
      (star_populate_system counting (λ l. l) (λ l. l + 1) (b'S' ∷ []) 3)
star_populate_system-AreStars_example =
    star_populate_system-AreStars counting (λ l. l) (λ l. l + 1) (b'S' ∷ []) 3

four_stars :
    Returns
      (λ r. map (λ s. s.cls) r.0 ≡ 1 ∷ 2 ∷ 2 ∷ 3 ∷ [])
      (star_populate_system counting (λ l. l) (λ l. l + 1) (b'S' ∷ []) 3)
unfolding star_populate_system more_stars star_generate_more star_init star_gencls star_genlum
    between entry pick mtrandom_uint
four_stars = refl

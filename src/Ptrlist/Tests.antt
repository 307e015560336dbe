-- ===== src/Ptrlist/Tests.antt =====
-- A list that is sorted.
use yastg.Prelude.{ℕ, [], ◌∷◌, ◌≡◌, refl, ltb, ◌==◌}
use yastg.Ptrlist.Ops.{Ptrlist, ptrlist_sort}
use yastg.Ptrlist.Merge.{count, count-ptrlist_sort}
use yastg.Prelude.{arith}
use yastg.Ptrlist.Sorted.{IsOrder, IsSorted, ptrlist_sort-IsSorted}

abbrev five : Ptrlist ℕ
five = record { list = 4 ∷ 1 ∷ 3 ∷ 5 ∷ 2 ∷ []; len = 5 }

sorted : (ptrlist_sort (λ a b. ltb b a) five).list ≡ 1 ∷ 2 ∷ 3 ∷ 4 ∷ 5 ∷ []
unfolding ptrlist_sort
sorted = refl

count-ptrlist_sort_example :
    (count (λ x. x == 3) (ptrlist_sort (λ a b. ltb b a) five).list ≡ 1)
    × ((ptrlist_sort (λ a b. ltb b a) five).len ≡ 5)
count-ptrlist_sort_example = count-ptrlist_sort (λ a b. ltb b a) (λ x. x == 3) five

by_size : IsOrder (λ a b. ltb b a)
by_size = record { total = λ x y h. ground arith; trans = λ x y z h k. ground arith }

ptrlist_sort-IsSorted_example : IsSorted (λ a b. ltb b a) (ptrlist_sort (λ a b. ltb b a) five).list
ptrlist_sort-IsSorted_example = ptrlist_sort-IsSorted (λ a b. ltb b a) by_size five refl

-- ===== src/Ptrlist/Ops.antt =====
-- ptrlist.c: the list operations and the merge sort; ptrarray.c: adding to an array and reading it.
-- Allocations succeed. `len` is kept apart from the list, as in the source.
use yastg.Prelude.{
  ℕ, zero, suc, ◌+◌, ◌-◌, ◌*◌, ◌/◌, List, [], ◌∷◌, ◌++◌, Option, none, some, Bool, true, false,
  ◌==◌, ltb, leb, if◌then◌else◌, Run, ok, fault, null_deref, assert_failed, ◌>>=◌, take, drop,
  length,
}

-- `struct ptrlist`, the head of the list
pub record Ptrlist (A : Type 0) : Type 0 where
  pub list : List A
  pub len : ℕ

-- `struct ptrarray`
pub record Ptrarray (A : Type 0) : Type 0 where
  pub array : List A
  pub alloc : ℕ

module _ {A : Type 0} where
  unfoldable pub ptrlist_init : Ptrlist A
  ptrlist_init = record { list = []; len = 0 }

  unfoldable pub ptrlist_push : Ptrlist A → A → Ptrlist A
  ptrlist_push l e = record { list = l.list ++ e ∷ []; len = l.len + 1 }

  -- `none` is NULL.
  unfoldable ptrlist_pull : Ptrlist A → Option A × Ptrlist A
  ptrlist_pull l = elim l.list [
    | [] ↦ (none, l)
    | e ∷ es ↦ (some e, record { list = es; len = l.len - 1 })
  ]

  -- The loop over the list, with the counter `i`.
  unfoldable pub get_from : ℕ → List A → ℕ → Option A
  get_from i [] n = none
  get_from i (e ∷ es) n = if i == n then some e else get_from (i + 1) es n

  unfoldable pub ptrlist_get : Ptrlist A → ℕ → Option A
  unfolding get_from
  ptrlist_get l n = get_from 0 l.list n

  unfoldable pub ptrlist_entry : Ptrlist A → ℕ → Run A
  unfolding ptrlist_get
  ptrlist_entry l n = elim (ptrlist_get l n) [ none ↦ fault null_deref | some e ↦ ok e ]

  unfoldable pub ptrlist_len : Ptrlist A → ℕ
  ptrlist_len l = l.len

  -- `ptrlist_random`, where `r` is what `mtrandom_ulong` returns.
  unfoldable pub ptrlist_random : Ptrlist A → ℕ → Run (Option A)
  unfolding ptrlist_entry ptrlist_len
  ptrlist_random l r =
      if ptrlist_len l == 0 then ok none else (do e ← ptrlist_entry l r; ok (some e))

  unfoldable pub remove_at : List A → ℕ → List A
  remove_at [] n = []
  remove_at (e ∷ es) zero = es
  remove_at (e ∷ es) (suc n) = e ∷ remove_at es n

  -- `ptrlist_rm`; `&e->list` of a NULL `e` is no list.
  unfoldable pub ptrlist_rm : Ptrlist A → ℕ → Run (Ptrlist A)
  unfolding remove_at ptrlist_get
  ptrlist_rm l n = elim l.list [
    | [] ↦ fault assert_failed
    | e ∷ es ↦ elim (ptrlist_get l n) [
      | none ↦ fault null_deref
      | some x ↦ ok (record { list = remove_at l.list n; len = l.len - 1 })
    ]
  ]

  -- `ptrarray_add`; the array is doubled when it is full. `used` is the length.
  unfoldable ptrarray_add : Ptrarray A → A → Run (Ptrarray A)
  ptrarray_add a e =
      let used = length a.array in
      if leb used a.alloc
      then ok (record {
        array = a.array ++ e ∷ [];
        alloc = if used == a.alloc then (if a.alloc == 0 then 16 / 2 else a.alloc) * 2 else a.alloc;
      })
      else fault assert_failed

  unfoldable pub ptrarray_get : Ptrarray A → ℕ → Option A
  unfolding get_from
  ptrarray_get a idx = if leb (length a.array) idx then none else get_from 0 a.array idx

  module _ (greater : A → A → Bool) where
    -- The loop of `merge_lists`, which takes the first of the left or of the right part; `greater` is that
    -- `cmp` is greater than zero. `n` is the number of elements in both.
    unfoldable pub merge_rounds : ℕ → List A → List A → List A
    merge_rounds n [] right = right
    merge_rounds n (x ∷ left) [] = x ∷ left
    merge_rounds zero (x ∷ left) (y ∷ right) = []
    merge_rounds (suc n) (x ∷ left) (y ∷ right) = elim (greater x y) [
      | true ↦ y ∷ merge_rounds n (x ∷ left) right
      | false ↦ x ∷ merge_rounds n left (y ∷ right)
    ]

    unfoldable pub merge_lists : List A → List A → List A
    unfolding merge_rounds
    merge_lists left right = merge_rounds (length left + length right) left right

    -- `n` is at least the number of rounds that are left, each of which takes `chunk` elements or two
    -- times as many.
    unfoldable pub merge_chunk : ℕ → ℕ → List A → List A
    unfolding merge_lists
    merge_chunk n chunk [] = []
    merge_chunk zero chunk (x ∷ l) = x ∷ l
    merge_chunk (suc n) chunk (x ∷ l) =
        merge_lists (take chunk (x ∷ l)) (take chunk (drop chunk (x ∷ l)))
        ++ merge_chunk n chunk (drop chunk (drop chunk (x ∷ l)))

    -- `for (chunk = 1; chunk < len; chunk *= 2)`; `n` is at least the number of rounds that are left.
    unfoldable pub sort_rounds : ℕ → ℕ → ℕ → List A → List A
    unfolding merge_chunk
    sort_rounds zero chunk len l = l
    sort_rounds (suc n) chunk len l = elim (ltb chunk len) [
      | true ↦ sort_rounds n (chunk * 2) len (merge_chunk len chunk l)
      | false ↦ l
    ]

    unfoldable pub ptrlist_sort : Ptrlist A → Ptrlist A
    unfolding sort_rounds
    ptrlist_sort l = if ltb l.len 2 then l else record l { list = sort_rounds l.len 1 l.len l.list }

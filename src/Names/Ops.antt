-- ===== src/Names/Ops.antt =====
-- names.c: `create_name` and `create_unique_name`. What the random generator returns is an argument. Names
-- loaded from a file are lists of words; memory does not run out.
use yastg.Prelude.{
  ℕ, ◌+◌, List, [], ◌∷◌, ◌++◌, Option, none, some, ◌==◌, if◌then◌else◌, Run, ok, fault,
  assert_failed, ◌>>=◌, length, ltb,
}
use yastg.Prelude.Int.{pos, eqb_ℤ}
use yastg.Stringtrie.Node.{Root}
use yastg.Stringtrie.Ops.{st_add_string, st_lookup_exact}
use yastg.Ptrlist.Ops.{Ptrarray, ptrarray_get}
use yastg.Prelude.{Bool, ◌||◌}

-- `struct name_list`; the data of a taken name is that it is there.
pub record NameList : Type 0 where
  pub taken : Root (Unit {0})
  pub prefix : Ptrarray (List ℕ)
  pub first : Ptrarray (List ℕ)
  pub second : Ptrarray (List ℕ)
  pub suffix : Ptrarray (List ℕ)

-- What `mtrandom_uint` returns: for the choice between prefix and suffix, and for the three words.
pub record Draw : Type 0 where
  pub choice : ℕ
  pub outer : ℕ
  pub first : ℕ
  pub second : ℕ

-- The words that a draw picks: `pr`, `fi`, `se` and `su`.
unfoldable pub picked : NameList → Draw → List (Option (List ℕ))
unfolding ptrarray_get
picked l d =
    (if d.choice == 0 then ptrarray_get l.prefix d.outer else none)
    ∷ ptrarray_get l.first d.first
    ∷ ptrarray_get l.second d.second
    ∷ (if d.choice == 0 then none else ptrarray_get l.suffix d.outer)
    ∷ []

-- `len` before 4 is added
unfoldable pub words_len : List (Option (List ℕ)) → ℕ
words_len [] = 0
words_len (none ∷ ws) = words_len ws
words_len (some w ∷ ws) = length w + words_len ws

-- What is written through `p`: each word and a space.
unfoldable pub written : List (Option (List ℕ)) → List ℕ
written [] = []
written (none ∷ ws) = written ws
written (some w ∷ ws) = w ++ 32 ∷ written ws

-- The NUL in place of a space at the end.
unfoldable cut_last : List ℕ → List ℕ
cut_last [] = []
cut_last (c ∷ []) = if c == 32 then [] else c ∷ []
cut_last (c ∷ d ∷ cs) = c ∷ cut_last (d ∷ cs)

unfoldable pub create_name : NameList → Draw → Run (List ℕ)
unfolding picked words_len written cut_last
create_name l d =
    let ws = picked l d in
    if ltb 0 (words_len ws) then ok (cut_last (written ws)) else fault assert_failed

-- The loop over the draws that are left; `none` where they run out.
unfoldable pub unused_name : NameList → List Draw → Run (Option (List ℕ))
unfolding create_name
unused_name l [] = ok none
unused_name l (d ∷ draws) =
    let rest = unused_name l draws in
    do
      name ← create_name l d
      found ← st_lookup_exact l.taken (some name)
      elim found [ some x ↦ rest | none ↦ ok (some name) ]

-- `create_unique_name`; `none` is NULL, or that the draws run out.
unfoldable pub create_unique_name : NameList → List Draw → Run (Option (List ℕ) × NameList)
unfolding unused_name
create_unique_name l draws = do
  unused ← unused_name l draws
  ok (elim unused [
    | none ↦ (none, l)
    | some name ↦
        let (r, taken) = st_add_string l.taken (some name) (some tt) in
        if eqb_ℤ r (pos 0) then (some name, record l { taken = taken }) else (none, l)
  ])

unfoldable pub is_names_loaded : NameList → Bool
is_names_loaded l =
    ltb 0 (length l.prefix.array)
    || ltb 0 (length l.first.array)
    || ltb 0 (length l.second.array)
    || ltb 0 (length l.suffix.array)

-- ===== src/Names/Unique.antt =====
-- names.c: the memory of a made name, and the uniqueness of a name.
use yastg.Prelude.{
  ℕ, ◌+◌, ◌≤◌, List, [], ◌∷◌, Option, none, some, Bool, true, false, ◌==◌, if◌then◌else◌, Run, ok,
  fault, ◌>>=◌, length, length-append, ◌≡◌, refl, arith, ◌∙◌,
}
use yastg.Prelude.Int.{pos, eqb_ℤ}
use yastg.Stringtrie.Keys.{same_key_refl}
use yastg.Stringtrie.Ops.{st_add_string, st_lookup_exact}
use yastg.Stringtrie.Map.{st_lookup_exact-st_add_string}
use yastg.Ptrlist.Ops.{ptrarray_get}
use yastg.Names.Ops.{
  NameList, Draw, picked, words_len, written, unused_name, create_name, create_unique_name,
}

abbrev one : Option (List ℕ) → ℕ
one none = 0
one (some w) = 1

abbrev spaces : List (Option (List ℕ)) → ℕ
spaces [] = 0
spaces (w ∷ ws) = one w + spaces ws

one-le : (w : Option (List ℕ)) → one w ≤ 1
one-le none = omega arith
one-le (some w) = omega arith

length-written-words :
    (ws : List (Option (List ℕ))) → length (written ws) ≡ words_len ws + spaces ws
unfolding written words_len
length-written-words [] = refl
length-written-words (none ∷ ws) = omega (arith, length-written-words ws)
length-written-words (some w ∷ ws) =
    omega (arith, length-written-words ws, length-append w (32 ∷ written ws))

-- The words and spaces that create_name writes, with a NUL, fit in the memory that it has
-- allocated.
pub length-written :
    (l : NameList) (d : Draw) → length (written (picked l d)) + 1 ≤ words_len (picked l d) + 4
unfolding picked
length-written l d =
    let w = length-written-words (picked l d) in
    let b =
      bound (d.choice == 0) (ptrarray_get l.prefix d.outer) (ptrarray_get l.first d.first)
        (ptrarray_get l.second d.second) (ptrarray_get l.suffix d.outer) in
    omega (arith, w, b)
  where
    bound :
        (b : Bool) (pr fi se su : Option (List ℕ))
        → spaces ((if b then pr else none) ∷ fi ∷ se ∷ (if b then none else su) ∷ []) ≤ 3
    bound true pr fi se su = omega (arith, one-le pr, one-le fi, one-le se)
    bound false pr fi se su = omega (arith, one-le su, one-le fi, one-le se)

-- After a unique name is made, an exact lookup finds it, and before it found nothing.
abbrev pub Fresh : NameList → Run (Option (List ℕ) × NameList) → Type 0
Fresh l (ok (some name, l')) =
    (st_lookup_exact l.taken (some name) ≡ ok none)
    × (st_lookup_exact l'.taken (some name) ≡ ok (some tt))
Fresh l (ok (none, l')) = l' ≡ l
Fresh l (fault e) = Unit

-- A name that the loop ends with is not taken.
abbrev Free : NameList → Run (Option (List ℕ)) → Type 0
Free l (ok (some name)) = st_lookup_exact l.taken (some name) ≡ ok none
Free l _ = Unit

unused_name-Free : (l : NameList) (draws : List Draw) → Free l (unused_name l draws)
unfolding unused_name
unused_name-Free l [] = tt
unused_name-Free l (d ∷ draws) =
    made (create_name l d) (unused_name l draws) (unused_name-Free l draws)
  where
    found :
        (name : List ℕ) (r : Run (Option (Unit {0}))) (rest : Run (Option (List ℕ)))
        → st_lookup_exact l.taken (some name) ≡ r
        → Free l rest
        → Free l (r >>= λ found. elim found [ some x ↦ rest | none ↦ ok (some name) ])
    found name (ok none) rest e h = e
    found name (ok (some x)) rest e h = h
    found name (fault f) rest e h = tt

    made :
        (n : Run (List ℕ)) (rest : Run (Option (List ℕ)))
        → Free l rest
        → Free l (
            n >>= λ name. st_lookup_exact l.taken (some name) >>= λ found. elim found [
              | some x ↦ rest
              | none ↦ ok (some name)
            ])
    made (ok name) rest h = found name (st_lookup_exact l.taken (some name)) rest refl h
    made (fault f) rest h = tt

-- If create_unique_name returns a name, an exact lookup found nothing for it before and finds it
-- after. If it returns none, the list of names is as before.
pub create_unique_name-Fresh :
    (l : NameList) (draws : List Draw) → Fresh l (create_unique_name l draws)
unfolding create_unique_name st_add_string
create_unique_name-Fresh l draws = taken (unused_name l draws) (unused_name-Free l draws)
  where
    taken :
        (r : Run (Option (List ℕ)))
        → Free l r
        → Fresh l (
            r >>= λ unused. ok (elim unused [
              | none ↦ (none, l)
              | some name ↦
                  let (r, taken) = st_add_string l.taken (some name) (some tt) in
                  if eqb_ℤ r (pos 0) then (some name, record l { taken = taken }) else (none, l)
            ]))
    taken (fault f) h = tt
    taken (ok none) h = refl
    taken (ok (some [])) h = refl
    taken (ok (some (c ∷ cs))) h = (
      h,
      st_lookup_exact-st_add_string l.taken c cs (some tt) (c ∷ cs)
          ∙ (rw (same_key_refl (c ∷ cs)) refl),
    )

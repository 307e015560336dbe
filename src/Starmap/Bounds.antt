-- ===== src/Starmap/Bounds.antt =====
-- map.c: how much of a buffer `flatten_array` uses.
use yastg.Prelude.{
  Bool-cases, List, [], ap, append-nil, append_assoc, arith, inl, inr, leb, length, length-append,
  ltb, ltb→lt, refl, sym, ℕ, ◌++◌, ◌-◌, ◌<◌, ◌∙◌, ◌∷◌, ◌≡◌, ◌≤◌, ◌⊎◌,
}
use yastg.Starmap.Ops.{flatten_array, lines}

-- What is written is at most as long as the buffer, and the lines begin with it.
pub record Fits (out_len : ℕ) (rows : List (List ℕ)) (out : List ℕ) : Type 0 where
  pub fits : length out ≤ out_len
  pub rest : List ℕ
  pub start : lines rows ≡ out ++ rest

Fits-none : (out_len : ℕ) (rows : List (List ℕ)) → Fits out_len rows []
Fits-none out_len rows = record { fits = omega arith; rest = lines rows; start = refl }

Fits-row :
    (out_len : ℕ) (row next : List ℕ) (rows : List (List ℕ)) (out : List ℕ)
    → length row < out_len
    → Fits (out_len - length row - 1) (next ∷ rows) out
    → Fits out_len (row ∷ next ∷ rows) (row ++ 10 ∷ out)
Fits-row out_len row next rows out h k = record {
  fits = omega (arith, length-append row (10 ∷ out), k.fits);
  rest = k.rest;
  start = ap (λ l. row ++ 10 ∷ l) k.start ∙ sym (append_assoc row (10 ∷ out) k.rest);
}

flatten_array-Fits :
    (out_len : ℕ) (rows : List (List ℕ)) → Fits out_len rows (flatten_array out_len rows)
unfolding flatten_array
flatten_array-Fits out_len [] = Fits-none out_len []
flatten_array-Fits out_len (row ∷ []) = elim (Bool-cases (leb out_len (length row))) [
  | inl e ↦ rw e (Fits-none out_len (row ∷ []))
  | inr e ↦ rw e (record { fits = ground (arith, e); rest = []; start = sym (append-nil row) })
]
flatten_array-Fits out_len (row ∷ next ∷ rows) = elim (Bool-cases (leb out_len (length row))) [
  | inl e ↦ rw e (Fits-none out_len (row ∷ next ∷ rows))
  | inr e ↦ rw e (
      Fits-row out_len row next rows (flatten_array (out_len - length row - 1) (next ∷ rows))
        (ground (arith, e)) (flatten_array-Fits (out_len - length row - 1) (next ∷ rows)))
]

-- Where the lines and a NUL fit, they are all written.
flatten_array-lines :
    (out_len : ℕ) (rows : List (List ℕ))
    → length (lines rows) < out_len
    → flatten_array out_len rows ≡ lines rows
unfolding flatten_array
flatten_array-lines out_len [] h = refl
flatten_array-lines out_len (row ∷ []) h = ground (arith, h)
flatten_array-lines out_len (row ∷ next ∷ rows) h =
    let l = length-append row (10 ∷ lines (next ∷ rows)) in
    elim (Bool-cases (leb out_len (length row))) [
      | inl e ↦ absurd (ground (arith, e, h, l))
      | inr e ↦ rw e (
          ap (λ l. row ++ 10 ∷ l)
            (flatten_array-lines (out_len - length row - 1) (next ∷ rows) (omega (arith, h, l))))
    ]

-- What flatten_array writes in front of its NUL is no longer than the buffer, and is how the rows,
-- as lines, begin. It is all of them unless they are as long as the buffer or longer.
pub flatten_array_lem :
    (out_len : ℕ) (rows : List (List ℕ))
    → Fits out_len rows (flatten_array out_len rows)
      × ((flatten_array out_len rows ≡ lines rows) ⊎ (out_len ≤ length (lines rows)))
flatten_array_lem out_len rows = (
  flatten_array-Fits out_len rows,
  elim (Bool-cases (ltb (length (lines rows)) out_len)) [
    | inl e ↦ inl (flatten_array-lines out_len rows (ltb→lt _ _ e))
    | inr e ↦ inr (ground (arith, e))
  ],
)

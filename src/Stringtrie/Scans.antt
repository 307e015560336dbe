-- ===== src/Stringtrie/Scans.antt =====
-- stringtrie.c: what the loops over the eight pointers of a node find.
use yastg.Prelude.{
  ℕ, zero, suc, ◌+◌, ◌≤◌, ◌<◌, Bool, true, false, ◌≡◌, refl, sym, subst, ℕ_discrete, arith,
  Bool-cases, inl, inr,
}
use yastg.Stringtrie.Ops.{Scan, absent, several, only, scan, is_free}

pub is_free-false :
    (n i : ℕ) (p : ℕ → Bool)
    → is_free n i p ≡ false
    → (j : ℕ) × (i ≤ j) × (j < i + n) × (p j ≡ true)
unfolding is_free
is_free-false zero i p h = cc
is_free-false (suc n) i p h = elim (Bool-cases (p i)) [
  | inl e ↦ (i, omega arith, omega arith, e)
  | inr e ↦
      let (j, lo, hi, t) = is_free-false n (i + 1) p (ground arith) in
      (j, omega arith, omega arith, t)
]

pub is_free-true :
    (n i : ℕ) (p : ℕ → Bool) → ((j : ℕ) → i ≤ j → j < i + n → p j ≡ false) → is_free n i p ≡ true
unfolding is_free
is_free-true zero i p h = refl
is_free-true (suc n) i p h =
    rw (h i (omega arith) (omega arith))
      (is_free-true n (i + 1) p (λ j lo hi. h j (omega arith) (omega arith)))

pub is_free-scan : (n i : ℕ) (p : ℕ → Bool) → is_free n i p ≡ true → scan n i p absent ≡ absent
unfolding is_free scan
is_free-scan zero i p h = refl
is_free-scan (suc n) i p h = ground (arith, is_free-scan n (i + 1) p)

-- A range with its first index taken apart.
split_first :
    (P : ℕ → Type 0) (n i : ℕ)
    → P i
    → ((j : ℕ) → i + 1 ≤ j → j < i + 1 + n → P j)
    → (j : ℕ) → i ≤ j
    → j < i + suc n
    → P j
split_first P n i h hs j lo hi = elim (ℕ_discrete i j) [
  | yes e ↦ subst P e h
  | no ne ↦ hs j (omega arith) (omega arith)
]

-- A result of `scan` that starts at index `i` with nothing found, and with one pointer found.
abbrev pub Found : ℕ → ℕ → (ℕ → Bool) → Scan → Type 0
Found n i p absent = (j : ℕ) → i ≤ j → j < i + n → p j ≡ false
Found n i p (only k) =
    (i ≤ k) × (k < i + n) × (p k ≡ true) × ((j : ℕ) → i ≤ j → j < i + n → p j ≡ true → k ≡ j)
Found n i p several =
    (a : ℕ) × (b : ℕ) × (i ≤ a) × (a < b) × (b < i + n) × (p a ≡ true) × (p b ≡ true)

abbrev FoundAfter : ℕ → ℕ → ℕ → (ℕ → Bool) → Scan → Type 0
FoundAfter k n i p absent = ⊥
FoundAfter k n i p (only k') = (k ≡ k') × ((j : ℕ) → i ≤ j → j < i + n → p j ≡ false)
FoundAfter k n i p several = (b : ℕ) × (i ≤ b) × (b < i + n) × (p b ≡ true)

scan-off :
    (n i : ℕ) (p : ℕ → Bool) (found : Scan)
    → p i ≡ false
    → scan (suc n) i p found ≡ scan n (i + 1) p found
unfolding scan
scan-off n i p found e = rw (e, scan)

scan-first :
    (n i : ℕ) (p : ℕ → Bool) → p i ≡ true → scan (suc n) i p absent ≡ scan n (i + 1) p (only i)
unfolding scan
scan-first n i p e = rw (e, scan)

scan-second : (n i k : ℕ) (p : ℕ → Bool) → p i ≡ true → scan (suc n) i p (only k) ≡ several
unfolding scan
scan-second n i k p e = rw (e, scan)

scan-FoundAfter : (n i k : ℕ) (p : ℕ → Bool) → FoundAfter k n i p (scan n i p (only k))
unfolding scan
scan-FoundAfter zero i k p = (refl, λ j lo hi. absurd (omega arith))
scan-FoundAfter (suc n) i k p = elim (Bool-cases (p i)) [
  | inl e ↦ rw (scan-second n i k p e) (i, omega arith, omega arith, e)
  | inr e ↦
      rw (scan-off n i p (only k) e)
        (step e (scan n (i + 1) p (only k)) (scan-FoundAfter n (i + 1) k p))
]
  where
    step : p i ≡ false → (r : Scan) → FoundAfter k n (i + 1) p r → FoundAfter k (suc n) i p r
    step off absent h = h
    step off (only k') h = (h.0, split_first (λ j. p j ≡ false) n i off h.1)
    step off several (b, lo, hi, t) = (b, omega arith, omega arith, t)

pub scan-Found : (n i : ℕ) (p : ℕ → Bool) → Found n i p (scan n i p absent)
unfolding scan
scan-Found zero i p = λ j lo hi. absurd (omega arith)
scan-Found (suc n) i p = elim (Bool-cases (p i)) [
  | inl e ↦
      rw (scan-first n i p e) (first e (scan n (i + 1) p (only i)) (scan-FoundAfter n (i + 1) i p))
  | inr e ↦
      rw (scan-off n i p absent e) (later e (scan n (i + 1) p absent) (scan-Found n (i + 1) p))
]
  where
    first : p i ≡ true → (r : Scan) → FoundAfter i n (i + 1) p r → Found (suc n) i p r
    first on absent h = absurd h
    first on (only k) (e, off) = (
      omega arith,
      omega arith,
      subst (λ j. p j ≡ true) e on,
      split_first (λ j. p j ≡ true → k ≡ j) n i (λ t. sym e)
          (λ j lo hi t. absurd (cc (off j lo hi))),
    )
    first on several (b, lo, hi, t) = (i, b, omega arith, omega arith, omega arith, on, t)

    later : p i ≡ false → (r : Scan) → Found n (i + 1) p r → Found (suc n) i p r
    later off absent h = split_first (λ j. p j ≡ false) n i off h
    later off (only k) (lo, hi, t, u) = (
      omega arith,
      omega arith,
      t,
      split_first (λ j. p j ≡ true → k ≡ j) n i (λ on. absurd (cc)) u,
    )
    later off several (a, b, lo, lt, hi, s, t) = (a, b, omega arith, lt, omega arith, s, t)

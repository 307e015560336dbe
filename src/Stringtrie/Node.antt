-- ===== src/Stringtrie/Node.antt =====
-- stringtrie.h: `struct st_root`; stringtrie.c: `struct st_lsb`. An array of eight pointers is a
-- function of the index; NULL is a constructor of its own.
use yastg.Prelude.{ℕ, Option, none, Bool, true, false, ◌==◌, if◌then◌else◌}

mutual
  -- `msb` and `data` of `struct st_root`
  pub data Root {ℓ} (A : Type ℓ) : Type ℓ where
    st_root : (ℕ → Lsb A) → Option A → Root A

  -- a pointer to `struct st_lsb`
  pub data Lsb {ℓ} (A : Type ℓ) : Type ℓ where
    no_lsb : Lsb A
    st_lsb : (ℕ → Ptr A) → Lsb A

  -- a pointer to `struct st_root`
  pub data Ptr {ℓ} (A : Type ℓ) : Type ℓ where
    no_root : Ptr A
    ptr : Root A → Ptr A

-- A write to an array.
abbrev pub put {ℓ} : {X : Type ℓ} → (ℕ → X) → ℕ → X → ℕ → X
put f i x j = if i == j then x else f j

module _ {ℓ} {A : Type ℓ} where
  abbrev pub msb_of : Root A → ℕ → Lsb A
  msb_of (st_root msb d) = msb

  abbrev pub data_of : Root A → Option A
  data_of (st_root msb d) = d

  abbrev pub is_lsb : Lsb A → Bool
  is_lsb no_lsb = false
  is_lsb (st_lsb f) = true

  abbrev pub is_root : Ptr A → Bool
  is_root no_root = false
  is_root (ptr r) = true

  -- A fresh node, after `malloc` and `memset`.
  abbrev pub empty_root : Root A
  empty_root = st_root (λ i. no_lsb) none

  -- The array behind a pointer that is allocated when it is NULL.
  abbrev pub open_lsb : Lsb A → ℕ → Ptr A
  open_lsb no_lsb = λ j. no_root
  open_lsb (st_lsb f) = f

  abbrev pub open_ptr : Ptr A → Root A
  open_ptr no_root = empty_root
  open_ptr (ptr r) = r

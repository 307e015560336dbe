-- ===== src/Stringtrie/Arrays.antt =====
-- stringtrie.c: the loops over the arrays of a node.
use yastg.Prelude.{
  ℕ, zero, suc, ◌+◌, ◌≤◌, ◌<◌, Bool, true, false, ◌==◌, if◌then◌else◌, ◌≡◌, refl, arith,
}
use yastg.Stringtrie.Chars.{crunch, get_char_msb}
use yastg.Stringtrie.Keys.{get_char_lsb_lem, get_char_msb_lem, get_char_msb-lt}
use yastg.Stringtrie.Node.{Root, Lsb, Ptr, no_lsb, st_lsb, no_root, ptr, msb_of, is_lsb, is_root}
use yastg.Stringtrie.Ops.{is_free, is_msb_free, is_lsb_free, child, set_child}

is_free_lem :
    (n i : ℕ) (p : ℕ → Bool) (j : ℕ) → is_free n i p ≡ true → i ≤ j → j < i + n → p j ≡ false
unfolding is_free
is_free_lem zero i p j h lo hi = absurd (omega arith)
is_free_lem (suc n) i p j h lo hi = ground (arith, is_free_lem n (i + 1) p j, ap_test i j p)
  where
    ap_test : (i j : ℕ) (p : ℕ → Bool) → i ≡ j → p i ≡ p j
    ap_test i j p e = cc

module _ {A : Type 0} where
  pub is_msb_free_lem :
      (root : Root A) (i : ℕ) → is_msb_free root ≡ true → i < 8 → msb_of root i ≡ no_lsb
  unfolding is_msb_free
  is_msb_free_lem root i h lt =
      none_there (msb_of root i)
        (is_free_lem 8 0 (λ k. is_lsb (msb_of root k)) i h (omega arith) (omega arith))
    where
      none_there : (p : Lsb A) → is_lsb p ≡ false → p ≡ no_lsb
      none_there no_lsb e = refl
      none_there (st_lsb f) e = cc

  pub is_lsb_free_lem : (f : ℕ → Ptr A) (j : ℕ) → is_lsb_free f ≡ true → j < 8 → f j ≡ no_root
  unfolding is_lsb_free
  is_lsb_free_lem f j h lt =
      none_there (f j) (is_free_lem 8 0 (λ k. is_root (f k)) j h (omega arith) (omega arith))
    where
      none_there : (p : Ptr A) → is_root p ≡ false → p ≡ no_root
      none_there no_root e = refl
      none_there (ptr r) e = cc

  pub child-set_child :
      (root : Root A) (c : ℕ) (p : Ptr A) (b : ℕ)
      → child (set_child root c p) b ≡ (if crunch c == crunch b then p else child root b)
  child-set_child root c p b =
      ground (arith, get_char_msb_lem c, get_char_msb_lem b, get_char_lsb_lem c, get_char_lsb_lem b)

  pub child-is_msb_free : (root : Root A) (c : ℕ) → is_msb_free root ≡ true → child root c ≡ no_root
  child-is_msb_free root c h = rw (is_msb_free_lem root (get_char_msb c) h (get_char_msb-lt c))

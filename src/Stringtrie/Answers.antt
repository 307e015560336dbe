-- ===== src/Stringtrie/Answers.antt =====
-- stringtrie.c: the answers of `get_the_only_child`.
use yastg.Prelude.{
  ℕ, ◌<◌, [], ◌∷◌, none, some, true, ◌≡◌, refl, arith, inl, ok, fault, null_deref, assert_failed,
}
use yastg.Stringtrie.Node.{
  Root, Lsb, Ptr, st_root, no_lsb, st_lsb, no_root, ptr, is_lsb, is_root, open_lsb, open_ptr,
}
use yastg.Stringtrie.Keys.{char_at}
use yastg.Stringtrie.Ops.{
  is_msb_free, is_lsb_free, scan, Scan, absent, several, only, get_the_only_child,
  only_child_of_lsb, only_child_of_ptr,
}
use yastg.Stringtrie.Scans.{is_free-true, scan-Found, Found}
use yastg.Stringtrie.Values.{value, value-nil}
use yastg.Stringtrie.Live.{IsLive, LiveLsb, LivePtr, in_use, LivePtr-reaches}
use yastg.Stringtrie.Prefix.{
  Answer, AnswerAt, same_key-char_at, below_msb, lift, lift_ptr, alone_here, through,
}

module _ {A : Type 0} where
  in_use-some : (msb : ℕ → Lsb A) (x : A) → in_use (st_root msb (some x)) ≡ true
  in_use-some msb x = refl

  Answer-some :
      (msb : ℕ → Lsb A) (x : A)
      → IsLive (st_root msb (some x))
      → (r : Scan) → Found 8 0 (λ i. is_lsb (msb i)) r
      → Answer (value (st_root msb (some x))) (elim r [
        | several ↦ ok none
        | absent ↦ ok (some (st_root msb (some x)))
        | only i ↦ ok none
      ])
  Answer-some msb x live absent off = (x, refl, alone_here msb x off)
  Answer-some msb x live (only i) (lo, hi, on, u) =
      let (j, s, hj, h) = through msb (some x) i hi (live i hi) on in
      ([], char_at i j ∷ s, λ e. cc (value-nil (st_root msb (some x))), h, refl)
  Answer-some msb x live several (a, b, lo, lt, hi, sa, sb) =
      let (j, s, hj, h) = through msb (some x) b (omega arith) (live b (omega arith)) sb in
      ([], char_at b j ∷ s, λ e. cc (value-nil (st_root msb (some x))), h, refl)

  Answer-none :
      (msb : ℕ → Lsb A)
      → IsLive (st_root msb none)
      → in_use (st_root msb none) ≡ true
      → ((i : ℕ)
          → i < 8
          → is_lsb (msb i) ≡ true
          → AnswerAt (below_msb (msb i)) (only_child_of_lsb (msb i)))
      → (r : Scan) → Found 8 0 (λ i. is_lsb (msb i)) r
      → Answer (value (st_root msb none)) (elim r [
        | several ↦ ok none
        | absent ↦ fault null_deref
        | only i ↦ only_child_of_lsb (msb i)
      ])
  unfolding is_msb_free
  Answer-none msb live used rec absent off =
      absurd (cc (is_free-true 8 0 (λ i. is_lsb (msb i)) (λ j lo hi. off j lo hi)))
  Answer-none msb live used rec (only i) (lo, hi, on, u) =
      lift msb i (only_child_of_lsb (msb i)) hi (λ k hk. u k (omega arith) hk) (rec i hi on)
  Answer-none msb live used rec several (a, b, lo, lt, hi, sa, sb) =
      let ha : a < 8 = omega arith in
      let (j, s, hj, h) = through msb none a ha (live a ha) sa in
      let (k, t, hk, g) = through msb none b hi (live b hi) sb in
      (
        char_at a j ∷ s,
        char_at b k ∷ t,
        h,
        g,
        same_key-char_at a j b k s t ha hj hi hk (inl (λ e. absurd (omega arith))),
      )

  Answer-array :
      (f : ℕ → Ptr A)
      → LiveLsb (st_lsb f)
      → ((j : ℕ)
          → j < 8
          → is_root (f j) ≡ true
          → Answer (value (open_ptr (f j))) (only_child_of_ptr (f j)))
      → (r : Scan) → Found 8 0 (λ j. is_root (f j)) r
      → AnswerAt
          (λ k. value (open_ptr (f k)))
          (elim r [
            | several ↦ ok none
            | absent ↦ fault assert_failed
            | only j ↦ only_child_of_ptr (f j)
          ])
  unfolding is_lsb_free
  Answer-array f live rec absent off =
      absurd (cc (is_free-true 8 0 (λ j. is_root (f j)) (λ j lo hi. off j lo hi), live.0))
  Answer-array f live rec (only j) (lo, hi, on, u) =
      lift_ptr f j (only_child_of_ptr (f j)) hi (λ k hk. u k (omega arith) hk) (rec j hi on)
  Answer-array f live rec several (a, b, lo, lt, hi, sa, sb) =
      let ha : a < 8 = omega arith in
      let (s, h) = LivePtr-reaches (f a) (live.1 a ha) sa in
      let (t, g) = LivePtr-reaches (f b) (live.1 b hi) sb in
      (a, b, s, t, ha, hi, h, g, inl (λ e. absurd (omega arith)))

mutual
  unfolding get_the_only_child

  Answer-root :
      {A : Type 0} (node : Root A)
      → IsLive node
      → in_use node ≡ true
      → Answer (value node) (get_the_only_child node)
  Answer-root (st_root msb (some x)) live used =
      Answer-some msb x live (scan 8 0 (λ i. is_lsb (msb i)) absent)
        (scan-Found 8 0 (λ i. is_lsb (msb i)))
  Answer-root (st_root msb none) live used =
      Answer-none msb live used (λ i hi on. answer_of_lsb (msb i) (live i hi) on)
        (scan 8 0 (λ i. is_lsb (msb i)) absent) (scan-Found 8 0 (λ i. is_lsb (msb i)))

  answer_of_lsb :
      {A : Type 0} (p : Lsb A)
      → LiveLsb p
      → is_lsb p ≡ true
      → AnswerAt (λ j s. value (open_ptr (open_lsb p j)) s) (only_child_of_lsb p)
  answer_of_lsb no_lsb live on = cc
  answer_of_lsb (st_lsb f) live on =
      Answer-array f live (λ j hj on. Answer-ptr (f j) (live.1 j hj) on)
        (scan 8 0 (λ j. is_root (f j)) absent) (scan-Found 8 0 (λ j. is_root (f j)))

  Answer-ptr :
      {A : Type 0} (p : Ptr A)
      → LivePtr p
      → is_root p ≡ true
      → Answer (value (open_ptr p)) (only_child_of_ptr p)
  Answer-ptr no_root live on = cc
  Answer-ptr (ptr node) live on = Answer-root node live.1 live.0

-- In a live trie the search from a node that is in use ends without a fault: with the data of the only
-- key below the node, or with NULL where two keys have data.
pub get_the_only_child-Answer :
    {A : Type 0} (node : Root A)
    → IsLive node
    → in_use node ≡ true
    → Answer (value node) (get_the_only_child node)
get_the_only_child-Answer node live used = Answer-root node live used

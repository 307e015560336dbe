-- ===== src/Stringtrie/Keys.antt =====
-- stringtrie.c: what the character maps do, and when two strings are one key.
use yastg.Prelude.{
  ℕ, zero, suc, ◌+◌, ◌-◌, ◌*◌, ◌/◌, ◌%◌, ◌^◌, ◌<◌, bit_and, List, [], ◌∷◌, Bool, true, false, ◌&&◌,
  ◌==◌, ==_iff, ltb, leb, get_or, ◌≡◌, refl, arith, if◌then◌else◌, each_below, each_below_sound,
}
use yastg.Stringtrie.Chars.{crunch_char, crunch, get_char_lsb, get_char_msb, get_char_from_msb_lsb}

all_lt : ℕ → List ℕ → Bool
all_lt n [] = true
all_lt n (x ∷ xs) = ltb x n && all_lt n xs

get_or-lt : (n : ℕ) (xs : List ℕ) (i d : ℕ) → d < n → all_lt n xs ≡ true → get_or xs i d < n
unfolding all_lt
get_or-lt n [] i d h e = h
get_or-lt n (x ∷ xs) zero d h e = ground arith
get_or-lt n (x ∷ xs) (suc i) d h e = ground (arith, get_or-lt n xs i d)

crunch-lt : (c : ℕ) → crunch c < 64
unfolding crunch all_lt
crunch-lt c = get_or-lt 64 crunch_char c 63 (omega arith) refl

low_table : each_below (λ x. bit_and x 0x07 == x % 8) 64 ≡ true
unfolding each_below
low_table = refl

high_table : each_below (λ x. bit_and (x / 2 ^ 3) 0x7 == x / 8) 64 ≡ true
unfolding each_below
high_table = refl

pub get_char_lsb_lem : (c : ℕ) → get_char_lsb c ≡ crunch c % 8
unfolding get_char_lsb
get_char_lsb_lem c = (==_iff _ _).0 (each_below_sound _ 64 low_table (crunch c) (crunch-lt c))

pub get_char_msb_lem : (c : ℕ) → get_char_msb c ≡ crunch c / 8
unfolding get_char_msb
get_char_msb_lem c = (==_iff _ _).0 (each_below_sound _ 64 high_table (crunch c) (crunch-lt c))

pub get_char_lsb-lt : (c : ℕ) → get_char_lsb c < 8
get_char_lsb-lt c = omega (arith, get_char_lsb_lem c)

pub get_char_msb-lt : (c : ℕ) → get_char_msb c < 8
get_char_msb-lt c = omega (arith, get_char_msb_lem c, crunch-lt c)

-- The character that a trie shows for one that was stored.
abbrev shown : ℕ → ℕ
shown c =
    if leb b'A' c && leb c b'Z'
    then c + 32
    else if leb b'a' c && leb c b'z'
    then c
    else if leb 32 c && ltb c 96
    then c
    else if leb b'{' c && ltb c 127
    then c - 32
    else b'_'

shown_table :
    each_below (λ c. get_char_from_msb_lsb (get_char_msb c) (get_char_lsb c) == shown c) 256 ≡ true
unfolding each_below get_char_from_msb_lsb get_char_msb get_char_lsb crunch
shown_table = refl

-- The two halves of any byte, put together again, show that byte with letters in lower case, the
-- four characters from { to ~ as those from [ to ^, and the byte 96, a grave accent, and a byte
-- that is not printable as an underscore.
pub get_char_from_msb_lsb-shown :
    (c : ℕ) → c < 256 → get_char_from_msb_lsb (get_char_msb c) (get_char_lsb c) ≡ shown c
get_char_from_msb_lsb-shown c h = (==_iff _ _).0 (each_below_sound _ 256 shown_table c h)

-- Two strings are one key if their characters crunch alike.
abbrev pub same_key : List ℕ → List ℕ → Bool
same_key [] [] = true
same_key [] (b ∷ t) = false
same_key (a ∷ s) [] = false
same_key (a ∷ s) (b ∷ t) = crunch a == crunch b && same_key s t

pub same_key_refl : (s : List ℕ) → same_key s s ≡ true
same_key_refl [] = refl
same_key_refl (a ∷ s) = ground (arith, same_key_refl s)

-- A character that leads to given indices.
abbrev pub char_at : ℕ → ℕ → ℕ
char_at msb lsb = msb * 8 + lsb + 32

char_at_table : each_below (λ k. crunch (k + 32) == k) 64 ≡ true
unfolding each_below crunch
char_at_table = refl

pub char_at_lem :
    (msb lsb : ℕ)
    → msb < 8
    → lsb < 8
    → (get_char_msb (char_at msb lsb) ≡ msb) × (get_char_lsb (char_at msb lsb) ≡ lsb)
char_at_lem msb lsb hm hl =
    let e : crunch (char_at msb lsb) ≡ msb * 8 + lsb =
      (==_iff _ _).0 (each_below_sound _ 64 char_at_table (msb * 8 + lsb) (omega arith)) in
    (
      omega (arith, get_char_msb_lem (char_at msb lsb)),
      omega (arith, get_char_lsb_lem (char_at msb lsb)),
    )

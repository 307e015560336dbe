-- ===== src/Stringtrie/Chars.antt =====
-- stringtrie.c: the character maps, `crunch`, `decrunch`, and the two halves of a crunched character.
use yastg.Prelude.{ℕ, ◌*◌, ◌/◌, ◌^◌, bit_and, bit_or, List, [], ◌∷◌, get_or}

abbrev pub crunch_char : List ℕ
crunch_char =
    63 ∷ 63 ∷ 63 ∷ 63 ∷ 63 ∷ 63 ∷ 63 ∷ 63 ∷ 63 ∷ 63 ∷ 63 ∷ 63 ∷ 63 ∷ 63 ∷ 63 ∷ 63 ∷ 63 ∷ 63 ∷ 63
    ∷ 63 ∷ 63 ∷ 63 ∷ 63 ∷ 63 ∷ 63 ∷ 63 ∷ 63 ∷ 63 ∷ 63 ∷ 63 ∷ 63 ∷ 63 ∷ 0 ∷ 1 ∷ 2 ∷ 3 ∷ 4 ∷ 5 ∷ 6 ∷ 7
    ∷ 8 ∷ 9 ∷ 10 ∷ 11 ∷ 12 ∷ 13 ∷ 14 ∷ 15 ∷ 16 ∷ 17 ∷ 18 ∷ 19 ∷ 20 ∷ 21 ∷ 22 ∷ 23 ∷ 24 ∷ 25 ∷ 26
    ∷ 27 ∷ 28 ∷ 29 ∷ 30 ∷ 31 ∷ 32 ∷ 33 ∷ 34 ∷ 35 ∷ 36 ∷ 37 ∷ 38 ∷ 39 ∷ 40 ∷ 41 ∷ 42 ∷ 43 ∷ 44 ∷ 45
    ∷ 46 ∷ 47 ∷ 48 ∷ 49 ∷ 50 ∷ 51 ∷ 52 ∷ 53 ∷ 54 ∷ 55 ∷ 56 ∷ 57 ∷ 58 ∷ 59 ∷ 60 ∷ 61 ∷ 62 ∷ 63 ∷ 63
    ∷ 33 ∷ 34 ∷ 35 ∷ 36 ∷ 37 ∷ 38 ∷ 39 ∷ 40 ∷ 41 ∷ 42 ∷ 43 ∷ 44 ∷ 45 ∷ 46 ∷ 47 ∷ 48 ∷ 49 ∷ 50 ∷ 51
    ∷ 52 ∷ 53 ∷ 54 ∷ 55 ∷ 56 ∷ 57 ∷ 58 ∷ 59 ∷ 60 ∷ 61 ∷ 62 ∷ 63 ∷ 63 ∷ 63 ∷ 63 ∷ 63 ∷ 63 ∷ 63 ∷ 63
    ∷ 63 ∷ 63 ∷ 63 ∷ 63 ∷ 63 ∷ 63 ∷ 63 ∷ 63 ∷ 63 ∷ 63 ∷ 63 ∷ 63 ∷ 63 ∷ 63 ∷ 63 ∷ 63 ∷ 63 ∷ 63 ∷ 63
    ∷ 63 ∷ 63 ∷ 63 ∷ 63 ∷ 63 ∷ 63 ∷ 63 ∷ 63 ∷ 63 ∷ 63 ∷ 63 ∷ 63 ∷ 63 ∷ 63 ∷ 63 ∷ 63 ∷ 63 ∷ 63 ∷ 63
    ∷ 63 ∷ 63 ∷ 63 ∷ 63 ∷ 63 ∷ 63 ∷ 63 ∷ 63 ∷ 63 ∷ 63 ∷ 63 ∷ 63 ∷ 63 ∷ 63 ∷ 63 ∷ 63 ∷ 63 ∷ 63 ∷ 63
    ∷ 63 ∷ 63 ∷ 63 ∷ 63 ∷ 63 ∷ 63 ∷ 63 ∷ 63 ∷ 63 ∷ 63 ∷ 63 ∷ 63 ∷ 63 ∷ 63 ∷ 63 ∷ 63 ∷ 63 ∷ 63 ∷ 63
    ∷ 63 ∷ 63 ∷ 63 ∷ 63 ∷ 63 ∷ 63 ∷ 63 ∷ 63 ∷ 63 ∷ 63 ∷ 63 ∷ 63 ∷ 63 ∷ 63 ∷ 63 ∷ 63 ∷ 63 ∷ 63 ∷ 63
    ∷ 63 ∷ 63 ∷ 63 ∷ 63 ∷ 63 ∷ 63 ∷ 63 ∷ 63 ∷ 63 ∷ 63 ∷ 63 ∷ 63 ∷ 63 ∷ 63 ∷ 63 ∷ 63 ∷ 63 ∷ 63 ∷ 63
    ∷ 63 ∷ 63 ∷ 63 ∷ 63 ∷ 63 ∷ 63 ∷ 63 ∷ []

abbrev decrunch_char : List ℕ
decrunch_char =
    32 ∷ 33 ∷ 34 ∷ 35 ∷ 36 ∷ 37 ∷ 38 ∷ 39 ∷ 40 ∷ 41 ∷ 42 ∷ 43 ∷ 44 ∷ 45 ∷ 46 ∷ 47 ∷ 48 ∷ 49 ∷ 50
    ∷ 51 ∷ 52 ∷ 53 ∷ 54 ∷ 55 ∷ 56 ∷ 57 ∷ 58 ∷ 59 ∷ 60 ∷ 61 ∷ 62 ∷ 63 ∷ 64 ∷ 97 ∷ 98 ∷ 99 ∷ 100 ∷ 101
    ∷ 102 ∷ 103 ∷ 104 ∷ 105 ∷ 106 ∷ 107 ∷ 108 ∷ 109 ∷ 110 ∷ 111 ∷ 112 ∷ 113 ∷ 114 ∷ 115 ∷ 116 ∷ 117
    ∷ 118 ∷ 119 ∷ 120 ∷ 121 ∷ 122 ∷ 91 ∷ 92 ∷ 93 ∷ 94 ∷ 95 ∷ []

-- The argument is the character as an unsigned byte; the table has 256 entries.
unfoldable pub crunch : ℕ → ℕ
crunch in_char = get_or crunch_char in_char 63

-- The table has 64 entries, which the assertion requires.
unfoldable decrunch : ℕ → ℕ
decrunch in_char = get_or decrunch_char in_char 0

unfoldable pub get_char_lsb : ℕ → ℕ
get_char_lsb c = bit_and (crunch c) 0x07

unfoldable pub get_char_msb : ℕ → ℕ
get_char_msb c = bit_and (crunch c / 2 ^ 3) 0x7

unfoldable pub get_char_from_msb_lsb : ℕ → ℕ → ℕ
unfolding decrunch
get_char_from_msb_lsb msb lsb = decrunch (bit_or (msb * 2 ^ 3) lsb)

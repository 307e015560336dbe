-- ===== src/Common/Ops.antt =====
-- common.c: `chomp`, the conversions of a `long` to 32 bits, and `str_to_long`; and `strtol` of the C
-- library to base 10, on which the last rests.
use yastg.Prelude.{
  ℕ, zero, suc, ◌+◌, ◌*◌, ◌-◌, ◌^◌, List, [], ◌∷◌, reverse, Option, none, some, Bool, true, false,
  ◌&&◌, ◌||◌, ◌==◌, leb, ltb, if◌then◌else◌,
}
use yastg.Prelude.Int.{ℤ, pos, negsuc, ltb_ℤ, long_max}
use yastg.Cli.Ops.{skip_space}

unfoldable pub drop_newlines : List ℕ → List ℕ
drop_newlines [] = []
drop_newlines (c ∷ cs) = if c == 10 || c == 13 then drop_newlines cs else c ∷ cs

-- The loop runs from the last character down.
unfoldable pub chomp : List ℕ → List ℕ
unfolding drop_newlines
chomp s = reverse (drop_newlines (reverse s))

abbrev pub int_max : ℤ
int_max = pos (2 ^ 31 - 1)

abbrev pub int_min : ℤ
int_min = negsuc (2 ^ 31 - 1)

abbrev pub uint_max : ℤ
uint_max = pos (2 ^ 32 - 1)

abbrev long_min : ℤ
long_min = negsuc (2 ^ 63 - 1)

unfoldable pub limit_long_to_int : ℤ → ℤ
limit_long_to_int l = if ltb_ℤ l int_min then int_min else if ltb_ℤ int_max l then int_max else l

unfoldable pub limit_long_to_uint : ℤ → ℤ
limit_long_to_uint l = if ltb_ℤ l (pos 0) then pos 0 else if ltb_ℤ uint_max l then uint_max else l

abbrev is_digit : ℕ → Bool
is_digit c = leb b'0' c && leb c b'9'

-- The digits in front, as a number that starts at `n`, and what follows them.
unfoldable digits : ℕ → List ℕ → ℕ × List ℕ
digits n [] = (n, [])
digits n (c ∷ cs) = if is_digit c then digits (n * 10 + (c - b'0')) cs else (n, c ∷ cs)

-- The value of a sign and digits, and whether it was out of range (`errno` is set).
unfoldable signed : Bool → ℕ → ℤ × Bool
signed minus n =
    if minus
    then (if ltb (2 ^ 63) n then (long_min, true) else (neg n, false))
    else (if leb (2 ^ 63) n then (long_max, true) else (pos n, false))
  where
    neg : ℕ → ℤ
    neg zero = pos 0
    neg (suc k) = negsuc k

-- Whether there is a sign, whether it is a minus, and what follows it.
unfoldable sign_of : List ℕ → Bool × List ℕ
sign_of [] = (false, [])
sign_of (c ∷ cs) =
    if c == b'-' then (true, cs) else if c == b'+' then (false, cs) else (false, c ∷ cs)

-- `strtol(str, &end, 10)`: the value, whether `errno` is set, and the text at `end`, which is the whole
-- text if there are no digits.
unfoldable pub strtol : List ℕ → ℤ × Bool × List ℕ
unfolding skip_space sign_of digits signed
strtol str =
    let (minus, text) = sign_of (skip_space str) in
    elim text [
      | [] ↦ (pos 0, false, str)
      | c ∷ cs ↦
          if is_digit c
          then (let (n, end) = digits 0 (c ∷ cs) in
              let (value, range) = signed minus n in (value, range, end))
          else (pos 0, false, str)
    ]

-- `none` is -1; else `*out`. The test `end == str` is that of no digits: then `*end` is the first
-- character, or the text is empty.
unfoldable pub str_to_long : List ℕ → Option ℤ
unfolding strtol
str_to_long str =
    let (l, errno, end) = strtol str in
    if errno
    then none
    else elim str [ [] ↦ none | c ∷ cs ↦ elim end [ [] ↦ some l | d ∷ ds ↦ none ] ]

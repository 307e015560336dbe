-- ===== src/Starmap/Drawing.antt =====
-- map.c, asciiart.c: drawing a map into the array of `generate_map`. The array is one block of memory, row
-- after row, so that a write past the end of a row goes to the next row, and one past the last row is a fault.
-- Drawing is called with a width that is at least 21.
use yastg.Civ.Ops.{to_ulong}
use yastg.Prelude.{
  List, Option, Run, [], false, fault, if◌then◌else◌, length, ltb, none, ok, out_of_bounds, some,
  suc, true, zero, ℕ, ◌%◌, ◌*◌, ◌+◌, ◌-◌, ◌/◌, ◌==◌, ◌>>=◌, ◌^◌, ◌||◌, ◌∷◌,
}
use yastg.Prelude.Int.{div_ℤ, pos, to_int32, ℤ, ◌-ℤ◌}
use yastg.Starmap.Ops.{flatten_array}
use yastg.Universe.Links.{nearest_first}
use yastg.Universe.Ops.{Space, Tree}

abbrev Buf : Type 0
Buf = ℕ → ℕ

-- `ASCII_X_TO_Y` is 2.25, by which a quotient in floating point is exact enough to be that of 9 and 4.
abbrev ascii_x_to_y : ℕ → ℕ
ascii_x_to_y n = 4 * n / 9

-- A number in decimal digits, `%lu`; twenty are enough.
unfoldable decimal : ℕ → ℕ → List ℕ → List ℕ
decimal zero n tail = tail
decimal (suc fuel) n tail =
    let more = decimal fuel (n / 10) ((b'0' + n % 10) ∷ tail) in
    if ltb n 10 then (b'0' + n % 10) ∷ tail else more

-- `size` is the number of characters in the array, and `buf_size_x` in a row.
module _ (size buf_size_x : ℕ) where
  unfoldable pub write_char : ℕ → ℕ → Buf → Run Buf
  write_char i v buf =
      if ltb i size then ok (λ j. if i == j then v else buf j) else fault out_of_bounds

  unfoldable read_char : ℕ → Buf → Run ℕ
  read_char i buf = if ltb i size then ok (buf i) else fault out_of_bounds

  -- A loop of `n` rounds from `i` on.
  unfoldable pub each_from : ℕ → ℕ → (ℕ → Buf → Run Buf) → Buf → Run Buf
  each_from zero i body buf = ok buf
  each_from (suc n) i body buf = do buf' ← body i buf; each_from n (i + 1) body buf'

  -- `memcpy` of a text
  unfoldable write_text : ℕ → List ℕ → Buf → Run Buf
  unfolding write_char
  write_text i [] buf = ok buf
  write_text i (c ∷ cs) buf = do buf' ← write_char i c buf; write_text (i + 1) cs buf'

  -- `szprintf`, which puts the character behind the NUL in its place
  unfoldable szprintf : ℕ → List ℕ → Buf → Run Buf
  unfolding write_text read_char write_char
  szprintf i text buf = do
    buf' ← write_text i text buf
    buf'' ← write_char (i + length text) 0 buf'
    next ← read_char (i + length text + 1) buf''
    write_char (i + length text) next buf''

  -- `draw_square` at the upper left; `none` is -1.
  unfoldable pub draw_square : ℕ → ℕ → Buf → Run (Option Buf)
  unfolding each_from write_char
  draw_square buf_size_y width_x buf =
      let width_y = ascii_x_to_y width_x in
      if ltb buf_size_x width_x || ltb buf_size_y width_y then ok none else (do
        spaces ←
            each_from width_y 0 (λ y. each_from width_x 0 (λ x. write_char (y * buf_size_x + x) 32))
              buf
        level ←
            each_from width_x 0
              (λ x b. do
                b' ← write_char x b'-' b
                write_char ((width_y - 1) * buf_size_x + x) b'-' b')
              spaces
        upright ←
            each_from (width_y - 1) 1
              (λ y b. do
                b' ← write_char (y * buf_size_x) b'|' b
                write_char (y * buf_size_x + (width_x - 1)) b'|' b')
              level
        upper_left ← write_char 0 b'/' upright
        upper_right ← write_char (width_x - 1) 92 upper_left
        lower_left ← write_char ((width_y - 1) * buf_size_x) 92 upper_right
        lower_right ← write_char ((width_y - 1) * buf_size_x + (width_x - 1)) b'/' lower_left
        ok (some lower_right))

-- `struct map_item`
pub record MapItem : Type 0 where
  pub x : ℤ
  pub y : ℤ
  pub s : List ℕ

-- The key of a row; `none` from the 62nd on.
unfoldable row_key : ℕ → Option ℕ
row_key row =
    if row == 1
    then some b'X'
    else if ltb row 10
    then some (row + b'0')
    else if ltb row (10 + 26)
    then some (row - 10 + b'a')
    else if ltb row (10 + 26 + 26)
    then some (row - 10 + b'A')
    else none

-- Where an item lies between two sides: an `int` and a `size_t` are added, and the sum is kept off the sides.
unfoldable spot : ℤ → ℕ → ℕ → ℕ
unfolding to_ulong
spot at upper_left lower_right =
    let sum = (to_ulong at + ((lower_right - upper_left) / 2 + upper_left)) % 2 ^ 64 in
    let least = if ltb sum (lower_right - 1) then sum else lower_right - 1 in
    if ltb (upper_left + 1) least then least else upper_left + 1

module _ (size buf_size_x : ℕ) where
  -- A round of `plot_items_in_map`, with the upper left at 0
  unfoldable plot_item : ℕ → ℕ → ℕ → ℕ → MapItem → Buf → Run Buf
  unfolding spot read_char write_char each_from write_text
  plot_item lr_x lr_y row key item buf = do
    let at = spot item.y 0 lr_y * buf_size_x + spot item.x 0 lr_x
    there ← read_char size buf_size_x at buf
    marked ← if there == 32 then write_char size buf_size_x at key buf else ok buf
    blank ←
        each_from size buf_size_x 4 (lr_x + 1)
          (λ x. write_char size buf_size_x (row * buf_size_x + x) 32) marked
    keyed ←
        write_char size buf_size_x (row * buf_size_x + (lr_x + 2))
          (if there == 32 then key else there) blank
    write_text size buf_size_x (row * buf_size_x + (lr_x + 4)) item.s keyed

  -- `plot_items_in_map`; `row` is the number of rows before.
  unfoldable plot_items_in_map : ℕ → ℕ → ℕ → ℕ → List MapItem → Buf → Run Buf
  unfolding row_key plot_item
  plot_items_in_map buf_size_y lr_x lr_y row [] buf = ok buf
  plot_items_in_map buf_size_y lr_x lr_y row (item ∷ items) buf =
      if ltb buf_size_y (row + 1) then ok buf else elim (row_key (row + 1)) [
        | none ↦ ok buf
        | some key ↦ do
          buf' ← plot_item lr_x lr_y (row + 1) key item buf
          plot_items_in_map buf_size_y lr_x lr_y (row + 1) items buf'
      ]

  -- `strlen` from a character on, with what is there; the fuel is the number of characters that are left.
  unfoldable pub string_at : ℕ → ℕ → Buf → Run (List ℕ)
  string_at zero i buf = fault out_of_bounds
  string_at (suc fuel) i buf =
      let rest = string_at fuel (i + 1) buf in
      elim (buf i == 0) [ true ↦ ok [] | false ↦ do cs ← rest; ok (buf i ∷ cs) ]

  -- The strings that the rows begin with. `flatten_array` reads them as it comes to them.
  unfoldable pub rows_from : ℕ → ℕ → Buf → Run (List (List ℕ))
  unfolding string_at
  rows_from zero y buf = ok []
  rows_from (suc n) y buf = do
    row ← string_at (size - y * buf_size_x) (y * buf_size_x) buf
    rows ← rows_from n (y + 1) buf
    ok (row ∷ rows)

module _ (sqrt : ℤ → ℤ → ℕ) (rb_next : ℕ → Tree → Option ℕ) (u : Space) (name : ℕ → List ℕ) where
  -- The loop over the systems. A tick is not zero where the radius is that of `cmd_map`.
  unfoldable map_items : ℕ → ℤ → ℤ → List ℕ → List MapItem
  unfolding to_int32 div_ℤ
  map_items origin tick_x tick_y [] = []
  map_items origin tick_x tick_y (s ∷ systems) =
      record {
        x = to_int32 (div_ℤ ((u.system s).x -ℤ (u.system origin).x) tick_x);
        y = to_int32 (div_ℤ ((u.system s).y -ℤ (u.system origin).y) tick_y);
        s = name s;
      }
      ∷ map_items origin tick_x tick_y systems

  -- `generate_map`; the text, or `none` for NULL.
  unfoldable pub generate_map : ℕ → ℕ → ℕ → ℕ → Run (Option (List ℕ))
  unfolding draw_square szprintf decimal map_items plot_items_in_map rows_from nearest_first
      flatten_array
  generate_map len origin radius width =
      let y_size = ascii_x_to_y width in
      let max_x = width + 29 in
      let max_y = y_size + 3 in
      let size = max_x * max_y in
      if ltb width 21 then ok none else (do
        square ← draw_square size max_x max_y width (λ i. 0)
        elim square [
          | none ↦ ok none
          | some drawn ↦ do
            titled ←
                szprintf size max_x 2
                  (b'S' ∷ b'Y' ∷ b'S' ∷ b'T' ∷ b'E' ∷ b'M' ∷ 32 ∷ b'M' ∷ b'A' ∷ b'P' ∷ []) drawn
            scaled ←
                szprintf size max_x (width / 2)
                  (b'|'
                    ∷ b'<'
                    ∷ b'-'
                    ∷ 32
                    ∷ decimal 20 (radius / 10000) (32 ∷ b'l' ∷ b'y' ∷ 32 ∷ []))
                  titled
            arrow ← write_char size max_x (width - 2) b'>' scaled
            let tick_x = to_int32 (pos (radius * 2 / width))
            let tick_y = to_int32 (pos (radius * 2 / y_size))
            plotted ←
                plot_items_in_map size max_x max_y (width - 1) (y_size - 1) 0
                  (map_items origin tick_x tick_y (nearest_first sqrt rb_next u origin radius).list)
                  arrow
            rows ← rows_from size max_x max_y 0 plotted
            ok (some (flatten_array len rows))
        ])

-- ===== src/Buffer/Ops.antt =====
-- buffer.c: reading into a buffer, the line in it, and writing it out. `realloc` and `malloc` succeed. The
-- contents are the characters in front of `idx`, none of them NUL, so `idx` is their number.
use yastg.Prelude.{
  ℕ, ◌+◌, ◌-◌, ◌*◌, List, [], ◌∷◌, ◌++◌, Option, none, some, Bool, true, false, ◌==◌, leb, ◌&&◌,
  not, if◌then◌else◌, min, max, length,
}
use yastg.Common.Ops.{chomp}

-- `struct buffer`
pub record Buffer : Type 0 where
  pub contents : List ℕ
  pub size : ℕ

abbrev buffer_minsize : ℕ
buffer_minsize = 128

abbrev buffer_maxsize : ℕ
buffer_maxsize = 10240

unfoldable pub buffer_init : Buffer
buffer_init = record { contents = []; size = 0 }

unfoldable pub buffer_reset : Buffer → Buffer
buffer_reset b = record b { contents = [] }

-- `none` is -1.
unfoldable pub enlarge_buffer : Buffer → ℕ → Option Buffer
enlarge_buffer b new_size =
    if leb buffer_maxsize b.size
    then none
    else some (record b { size = max (min new_size buffer_maxsize) buffer_minsize })

-- `buffer->buf[buffer->idx - 1] == '\n'`
unfoldable pub ends_line : List ℕ → Bool
ends_line [] = false
ends_line (c ∷ []) = c == 10
ends_line (c ∷ d ∷ cs) = ends_line (d ∷ cs)

-- The room that `read_into_buffer` hands to `read`.
unfoldable pub room : Buffer → ℕ
room b = (if b.size == 0 then buffer_minsize else b.size) - length b.contents

-- `read_into_buffer` once `read` has put `input` behind the contents, `room b` characters at most. The
-- Boolean is false where -1 is returned.
unfoldable pub read_into_buffer : Buffer → List ℕ → Bool × Buffer
unfolding ends_line enlarge_buffer
read_into_buffer b input =
    let size = if b.size == 0 then buffer_minsize else b.size in
    let contents = b.contents ++ input in
    let b' : Buffer = record { contents = contents; size = size } in
    if leb size (length contents) && not (ends_line contents)
    then elim (enlarge_buffer b' (size * 2)) [ none ↦ (false, b') | some b'' ↦ (true, b'') ]
    else (true, b')

-- `write_buffer_into_fd`, given what each call of `write` returns; `none` where the calls run out or one
-- returns less than 1, and then the contents stay.
unfoldable write_rounds : ℕ → ℕ → List ℕ → Bool
write_rounds idx sb [] = leb idx sb
write_rounds idx sb (r ∷ writes) =
    let rest = write_rounds idx (sb + r) writes in
    if leb idx sb then true else if r == 0 then false else rest

unfoldable write_buffer_into_fd : Buffer → List ℕ → Buffer
unfolding write_rounds
write_buffer_into_fd b writes =
    if write_rounds (length b.contents) 0 writes then record b { contents = [] } else b

-- The line that `buffer_terminate_line` leaves in front of the first NUL; `none` is -1.
unfoldable pub buffer_terminate_line : Buffer → Option (List ℕ)
unfolding ends_line chomp
buffer_terminate_line b = if ends_line b.contents then some (chomp b.contents) else none

-- ===== src/Buffer/Bounds.antt =====
-- buffer.c: the bounds of `read_into_buffer`.
use yastg.Prelude.{
  ℕ, ◌≤◌, ◌<◌, List, ◌++◌, Bool, true, false, length, length-append, ◌≡◌, arith, ◌⊎◌,
}
use yastg.Buffer.Ops.{Buffer, enlarge_buffer, ends_line, room, read_into_buffer}

-- The contents fit in the buffer, which is not larger than allowed.
pub record IsBuffer (b : Buffer) : Type 0 where
  pub fits : length b.contents ≤ b.size
  pub bounded : b.size ≤ 10240

-- What a read of `input` comes to: the buffer holds what it held and the input; and if -1 is not
-- returned, the contents end a line or there is room.
pub record Read (b : Buffer) (input : List ℕ) (r : Bool × Buffer) : Type 0 where
  pub kept : IsBuffer r.1
  pub holds : r.1.contents ≡ b.contents ++ input
  pub goes_on : (r.0 ≡ false) ⊎ ((ends_line r.1.contents ≡ true) ⊎ (length r.1.contents < r.1.size))

-- Where the contents fit in a buffer of at most 10240 characters, a read of no more than the room
-- that is handed to it keeps that so and appends the input. If -1 is not returned, the contents end
-- a line or there is room for more.
pub read_into_buffer-Read :
    (b : Buffer) (input : List ℕ)
    → IsBuffer b
    → length input ≤ room b
    → Read b input (read_into_buffer b input)
unfolding read_into_buffer enlarge_buffer room
read_into_buffer-Read b input v h = record {
  kept = record {
    fits = ground (arith, length-append b.contents input, v.fits, h);
    bounded = ground (arith, v.bounded, v.fits, h);
  };
  holds = ground arith;
  goes_on = ground (arith, length-append b.contents input, v.fits, h, v.bounded);
}

-- ===== src/Console/Ops.antt =====
-- console.c: the commands that send messages to the server. Both writes are of all bytes, and the pipe is open.
use yastg.Server.Ops.{Signal, packed, msg_wall, msg_pause, msg_cont}
use yastg.Prelude.{
  List, Option, [], if◌then◌else◌, length, none, some, take, ℕ, ◌%◌, ◌++◌, ◌+◌, ◌==◌, ◌^◌, ◌∷◌,
}

-- `write_msg`; `bytes` is what is known at `msgdata`.
unfoldable pub write_msg : Signal → List ℕ → List ℕ → List ℕ
unfolding packed
write_msg msg bytes pipe =
    if msg.cnt == 0 then pipe ++ packed msg else pipe ++ packed msg ++ take msg.cnt bytes

-- `cmd_wall`; `cnt` is a `uint16_t`.
unfoldable pub cmd_wall : Option (List ℕ) → List ℕ → List ℕ
unfolding write_msg
cmd_wall none pipe = pipe
cmd_wall (some message) pipe =
    write_msg (record { cnt = (length message + 1) % 2 ^ 16; type = msg_wall }) (message ++ 0 ∷ [])
      pipe

unfoldable pub cmd_pause : List ℕ → List ℕ
unfolding write_msg
cmd_pause pipe = write_msg (record { cnt = 0; type = msg_pause }) [] pipe

unfoldable pub cmd_resume : List ℕ → List ℕ
unfolding write_msg
cmd_resume pipe = write_msg (record { cnt = 0; type = msg_cont }) [] pipe

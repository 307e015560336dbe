-- ===== src/Server/Ops.antt =====
-- server.c, server.h: reading a message from the pipe, and handling it. The pipe is the bytes that are in it,
-- and a `read` takes as many as it asks for, or all there are. An `enum` has four bytes, the low one first.
use yastg.Prelude.{
  ℕ, List, [], ◌∷◌, Option, none, some, Bool, true, false, Run, ok, fault, out_of_bounds, length,
  take, drop,
}
use yastg.Prelude.{if◌then◌else◌, ltb, not, suc, zero, ◌%◌, ◌*◌, ◌++◌, ◌+◌, ◌/◌, ◌==◌, ◌>>=◌}

-- `struct signal`
pub record Signal : Type 0 where
  pub cnt : ℕ
  pub type : ℕ

-- `enum msg`
abbrev pub msg_pause : ℕ
msg_pause = 1

abbrev pub msg_cont : ℕ
msg_cont = 2

abbrev pub msg_wall : ℕ
msg_wall = 4

abbrev pub msg_term : ℕ
msg_term = 8

-- What `conn_send` is given, whose fixed words are left out. `none` is NULL.
pub data Text : Type 0 where
  message_to_all : Option (List ℕ) → Text
  you_are_paused you_are_resumed shutting_down : Text

-- A connection, with whether its `data_watcher` is started, whether it is to be terminated, and what was sent
-- to it, the last text first.
pub record Peer : Type 0 where
  pub id : ℕ
  pub watched : Bool
  pub terminate : Bool
  pub sent : List Text

-- `running` is whether the event loop goes on.
pub record Server : Type 0 where
  pub running : Bool
  pub conn_list : List Peer

-- The bytes of a number, `n` of them.
abbrev bytes_of : ℕ → ℕ → List ℕ
bytes_of zero v = []
bytes_of (suc n) v = v % 256 ∷ bytes_of n (v / 256)

abbrev number_of : List ℕ → ℕ
number_of [] = 0
number_of (b ∷ bs) = b + 256 * number_of bs

-- The packed bytes of `struct signal`.
unfoldable pub packed : Signal → List ℕ
packed msg = bytes_of 2 msg.cnt ++ bytes_of 4 msg.type

unfoldable pub unpacked : List ℕ → Signal
unpacked bs = record { cnt = number_of (take 2 bs); type = number_of (drop 2 bs) }

-- A string that begins at `data`, of which these bytes are known.
unfoldable pub c_string : List ℕ → Run (List ℕ)
c_string [] = fault out_of_bounds
c_string (b ∷ bs) = if b == 0 then ok [] else (do s ← c_string bs; ok (b ∷ s))

-- Nothing is sent to a connection that is to be terminated.
unfoldable pub conn_send : Peer → Text → Peer
conn_send p text = if p.terminate then p else record p { sent = text ∷ p.sent }

-- The loops over the connections.
unfoldable pub send_all : Text → List Peer → List Peer
unfolding conn_send
send_all text [] = []
send_all text (p ∷ ps) = conn_send p text ∷ send_all text ps

unfoldable pub watch_all : Bool → Text → List Peer → List Peer
unfolding conn_send
watch_all watched text [] = []
watch_all watched text (p ∷ ps) =
    conn_send (record p { watched = watched }) text ∷ watch_all watched text ps

unfoldable pub server_handlesignal : Signal → Option (List ℕ) → Server → Run Server
unfolding c_string send_all watch_all
server_handlesignal msg text s =
    if msg.type == msg_term
    then ok (record s { running = false })
    else if msg.type == msg_wall
    then elim text [
      | none ↦ ok (record s { conn_list = send_all (message_to_all none) s.conn_list })
      | some bs ↦ do
        str ← c_string bs
        ok (record s { conn_list = send_all (message_to_all (some str)) s.conn_list })
    ]
    else if msg.type == msg_pause
    then ok (record s { conn_list = watch_all false you_are_paused s.conn_list })
    else if msg.type == msg_cont
    then ok (record s { conn_list = watch_all true you_are_resumed s.conn_list })
    else ok s

-- `sizeof(struct signal)`
abbrev sizeof_signal : ℕ
sizeof_signal = 6

-- The part of `server_msg_cb` behind the read of the header.
unfoldable pub read_message : Signal → List ℕ → Server → Run (List ℕ × Server)
unfolding server_handlesignal
read_message msg pipe s =
    if ltb 0 msg.cnt
    then (let read = take msg.cnt pipe in
        let rest = drop msg.cnt pipe in
        if not (length read == sizeof_signal)
        then ok (rest, s)
        else (do s' ← server_handlesignal msg (some read) s; ok (rest, s')))
    else (do s' ← server_handlesignal msg none s; ok (pipe, s'))

-- The pipe that is left, and the server.
unfoldable pub server_msg_cb : List ℕ → Server → Run (List ℕ × Server)
unfolding unpacked read_message
server_msg_cb pipe s =
    let header = take sizeof_signal pipe in
    let rest = drop sizeof_signal pipe in
    if not (length header == sizeof_signal)
    then ok (rest, s)
    else read_message (unpacked header) rest s

-- The event loop with the pipe only: while the loop goes on and the pipe has bytes, a message is read. The fuel
-- is the number of messages; `none` where it runs out.
unfoldable pub serve : ℕ → List ℕ → Server → Run (Option (List ℕ × Server))
unfolding server_msg_cb
serve fuel [] s = ok (some ([], s))
serve zero (b ∷ pipe) s = ok (if s.running then none else some (b ∷ pipe, s))
serve (suc fuel) (b ∷ pipe) s = elim s.running [
  | false ↦ ok (some (b ∷ pipe, s))
  | true ↦ do (rest, s') ← server_msg_cb (b ∷ pipe) s; serve fuel rest s'
]

-- `stop_server`, up to the wait for the thread
unfoldable pub stop_server : List ℕ → List ℕ
unfolding packed
stop_server pipe = pipe ++ packed (record { cnt = 0; type = msg_term })

-- ===== src/Server/Requests.antt =====
-- console.c: the commands that send messages, the bytes that they write, and what is to come of them.
-- A command at the console, with its parameter.
use yastg.Console.Ops.{cmd_pause, cmd_resume, cmd_wall, write_msg}
use yastg.Prelude.{
  In, List, Option, [], ap, append-nil, append_assoc, arith, false, if◌then◌else◌, inl, inr, length,
  length-append, none, refl, some, sym, take, true, ℕ, ◌%◌, ◌++◌, ◌+◌, ◌<◌, ◌==◌, ◌^◌, ◌∙◌, ◌∷◌,
  ◌≡◌,
}
use yastg.Server.Ops.{
  Server, message_to_all, msg_cont, msg_pause, msg_wall, packed, send_all, watch_all,
  you_are_paused, you_are_resumed,
}
use yastg.Prelude.{Bool, ap₂, map}
use yastg.Server.Ops.{Peer, Text, conn_send}

pub data Request : Type 0 where
  wall : Option (List ℕ) → Request
  pause resume : Request

abbrev pub run_request : Request → List ℕ → List ℕ
run_request (wall message) pipe = cmd_wall message pipe
run_request pause pipe = cmd_pause pipe
run_request resume pipe = cmd_resume pipe

abbrev pub run_each : List Request → List ℕ → List ℕ
run_each [] pipe = pipe
run_each (r ∷ rs) pipe = run_each rs (run_request r pipe)

-- What a connection has heard after a text, unless it is to be terminated.
abbrev hears : Text → Peer → Peer
hears text p = record p { sent = if p.terminate then p.sent else text ∷ p.sent }

abbrev watches : Bool → Peer → Peer
watches watched p = record p { watched = watched }

pub send_all-map : (text : Text) (ps : List Peer) → send_all text ps ≡ map (hears text) ps
unfolding send_all conn_send
send_all-map text [] = refl
send_all-map text (p ∷ ps) =
    ap₂ (λ (q : Peer) qs. q ∷ qs) (conn_send-hears p.terminate refl) (send_all-map text ps)
  where
    conn_send-hears : (b : Bool) → p.terminate ≡ b → conn_send p text ≡ hears text p
    conn_send-hears true e = rw e refl
    conn_send-hears false e = rw e refl

pub watch_all-map :
    (watched : Bool) (text : Text) (ps : List Peer)
    → watch_all watched text ps ≡ map (λ p. hears text (watches watched p)) ps
unfolding watch_all conn_send
watch_all-map watched text [] = refl
watch_all-map watched text (p ∷ ps) =
    ap₂ (λ (q : Peer) qs. q ∷ qs) (conn_send-hears p.terminate refl) (watch_all-map watched text ps)
  where
    conn_send-hears :
        (b : Bool)
        → p.terminate ≡ b
        → conn_send (watches watched p) text ≡ hears text (watches watched p)
    conn_send-hears true e = rw e refl
    conn_send-hears false e = rw e refl

-- What the server does at a request: it lets all that stay connected know of a message that has five characters.
abbrev pub told : Request → Server → Server
told (wall none) s = s
told (wall (some message)) s =
    if length message == 5
    then record s { conn_list = map (hears (message_to_all (some message))) s.conn_list }
    else s
told pause s = record s {
  conn_list = map (λ p. hears you_are_paused (watches false p)) s.conn_list;
}
told resume s = record s {
  conn_list = map (λ p. hears you_are_resumed (watches true p)) s.conn_list;
}

abbrev pub told_each : List Request → Server → Server
told_each [] s = s
told_each (r ∷ rs) s = told_each rs (told r s)

-- A message is a string, and with its NUL its length is a `uint16_t`.
abbrev pub IsShort : Request → Type 0
IsShort (wall none) = Unit
IsShort (wall (some message)) = (length message + 1 < 2 ^ 16) × ¬ In 0 message
IsShort pause = Unit
IsShort resume = Unit

-- The bytes that a message with text writes.
abbrev text_bytes : List ℕ → List ℕ
text_bytes message =
    packed (record { cnt = length (message ++ 0 ∷ []); type = msg_wall }) ++ (message ++ 0 ∷ [])

abbrev pub message_of : Request → List ℕ
message_of (wall none) = []
message_of (wall (some message)) = text_bytes message
message_of pause = packed (record { cnt = 0; type = msg_pause })
message_of resume = packed (record { cnt = 0; type = msg_cont })

pub length-string : (s : List ℕ) → length (s ++ 0 ∷ []) ≡ length s + 1
length-string s = length-append s (0 ∷ [])

run_request-append :
    (r : Request) (pipe : List ℕ) → IsShort r → run_request r pipe ≡ pipe ++ message_of r
unfolding cmd_wall cmd_pause cmd_resume write_msg
run_request-append (wall none) pipe h = sym (append-nil pipe)
run_request-append (wall (some message)) pipe (h, k) =
    let len : (length message + 1) % 2 ^ 16 ≡ length (message ++ 0 ∷ []) =
      omega (arith, length-string message) in
    rw
      (
        len,
        not_zero (length (message ++ 0 ∷ [])) (omega (arith, length-string message)),
        take_all (message ++ 0 ∷ []),
      )
      (append_assoc pipe _ (message ++ 0 ∷ []))
  where
    not_zero : (n : ℕ) → 0 < n → (n == 0) ≡ false
    not_zero n h = ground arith

    take_all : (xs : List ℕ) → take (length xs) xs ≡ xs
    take_all [] = refl
    take_all (x ∷ xs) = ap (λ l. x ∷ l) (take_all xs)
run_request-append pause pipe h = refl
run_request-append resume pipe h = refl

abbrev pub messages_of : List Request → List ℕ
messages_of [] = []
messages_of (r ∷ rs) = message_of r ++ messages_of rs

pub run_each-append :
    (rs : List Request) (pipe : List ℕ)
    → ((r : Request) → In r rs → IsShort r)
    → run_each rs pipe ≡ pipe ++ messages_of rs
run_each-append [] pipe h = sym (append-nil pipe)
run_each-append (r ∷ rs) pipe h =
    ap (run_each rs) (run_request-append r pipe (h r (inl refl)))
    ∙ run_each-append rs (pipe ++ message_of r) (λ q k. h q (inr k))
    ∙ append_assoc pipe (message_of r) (messages_of rs)

pub running-told : (r : Request) (s : Server) → (told r s).running ≡ s.running
running-told (wall none) s = refl
running-told (wall (some message)) s = ground arith
running-told pause s = refl
running-told resume s = refl

-- ===== src/Server/InOrder.antt =====
-- server.c: the messages of the console's commands, one after the other.
use yastg.Prelude.{
  Bool, Bool-cases, In, List, Run, [], ap, append-nil, append_assoc, arith, false, inl, inr, length,
  none, ok, refl, some, suc, sym, true, zero, ℕ, ◌++◌, ◌+◌, ◌<◌, ◌==◌, ◌>>=◌, ◌∙◌, ◌∷◌, ◌≡◌, ◌≢◌,
  ◌⊎◌,
}
use yastg.Server.Ops.{
  Server, Signal, msg_cont, msg_pause, msg_term, msg_wall, packed, read_message, serve,
  server_handlesignal, server_msg_cb, stop_server,
}
use yastg.Server.Reading.{c_string_lem, read_message-append, server_msg_cb-packed}
use yastg.Server.Requests.{
  IsShort, Request, length-string, message_of, messages_of, pause, resume, run_each,
  run_each-append, running-told, told, told_each, wall,
}
use yastg.Server.Ops.{message_to_all, you_are_paused, you_are_resumed}
use yastg.Server.Requests.{send_all-map, watch_all-map}

read_message-wall :
    (message rest : List ℕ) (s : Server)
    → ¬ In 0 message
    → read_message
        (record { cnt = length (message ++ 0 ∷ []); type = msg_wall })
        ((message ++ 0 ∷ []) ++ rest)
        s
      ≡ ok (rest, told (wall (some message)) s)
unfolding server_handlesignal
read_message-wall message rest s k =
    read_message-append msg_wall (message ++ 0 ∷ []) rest s (omega (arith, length-string message))
    ∙ elim (Bool-cases (length message == 5)) [
      | inl e ↦
          rw (six true e, e, c_string_lem message k)
            (ap (λ ps. ok (rest, record s { conn_list = ps }))
              (send_all-map (message_to_all (some message)) s.conn_list))
      | inr e ↦ rw (six false e, e) refl
    ]
  where
    six : (b : Bool) → (length message == 5) ≡ b → (length (message ++ 0 ∷ []) == 6) ≡ b
    six b e = rw (length-string message) (ground (arith, e))

server_msg_cb-told :
    (r : Request) (rest : List ℕ) (s : Server)
    → IsShort r
    → (message_of r ≡ []) × (told r s ≡ s)
      ⊎ (server_msg_cb (message_of r ++ rest) s ≡ ok (rest, told r s))
unfolding server_handlesignal read_message
server_msg_cb-told (wall none) rest s h = inl (refl, refl)
server_msg_cb-told (wall (some message)) rest s (h, k) = inr (
    ap (λ pipe. server_msg_cb pipe s) (append_assoc _ (message ++ 0 ∷ []) rest)
    ∙ server_msg_cb-packed (length (message ++ 0 ∷ [])) msg_wall ((message ++ 0 ∷ []) ++ rest) s
        (omega (arith, length-string message)) (omega arith)
    ∙ read_message-wall message rest s k)
server_msg_cb-told pause rest s h = inr (
    server_msg_cb-packed 0 msg_pause rest s (omega arith) (omega arith)
    ∙ ap (λ ps. ok (rest, record s { conn_list = ps }))
        (watch_all-map false you_are_paused s.conn_list))
server_msg_cb-told resume rest s h = inr (
    server_msg_cb-packed 0 msg_cont rest s (omega arith) (omega arith)
    ∙ ap (λ ps. ok (rest, record s { conn_list = ps }))
        (watch_all-map true you_are_resumed s.conn_list))

-- A round of the event loop.
serve_round :
    (fuel : ℕ) (pipe rest : List ℕ) (s s' : Server)
    → server_msg_cb pipe s ≡ ok (rest, s')
    → pipe ≢ []
    → s.running ≡ true
    → serve (suc fuel) pipe s ≡ serve fuel rest s'
unfolding serve
serve_round fuel [] rest s s' e n r = absurd (n refl)
serve_round fuel (b ∷ pipe) rest s s' e n r =
    ap
      (λ running. elim running [
        | false ↦ ok (some (b ∷ pipe, s))
        | true ↦ server_msg_cb (b ∷ pipe) s >>= λ q. serve fuel q.0 q.1
      ])
      r
    ∙ ap (λ (x : Run (List ℕ × Server)). x >>= λ q. serve fuel q.0 q.1) e

abbrev term : Signal
term = record { cnt = 0; type = msg_term }

append-term-ne : (pipe : List ℕ) → pipe ++ packed term ≢ []
unfolding packed
append-term-ne [] e = cc
append-term-ne (b ∷ pipe) e = cc

serve-empty : (fuel : ℕ) (s : Server) → serve fuel [] s ≡ ok (some ([], s))
unfolding serve
serve-empty zero s = refl
serve-empty (suc fuel) s = refl

-- The message of `stop_server` ends the loop.
serve-term :
    (fuel : ℕ) (s : Server)
    → s.running ≡ true
    → serve (suc fuel) (packed term) s ≡ ok (some ([], record s { running = false }))
unfolding server_handlesignal read_message
serve-term fuel s r =
    serve_round fuel (packed term) [] s (record s { running = false })
      (ap (λ pipe. server_msg_cb pipe s) (sym (append-nil (packed term)))
        ∙ server_msg_cb-packed 0 msg_term [] s (omega arith) (omega arith))
      (append-term-ne []) r
    ∙ serve-empty fuel (record s { running = false })

serve-messages_of :
    (fuel : ℕ) (rs : List Request) (s : Server)
    → ((r : Request) → In r rs → IsShort r)
    → s.running ≡ true
    → length rs < fuel
    → serve fuel (messages_of rs ++ packed term) s
      ≡ ok (some ([], record (told_each rs s) { running = false }))
serve-messages_of zero rs s h r l = absurd (omega arith)
serve-messages_of (suc fuel) [] s h r l = serve-term fuel s r
serve-messages_of (suc fuel) (q ∷ rs) s h r l =
    let rest = messages_of rs ++ packed term in
    ap (λ pipe. serve (suc fuel) pipe s)
      (append_assoc (message_of q) (messages_of rs) (packed term))
    ∙ elim (server_msg_cb-told q rest s (h q (inl refl))) [
      | inl (nothing, same) ↦
          ap (λ (bs : List ℕ). serve (suc fuel) (bs ++ rest) s) nothing
          ∙ serve-messages_of (suc fuel) rs s (λ p k. h p (inr k)) r (omega arith)
          ∙ ap (λ (t : Server). ok (some ([], record (told_each rs t) { running = false })))
              (sym same)
      | inr e ↦
          serve_round fuel (message_of q ++ rest) rest s (told q s) e
            (λ n.
              append-term-ne (message_of q ++ messages_of rs)
                (append_assoc (message_of q) (messages_of rs) (packed term) ∙ n))
            r
          ∙ serve-messages_of fuel rs (told q s) (λ p k. h p (inr k)) (running-told q s ∙ r)
              (omega arith)
    ]

-- Where the event loop is running, and each message at the console has no NUL and is shorter than
-- 65535, the server handles in order all that the commands send before stop_server, and then the
-- loop ends with nothing left in the pipe. A pause stops and a resume starts the input of each
-- connection, and both tell it unless it is to be terminated, as does a message, if it has just
-- five characters.
pub serve-run_each :
    (rs : List Request) (s : Server) (more : ℕ)
    → ((r : Request) → In r rs → IsShort r)
    → s.running ≡ true
    → serve (length rs + 1 + more) (stop_server (run_each rs [])) s
      ≡ ok (some ([], record (told_each rs s) { running = false }))
unfolding stop_server
serve-run_each rs s more h r =
    ap (λ (pipe : List ℕ). serve (length rs + 1 + more) (pipe ++ packed term) s)
      (run_each-append rs [] h)
    ∙ serve-messages_of (length rs + 1 + more) rs s h r (omega arith)

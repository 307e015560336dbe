-- ===== src/Server/Tests.antt =====
-- Commands at the console, with a connection and one that is to be terminated.
use yastg.Prelude.{
  In, List, [], arith, false, inl, inr, ok, refl, some, subst, sym, true, ℕ, ◌∷◌, ◌≡◌,
}
use yastg.Server.InOrder.{serve-run_each}
use yastg.Server.Ops.{
  Peer, Server, message_to_all, serve, stop_server, you_are_paused, you_are_resumed,
}
use yastg.Server.Requests.{IsShort, Request, pause, resume, run_each, told_each, wall}

abbrev peer : Peer
peer = record { id = 1; watched = true; terminate = false; sent = [] }

abbrev server : Server
server = record {
  running = true;
  conn_list = peer ∷ record { id = 2; watched = true; terminate = true; sent = [] } ∷ [];
}

abbrev hello : List ℕ
hello = b'h' ∷ b'e' ∷ b'l' ∷ b'l' ∷ b'o' ∷ []

abbrev short : List ℕ
short = b'h' ∷ b'i' ∷ []

abbrev requests : List Request
requests = pause ∷ wall (some hello) ∷ wall (some short) ∷ resume ∷ []

-- "hi" is not heard.
only_hello : told_each requests server ≡ record {
  running = true;
  conn_list =
      record {
        id = 1;
        watched = true;
        terminate = false;
        sent = you_are_resumed ∷ message_to_all (some hello) ∷ you_are_paused ∷ [];
      }
      ∷ record { id = 2; watched = true; terminate = true; sent = [] }
      ∷ [];
}
only_hello = refl

requests-IsShort : (r : Request) → In r requests → IsShort r
requests-IsShort r (inl e) = subst IsShort (sym e) tt
requests-IsShort r (inr (inl e)) = subst IsShort (sym e) (omega arith, no_nul)
  where
    no_nul : ¬ In 0 hello
    no_nul h = ground (arith, h)
requests-IsShort r (inr (inr (inl e))) = subst IsShort (sym e) (omega arith, no_nul)
  where
    no_nul : ¬ In 0 short
    no_nul h = ground (arith, h)
requests-IsShort r (inr (inr (inr (inl e)))) = subst IsShort (sym e) tt
requests-IsShort r (inr (inr (inr (inr h)))) = absurd h

serve-run_each_example :
    serve 5 (stop_server (run_each requests [])) server
    ≡ ok (some ([], record (told_each requests server) { running = false }))
serve-run_each_example = serve-run_each requests server 0 requests-IsShort refl

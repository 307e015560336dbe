-- ===== src/Connection/Tests.antt =====
-- connection.c, server.c: a command that runs, and one that runs on a connection that is released.
use yastg.Connection.Exclusive.{ConnReached-alone}
use yastg.Connection.Ops.{
  new_conn, Conn, ConnReached, at_first, goes_to, hand_over, pick_up, release, released, running,
  start, taken, test, tested, then, unlist, wait,
}
use yastg.Prelude.{refl, true, ℕ, ◌≡◌}

abbrev in_run : Conn
in_run = record new_conn {
  stage = goes_to (goes_to (goes_to new_conn.stage 0 taken) 0 tested) 0 running;
  worker = true;
}

in_run-ConnReached : ConnReached in_run
in_run-ConnReached =
    then
      (then (then (then at_first (hand_over refl)) (pick_up 0 refl refl refl)) (test 0 refl refl))
      (start 0 refl)

ConnReached-alone_example :
    ((i j : ℕ) → in_run.stage i ≡ running → in_run.stage j ≡ running → i ≡ j)
    × ((i : ℕ) → in_run.stage i ≡ running → in_run.worker ≡ true)
ConnReached-alone_example = ConnReached-alone in_run in_run-ConnReached

-- The event loop has waited for `worker` before the worker sets it, and then gets the lock.
released_in_run : (s : Conn) × (ConnReached s × ((s.phase ≡ released) × (s.stage 0 ≡ running)))
released_in_run = (
  _,
  (
    then
        (then
          (then
            (then
              (then (then (then at_first (hand_over refl)) (pick_up 0 refl refl refl))
                (test 0 refl refl))
              (unlist refl))
            (wait refl refl))
          (start 0 refl))
        (release refl refl),
    (refl, refl),
  ),
)

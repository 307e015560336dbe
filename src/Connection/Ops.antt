-- ===== src/Connection/Ops.antt =====
-- connection.c, server.c: one connection, the workers that take it, and the event loop that hands it over
-- and takes it down. A step is what runs between two points where another thread can be seen.
use yastg.Prelude.{Bool, false, if◌then◌else◌, true, ℕ, ◌==◌, ◌||◌, ◌≡◌}

-- Where a worker is in `connection_worker`: waiting; with the connection and its `worker_lock`; past both
-- tests; running the command, without the lock.
pub data Stage : Type 0 where
  waiting taken tested running : Stage

-- Where the event loop is in `disconnect_peer`: before it; past the removal of the work items; past the
-- loop that waits for `worker`; past the lock, where the connection is released.
pub data Phase : Type 0 where
  connected unlisted waited released : Phase

-- `worker_lock`
pub data Lock : Type 0 where
  unlocked by_server : Lock
  by_worker : ℕ → Lock

-- `struct connection`, with the place of each thread; `work` is whether it is among the work items.
pub record Conn : Type 0 where
  pub stage : ℕ → Stage
  pub phase : Phase
  pub lock : Lock
  pub work : Bool
  pub worker : Bool
  pub terminate : Bool

abbrev pub goes_to : (ℕ → Stage) → ℕ → Stage → ℕ → Stage
goes_to stage i next q = if i == q then next else stage q

pub data Step : Conn → Conn → Type 0 where
  -- `connection_worker`: `workers_lock` is held from the wait to the lock of the connection.
  pick_up :
      {s : Conn} (i : ℕ)
      → s.stage i ≡ waiting
      → s.work ≡ true
      → s.lock ≡ unlocked
      → Step s (record s { stage = goes_to s.stage i taken; lock = by_worker i; work = false })
  skip :
      {s : Conn} (i : ℕ)
      → s.stage i ≡ taken
      → (s.terminate || s.worker) ≡ true
      → Step s (record s { stage = goes_to s.stage i waiting; lock = unlocked })
  test :
      {s : Conn} (i : ℕ)
      → s.stage i ≡ taken
      → (s.terminate || s.worker) ≡ false
      → Step s (record s { stage = goes_to s.stage i tested })
  start :
      {s : Conn} (i : ℕ)
      → s.stage i ≡ tested
      → Step s (record s { stage = goes_to s.stage i running; worker = true; lock = unlocked })
  finish :
      {s : Conn} (i : ℕ)
      → s.stage i ≡ running
      → s.lock ≡ unlocked
      → Step s (record s { stage = goes_to s.stage i waiting; worker = false })
  -- `conn_do_work`
  hand_over : {s : Conn} → s.phase ≡ connected → Step s (record s { work = true })
  -- `server_disconnect_nicely`
  ask : {s : Conn} → Step s (record s { terminate = true })
  -- `disconnect_peer`
  unlist : {s : Conn} → s.phase ≡ connected → Step s (record s { phase = unlisted; work = false })
  wait : {s : Conn} → s.phase ≡ unlisted → s.worker ≡ false → Step s (record s { phase = waited })
  release :
      {s : Conn}
      → s.phase ≡ waited
      → s.lock ≡ unlocked
      → Step s (record s { phase = released; lock = by_server })

-- `conn_init`
abbrev pub new_conn : Conn
new_conn = record {
  stage = λ i. waiting;
  phase = connected;
  lock = unlocked;
  work = false;
  worker = false;
  terminate = false;
}

pub data ConnReached : Conn → Type 0 where
  at_first : ConnReached new_conn
  then : {s t : Conn} → ConnReached s → Step s t → ConnReached t

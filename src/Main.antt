-- ===== src/Main.antt =====
-- The accept loop of code/main.c and the loop of the pool's thread in code/web_switch/thread_pool.c, which
-- meet in `fd_array`, and the workers that end their connections, in any order of turns.
-- A turn is what a thread does up to its next wait or test. What `accept` and `send_fd` answer, and the
-- server that the scheduler gives, come with the turn. A worker may end its connection as soon as it has
-- been taken for it, which is earlier than it can have received it.
pub mod Descriptors
pub mod Prefork
pub mod Delivery
mod Tests
use heimdall_web_switch.Prelude.{
  ℕ, ◌+◌, ltb, Bool, true, false, ◌&&◌, if◌then◌else◌, Option, none, some, List, [], ◌∷◌, ◌++◌,
  get_or,
}
use heimdall_web_switch.Throwable.{Throwable}
use heimdall_web_switch.Scheduler.{failed}
use heimdall_web_switch.Types.{Server, ThpSharedMem}
use heimdall_web_switch.ThreadPool.{
  Best, init_fd_array, add_fd_to_array, get_fd, select_worker, assign_worker,
}
use heimdall_web_switch.WorkerPool.{release_worker}
use heimdall_web_switch.WorkerPool.Sessions.{Switch, sessions_of, remove}

-- Where the main thread stands: before `accept`, or before it adds `new_sockfd`.
pub data MainAt : Type 0 where
  accepting : MainAt
  adding : (new_sockfd : ℕ) → MainAt

-- Where the pool's thread stands: before `get_fd`, the scan for a worker, or `send_fd`.
pub data PoolAt : Type 0 where
  fetching : PoolAt
  choosing : (fd : ℕ) → PoolAt
  sending : (fd worker_pid attempt : ℕ) → PoolAt

-- `accepted` and `sent` record what has happened, the last first.
pub record System : Type 0 where
  pub fd_array : List ℕ
  pub main_at : MainAt
  pub pool_at : PoolAt
  pub switch : Switch
  pub accepted : List ℕ
  pub sent : List (ℕ × ℕ)

pub data Turn : Type 0 where
  main_turn : (accepted_fd : ℕ) → Turn
  pool_turn : (server : Server) (sent : Throwable) → Turn
  worker_turn : (position : ℕ) → Turn

-- The loop of `main`: `accept_connection`, and `add_fd_to_array` until it succeeds.
pub main_step : MainAt → ℕ → System → System
main_step accepting fd s = record s { main_at = adding fd; accepted = fd ∷ s.accepted }
main_step (adding new_sockfd) fd s =
    let (after, throwable) = add_fd_to_array new_sockfd s.fd_array in
    record s {
      fd_array = after;
      main_at = if failed throwable then adding new_sockfd else accepting;
    }

-- The descriptor that `get_fd` stored, if any.
pub fetched : Option ℕ → PoolAt
fetched none = fetching
fetched (some fd) = choosing fd

-- What the scan for a worker found.
pub chosen : ℕ → Server → Option Best → System → System
chosen fd server none s = s
chosen fd server (some b) s =
    let (pool', pid) = assign_worker s.switch.pool b.position server in
    record s {
      pool_at = sending fd pid 0;
      switch = record { pool = pool'; serving = b.position ∷ s.switch.serving };
    }

-- The loop of `thread_pool_loop`, with `n_prefork` of the configuration.
pub pool_step : (n_prefork : ℕ) → PoolAt → Server → Throwable → System → System
unfolding fetched chosen
pool_step n_prefork fetching server result s =
    let (after, fd, throwable) = get_fd s.fd_array in
    record s { fd_array = after; pool_at = if failed throwable then fetching else fetched fd }
pool_step n_prefork (choosing fd) server result s =
    chosen fd server (select_worker n_prefork s.switch.pool) s
pool_step n_prefork (sending fd worker_pid attempt) server result s =
    if failed result
    then record s { pool_at = sending fd worker_pid (attempt + 1) }
    else record s { pool_at = fetching; sent = (fd, worker_pid) ∷ s.sent }

-- The end of the connection of the worker at a position.
pub worker_step : (n_prefork : ℕ) → ℕ → System → System
worker_step n_prefork p s =
    if ltb p n_prefork && ltb 0 (sessions_of p s.switch.serving)
    then record s {
      switch = record {
        pool = release_worker n_prefork (get_or s.switch.pool.worker_array p 0) s.switch.pool;
        serving = remove p s.switch.serving;
      };
    }
    else s

pub step : (n_prefork : ℕ) → Turn → System → System
unfolding main_step pool_step worker_step
step n_prefork (main_turn fd) s = main_step s.main_at fd s
step n_prefork (pool_turn server result) s = pool_step n_prefork s.pool_at server result s
step n_prefork (worker_turn p) s = worker_step n_prefork p s

abbrev pub run : (n_prefork : ℕ) → List Turn → System → System
run n_prefork [] s = s
run n_prefork (turn ∷ turns) s = run n_prefork turns (step n_prefork turn s)

-- The start: `max_fd` free entries, and the table of the workers.
abbrev pub start_system : (max_fd : ℕ) → ThpSharedMem → System
start_system max_fd pool = record {
  fd_array = init_fd_array max_fd;
  main_at = accepting;
  pool_at = fetching;
  switch = record { pool = pool; serving = [] };
  accepted = [];
  sent = [];
}

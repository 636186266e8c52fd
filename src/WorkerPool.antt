-- ===== src/WorkerPool.antt =====
-- The shared worker table outside the thread pool: the registration of the children in `do_prefork`
-- of code/main.c, and the two scans for the worker's own pid in code/web_switch/worker.c. The named
-- semaphore round each scan makes it one step of the model.
pub mod Registration
pub mod Sessions
mod Tests
use heimdall_web_switch.Prelude.{
  ℕ, zero, suc, ◌+◌, Bool, true, false, Option, none, some, List, [], ◌∷◌,
}
use heimdall_web_switch.Prelude.{◌==◌, if◌then◌else◌, get_elem?, set, replicate}
use heimdall_web_switch.Types.{Server, ThpSharedMem}

-- `do_prefork`: with no worker configured one is made all the same.
pub prefork_count : ℕ → ℕ
prefork_count n_prefork = if n_prefork == 0 then 1 else n_prefork

-- The loop that clears the fresh segment. Its servers are left as the memory holds them.
pub init_pool : ℕ → List Server → ThpSharedMem
init_pool n_prefork servers = record {
  worker_array = replicate n_prefork 0;
  worker_busy = replicate n_prefork 0;
  worker_counter = replicate n_prefork 0;
  worker_server = servers;
}

-- The parent's scan for the first free position, with its flag.
pub register_scan : ℕ → List ℕ → List ℕ × Bool
register_scan pid [] = ([], false)
register_scan pid (x ∷ xs) =
    let rest = register_scan pid xs in if x == 0 then (pid ∷ xs, true) else (x ∷ rest.0, rest.1)

-- The parent's side of the loop over the children, whose pids `fork` gave: `none` is the error
-- "Cannot add worker_pid to array".
pub register_all : List ℕ → List ℕ → Option (List ℕ)
register_all [] worker_array = some worker_array
register_all (pid ∷ pids) worker_array =
    let (after, flag) = register_scan pid worker_array in
    let rest = register_all pids after in if flag then rest else none

-- The first of `n` positions that holds `pid`.
pub find_worker : ℕ → ℕ → ℕ → List ℕ → Option ℕ
find_worker pid zero i worker_array = none
find_worker pid (suc n) i [] = none
find_worker pid (suc n) i (x ∷ xs) =
    let rest = find_worker pid n (i + 1) xs in if x == pid then some i else rest

-- `request_work`: the server that was scheduled for the worker that asks.
pub remote_of : ℕ → ℕ → ThpSharedMem → Option Server
unfolding find_worker
remote_of number_of_worker pid pool = elim (find_worker pid number_of_worker 0 pool.worker_array) [
  | none ↦ none
  | some i ↦ get_elem? pool.worker_server i
]

-- `start_worker`, when the connection is over: the worker's entry is free again.
pub release_worker : ℕ → ℕ → ThpSharedMem → ThpSharedMem
unfolding find_worker
release_worker number_of_worker pid pool =
    elim (find_worker pid number_of_worker 0 pool.worker_array) [
      | none ↦ pool
      | some i ↦ record pool { worker_busy = set pool.worker_busy i 0 }
    ]

-- ===== src/ThreadPool.antt =====
-- code/web_switch/thread_pool.c: the array of accepted descriptors and the choice of a worker.
-- `fd_array` is the list of its `max_fd` entries, 0 for a free one. The mutex round each operation
-- makes it one step of the model. `worker_pool` is the shared segment of code/include/types.h.
pub mod FdArray
pub mod Selection
mod Tests
use heimdall_web_switch.Prelude.{
  ℕ, zero, suc, ◌+◌, Bool, true, false, Option, none, some, List, [], ◌∷◌,
}
use heimdall_web_switch.Prelude.{◌==◌, leb, if◌then◌else◌, get_or, set, replicate, count_up}
use heimdall_web_switch.Throwable.{Throwable, text, null_message, ok_from, error_from}
use heimdall_web_switch.Types.{Server, ThpSharedMem}

-- `init_pool`: `max_fd` entries, all free.
pub init_fd_array : ℕ → List ℕ
init_fd_array max_fd = replicate max_fd 0

-- The scan of `add_fd_to_array`, with its flag.
add_scan : ℕ → List ℕ → List ℕ × Bool
add_scan fd [] = ([], false)
add_scan fd (x ∷ xs) =
    let rest = add_scan fd xs in if x == 0 then (fd ∷ xs, true) else (x ∷ rest.0, rest.1)

pub add_fd_to_array : ℕ → List ℕ → List ℕ × Throwable
unfolding add_scan
add_fd_to_array fd fd_array =
    let (after, flag) = add_scan fd fd_array in
    (
      after,
      if flag
          then ok_from "add_fd_to_array()"
          else error_from (text "Cannot add fd to array") "add_fd_to_array",
    )

-- The scan of `get_fd`: the descriptor that it stores through `fd_ptr`, if any.
get_scan : List ℕ → List ℕ × Option ℕ
get_scan [] = ([], none)
get_scan (x ∷ xs) =
    let rest = get_scan xs in if x == 0 then (x ∷ rest.0, rest.1) else (0 ∷ xs, some x)

get_status : Option ℕ → Throwable
get_status none = error_from (text "Cannot get fd") "get_fd"
get_status (some _) = ok_from "get_fd()"

pub get_fd : List ℕ → List ℕ × Option ℕ × Throwable
unfolding get_scan get_status
get_fd fd_array = let (after, fd) = get_scan fd_array in (after, fd, get_status fd)

-- The variables `min` and `position` of the scan for a worker: `none` while both are -1.
pub record Best : Type 0 where
  pub least : ℕ
  pub position : ℕ

-- The body of that scan at index `i`.
unfoldable pub consider : List ℕ → List ℕ → ℕ → Option Best → Option Best
consider busy counter i best =
    if get_or busy i 1 == 0
    then elim best [
      | none ↦ some (record { least = get_or counter i 0; position = i })
      | some b ↦
          if leb (get_or counter i 0) b.least
          then some (record { least = get_or counter i 0; position = i })
          else some b
    ]
    else best

unfoldable pub select_worker : ℕ → ThpSharedMem → Option Best
unfolding consider
select_worker n_prefork pool =
    count_up (consider pool.worker_busy pool.worker_counter) none n_prefork

-- The branch that takes the worker at `position` for the server that the scheduler gave.
unfoldable pub assign_worker : ThpSharedMem → ℕ → Server → ThpSharedMem × ℕ
assign_worker pool position server =
    let pid = get_or pool.worker_array position 0 in
    (
      record pool {
        worker_busy = set pool.worker_busy position 1;
        worker_counter =
            set pool.worker_counter position (get_or pool.worker_counter position 0 + 1);
        worker_server = set pool.worker_server position server;
      },
      pid,
    )

-- ===== src/ThreadPool/Tests.antt =====
-- The theorems on the thread pool at an array of two descriptors and a table of three workers.
use heimdall_web_switch.Prelude.{◌≡◌, refl, some, [], ◌∷◌}
use heimdall_web_switch.Types.{ThpSharedMem}
use heimdall_web_switch.ThreadPool.{add_fd_to_array, get_fd, select_worker}
use heimdall_web_switch.ThreadPool.Selection.{Chosen, select_worker-Chosen}

-- A new descriptor is served before those that wait behind a free first entry.
overtakes : (get_fd (add_fd_to_array 7 (0 ∷ 9 ∷ [])).0).1 ≡ some 7
unfolding get_fd add_fd_to_array
overtakes = refl

abbrev pool : ThpSharedMem
pool = record {
  worker_array = 11 ∷ 12 ∷ 13 ∷ [];
  worker_busy = 0 ∷ 1 ∷ 0 ∷ [];
  worker_counter = 4 ∷ 1 ∷ 4 ∷ [];
  worker_server = [];
}

select_worker-Chosen_example : Chosen pool.worker_busy pool.worker_counter 3 (select_worker 3 pool)
select_worker-Chosen_example = select_worker-Chosen 3 pool

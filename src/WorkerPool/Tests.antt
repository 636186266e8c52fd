-- ===== src/WorkerPool/Tests.antt =====
-- The worker table at a table of two workers.
use heimdall_web_switch.Prelude.{◌≡◌, refl, some, [], ◌∷◌, count_up}
use heimdall_web_switch.Types.{ThpSharedMem}
use heimdall_web_switch.Circular.{no_server}
use heimdall_web_switch.ThreadPool.{Best, select_worker, consider, assign_worker}
use heimdall_web_switch.WorkerPool.{remote_of, release_worker}

abbrev pool : ThpSharedMem
pool = record {
  worker_array = 11 ∷ 12 ∷ [];
  worker_busy = 0 ∷ 0 ∷ [];
  worker_counter = 0 ∷ 0 ∷ [];
  worker_server = no_server ∷ no_server ∷ [];
}

abbrev chosen : Best
chosen = record { least = 0; position = 1 }

last_is_chosen : select_worker 2 pool ≡ some chosen
unfolding select_worker consider count_up
last_is_chosen = refl

finds_its_server : remote_of 2 12 (assign_worker pool 1 no_server).0 ≡ some no_server
unfolding remote_of assign_worker
finds_its_server = refl

is_free_again :
    (release_worker 2 12 (assign_worker pool 1 no_server).0).worker_busy ≡ pool.worker_busy
unfolding release_worker assign_worker
is_free_again = refl

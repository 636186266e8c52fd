-- ===== src/Main/Tests.antt =====
-- The loops with one worker, and with none that is scanned.
use heimdall_web_switch.Prelude.{
  ℕ, ◌≡◌, refl, ◌≤◌, false, some, List, [], ◌∷◌, ◌+◌, arith, ◌==◌, count_if, count_up, length,
  get_or,
}
use heimdall_web_switch.Throwable.{Throwable, ok_from}
use heimdall_web_switch.Scheduler.{failed}
use heimdall_web_switch.Types.{ThpSharedMem}
use heimdall_web_switch.Circular.{no_server}
use heimdall_web_switch.ThreadPool.{Best, select_worker, consider, assign_worker}
use heimdall_web_switch.WorkerPool.{remote_of}
use heimdall_web_switch.WorkerPool.Sessions.{Switch, IsConsistent}
use heimdall_web_switch.Main.{Turn, run, start_system}
use heimdall_web_switch.Main.Descriptors.{placed, run-start}
use heimdall_web_switch.Main.Prefork.{run-unsent}
use heimdall_web_switch.Main.Delivery.{idle, delivery, taken, run-delivery}

-- One worker, whose pid is 77.
abbrev pool : ThpSharedMem
pool = record {
  worker_array = 77 ∷ [];
  worker_busy = 0 ∷ [];
  worker_counter = 0 ∷ [];
  worker_server = no_server ∷ [];
}

abbrev one_worker : Switch
one_worker = record { pool = pool; serving = [] }

flag_of : (p : ℕ) → p ≡ 0 → 0 ≡ get_or pool.worker_busy p 1
flag_of p e = ground arith

one_worker-IsConsistent : IsConsistent 1 one_worker
one_worker-IsConsistent = record {
  table = record {
    pids = refl;
    flags = refl;
    uses = refl;
    servers = refl;
    distinct = λ i j hi hj e. omega arith;
  };
  flagged = λ p h. flag_of p (omega arith);
  exclusive = λ p h. omega arith;
}

abbrev sent_fine : Throwable
sent_fine = ok_from "send_fd"

abbrev turns : List Turn
turns = delivery 5 6 no_server sent_fine

run-start_example :
    let s = run 1 turns (start_system 2 pool) in
    ((v : ℕ) → count_if (λ x. x == v) s.accepted ≡ placed v s)
    × (length s.fd_array ≡ 2)
    × IsConsistent 1 s.switch
run-start_example =
    run-start 1 2 pool turns one_worker-IsConsistent
      (omega arith, (omega arith, (tt, (tt, (tt, tt)))))

run-unsent_example :
    let s = run 0 turns (start_system 2 pool) in (s.sent ≡ []) × (length s.accepted ≤ 2 + 2)
run-unsent_example = run-unsent 2 pool turns (omega arith, (omega arith, (tt, (tt, (tt, tt)))))

abbrev chosen : Best
chosen = record { least = 0; position = 0 }

only_choice : select_worker 1 pool ≡ some chosen
unfolding select_worker consider count_up
only_choice = refl

was_sent : failed sent_fine ≡ false
unfolding ok_from
was_sent = refl

run-delivery_example :
    let pid = (assign_worker pool 0 no_server).1 in
    (run 1 (delivery 5 6 no_server sent_fine) (idle (9 ∷ []) one_worker [] [])
      ≡ idle (9 ∷ []) (taken one_worker chosen no_server) (5 ∷ []) ((5, pid) ∷ []))
    × (pid ≡ get_or pool.worker_array 0 0)
    × (remote_of 1 pid (assign_worker pool 0 no_server).0 ≡ some no_server)
run-delivery_example =
    run-delivery 1 5 6 (9 ∷ []) one_worker [] [] chosen no_server sent_fine (omega arith)
      only_choice one_worker-IsConsistent was_sent

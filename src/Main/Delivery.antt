-- ===== src/Main/Delivery.antt =====
-- One connection on its way from `accept` to the worker that serves it.
use heimdall_web_switch.Prelude.{ℕ, ◌≡◌, refl, ◌≢◌, false, some, List, [], ◌∷◌, get_or}
use heimdall_web_switch.Throwable.{Throwable, ok_from}
use heimdall_web_switch.Scheduler.{failed}
use heimdall_web_switch.Types.{Server}
use heimdall_web_switch.ThreadPool.{Best, select_worker, assign_worker}
use heimdall_web_switch.ThreadPool.FdArray.{add_fd_to_array-first, get_fd-first}
use heimdall_web_switch.ThreadPool.Selection.{select_worker-IsChoice}
use heimdall_web_switch.WorkerPool.{remote_of}
use heimdall_web_switch.WorkerPool.Sessions.{Switch, IsConsistent, remote_of-assign_worker}
use heimdall_web_switch.Main.{
  accepting, fetching, System, Turn, main_turn, pool_turn, chosen, main_step, pool_step, step, run,
}

-- Both loops at their beginnings, and the first entry of the array free.
abbrev pub idle : (rest : List ℕ) → Switch → (accepted : List ℕ) → (sent : List (ℕ × ℕ)) → System
idle rest switch accepted sent = record {
  fd_array = 0 ∷ rest;
  main_at = accepting;
  pool_at = fetching;
  switch = switch;
  accepted = accepted;
  sent = sent;
}

-- Two turns of the main thread and three of the pool's.
abbrev pub delivery : (fd other : ℕ) → Server → Throwable → List Turn
delivery fd other server result =
    main_turn fd
    ∷ main_turn other
    ∷ pool_turn server result
    ∷ pool_turn server result
    ∷ pool_turn server result
    ∷ []

-- The switch once a worker has been taken for a server.
abbrev pub taken : Switch → Best → Server → Switch
taken switch b server = record {
  pool = (assign_worker switch.pool b.position server).0;
  serving = b.position ∷ switch.serving;
}

module _ (n fd other : ℕ) (rest : List ℕ) (switch : Switch) (accepted : List ℕ)
    (sent : List (ℕ × ℕ)) (b : Best) (server : Server) (result : Throwable) (nonzero : fd ≢ 0)
    (found : select_worker n switch.pool ≡ some b) (consistent : IsConsistent n switch)
    (fine : failed result ≡ false) where
  run-idle :
      run n (delivery fd other server result) (idle rest switch accepted sent)
      ≡ idle rest
          (taken switch b server)
          (fd ∷ accepted)
          ((fd, (assign_worker switch.pool b.position server).1) ∷ sent)
  unfolding step main_step pool_step ok_from
  run-idle =
      rw (add_fd_to_array-first fd rest)
        (rw (get_fd-first fd rest nonzero) (rw (found, fine, pool_step, chosen) refl))

  -- When both loops are at their beginnings, the first entry of the array is free, the scan finds a worker
  -- in a consistent table, and `send_fd` succeeds: two turns of the main thread and three of the pool's
  -- thread send an accepted descriptor (not 0) to the worker found, whose own entry then holds the server
  -- that the scheduler gave; both loops are at their beginnings again, and the array is as it was, whatever
  -- waits behind its first entry.
  pub run-delivery :
      let pid = (assign_worker switch.pool b.position server).1 in
      (run n (delivery fd other server result) (idle rest switch accepted sent)
        ≡ idle rest (taken switch b server) (fd ∷ accepted) ((fd, pid) ∷ sent))
      × (pid ≡ get_or switch.pool.worker_array b.position 0)
      × (remote_of n pid (assign_worker switch.pool b.position server).0 ≡ some server)
  run-delivery =
      let choice = select_worker-IsChoice n switch.pool b found in
      let (own, serves) = remote_of-assign_worker consistent.table choice.in_range server in
      (run-idle, own, serves)

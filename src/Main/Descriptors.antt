-- ===== src/Main/Descriptors.antt =====
-- No descriptor is lost between `accept` and `send_fd`, and the table stays consistent.
use heimdall_web_switch.Prelude.{
  ℕ, ◌+◌, ◌≡◌, refl, ◌≢◌, inl, inr, ◌∙◌, ap, subst, true, false, ◌==◌, ltb, ◌&&◌, if◌then◌else◌,
  List, [], ◌∷◌, length, count_if, arith, if-split, Option-cases,
}
use heimdall_web_switch.Throwable.{Throwable, ok_from, error_from}
use heimdall_web_switch.Scheduler.{failed}
use heimdall_web_switch.Types.{Server, ThpSharedMem}
use heimdall_web_switch.ThreadPool.{select_worker, add_fd_to_array, get_fd}
use heimdall_web_switch.ThreadPool.FdArray.{
  init_fd_array-length, init_fd_array-waiting, occurrences, add_fd_to_array_lem, get_fd_lem,
}
use heimdall_web_switch.WorkerPool.Sessions.{
  IsConsistent, sessions_of, take_worker-IsConsistent, end_session-IsConsistent,
}
use heimdall_web_switch.Main.{
  MainAt, accepting, adding, PoolAt, fetching, choosing, sending, System, Turn, main_turn,
  pool_turn, worker_turn, fetched, chosen, main_step, pool_step, worker_step, step, run,
  start_system,
}

abbrev pub once : ℕ → ℕ → ℕ
once v fd = if fd == v then 1 else 0

-- How often a thread holds `v`.
abbrev pub main_holds : ℕ → MainAt → ℕ
main_holds v accepting = 0
main_holds v (adding fd) = once v fd

abbrev pub pool_holds : ℕ → PoolAt → ℕ
pool_holds v fetching = 0
pool_holds v (choosing fd) = once v fd
pool_holds v (sending fd pid attempt) = once v fd

-- Where the occurrences of `v` are.
abbrev pub placed : ℕ → System → ℕ
placed v s =
    main_holds v s.main_at
    + occurrences v s.fd_array
    + pool_holds v s.pool_at
    + count_if (λ x. x.0 == v) s.sent

abbrev pub HoldsDescriptor : MainAt → Type 0
HoldsDescriptor accepting = Unit {0}
HoldsDescriptor (adding fd) = fd ≢ 0

pub record IsKept (n max_fd : ℕ) (s : System) : Type 0 where
  pub size : length s.fd_array ≡ max_fd
  pub held : HoldsDescriptor s.main_at
  pub kept : (v : ℕ) → count_if (λ x. x == v) s.accepted ≡ placed v s
  pub consistent : IsConsistent n s.switch

-- `accept` gives no descriptor 0, which is open from the start.
abbrev pub IsFresh : Turn → Type 0
IsFresh (main_turn fd) = fd ≢ 0
IsFresh _ = Unit {0}

abbrev pub AllFresh : List Turn → Type 0
AllFresh [] = Unit {0}
AllFresh (turn ∷ turns) = IsFresh turn × AllFresh turns

module _ {n max_fd : ℕ} where
  main_step-IsKept :
      (at : MainAt) (fd : ℕ) (s : System)
      → s.main_at ≡ at
      → fd ≢ 0
      → IsKept n max_fd s
      → IsKept n max_fd (main_step at fd s)
  unfolding main_step ok_from error_from
  main_step-IsKept accepting fd s e ne k = record {
    size = k.size;
    held = ne;
    kept = λ v. ground (arith, k.kept v, ap (main_holds v) e);
    consistent = k.consistent;
  }
  main_step-IsKept (adding new_sockfd) fd s e ne k =
      let ne' : new_sockfd ≢ 0 = subst HoldsDescriptor e k.held in
      let (len, cases) = add_fd_to_array_lem new_sockfd s.fd_array ne' in
      elim cases [
        | inl (room, done, occ) ↦
            let fine : failed (add_fd_to_array new_sockfd s.fd_array).1 ≡ false = rw done in
            rw fine (record {
              size = len ∙ k.size;
              held = tt;
              kept = λ v. ground (arith, k.kept v, occ v, ap (main_holds v) e);
              consistent = k.consistent;
            })
        | inr (full, refused, same) ↦
            let bad : failed (add_fd_to_array new_sockfd s.fd_array).1 ≡ true = rw refused in
            rw bad (record {
              size = len ∙ k.size;
              held = ne';
              kept = λ v. ground (arith, k.kept v, ap (occurrences v) same, ap (main_holds v) e);
              consistent = k.consistent;
            })
      ]

  pool_step-IsKept :
      (at : PoolAt) (server : Server) (result : Throwable) (s : System)
      → s.pool_at ≡ at
      → IsKept n max_fd s
      → IsKept n max_fd (pool_step n at server result s)
  unfolding pool_step ok_from error_from fetched chosen
  pool_step-IsKept fetching server result s e k =
      let (len, cases) = get_fd_lem s.fd_array in
      elim cases [
        | inl (empty, got, same, refused) ↦
            let bad : failed (get_fd s.fd_array).2 ≡ true = rw refused in
            rw bad (record {
              size = len ∙ k.size;
              held = k.held;
              kept = λ v. ground (arith, k.kept v, ap (occurrences v) same, ap (pool_holds v) e);
              consistent = k.consistent;
            })
        | inr (fd, got, ne, first, done) ↦
            let fine : failed (get_fd s.fd_array).2 ≡ false = rw done in
            rw (fine, got)
              (record {
                size = len ∙ k.size;
                held = k.held;
                kept = λ v.
                    ground (
                      arith,
                      k.kept v,
                      ap (count_if (λ (x : ℕ). x == v)) first,
                      ap (pool_holds v) e,
                    );
                consistent = k.consistent;
              })
      ]
  pool_step-IsKept (choosing fd) server result s e k =
      elim (Option-cases (select_worker n s.switch.pool)) [
        | inl busy ↦ rw (busy, chosen) k
        | inr (b, found) ↦
            rw (found, chosen)
              (record {
                size = k.size;
                held = k.held;
                kept = λ v. ground (arith, k.kept v, ap (pool_holds v) e);
                consistent = take_worker-IsConsistent s.switch b server found k.consistent;
              })
      ]
  pool_step-IsKept (sending fd pid attempt) server result s e k =
      if-split (IsKept n max_fd) (failed result)
        (λ _. record {
          size = k.size;
          held = k.held;
          kept = λ v. ground (arith, k.kept v, ap (pool_holds v) e);
          consistent = k.consistent;
        })
        (λ _. record {
          size = k.size;
          held = k.held;
          kept = λ v. ground (arith, k.kept v, ap (pool_holds v) e);
          consistent = k.consistent;
        })

  worker_step-IsKept :
      (p : ℕ) (s : System) → IsKept n max_fd s → IsKept n max_fd (worker_step n p s)
  unfolding worker_step
  worker_step-IsKept p s k =
      if-split (IsKept n max_fd) (ltb p n && ltb 0 (sessions_of p s.switch.serving))
        (λ h. record {
          size = k.size;
          held = k.held;
          kept = k.kept;
          consistent =
              end_session-IsConsistent s.switch p (ground arith) (ground arith) k.consistent;
        })
        (λ _. k)

  step-IsKept :
      (turn : Turn) (s : System)
      → IsFresh turn
      → IsKept n max_fd s
      → IsKept n max_fd (step n turn s)
  unfolding step
  step-IsKept (main_turn fd) s fresh k = main_step-IsKept s.main_at fd s refl fresh k
  step-IsKept (pool_turn server result) s fresh k =
      pool_step-IsKept s.pool_at server result s refl k
  step-IsKept (worker_turn p) s fresh k = worker_step-IsKept p s k

  run-IsKept :
      (turns : List Turn) (s : System)
      → AllFresh turns
      → IsKept n max_fd s
      → IsKept n max_fd (run n turns s)
  run-IsKept [] s fresh k = k
  run-IsKept (turn ∷ turns) s fresh k =
      run-IsKept turns (step n turn s) fresh.1 (step-IsKept turn s fresh.0 k)

start-IsKept :
    (n max_fd : ℕ) (pool : ThpSharedMem)
    → IsConsistent n (record { pool = pool; serving = [] })
    → IsKept n max_fd (start_system max_fd pool)
start-IsKept n max_fd pool c = record {
  size = init_fd_array-length max_fd;
  held = tt;
  kept = λ v. ground (arith, ap (count_if (λ (x : ℕ). x == v)) (init_fd_array-waiting max_fd));
  consistent = c;
}

-- From a start with a consistent table and `max_fd` free entries, in whatever order the threads and the
-- workers take their turns and whatever `accept` (never 0), the scheduler and `send_fd` answer: every
-- descriptor has been accepted as often as it is in the hands of the main thread, waits in the array, is
-- in the hands of the pool's thread, or has been sent to a worker, taken together, so that none is lost
-- and none is sent twice; the array keeps its size; and each worker holds at most one connection, its
-- flag being 1 exactly while it holds one.
pub run-start :
    (n max_fd : ℕ) (pool : ThpSharedMem) (turns : List Turn)
    → IsConsistent n (record { pool = pool; serving = [] })
    → AllFresh turns
    → let s = run n turns (start_system max_fd pool) in
      ((v : ℕ) → count_if (λ x. x == v) s.accepted ≡ placed v s)
      × (length s.fd_array ≡ max_fd)
      × IsConsistent n s.switch
run-start n max_fd pool turns c fresh =
    let k = run-IsKept turns (start_system max_fd pool) fresh (start-IsKept n max_fd pool c) in
    (k.kept, k.size, k.consistent)

-- ===== src/Main/Prefork.antt =====
-- What `pre_fork` of 0 leads to: `do_prefork` of code/main.c makes one worker all the same, but the pool's
-- thread scans as many entries of the table as `pre_fork` says.
use heimdall_web_switch.Prelude.{
  ℕ, ◌+◌, ◌≤◌, ◌≡◌, refl, ◌≢◌, inl, inr, ◌∙◌, ap, sym, subst, true, false, ltb, ◌&&◌, none, List,
  [], ◌∷◌, length, count_up, arith, if-split,
}
use heimdall_web_switch.Throwable.{Throwable, ok_from, error_from}
use heimdall_web_switch.Scheduler.{failed}
use heimdall_web_switch.Types.{Server, ThpSharedMem}
use heimdall_web_switch.ThreadPool.{select_worker, add_fd_to_array, get_fd}
use heimdall_web_switch.ThreadPool.FdArray.{
  init_fd_array-length, init_fd_array-waiting, waiting, waiting-le, add_fd_to_array-waiting,
  add_fd_to_array_lem, get_fd_lem,
}
use heimdall_web_switch.WorkerPool.Sessions.{sessions_of}
use heimdall_web_switch.Main.{
  MainAt, accepting, adding, PoolAt, fetching, choosing, sending, System, Turn, main_turn,
  pool_turn, worker_turn, fetched, chosen, main_step, pool_step, worker_step, step, run,
  start_system,
}
use heimdall_web_switch.Main.Descriptors.{HoldsDescriptor, IsFresh, AllFresh}

abbrev main_holding : MainAt → ℕ
main_holding accepting = 0
main_holding (adding fd) = 1

abbrev pool_holding : PoolAt → ℕ
pool_holding fetching = 0
pool_holding _ = 1

abbrev IsSending : PoolAt → Type 0
IsSending (sending fd pid attempt) = Unit {0}
IsSending _ = ⊥

record IsHeld (max_fd : ℕ) (s : System) : Type 0 where
  size : length s.fd_array ≡ max_fd
  held : HoldsDescriptor s.main_at
  unsent : s.sent ≡ []
  waits : ¬ IsSending s.pool_at
  counted :
      length s.accepted
      ≡ main_holding s.main_at + length (waiting s.fd_array) + pool_holding s.pool_at

-- The scan of no entries finds no worker.
select_worker-zero : (pool : ThpSharedMem) → select_worker 0 pool ≡ none
unfolding select_worker count_up
select_worker-zero pool = refl

module _ {max_fd : ℕ} where
  main_step-IsHeld :
      (at : MainAt) (fd : ℕ) (s : System)
      → s.main_at ≡ at
      → fd ≢ 0
      → IsHeld max_fd s
      → IsHeld max_fd (main_step at fd s)
  unfolding main_step ok_from error_from
  main_step-IsHeld accepting fd s e ne k = record {
    size = k.size;
    held = ne;
    unsent = k.unsent;
    waits = k.waits;
    counted = omega (arith, k.counted, ap main_holding e);
  }
  main_step-IsHeld (adding new_sockfd) fd s e ne k =
      let ne' : new_sockfd ≢ 0 = subst HoldsDescriptor e k.held in
      let (len, cases) = add_fd_to_array_lem new_sockfd s.fd_array ne' in
      elim cases [
        | inl (room, done, occ) ↦
            let fine : failed (add_fd_to_array new_sockfd s.fd_array).1 ≡ false = rw done in
            rw fine (record {
              size = len ∙ k.size;
              held = tt;
              unsent = k.unsent;
              waits = k.waits;
              counted = omega (
                arith,
                k.counted,
                ap main_holding e,
                add_fd_to_array-waiting new_sockfd s.fd_array ne' room,
              );
            })
        | inr (full, refused, same) ↦
            let bad : failed (add_fd_to_array new_sockfd s.fd_array).1 ≡ true = rw refused in
            rw bad (record {
              size = len ∙ k.size;
              held = ne';
              unsent = k.unsent;
              waits = k.waits;
              counted = omega (
                arith,
                k.counted,
                ap main_holding e,
                ap (λ (xs : List ℕ). length (waiting xs)) same,
              );
            })
      ]

  pool_step-IsHeld :
      (at : PoolAt) (server : Server) (result : Throwable) (s : System)
      → s.pool_at ≡ at
      → IsHeld max_fd s
      → IsHeld max_fd (pool_step 0 at server result s)
  unfolding pool_step ok_from error_from fetched chosen
  pool_step-IsHeld fetching server result s e k =
      let (len, cases) = get_fd_lem s.fd_array in
      elim cases [
        | inl (empty, got, same, refused) ↦
            let bad : failed (get_fd s.fd_array).2 ≡ true = rw refused in
            rw bad (record {
              size = len ∙ k.size;
              held = k.held;
              unsent = k.unsent;
              waits = λ h. h;
              counted = omega (
                arith,
                k.counted,
                ap pool_holding e,
                ap (λ (xs : List ℕ). length (waiting xs)) same,
              );
            })
        | inr (fd, got, ne, first, done) ↦
            let fine : failed (get_fd s.fd_array).2 ≡ false = rw done in
            rw (fine, got)
              (record {
                size = len ∙ k.size;
                held = k.held;
                unsent = k.unsent;
                waits = λ h. h;
                counted = omega (arith, k.counted, ap pool_holding e, ap (length {A = ℕ}) first);
              })
      ]
  pool_step-IsHeld (choosing fd) server result s e k =
      rw (select_worker-zero s.switch.pool, chosen) k
  pool_step-IsHeld (sending fd pid attempt) server result s e k =
      absurd (k.waits (subst IsSending (sym e) tt))

  worker_step-IsHeld : (p : ℕ) (s : System) → IsHeld max_fd s → IsHeld max_fd (worker_step 0 p s)
  unfolding worker_step
  worker_step-IsHeld p s k =
      if-split (IsHeld max_fd) (ltb p 0 && ltb 0 (sessions_of p s.switch.serving))
        (λ h. absurd (ground arith)) (λ _. k)

  step-IsHeld :
      (turn : Turn) (s : System) → IsFresh turn → IsHeld max_fd s → IsHeld max_fd (step 0 turn s)
  unfolding step
  step-IsHeld (main_turn fd) s fresh k = main_step-IsHeld s.main_at fd s refl fresh k
  step-IsHeld (pool_turn server result) s fresh k =
      pool_step-IsHeld s.pool_at server result s refl k
  step-IsHeld (worker_turn p) s fresh k = worker_step-IsHeld p s k

  run-IsHeld :
      (turns : List Turn) (s : System)
      → AllFresh turns
      → IsHeld max_fd s
      → IsHeld max_fd (run 0 turns s)
  run-IsHeld [] s fresh k = k
  run-IsHeld (turn ∷ turns) s fresh k =
      run-IsHeld turns (step 0 turn s) fresh.1 (step-IsHeld turn s fresh.0 k)

start-IsHeld : (max_fd : ℕ) (pool : ThpSharedMem) → IsHeld max_fd (start_system max_fd pool)
start-IsHeld max_fd pool = record {
  size = init_fd_array-length max_fd;
  held = tt;
  unsent = refl;
  waits = λ h. h;
  counted = omega (arith, ap (length {A = ℕ}) (init_fd_array-waiting max_fd));
}

main_holding-le : (at : MainAt) → main_holding at ≤ 1
main_holding-le accepting = omega arith
main_holding-le (adding fd) = omega arith

pool_holding-le : (at : PoolAt) → pool_holding at ≤ 1
pool_holding-le fetching = omega arith
pool_holding-le (choosing fd) = omega arith
pool_holding-le (sending fd pid attempt) = omega arith

-- With `pre_fork` of 0, whatever table the workers have been entered in and whatever turns are taken: no
-- descriptor is ever sent to a worker, and no more than `max_fd` and 2 connections are accepted.
pub run-unsent :
    (max_fd : ℕ) (pool : ThpSharedMem) (turns : List Turn)
    → AllFresh turns
    → let s = run 0 turns (start_system max_fd pool) in
      (s.sent ≡ []) × (length s.accepted ≤ max_fd + 2)
run-unsent max_fd pool turns fresh =
    let s = run 0 turns (start_system max_fd pool) in
    let k = run-IsHeld turns (start_system max_fd pool) fresh (start-IsHeld max_fd pool) in
    (
      k.unsent,
      omega (
        arith,
        k.counted,
        k.size,
        waiting-le s.fd_array,
        main_holding-le s.main_at,
        pool_holding-le s.pool_at,
      ),
    )

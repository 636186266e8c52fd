-- ===== src/Worker/Service/Rounds.antt =====
-- What a round of `start_worker` leaves behind (code/web_switch/worker.c).
use heimdall_web_switch.Prelude.{
  ℕ, suc, ◌+◌, ◌*◌, ◌≤◌, ◌≡◌, refl, inl, inr, ap, Bool, true, false, if◌then◌else◌, some, List, [],
  ◌∷◌, ◌++◌, length, arith, Bool-cases,
}
use heimdall_web_switch.Throwable.{ok_from, error_from}
use heimdall_web_switch.Scheduler.{failed}
use heimdall_web_switch.WorkerPool.{release_worker}
use heimdall_web_switch.Connection.Sockets.{close_connection}
use heimdall_web_switch.UnixSocket.{Opened, close_fd}
use heimdall_web_switch.MessageController.{receive_fd}
use heimdall_web_switch.MessageController.Passing.{receive_fd-Received}
use heimdall_web_switch.Worker.Service.{
  Process, RoundCalls, EndMessage, end_message, RoundEnd, restarted, exit_success, exit_failure,
  prepared, stored_fd, end_connection, serve_round, serve,
}

module _ (size n pid : ℕ) where
  -- What is left open of the connection: nothing, if `close` succeeded.
  abbrev unclosed : Bool → ℕ → List ℕ
  unclosed true fd = []
  unclosed false fd = fd ∷ []

  -- The two sockets of `receive_fd`, and the connection if `close` failed, are open beside what was open.
  abbrev pub LeftOpen : Process → RoundCalls → Process → Type 0
  LeftOpen p c p' =
      (fd : ℕ) × (sfd : ℕ) × (value_lfd : ℕ) × (p'.opened
        ≡ unclosed c.close fd ++ (sfd ∷ value_lfd ∷ p.opened))

  -- How a round that began with `p` has ended.
  abbrev pub Served : Process → RoundCalls → Process → RoundEnd → Type 0
  Served p c p' (restarted message) =
      LeftOpen p c p'
      × (p'.max_thr_request ≡ 0)
      × (p'.pool ≡ release_worker n pid p.pool)
      × (message
          ≡ end_message c.watchdog_status c.writer_thread_status c.reader_thread_status
              c.request_thread_status)
  Served p c p' exit_success = failed (receive_fd size c.receive p.opened).throwable ≡ true
  Served p c p' exit_failure = failed (receive_fd size c.receive p.opened).throwable ≡ false

  close-unclosed :
      (close : Bool) (fd : ℕ) (opened : List ℕ)
      → (if failed (close_connection close) then fd ∷ opened else close_fd fd (fd ∷ opened))
        ≡ unclosed close fd ++ opened
  unfolding close_connection close_fd ok_from error_from
  close-unclosed true fd opened = ground arith
  close-unclosed false fd opened = refl

  -- The part of a round that follows the receipt of `fd`.
  end_connection-Served :
      (p : Process) (c : RoundCalls) (o : Opened) (fd sfd value_lfd : ℕ)
      → o.value ≡ some fd
      → o.opened ≡ fd ∷ sfd ∷ value_lfd ∷ p.opened
      → failed (receive_fd size c.receive p.opened).throwable ≡ false
      → let (p', end) =
          end_connection size n pid (stored_fd o.value) c (record p { opened = o.opened }) in
        Served p c p' end
  unfolding end_connection stored_fd
  end_connection-Served p c o fd sfd value_lfd value more fine = elim (Bool-cases c.sem_wait) [
    | inr stuck ↦ rw stuck fine
    | inl waited ↦ elim (Bool-cases c.sem_post) [
      | inr stuck ↦ rw (waited, stuck) fine
      | inl posted ↦
          rw (waited, posted)
            ((
              (
                fd,
                sfd,
                value_lfd,
                rw (value, more) (close-unclosed c.close fd (sfd ∷ value_lfd ∷ p.opened)),
              ),
              refl,
              refl,
              refl,
            ))
    ]
  ]

  -- Every round ends in one of these ways.
  pub serve_round-Served :
      (c : RoundCalls) (p : Process)
      → let (p', end) = serve_round size n pid c p in Served p c p' end
  unfolding serve_round ok_from
  serve_round-Served c p = elim (receive_fd-Received size c.receive p.opened) [
    | inl (nothing, bad) ↦ rw bad bad
    | inr (fd, sfd, value_lfd, value, more, done) ↦
        let fine : failed (receive_fd size c.receive p.opened).throwable ≡ false = rw done in
        elim (Bool-cases (prepared c)) [
          | inr unready ↦ rw (fine, unready) fine
          | inl ready ↦
              rw (fine, ready)
                (end_connection-Served p c (receive_fd size c.receive p.opened) fd sfd value_lfd
                  value more fine)
        ]
  ]

  abbrev Grown : Process → Process × ℕ → Type 0
  Grown p (p', rounds) = length p.opened + 2 * rounds ≤ length p'.opened

  Served-length :
      (p p' : Process) (c : RoundCalls) (message : EndMessage)
      → Served p c p' (restarted message)
      → length p.opened + 2 ≤ length p'.opened
  Served-length p p' c message ((fd, sfd, value_lfd, left), counter, table, said) =
      two_more c.close fd sfd value_lfd (ap length left)
    where
      two_more :
          (close : Bool) (fd sfd value_lfd : ℕ)
          → length p'.opened ≡ length (unclosed close fd ++ (sfd ∷ value_lfd ∷ p.opened))
          → length p.opened + 2 ≤ length p'.opened
      two_more true fd sfd value_lfd e = omega arith
      two_more false fd sfd value_lfd e = omega arith

  serve-Grown :
      (c : RoundCalls) (cs : List RoundCalls) (p p' : Process) (end : RoundEnd)
      → Served p c p' end
      → Grown p' (serve size n pid cs p')
      → Grown p (elim end [
        | restarted _ ↦ ((serve size n pid cs p').0, suc (serve size n pid cs p').1)
        | exit_success ↦ (p, 0)
        | exit_failure ↦ (p, 0)
      ])
  serve-Grown c cs p p' (restarted message) served rest =
      omega (arith, Served-length p p' c message served)
  serve-Grown c cs p p' exit_success served rest = omega arith
  serve-Grown c cs p p' exit_failure served rest = omega arith

  grown : (cs : List RoundCalls) (p : Process) → Grown p (serve size n pid cs p)
  unfolding serve
  grown [] p = omega arith
  grown (c ∷ cs) p =
      let (p', end) = serve_round size n pid c p in
      serve-Grown c cs p p' end (serve_round-Served c p) (grown cs p')

  -- Whatever the calls answer, after any number of rounds a worker has at least twice as many descriptors
  -- more open than at the start as it has served connections; so under a limit of descriptors, which
  -- the system imposes, a worker serves at most half as many connections in its life.
  pub serve-opened :
      (cs : List RoundCalls) (p : Process) (limit : ℕ)
      → length (serve size n pid cs p).0.opened ≤ limit
      → (length p.opened + 2 * (serve size n pid cs p).1 ≤ length (serve size n pid cs p).0.opened)
        × (2 * (serve size n pid cs p).1 ≤ limit)
  serve-opened cs p limit h = (grown cs p, omega (arith, grown cs p))

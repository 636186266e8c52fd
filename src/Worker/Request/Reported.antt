-- ===== src/Worker/Request/Reported.antt =====
-- What `request_work` of code/web_switch/worker.c leaves behind in each of its ends.
use heimdall_web_switch.Prelude.{
  ℕ, ◌≡◌, refl, Bool, true, false, ◌&&◌, ◌⊎◌, inl, inr, Option, none, some, if-split, arith,
}
use heimdall_web_switch.Prelude.Int.{ℤ, eq_ℤ}
use heimdall_web_switch.Types.{CString, Server, ThpSharedMem, server_status_broken}
use heimdall_web_switch.Throwable.{status_error}
use heimdall_web_switch.WorkerPool.{remote_of}
use heimdall_web_switch.HttpRequest.{Chars}
use heimdall_web_switch.Scheduler.{failed}
use heimdall_web_switch.Worker.Request.{
  RequestCalls, Ending, finished, returned, exited, faulted, RequestEnd, give_up, hand_over,
  exchange_headers, with_remote, request_work,
}

-- By the end of the thread, for the status before it and the server of the process.
abbrev pub Report :
    (c : RequestCalls) (before : ℤ) (remote : Option Server) → Ending → RequestEnd → Type 0
Report c before remote finished s =
    (s.worker_status ≡ before)
    × (s.header ≡ c.receive_header.0)
    × (s.signalled ≡ true)
    × (s.locked ≡ false)
Report c before remote returned s =
    (s.worker_status ≡ status_error)
    × ((s.locked && c.mutex_unlock) ≡ false)
    × ((s.signalled ≡ false)
        ⊎ ((s.header ≡ c.receive_header.0) × (failed c.receive_header.1 ≡ false)))
Report c before remote exited s = (c.sem_wait && c.sem_post && c.mutex_unlock) ≡ false
Report c before remote faulted s = remote ≡ none

module _ (c : RequestCalls) (before : ℤ) (remote : Option Server) where
  abbrev IsReported : RequestEnd → Type 0
  IsReported s = Report c before remote s.ending s

  unlock_failed : (a b u : Bool) → u ≡ false → (a && b && u) ≡ false
  unlock_failed a b u e = ground arith

  give_up-IsReported :
      (exits : Bool) (s : RequestEnd) → s.signalled ≡ false → IsReported (give_up exits c s)
  unfolding give_up
  give_up-IsReported exits s e =
      if-split IsReported c.mutex_unlock (λ u. (refl, refl, inl e))
        (λ u.
          if-split IsReported exits (λ x. unlock_failed c.sem_wait c.sem_post c.mutex_unlock u)
            (λ x. (refl, ground arith, inl e)))

  hand_over-IsReported :
      (s : RequestEnd)
      → s.signalled ≡ false
      → s.header ≡ c.receive_header.0
      → s.worker_status ≡ before
      → failed c.receive_header.1 ≡ false
      → IsReported (hand_over c s)
  unfolding hand_over
  hand_over-IsReported s e h b fine =
      if-split IsReported c.cond_signal
        (λ t.
          if-split IsReported c.mutex_unlock
            (λ u.
              if-split IsReported (failed c.receive_http_chunks) (λ f. (refl, refl, inr (h, fine)))
                (λ f.
                  if-split IsReported (failed c.close_connection) (λ f. (refl, refl, inr (h, fine)))
                    (λ f. (b, h, refl, refl))))
            (λ u. (refl, ground arith, inr (h, fine))))
        (λ t. give_up-IsReported false s e)

  exchange_headers-IsReported :
      (s : RequestEnd)
      → s.signalled ≡ false
      → s.worker_status ≡ before
      → IsReported (exchange_headers c s)
  unfolding exchange_headers
  exchange_headers-IsReported s e b =
      let s' : RequestEnd = record s { header = c.receive_header.0 } in
      if-split IsReported (failed c.create_client_socket) (λ f. give_up-IsReported true s e)
        (λ f.
          if-split IsReported c.asprintf
            (λ a.
              if-split IsReported (failed c.send_http_request) (λ f. give_up-IsReported false s e)
                (λ f.
                  if-split IsReported (failed c.receive_header.1)
                    (λ f. give_up-IsReported false s' e) (λ f. hand_over-IsReported s' e refl b f)))
            (λ a. give_up-IsReported false s e))

with_remote-IsReported :
    (c : RequestCalls) (before : ℤ) (remote : Option Server) (s : RequestEnd)
    → s.signalled ≡ false
    → s.worker_status ≡ before
    → IsReported c before remote (with_remote c remote s)
unfolding with_remote
with_remote-IsReported c before none s e b = refl
with_remote-IsReported c before (some remote) s e b =
    if-split (IsReported c before (some remote)) (eq_ℤ remote.status server_status_broken)
      (λ t. give_up-IsReported c before (some remote) true s e) (λ t. with_host remote.ip)
  where
    with_host :
        (ip : CString)
        → IsReported c before
            (some remote)
            (elim ip [ none ↦ give_up true c s | some host ↦ exchange_headers c s ])
    with_host none = give_up-IsReported c before (some remote) true s e
    with_host (some host) = exchange_headers-IsReported c before (some remote) s e b

-- Whatever its calls answer, a request thread reports how it ends. When it finishes, the status is the
-- one before, the header is the one received, the writer was signalled and the mutex is free. When
-- it returns early, the status is STATUS_ERROR, the mutex is free unless unlocking it failed, and the
-- writer was signalled at most when the header was received without an error. The process exits only
-- when a semaphore call or the unlocking failed, and the thread faults only when the shared table has no
-- entry for its process.
pub request_work-Report :
    (c : RequestCalls) (number_of_worker pid : ℕ) (pool : ThpSharedMem) (before : ℤ)
    (header : Option Chars)
    → let s = request_work c number_of_worker pid pool before header in
      Report c before (remote_of number_of_worker pid pool) s.ending s
unfolding request_work
request_work-Report c n pid pool before header =
    let remote = remote_of n pid pool in
    let P = IsReported c before remote in
    if-split P c.mutex_lock
      (λ t.
        if-split P c.sem_wait
          (λ w.
            if-split P c.sem_post (λ p. with_remote-IsReported c before remote _ refl refl)
              (λ p. ground arith))
          (λ w. ground arith))
      (λ t. (refl, refl, inl refl))

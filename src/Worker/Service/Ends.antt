-- ===== src/Worker/Service/Ends.antt =====
-- The ends of a round of `start_worker` (code/web_switch/worker.c): what its message names, and what it does
-- to the table.
use heimdall_web_switch.Prelude.{ℕ, ◌≡◌, ◌≢◌, true, false, set}
use heimdall_web_switch.Prelude.Int.{ℤ}
use heimdall_web_switch.Throwable.{status_error}
use heimdall_web_switch.Scheduler.{failed}
use heimdall_web_switch.MessageController.{receive_fd}
use heimdall_web_switch.Worker.Service.{
  Process, RoundCalls, EndMessage, error_watchdog, error_writer_thread, error_reader_thread,
  error_request_thread, all_ok, RoundEnd, restarted, exit_success, exit_failure,
}
use heimdall_web_switch.Worker.Service.Rounds.{LeftOpen}

-- The message names the first of watchdog, writer, reader and request thread that has an error.
abbrev pub Names : (watchdog writer reader request : ℤ) → EndMessage → Type 0
Names watchdog writer reader request error_watchdog = watchdog ≡ status_error
Names watchdog writer reader request error_writer_thread =
    (watchdog ≢ status_error) × (writer ≡ status_error)
Names watchdog writer reader request error_reader_thread =
    (watchdog ≢ status_error) × (writer ≢ status_error) × (reader ≡ status_error)
Names watchdog writer reader request error_request_thread =
    (watchdog ≢ status_error)
    × (writer ≢ status_error)
    × (reader ≢ status_error)
    × (request ≡ status_error)
Names watchdog writer reader request all_ok =
    (watchdog ≢ status_error)
    × (writer ≢ status_error)
    × (reader ≢ status_error)
    × (request ≢ status_error)

module _ (size n pid position : ℕ) where
  -- How a round that began with `p` has ended, for the worker whose entry is at `position`.
  abbrev pub Ended : Process → RoundCalls → Process → RoundEnd → Type 0
  Ended p c p' (restarted message) =
      LeftOpen size n pid p c p'
      × (p'.max_thr_request ≡ 0)
      × (p'.pool ≡ record p.pool { worker_busy = set p.pool.worker_busy position 0 })
      × Names c.watchdog_status c.writer_thread_status c.reader_thread_status
          c.request_thread_status message
  Ended p c p' exit_success = failed (receive_fd size c.receive p.opened).throwable ≡ true
  Ended p c p' exit_failure = failed (receive_fd size c.receive p.opened).throwable ≡ false

-- ===== src/Worker/Service.antt =====
-- `start_worker` of code/web_switch/worker.c: the loop of a worker round its connections.
-- What the calls answer is an argument, false being a failure. The threads that serve a connection are in
-- Worker; here they are the four states that they leave when the flag is raised. The calls at the end of a
-- connection whose failure is only logged are left out: they change nothing that is modelled.
pub mod Rounds
pub mod Ends
mod Tests
use heimdall_web_switch.Prelude.{
  ℕ, zero, suc, Bool, true, false, not, ◌&&◌, if◌then◌else◌, Option, none, some, List, [], ◌∷◌,
}
use heimdall_web_switch.Prelude.Int.{ℤ, eq_ℤ}
use heimdall_web_switch.Throwable.{Throwable, status_error}
use heimdall_web_switch.Scheduler.{failed}
use heimdall_web_switch.Types.{ThpSharedMem}
use heimdall_web_switch.WorkerPool.{release_worker}
use heimdall_web_switch.Connection.Sockets.{close_connection}
use heimdall_web_switch.UnixSocket.{close_fd}
use heimdall_web_switch.MessageController.{ReceiveCalls, receive_fd}

-- The process: its open descriptors, its counter, and the shared table.
pub record Process : Type 0 where
  pub opened : List ℕ
  pub max_thr_request : ℕ
  pub pool : ThpSharedMem

-- The answers to the calls of one round, in their order. `await` holds those of `pthread_cond_wait` up to the
-- one after which the flag is found raised.
pub record RoundCalls : Type 0 where
  pub receive : ReceiveCalls
  pub detach_watchdog : Throwable
  pub cond_init : Bool
  pub mutex_init : Bool
  pub watch_creation : Bool
  pub w_creation : Bool
  pub r_creation : Bool
  pub lock : Bool
  pub await : List Bool
  pub unlock : Bool
  pub watchdog_status : ℤ
  pub writer_thread_status : ℤ
  pub reader_thread_status : ℤ
  pub request_thread_status : ℤ
  pub close : Bool
  pub sem_wait : Bool
  pub sem_post : Bool

-- The message that is logged at the end of a connection.
pub data EndMessage : Type 0 where
  error_watchdog : EndMessage
  error_writer_thread : EndMessage
  error_reader_thread : EndMessage
  error_request_thread : EndMessage
  all_ok : EndMessage

pub end_message : (watchdog writer reader request : ℤ) → EndMessage
end_message watchdog writer reader request =
    if eq_ℤ watchdog status_error
    then error_watchdog
    else if eq_ℤ writer status_error
    then error_writer_thread
    else if eq_ℤ reader status_error
    then error_reader_thread
    else if eq_ℤ request status_error
    then error_request_thread
    else all_ok

-- How a round ends: at the head of the loop again, or with the process.
pub data RoundEnd : Type 0 where
  restarted : EndMessage → RoundEnd
  exit_success : RoundEnd
  exit_failure : RoundEnd

-- The loop round `pthread_cond_wait`.
pub await_loop : List Bool → Bool
await_loop [] = true
await_loop (fine ∷ await) = if fine then await_loop await else false

-- The checks between the receipt of the descriptor and the end of the wait.
pub prepared : RoundCalls → Bool
unfolding await_loop
prepared c =
    not (failed c.detach_watchdog)
    && (c.cond_init
        && (c.mutex_init
            && (c.watch_creation
                && (c.w_creation
                    && (c.r_creation && (c.lock && (await_loop c.await && c.unlock)))))))

-- `file_descriptor`, which is 0 where nothing was stored.
pub stored_fd : Option ℕ → ℕ
stored_fd none = 0
stored_fd (some fd) = fd

module _ (size number_of_worker pid : ℕ) where
  -- From the end of the connection on, with its descriptor.
  pub end_connection : ℕ → RoundCalls → Process → Process × RoundEnd
  end_connection sockfd c p =
      let closed = close_connection c.close in
      let p' : Process = record {
        opened = if failed closed then p.opened else close_fd sockfd p.opened;
        max_thr_request = 0;
        pool = p.pool;
      } in
      if not c.sem_wait then (p', exit_failure) else (
        record p' { pool = release_worker number_of_worker pid p.pool },
        if c.sem_post
            then restarted (
                end_message c.watchdog_status c.writer_thread_status c.reader_thread_status
                  c.request_thread_status)
            else exit_failure,
      )

  -- One round of the loop.
  pub serve_round : RoundCalls → Process → Process × RoundEnd
  unfolding prepared stored_fd end_connection
  serve_round c p =
      let received = receive_fd size c.receive p.opened in
      let p' : Process = record p { opened = received.opened } in
      if failed received.throwable
      then (p', exit_success)
      else if prepared c
      then end_connection (stored_fd received.value) c p'
      else (p', exit_failure)

  -- The rounds until the process exits: its state at the beginning of the last one, and how many it has
  -- served.
  pub serve : List RoundCalls → Process → Process × ℕ
  serve [] p = (p, 0)
  serve (c ∷ cs) p =
      let (p', end) = serve_round c p in
      let rest = serve cs p' in
      elim end [
        | restarted _ ↦ (rest.0, suc rest.1)
        | exit_success ↦ (p, 0)
        | exit_failure ↦ (p, 0)
      ]

-- ===== src/Worker/Service/Tests.antt =====
-- A round whose calls all succeed, and two of them.
use heimdall_web_switch.Prelude.{
  ℕ, ◌+◌, ◌*◌, ◌≤◌, ◌≡◌, refl, ap, true, some, [], ◌∷◌, length, arith,
}
use heimdall_web_switch.Throwable.{status_ok, status_error, ok_from, error_from}
use heimdall_web_switch.Circular.{no_server}
use heimdall_web_switch.HttpRequest.{Chars}
use heimdall_web_switch.UnixSocket.{close_fd, unix_listen}
use heimdall_web_switch.MessageController.{ReceiveCalls, received, control_of, receive_fd}
use heimdall_web_switch.Connection.Sockets.{close_connection}
use heimdall_web_switch.Worker.Service.{Process, RoundCalls, serve_round, serve}
use heimdall_web_switch.Worker.Service.Rounds.{serve-opened}

abbrev path : Chars
path = b'/' ∷ b's' ∷ []

abbrev receiver : ReceiveCalls
receiver = record {
  asprintf = some path;
  remove = true;
  socket = some 4;
  bind = true;
  listen = true;
  accept = some 7;
  recvmsg = received (control_of 3);
}

abbrev calls : RoundCalls
calls = record {
  receive = receiver;
  detach_watchdog = ok_from "detach_watchdog";
  cond_init = true;
  mutex_init = true;
  watch_creation = true;
  w_creation = true;
  r_creation = true;
  lock = true;
  await = true ∷ [];
  unlock = true;
  watchdog_status = status_ok;
  writer_thread_status = status_ok;
  reader_thread_status = status_error;
  request_thread_status = status_ok;
  close = true;
  sem_wait = true;
  sem_post = true;
}

abbrev process : Process
process = record {
  opened = 0 ∷ [];
  max_thr_request = 2;
  pool = record {
    worker_array = 77 ∷ [];
    worker_busy = 1 ∷ [];
    worker_counter = 1 ∷ [];
    worker_server = no_server ∷ [];
  };
}

-- Two rounds leave four sockets.
two_rounds : (serve 8 1 77 (calls ∷ calls ∷ []) process).1 ≡ 2
unfolding serve serve_round receive_fd unix_listen close_connection close_fd ok_from error_from
two_rounds = refl

left_open : (serve 8 1 77 (calls ∷ calls ∷ []) process).0.opened ≡ 7 ∷ 4 ∷ 7 ∷ 4 ∷ 0 ∷ []
unfolding serve serve_round receive_fd unix_listen close_connection close_fd ok_from error_from
left_open = refl

serve-opened_example :
    (length process.opened + 2 * (serve 8 1 77 (calls ∷ calls ∷ []) process).1
      ≤ length (serve 8 1 77 (calls ∷ calls ∷ []) process).0.opened)
    × (2 * (serve 8 1 77 (calls ∷ calls ∷ []) process).1 ≤ 5)
serve-opened_example =
    serve-opened 8 1 77 (calls ∷ calls ∷ []) process 5
      (omega (arith, ap (length {A = ℕ}) left_open))

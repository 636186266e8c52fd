-- ===== src/Worker/Tests.antt =====
-- The theorems on a worker at a connection with two requests, whose responses come in the other
-- order, and at a request thread whose server cannot be reached.
use heimdall_web_switch.Prelude.{
  ◌≤◌, ◌≡◌, ◌⊎◌, refl, true, false, none, some, Option, Bool, List, [], ◌∷◌, ◌++◌, length,
}
use heimdall_web_switch.Prelude.Int.{pos}
use heimdall_web_switch.Types.{ThpSharedMem, server_status_ready}
use heimdall_web_switch.Throwable.{status_ok, status_error, errno_text, ok_from, error_from}
use heimdall_web_switch.WorkerPool.{remote_of}
use heimdall_web_switch.HttpRequest.{HttpRequest, Chars, new_http_request}
use heimdall_web_switch.Worker.{
  served, answered, Worker, new_worker, read_work_enqueue, Event, enqueues, enqueued, dequeued,
  unclosed, complete, created, receives, request_ends, writes, run,
}
use heimdall_web_switch.Worker.Requests.{requests}
use heimdall_web_switch.Worker.Order.{sent_to, run-in_order}
use heimdall_web_switch.Worker.Limits.{run-limited}
use heimdall_web_switch.Worker.Request.{RequestCalls, request_work}
use heimdall_web_switch.Worker.Request.Reported.{Report, request_work-Report}

abbrev get : Chars → HttpRequest
get resource = record new_http_request { req_resource = some resource }

-- The second is answered, with an error when its server is closed, the first is not.
abbrev two_requests : List Event
two_requests =
    enqueues
    ∷ enqueued
    ∷ receives (get (1 ∷ [])) created
    ∷ enqueues
    ∷ enqueued
    ∷ receives (get (2 ∷ [])) created
    ∷ request_ends 1 (unclosed (2 ∷ []))
    ∷ []

abbrev waiting : Worker
waiting = record (new_worker 0) {
  max_thr_request = 2;
  request_counter = 2;
  request_thread_status = status_error;
  requests_queue = served (get (1 ∷ [])) ∷ answered (get (2 ∷ [])) (2 ∷ []) ∷ [];
  received = get (1 ∷ []) ∷ get (2 ∷ []) ∷ [];
}

-- Then the first is answered and sent.
abbrev one_sent : Worker
one_sent = record waiting {
  requests_queue = answered (get (2 ∷ [])) (2 ∷ []) ∷ [];
  sent = (get (1 ∷ []), 1 ∷ []) ∷ [];
}

run-in_order_example : sent_to one_sent.sent ++ requests one_sent.requests_queue ≡ one_sent.received
unfolding run
run-in_order_example =
    run-in_order 1 0 (two_requests ++ (request_ends 0 (complete (1 ∷ [])) ∷ writes ∷ dequeued ∷ []))
      one_sent refl refl

abbrev overlaps : Option Worker → Bool
overlaps none = false
overlaps (some w) = w.overlapped

-- An enqueue that begins before the end of a dequeue.
run-overlapped :
    overlaps (
      run 2
        (two_requests ++ (request_ends 0 (complete (1 ∷ [])) ∷ writes ∷ enqueues ∷ []))
        (new_worker 0))
    ≡ true
unfolding run
run-overlapped = refl

run-limited_example :
    (length waiting.received ≤ 1)
    ⊎ ((length waiting.received ≡ 2) × (read_work_enqueue 1 waiting ≡ none))
unfolding run
run-limited_example = run-limited 1 0 two_requests waiting refl

abbrev unreachable : RequestCalls
unreachable = record {
  mutex_lock = true;
  sem_wait = true;
  sem_post = true;
  create_client_socket = error_from errno_text "create_client_socket";
  asprintf = true;
  send_http_request = ok_from "send_http_request";
  receive_header = (none, ok_from "receive_http_response_header");
  cond_signal = true;
  mutex_unlock = true;
  receive_http_chunks = ok_from "receive_http_chunks";
  close_connection = ok_from "close_connection";
}

abbrev table : ThpSharedMem
table = record {
  worker_array = 7 ∷ [];
  worker_busy = 1 ∷ [];
  worker_counter = 1 ∷ [];
  worker_server =
      record { address = none; ip = some "10.0.0.1"; weight = pos 1; status = server_status_ready }
      ∷ [];
}

request_work-Report_example :
    let s = request_work unreachable 1 7 table status_ok none in
    Report unreachable status_ok (remote_of 1 7 table) s.ending s
request_work-Report_example = request_work-Report unreachable 1 7 table status_ok none

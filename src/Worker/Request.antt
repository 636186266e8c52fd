-- ===== src/Worker/Request.antt =====
-- `request_work` of code/web_switch/worker.c: the thread of one request, over what its calls answer.
pub mod Reported
use heimdall_web_switch.Prelude.{ℕ, Bool, true, false, Option, none, some, if◌then◌else◌}
use heimdall_web_switch.Prelude.Int.{ℤ, eq_ℤ}
use heimdall_web_switch.Types.{Server, ThpSharedMem, server_status_broken}
use heimdall_web_switch.Throwable.{Throwable, status_error}
use heimdall_web_switch.WorkerPool.{remote_of}
use heimdall_web_switch.HttpRequest.{Chars}
use heimdall_web_switch.Scheduler.{failed}

-- The answers of the calls: true for the value that the code takes for success. `receive_header` is what
-- stands in `node->response->response->header` behind the call, with its result.
pub record RequestCalls : Type 0 where
  pub mutex_lock : Bool
  pub sem_wait : Bool
  pub sem_post : Bool
  pub create_client_socket : Throwable
  pub asprintf : Bool
  pub send_http_request : Throwable
  pub receive_header : Option Chars × Throwable
  pub cond_signal : Bool
  pub mutex_unlock : Bool
  pub receive_http_chunks : Throwable
  pub close_connection : Throwable

-- How the thread ends: with `pthread_exit` behind its work, by an early return, with the whole process, or
-- in a fault.
pub data Ending : Type 0 where
  finished : Ending
  returned : Ending
  exited : Ending
  faulted : Ending

-- What the thread leaves: whether it holds the node's mutex, the header of the response, and whether
-- the writer was signalled.
pub record RequestEnd : Type 0 where
  pub ending : Ending
  pub worker_status : ℤ
  pub locked : Bool
  pub header : Option Chars
  pub signalled : Bool

-- The status, then the unlocking: if that fails too, one kind of place ends the process.
give_up : (exits : Bool) → RequestCalls → RequestEnd → RequestEnd
give_up exits c s =
    let s' : RequestEnd = record s { worker_status = status_error; ending = returned } in
    if c.mutex_unlock
    then record s' { locked = false }
    else if exits
    then record s' { ending = exited }
    else s'

-- From the signal to the writer on.
hand_over : RequestCalls → RequestEnd → RequestEnd
unfolding give_up
hand_over c s =
    let stops : RequestEnd = record s {
      signalled = true;
      worker_status = status_error;
      ending = returned;
    } in
    if c.cond_signal
    then (if c.mutex_unlock
        then (if failed c.receive_http_chunks
            then record stops { locked = false }
            else if failed c.close_connection
            then record stops { locked = false }
            else record s { signalled = true; locked = false; ending = finished })
        else stops)
    else give_up false c s

-- The request to the host, and the header of its response.
exchange_headers : RequestCalls → RequestEnd → RequestEnd
unfolding give_up hand_over
exchange_headers c s =
    if failed c.create_client_socket
    then give_up true c s
    else if c.asprintf
    then (if failed c.send_http_request
        then give_up false c s
        else let s' : RequestEnd = record s { header = c.receive_header.0 } in
          if failed c.receive_header.1 then give_up false c s' else hand_over c s')
    else give_up false c s

-- The server that the shared table names for this process.
with_remote : RequestCalls → Option Server → RequestEnd → RequestEnd
unfolding give_up exchange_headers
with_remote c none s = record s { ending = faulted }
with_remote c (some remote) s =
    if eq_ℤ remote.status server_status_broken
    then give_up true c s
    else elim remote.ip [ none ↦ give_up true c s | some host ↦ exchange_headers c s ]

pub request_work :
    RequestCalls
    → (number_of_worker pid : ℕ) → ThpSharedMem
    → (worker_status : ℤ) → (header : Option Chars) → RequestEnd
unfolding with_remote
request_work c number_of_worker pid worker_pool worker_status header =
    let s : RequestEnd = record {
      ending = returned;
      worker_status = worker_status;
      locked = true;
      header = header;
      signalled = false;
    } in
    if c.mutex_lock
    then (if c.sem_wait
        then (if c.sem_post
            then with_remote c (remote_of number_of_worker pid worker_pool) s
            else record s { ending = exited })
        else record s { ending = exited })
    else record s { worker_status = status_error; locked = false }

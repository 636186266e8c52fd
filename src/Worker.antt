-- ===== src/Worker.antt =====
-- code/web_switch/worker.c: the three kinds of threads of a worker over one connection.
-- A node of the queue is what its three threads do with it: the reader enqueues it fresh and then
-- receives the request into it, its request thread fetches the response, the writer sends that and
-- dequeues it. Each event is a round of a thread, or the part of it up to the next call that waits; the
-- queue is the sequence of its nodes, as whole operations of the request queue keep it. The reader enqueues and
-- the writer dequeues without a lock, so each of these operations has a beginning and an end here; when
-- they overlap, the worker is `overlapped`, and the queue may become any other from then on.
pub mod Requests
pub mod Runs
pub mod Order
pub mod Limits
pub mod Request
pub mod Service
mod Tests
use heimdall_web_switch.Prelude.{
  ℕ, ◌+◌, Bool, true, false, ◌||◌, Option, none, some, List, [], ◌∷◌, ◌++◌, leb, if◌then◌else◌,
  get_elem?, set,
}
use heimdall_web_switch.Prelude.Int.{ℤ, pos}
use heimdall_web_switch.Pointers.{◌>>=◌}
use heimdall_web_switch.Throwable.{status_ok, status_error}
use heimdall_web_switch.Watchdog.{watch_over_code}
use heimdall_web_switch.HttpRequest.{HttpRequest, Chars}

-- How far the request of a node is.
pub data Node : Type 0 where
  fresh : Node
  unserved : HttpRequest → Node
  served : HttpRequest → Node
  failed : HttpRequest → Node
  answered : HttpRequest → (response : Chars) → Node

-- Where the reader stands: at the head of its loop, in `enqueue`, in `receive_http_request`, or ended.
pub data Reader : Type 0 where
  at_loop : Reader
  enqueuing : Reader
  receiving : Reader
  reader_ended : Reader

pub data Writer : Type 0 where
  at_front : Writer
  dequeuing : Writer
  writer_ended : Writer

-- The worker with the counters of its process. `received` and `sent` are what went through the client's
-- socket: the requests, and the responses that were sent whole, each with the request of its node.
-- `overlapped` says whether an enqueue and a dequeue were under way at once.
pub record Worker : Type 0 where
  pub max_thr_request : ℕ
  pub request_counter : ℕ
  pub reader : Reader
  pub writer : Writer
  pub reader_thread_status : ℤ
  pub writer_thread_status : ℤ
  pub request_thread_status : ℤ
  pub worker_await_flag : ℤ
  pub requests_queue : List Node
  pub overlapped : Bool
  pub received : List HttpRequest
  pub sent : List (HttpRequest × Chars)

-- WATCH_TOWER of code/include/watchdog.h
abbrev pub watch_tower_code : ℤ
watch_tower_code = pos 24

-- `new_worker`, with the counter of requests that the process keeps over its connections; the other
-- counter is 0 then.
abbrev pub new_worker : ℕ → Worker
new_worker request_counter = record {
  max_thr_request = 0;
  request_counter = request_counter;
  reader = at_loop;
  writer = at_front;
  reader_thread_status = status_ok;
  writer_thread_status = status_ok;
  request_thread_status = status_ok;
  worker_await_flag = watch_tower_code;
  requests_queue = [];
  overlapped = false;
  received = [];
  sent = [];
}

-- The last node, behind the last request that was enqueued, becomes `node`.
abbrev pub fill_last : Node → List Node → List Node
fill_last node [] = []
fill_last node (n ∷ []) = node ∷ []
fill_last node (n ∷ n' ∷ ns) = n ∷ fill_last node (n' ∷ ns)

abbrev pub is_enqueuing : Reader → Bool
is_enqueuing enqueuing = true
is_enqueuing at_loop = false
is_enqueuing receiving = false
is_enqueuing reader_ended = false

abbrev pub is_dequeuing : Writer → Bool
is_dequeuing dequeuing = true
is_dequeuing at_front = false
is_dequeuing writer_ended = false

-- The head of the loop of `read_work`, up to the beginning of `enqueue`: it waits while too many threads
-- were made.
pub read_work_enqueue : (max_thread_pchild : ℕ) → Worker → Option Worker
read_work_enqueue max_thread_pchild w = elim w.reader [
  | at_loop ↦
      if leb w.max_thr_request max_thread_pchild
      then some
          (record w { reader = enqueuing; overlapped = w.overlapped || is_dequeuing w.writer })
      else none
  | _ ↦ none
]

-- The end of `enqueue`.
pub read_work_enqueued : Worker → Option Worker
read_work_enqueued w = elim w.reader [
  | enqueuing ↦
      some (record w { requests_queue = w.requests_queue ++ (fresh ∷ []); reader = receiving })
  | _ ↦ none
]

-- What follows in the round behind a request that was received: no thread for it; a thread that cannot be
-- counted, since `mtx_thr_request` cannot be locked; one that is counted, with an error of the calls behind
-- that; or one that is counted, without an error.
pub data Creation : Type 0 where
  no_thread : Creation
  uncounted : Creation
  unsignalled : Creation
  created : Creation

-- The rest of the round, from a request that was received.
pub read_work_receive : HttpRequest → Creation → Worker → Option Worker
read_work_receive request creation w = elim w.reader [
  | receiving ↦
      let w' : Worker = record w {
        request_counter = w.request_counter + 1;
        received = w.received ++ (request ∷ []);
      } in
      some (elim creation [
        | no_thread ↦ record w' {
          requests_queue = fill_last (unserved request) w.requests_queue;
          reader_thread_status = status_error;
          reader = reader_ended;
        }
        | uncounted ↦ record w' {
          requests_queue = fill_last (served request) w.requests_queue;
          reader = reader_ended;
        }
        | unsignalled ↦ record w' {
          requests_queue = fill_last (served request) w.requests_queue;
          max_thr_request = w.max_thr_request + 1;
          reader = reader_ended;
        }
        | created ↦ record w' {
          requests_queue = fill_last (served request) w.requests_queue;
          max_thr_request = w.max_thr_request + 1;
          reader = at_loop;
        }
      ])
  | _ ↦ none
]

-- The head of the loop of `read_work` when there is no node, which is an error of the reader's status, or
-- when the wait fails.
pub read_work_stop : (waited : Bool) → Worker → Option Worker
read_work_stop waited w = elim w.reader [
  | at_loop ↦ some (record w {
    reader_thread_status = if waited then status_error else w.reader_thread_status;
    reader = reader_ended;
  })
  | _ ↦ none
]

-- The rest of the round when `receive_http_request` fails.
pub read_work_fail : Worker → Option Worker
read_work_fail w = elim w.reader [
  | receiving ↦ some (record w {
    reader_thread_status = status_error;
    worker_await_flag = watch_over_code;
    reader = reader_ended;
  })
  | _ ↦ none
]

-- How `request_work` ends behind its start: without the whole response, or with it, and then with the
-- connection to the server closed or with an error of `close_connection`.
pub data RequestEnd : Type 0 where
  incomplete : RequestEnd
  unclosed : (response : Chars) → RequestEnd
  complete : (response : Chars) → RequestEnd

-- The end of `request_work` for the node at position `i`.
pub request_work_end : (i : ℕ) → RequestEnd → Worker → Option Worker
request_work_end i end w = elim (get_elem? w.requests_queue i) [
  | some (served request) ↦ some (elim end [
    | incomplete ↦ record w {
      requests_queue = set w.requests_queue i (failed request);
      request_thread_status = status_error;
    }
    | unclosed response ↦ record w {
      requests_queue = set w.requests_queue i (answered request response);
      request_thread_status = status_error;
    }
    | complete response ↦ record w {
      requests_queue = set w.requests_queue i (answered request response);
    }
  ])
  | _ ↦ none
]

-- The round of `write_work` for the front of the queue, which waits until there is a response, up to the
-- beginning of `dequeue`, which follows when all of the response was sent.
pub write_work_round : Worker → Option Worker
write_work_round w = elim w.writer [
  | at_front ↦ elim w.requests_queue [
    | answered request response ∷ rest ↦ some (record w {
      sent = w.sent ++ ((request, response) ∷ []);
      requests_queue = rest;
      overlapped = w.overlapped || is_enqueuing w.reader;
      writer = dequeuing;
    })
    | _ ↦ none
  ]
  | _ ↦ none
]

-- The round when a call of it fails, before the response or with any part of it sent.
pub write_work_fail : Worker → Option Worker
write_work_fail w = elim w.writer [
  | at_front ↦ elim w.requests_queue [
    | [] ↦ none
    | _ ∷ _ ↦ some (record w { writer_thread_status = status_error; writer = writer_ended })
  ]
  | _ ↦ none
]

-- The end of `dequeue`.
pub write_work_dequeued : Worker → Option Worker
write_work_dequeued w = elim w.writer [
  | dequeuing ↦ some (record w { writer = at_front })
  | _ ↦ none
]

-- What is left of the queue when its operations have overlapped.
pub tear : List Node → Worker → Option Worker
tear queue w = if w.overlapped then some (record w { requests_queue = queue }) else none

pub data Event : Type 0 where
  enqueues : Event
  enqueued : Event
  stops : Bool → Event
  receives : HttpRequest → Creation → Event
  receive_fails : Event
  request_ends : ℕ → RequestEnd → Event
  writes : Event
  write_fails : Event
  dequeued : Event
  tears : List Node → Event

module _ (max_thread_pchild : ℕ) where
  pub step : Event → Worker → Option Worker
  unfolding read_work_enqueue read_work_enqueued read_work_receive read_work_fail read_work_stop
      request_work_end write_work_round write_work_fail write_work_dequeued tear
  step enqueues w = read_work_enqueue max_thread_pchild w
  step enqueued w = read_work_enqueued w
  step (stops waited) w = read_work_stop waited w
  step (receives request creation) w = read_work_receive request creation w
  step receive_fails w = read_work_fail w
  step (request_ends i end) w = request_work_end i end w
  step writes w = write_work_round w
  step write_fails w = write_work_fail w
  step dequeued w = write_work_dequeued w
  step (tears queue) w = tear queue w

  -- The events one after the other: `none` when one of them cannot happen in its place.
  pub run : List Event → Worker → Option Worker
  unfolding step
  run [] w = some w
  run (e ∷ es) w = do w' ← step e w; run es w'

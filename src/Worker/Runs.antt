-- ===== src/Worker/Runs.antt =====
-- What a step of a worker (code/web_switch/worker.c) does, and properties that every step keeps.
use heimdall_web_switch.Prelude.{
  ℕ, ◌+◌, ◌≤◌, ◌≡◌, refl, subst, Bool, true, false, Option, none, some, List, [], ◌∷◌, ◌++◌, ◌||◌,
  if◌then◌else◌, leb, leb→le, get_elem?, set,
}
use heimdall_web_switch.Prelude.{Bool-cases, inl, inr}
use heimdall_web_switch.Prelude.Int.{ℤ}
use heimdall_web_switch.Pointers.{◌>>=◌}
use heimdall_web_switch.Throwable.{status_error}
use heimdall_web_switch.HttpRequest.{HttpRequest, Chars}
use heimdall_web_switch.Worker.Requests.{request_of}
use heimdall_web_switch.Worker.{
  Node, fresh, unserved, served, failed, answered, Reader, at_loop, enqueuing, receiving,
  reader_ended, Writer, at_front, dequeuing, writer_ended, is_enqueuing, is_dequeuing, RequestEnd,
  incomplete, unclosed, complete, read_work_enqueued, write_work_dequeued, tear, enqueued, dequeued,
  tears, Worker, fill_last, read_work_enqueue, read_work_receive, read_work_fail, request_work_end,
  write_work_round, write_work_fail, read_work_stop, stops, write_fails, Creation, no_thread,
  uncounted, unsignalled, created, Event, enqueues, receives, receive_fails, request_ends, writes,
  step, run,
}

-- What may stand behind a step from `w`: nothing, when it cannot happen, or the worker that one of the
-- kinds of step leaves. The fields that no property here reads are any.
pub data Stepped (m : ℕ) (w : Worker) : Option Worker → Type 0 where
  waits : Stepped m w none
  has_begun_enqueue :
      w.reader ≡ at_loop
      → w.max_thr_request ≤ m
      → Stepped m w (
          some
            (record w { reader = enqueuing; overlapped = w.overlapped || is_dequeuing w.writer }))
  has_enqueued :
      w.reader ≡ enqueuing
      → Stepped m w (
          some (record w { requests_queue = w.requests_queue ++ (fresh ∷ []); reader = receiving }))
  has_received :
      (r : HttpRequest) (counter : ℕ)
      → w.reader ≡ receiving
      → Stepped m w (
          some (record w {
            requests_queue = fill_last (served r) w.requests_queue;
            request_counter = counter;
            received = w.received ++ (r ∷ []);
            max_thr_request = w.max_thr_request + 1;
            reader = at_loop;
          }))
  has_received_last :
      (r : HttpRequest) (n : Node) (counter threads : ℕ) (status : ℤ)
      → w.reader ≡ receiving
      → request_of n ≡ r ∷ []
      → Stepped m w (
          some (record w {
            requests_queue = fill_last n w.requests_queue;
            request_counter = counter;
            received = w.received ++ (r ∷ []);
            max_thr_request = threads;
            reader_thread_status = status;
            reader = reader_ended;
          }))
  has_stopped :
      (status : ℤ)
      → w.reader ≡ at_loop
      → Stepped m w (some (record w { reader_thread_status = status; reader = reader_ended }))
  has_failed :
      (flag : ℤ)
      → w.reader ≡ receiving
      → Stepped m w (
          some (record w {
            reader_thread_status = status_error;
            worker_await_flag = flag;
            reader = reader_ended;
          }))
  has_ended :
      (i : ℕ) (r : HttpRequest) (n : Node) (status : ℤ)
      → get_elem? w.requests_queue i ≡ some (served r)
      → request_of n ≡ r ∷ []
      → Stepped m w (
          some (record w {
            requests_queue = set w.requests_queue i n;
            request_thread_status = status;
          }))
  has_sent :
      (r : HttpRequest) (response : Chars) (ns : List Node)
      → w.requests_queue ≡ answered r response ∷ ns
      → Stepped m w (
          some (record w {
            sent = w.sent ++ ((r, response) ∷ []);
            requests_queue = ns;
            overlapped = w.overlapped || is_enqueuing w.reader;
            writer = dequeuing;
          }))
  has_dequeued : Stepped m w (some (record w { writer = at_front }))
  has_torn :
      (ns : List Node) → w.overlapped ≡ true → Stepped m w (some (record w { requests_queue = ns }))
  has_not_sent :
      (ns : List Node)
      → w.requests_queue ≡ ns
      → Stepped m w (
          some (record w {
            writer_thread_status = status_error;
            writer = writer_ended;
            requests_queue = ns;
          }))

module _ (m : ℕ) where
  enqueue-Stepped : (w : Worker) (r : Reader) → w.reader ≡ r → Stepped m w (read_work_enqueue m w)
  unfolding read_work_enqueue
  enqueue-Stepped w at_loop e =
      simp (e, read_work_enqueue)
        (elim (Bool-cases (leb w.max_thr_request m)) [
          | inl t ↦ simp t (has_begun_enqueue e (leb→le w.max_thr_request m t))
          | inr f ↦ simp f waits
        ])
  enqueue-Stepped w enqueuing e = simp (e, read_work_enqueue) waits
  enqueue-Stepped w receiving e = simp (e, read_work_enqueue) waits
  enqueue-Stepped w reader_ended e = simp (e, read_work_enqueue) waits

  enqueued-Stepped : (w : Worker) (r : Reader) → w.reader ≡ r → Stepped m w (read_work_enqueued w)
  unfolding read_work_enqueued
  enqueued-Stepped w enqueuing e = simp (e, read_work_enqueued) (has_enqueued e)
  enqueued-Stepped w at_loop e = simp (e, read_work_enqueued) waits
  enqueued-Stepped w receiving e = simp (e, read_work_enqueued) waits
  enqueued-Stepped w reader_ended e = simp (e, read_work_enqueued) waits

  receive-Stepped :
      (q : HttpRequest) (creation : Creation) (w : Worker) (r : Reader)
      → w.reader ≡ r
      → Stepped m w (read_work_receive q creation w)
  unfolding read_work_receive
  receive-Stepped q created w receiving e = simp (e, read_work_receive) (has_received q _ e)
  receive-Stepped q no_thread w receiving e =
      simp (e, read_work_receive)
        (has_received_last q (unserved q) (w.request_counter + 1) w.max_thr_request status_error e
          refl)
  receive-Stepped q uncounted w receiving e =
      simp (e, read_work_receive)
        (has_received_last q (served q) (w.request_counter + 1) w.max_thr_request
          w.reader_thread_status e refl)
  receive-Stepped q unsignalled w receiving e =
      simp (e, read_work_receive)
        (has_received_last q (served q) (w.request_counter + 1) (w.max_thr_request + 1)
          w.reader_thread_status e refl)
  receive-Stepped q _ w at_loop e = simp (e, read_work_receive) waits
  receive-Stepped q _ w enqueuing e = simp (e, read_work_receive) waits
  receive-Stepped q _ w reader_ended e = simp (e, read_work_receive) waits

  fail-Stepped : (w : Worker) (r : Reader) → w.reader ≡ r → Stepped m w (read_work_fail w)
  unfolding read_work_fail
  fail-Stepped w receiving e = simp (e, read_work_fail) (has_failed _ e)
  fail-Stepped w at_loop e = simp (e, read_work_fail) waits
  fail-Stepped w enqueuing e = simp (e, read_work_fail) waits
  fail-Stepped w reader_ended e = simp (e, read_work_fail) waits

  stop-Stepped :
      (waited : Bool) (w : Worker) (r : Reader)
      → w.reader ≡ r
      → Stepped m w (read_work_stop waited w)
  unfolding read_work_stop
  stop-Stepped waited w at_loop e = simp (e, read_work_stop) (has_stopped _ e)
  stop-Stepped waited w enqueuing e = simp (e, read_work_stop) waits
  stop-Stepped waited w receiving e = simp (e, read_work_stop) waits
  stop-Stepped waited w reader_ended e = simp (e, read_work_stop) waits

  end-Stepped :
      (i : ℕ) (end : RequestEnd) (w : Worker) (n : Option Node)
      → get_elem? w.requests_queue i ≡ n
      → Stepped m w (request_work_end i end w)
  unfolding request_work_end
  end-Stepped i incomplete w (some (served r)) e =
      simp (e, request_work_end) (has_ended i r (failed r) status_error e refl)
  end-Stepped i (unclosed s) w (some (served r)) e =
      simp (e, request_work_end) (has_ended i r (answered r s) status_error e refl)
  end-Stepped i (complete s) w (some (served r)) e =
      simp (e, request_work_end) (has_ended i r (answered r s) w.request_thread_status e refl)
  end-Stepped i _ w none e = simp (e, request_work_end) waits
  end-Stepped i _ w (some fresh) e = simp (e, request_work_end) waits
  end-Stepped i _ w (some (unserved r)) e = simp (e, request_work_end) waits
  end-Stepped i _ w (some (failed r)) e = simp (e, request_work_end) waits
  end-Stepped i _ w (some (answered r s)) e = simp (e, request_work_end) waits

  write-Stepped :
      (w : Worker) (s : Writer) (ns : List Node)
      → w.writer ≡ s
      → w.requests_queue ≡ ns
      → Stepped m w (write_work_round w)
  unfolding write_work_round
  write-Stepped w at_front (answered r t ∷ ns) e k =
      simp (e, k, write_work_round) (has_sent r t ns k)
  write-Stepped w at_front [] e k = simp (e, k, write_work_round) waits
  write-Stepped w at_front (fresh ∷ ns) e k = simp (e, k, write_work_round) waits
  write-Stepped w at_front (unserved r ∷ ns) e k = simp (e, k, write_work_round) waits
  write-Stepped w at_front (served r ∷ ns) e k = simp (e, k, write_work_round) waits
  write-Stepped w at_front (failed r ∷ ns) e k = simp (e, k, write_work_round) waits
  write-Stepped w dequeuing ns e k = simp (e, write_work_round) waits
  write-Stepped w writer_ended ns e k = simp (e, write_work_round) waits

  write_fail-Stepped :
      (w : Worker) (s : Writer) (ns : List Node)
      → w.writer ≡ s
      → w.requests_queue ≡ ns
      → Stepped m w (write_work_fail w)
  unfolding write_work_fail
  write_fail-Stepped w at_front (n ∷ ns) e k =
      simp (e, k, write_work_fail) (has_not_sent (n ∷ ns) k)
  write_fail-Stepped w at_front [] e k = simp (e, k, write_work_fail) waits
  write_fail-Stepped w dequeuing ns e k = simp (e, write_work_fail) waits
  write_fail-Stepped w writer_ended ns e k = simp (e, write_work_fail) waits

  dequeued-Stepped : (w : Worker) (s : Writer) → w.writer ≡ s → Stepped m w (write_work_dequeued w)
  unfolding write_work_dequeued
  dequeued-Stepped w dequeuing e = simp (e, write_work_dequeued) has_dequeued
  dequeued-Stepped w at_front e = simp (e, write_work_dequeued) waits
  dequeued-Stepped w writer_ended e = simp (e, write_work_dequeued) waits

  tear-Stepped : (queue : List Node) (w : Worker) → Stepped m w (tear queue w)
  unfolding tear
  tear-Stepped queue w = torn w.overlapped refl
    where
      torn :
          (b : Bool)
          → w.overlapped ≡ b
          → Stepped m w (if b then some (record w { requests_queue = queue }) else none)
      torn true t = has_torn queue t
      torn false t = waits

  pub step-Stepped : (ev : Event) (w : Worker) → Stepped m w (step m ev w)
  unfolding step
  step-Stepped enqueues w = enqueue-Stepped w w.reader refl
  step-Stepped enqueued w = enqueued-Stepped w w.reader refl
  step-Stepped (stops waited) w = stop-Stepped waited w w.reader refl
  step-Stepped (receives q creation) w = receive-Stepped q creation w w.reader refl
  step-Stepped receive_fails w = fail-Stepped w w.reader refl
  step-Stepped (request_ends i end) w = end-Stepped i end w (get_elem? w.requests_queue i) refl
  step-Stepped writes w = write-Stepped w w.writer w.requests_queue refl refl
  step-Stepped write_fails w = write_fail-Stepped w w.writer w.requests_queue refl refl
  step-Stepped dequeued w = dequeued-Stepped w w.writer refl
  step-Stepped (tears queue) w = tear-Stepped queue w

-- A property of the state behind a step, if the step can happen.
abbrev pub Then : (Worker → Type 0) → Option Worker → Type 0
Then P none = Unit
Then P (some w) = P w

Then-bind :
    (P : Worker → Type 0) (f : Worker → Option Worker) (o : Option Worker)
    → ((w : Worker) → P w → Then P (f w))
    → Then P o
    → Then P (o >>= f)
Then-bind P f none keeps u = tt
Then-bind P f (some w) keeps v = keeps w v

module _ (P : Worker → Type 0) (m : ℕ)
    (keeps : (w : Worker) (o : Option Worker) → Stepped m w o → P w → Then P o) where
  run-Then : (es : List Event) (w : Worker) → P w → Then P (run m es w)
  unfolding run
  run-Then [] w v = v
  run-Then (ev ∷ es) w v =
      Then-bind P (run m es) (step m ev w) (run-Then es)
        (keeps w (step m ev w) (step-Stepped m ev w) v)

  -- What every step keeps, every run keeps.
  pub run-keeps : (es : List Event) {w t : Worker} → run m es w ≡ some t → P w → P t
  run-keeps es {w} e v = subst (Then P) e (run-Then es w v)

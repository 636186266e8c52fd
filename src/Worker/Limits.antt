-- ===== src/Worker/Limits.antt =====
-- How many requests of one connection are read (code/web_switch/worker.c).
use heimdall_web_switch.Prelude.{ℕ_discrete, ◌⊎◌, inl, inr}
use heimdall_web_switch.Prelude.{
  ℕ, suc, ◌≤◌, ◌≡◌, refl, subst, false, Option, none, some, List, [], ◌∷◌, leb, length,
  length-append,
}
use heimdall_web_switch.Prelude.{arith}
use heimdall_web_switch.Worker.{
  Reader, at_loop, enqueuing, receiving, reader_ended, Worker, new_worker, read_work_enqueue, Event,
  run,
}
use heimdall_web_switch.Worker.Runs.{
  Stepped, waits, has_begun_enqueue, has_enqueued, has_dequeued, has_torn, has_received,
  has_received_last, has_stopped, has_failed, has_ended, has_sent, has_not_sent, Then, run-keeps,
}

-- The counter and the number of requests, by where the reader stands.
abbrev Counted : (m threads read : ℕ) → Reader → Type 0
Counted m threads read at_loop = (threads ≡ read) × (read ≤ suc m)
Counted m threads read enqueuing = (threads ≡ read) × (read ≤ m)
Counted m threads read receiving = (threads ≡ read) × (read ≤ m)
Counted m threads read reader_ended = read ≤ suc m

abbrev IsCounted : ℕ → Worker → Type 0
IsCounted m w = Counted m w.max_thr_request (length w.received) w.reader

at_reader :
    (m : ℕ) (w : Worker) (r : Reader)
    → w.reader ≡ r
    → IsCounted m w
    → Counted m w.max_thr_request (length w.received) r
at_reader m w r e v = subst (Counted m w.max_thr_request (length w.received)) e v

step-IsCounted :
    (m : ℕ) (w : Worker) (o : Option Worker) → Stepped m w o → IsCounted m w → Then (IsCounted m) o
step-IsCounted m w _ waits v = tt
step-IsCounted m w _ (has_begun_enqueue e t) v =
    let (same, most) = at_reader m w at_loop e v in (same, omega arith)
step-IsCounted m w _ (has_enqueued e) v = at_reader m w enqueuing e v
step-IsCounted m w _ (has_received r counter e) v =
    let (same, most) = at_reader m w receiving e v in
    let longer = length-append w.received (r ∷ []) in (omega arith, omega arith)
step-IsCounted m w _ (has_received_last r n counter threads status e k) v =
    let (same, most) = at_reader m w receiving e v in
    let longer = length-append w.received (r ∷ []) in omega arith
step-IsCounted m w _ (has_stopped status e) v = let (same, most) = at_reader m w at_loop e v in most
step-IsCounted m w _ (has_failed flag e) v =
    let (same, most) = at_reader m w receiving e v in omega arith
step-IsCounted m w _ (has_ended i r n status e k) v = v
step-IsCounted m w _ (has_sent r response ns k) v = v
step-IsCounted m w _ has_dequeued v = v
step-IsCounted m w _ (has_torn ns t) v = v
step-IsCounted m w _ (has_not_sent ns k) v = v

at_most :
    (m : ℕ) (w : Worker) (r : Reader) → w.reader ≡ r → IsCounted m w → length w.received ≤ suc m
at_most m w at_loop e v = (at_reader m w at_loop e v).1
at_most m w enqueuing e v = let (same, most) = at_reader m w enqueuing e v in omega arith
at_most m w receiving e v = let (same, most) = at_reader m w receiving e v in omega arith
at_most m w reader_ended e v = at_reader m w reader_ended e v

exhausted :
    (m : ℕ) (w : Worker) (r : Reader)
    → w.reader ≡ r
    → IsCounted m w
    → length w.received ≡ suc m
    → read_work_enqueue m w ≡ none
unfolding read_work_enqueue
exhausted m w at_loop e v k =
    let (same, most) = at_reader m w at_loop e v in
    let f : leb w.max_thr_request m ≡ false = ground arith in simp (e, f, read_work_enqueue) refl
exhausted m w enqueuing e v k = simp (e, read_work_enqueue) refl
exhausted m w receiving e v k = simp (e, read_work_enqueue) refl
exhausted m w reader_ended e v k = simp (e, read_work_enqueue) refl

-- Over one connection a worker has received at most `max_thread_pchild` requests, or one more and
-- then its reader cannot enqueue another, however many of the requests are answered by then.
pub run-limited :
    (m counter : ℕ) (es : List Event) (w : Worker)
    → run m es (new_worker counter) ≡ some w
    → (length w.received ≤ m) ⊎ ((length w.received ≡ suc m) × (read_work_enqueue m w ≡ none))
run-limited m counter es w e =
    let v = run-keeps (IsCounted m) m (step-IsCounted m) es e (refl, omega arith) in
    let most = at_most m w w.reader refl v in
    elim (ℕ_discrete (length w.received) (suc m)) [
      | yes k ↦ inr (k, exhausted m w w.reader refl v k)
      | no ne ↦ inl (omega arith)
    ]

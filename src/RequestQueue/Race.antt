-- ===== src/RequestQueue/Race.antt =====
-- `dequeue` and `enqueue` of code/web_switch/request_queue.c statement by statement: the writer of a
-- worker dequeues while its reader enqueues, and the queue has no lock.
use heimdall_web_switch.Prelude.{
  ℕ, zero, suc, ◌+◌, ◌-◌, ◌≡◌, ◌≢◌, refl, Option, some, List, [], ◌∷◌, true, false, inl, inr,
}
use heimdall_web_switch.Prelude.{arith, ◌==◌, if◌then◌else◌, Bool-cases, Option-cases}
use heimdall_web_switch.Pointers.{Ptr, null, ◌>>=◌, write, load, modify}
use heimdall_web_switch.RequestQueue.{
  RequestNode, Heap, RequestQueue, enqueue, get_front, dequeue, unlink_front,
}

-- Where `dequeue` stands, with its variables.
pub data Dequeuing : Type 0 where
  before_front : Dequeuing
  before_next : (front : Ptr) → Dequeuing
  before_cut : (front next : Ptr) → Dequeuing
  before_link : (front next : Ptr) → Dequeuing
  before_move : (front next : Ptr) → Dequeuing
  before_decrease : (front : Ptr) → Dequeuing
  returned : (front : Ptr) → Dequeuing

-- Where `enqueue` stands.
pub data Enqueuing : Type 0 where
  before_test : Enqueuing
  before_first : Enqueuing
  before_behind : Enqueuing
  before_previous : Enqueuing
  before_back : Enqueuing
  before_increase : Enqueuing
  enqueued : Enqueuing

-- The next statement of `dequeue`.
pub dequeue_step : Dequeuing → RequestQueue → Heap → Option (Dequeuing × RequestQueue × Heap)
dequeue_step before_front q h =
    some (if q.front == null then returned q.front else before_next q.front, q, h)
dequeue_step (before_next front) q h = do n ← load front h; some (before_cut front n.next, q, h)
dequeue_step (before_cut front next) q h = do
  h' ← modify front (λ n. record n { next = null }) h
  some (before_link front next, q, h')
dequeue_step (before_link front next) q h =
    if next == null then some (before_move front next, record q { back = null }, h) else do
      h' ← modify next (λ n. record n { previous = null }) h
      some (before_move front next, q, h')
dequeue_step (before_move front next) q h =
    some (before_decrease front, record q { front = next }, h)
dequeue_step (before_decrease front) q h = some (returned front, record q { size = q.size - 1 }, h)
dequeue_step (returned front) q h = some (returned front, q, h)

-- The next statement of `enqueue`.
pub enqueue_step : Ptr → Enqueuing → RequestQueue → Heap → Option (Enqueuing × RequestQueue × Heap)
enqueue_step node before_test q h =
    some (if q.back == null then before_first else before_behind, q, h)
enqueue_step node before_first q h = some (before_back, record q { front = node }, h)
enqueue_step node before_behind q h = do
  h' ← modify q.back (λ n. record n { next = node }) h
  some (before_previous, q, h')
enqueue_step node before_previous q h = do
  h' ← modify node (λ n. record n { previous = q.back }) h
  some (before_back, q, h')
enqueue_step node before_back q h = some (before_increase, record q { back = node }, h)
enqueue_step node before_increase q h = some (enqueued, record q { size = q.size + 1 }, h)
enqueue_step node enqueued q h = some (enqueued, q, h)

-- `n` statements of `dequeue` with nothing between them.
pub dequeue_steps : ℕ → Dequeuing → RequestQueue → Heap → Option (Dequeuing × RequestQueue × Heap)
unfolding dequeue_step
dequeue_steps zero d q h = some (d, q, h)
dequeue_steps (suc n) d q h = do (d', q', h') ← dequeue_step d q h; dequeue_steps n d' q' h'

pub enqueue_steps :
    Ptr → ℕ → Enqueuing → RequestQueue → Heap → Option (Enqueuing × RequestQueue × Heap)
unfolding enqueue_step
enqueue_steps node zero e q h = some (e, q, h)
enqueue_steps node (suc n) e q h = do
  (e', q', h') ← enqueue_step node e q h
  enqueue_steps node n e' q' h'

-- The statements of `dequeue`, when nothing comes between them, do what `dequeue` does: six of them
-- reach its return, with the same pointer, queue and memory, or both are a fault.
pub dequeue_steps-eq-dequeue :
    (q : RequestQueue) (h : Heap)
    → dequeue_steps 6 before_front q h
      ≡ (do (front, q', h') ← dequeue q h; some (returned front, q', h'))
unfolding dequeue_steps dequeue_step dequeue unlink_front modify get_front load
dequeue_steps-eq-dequeue q h = elim (Bool-cases (q.front == null)) [
  | inl e ↦ rw (e, dequeue_step) refl
  | inr e ↦ elim (Option-cases (h q.front)) [
    | inl m ↦ rw (e, dequeue_step) (rw (e, m, load) refl)
    | inr (n, m) ↦ elim (Bool-cases (n.next == null)) [
      | inl k ↦ rw (e, dequeue_step) (rw (e, m, load) (rw (e, m, k, load) refl))
      | inr k ↦
          rw (e, dequeue_step)
            (rw (e, m, load)
              (rw (e, m, k, load)
                (let h' = write h q.front (some (record n { next = null })) in
                  elim (Option-cases (h' n.next)) [ inl l ↦ rw l refl | inr (m', l) ↦ rw l refl ])))
    ]
  ]
]

-- The statements of `enqueue`, when nothing comes between them, do what `enqueue` does.
pub enqueue_steps-eq-enqueue :
    (q : RequestQueue) (node : Ptr) (h : Heap)
    → enqueue_steps node 5 before_test q h
      ≡ (do (q', h') ← enqueue q node h; some (enqueued, q', h'))
unfolding enqueue_steps enqueue_step enqueue modify load
enqueue_steps-eq-enqueue q node h = elim (Bool-cases (q.back == null)) [
  | inl e ↦ rw (e, enqueue_step) refl
  | inr e ↦ elim (Option-cases (h q.back)) [
    | inl m ↦ rw (e, enqueue_step) (rw (e, m, load) refl)
    | inr (n, m) ↦
        rw (e, enqueue_step)
          (rw (e, m, load)
            (let h' = write h q.back (some (record n { next = node })) in
              elim (Option-cases (modify node (λ n. record n { previous = q.back }) h')) [
                | inl l ↦ rw l refl
                | inr (h'', l) ↦ rw l refl
              ]))
  ]
]

-- Whose statement comes next: the writer's, which dequeues, or the reader's, which enqueues `node`.
pub data Turn : Type 0 where
  writer : Turn
  reader : Turn

pub record Threads : Type 0 where
  pub dequeuing : Dequeuing
  pub enqueuing : Enqueuing
  pub queue : RequestQueue
  pub heap : Heap

abbrev pub both_enter : RequestQueue → Heap → Threads
both_enter q h = record { dequeuing = before_front; enqueuing = before_test; queue = q; heap = h }

pub run : Ptr → List Turn → Threads → Option Threads
unfolding dequeue_step enqueue_step
run node [] s = some s
run node (writer ∷ turns) s = do
  (d, q, h) ← dequeue_step s.dequeuing s.queue s.heap
  run node turns (record s { dequeuing = d; queue = q; heap = h })
run node (reader ∷ turns) s = do
  (e, q, h) ← enqueue_step node s.enqueuing s.queue s.heap
  run node turns (record s { enqueuing = e; queue = q; heap = h })

-- The writer has read `front->next`, then comes all of `enqueue`, then the rest of `dequeue`.
abbrev pub enqueue_in_between : List Turn
enqueue_in_between =
    writer ∷ writer ∷ reader ∷ reader ∷ reader ∷ reader ∷ reader ∷ writer ∷ writer ∷ writer ∷ writer
    ∷ []

-- Both have returned: the queue has no node although one was enqueued, `dequeue` returned the node
-- that stood there before, and the size still counts the lost node.
pub IsLost : ℕ → Ptr → Threads → Type 0
IsLost size p s =
    (s.dequeuing ≡ returned p)
    × (s.enqueuing ≡ enqueued)
    × (s.queue.front ≡ null)
    × (s.queue.back ≡ null)
    × (s.queue.size ≡ size)

abbrev pub one_node : ℕ → Ptr → RequestQueue
one_node size p = record { size = size; front = p; back = p }

-- When the writer dequeues the only node of a queue and the reader enqueues a fresh one between the
-- read of `front->next` and the rest of `dequeue`, no statement faults, and the fresh node is lost:
-- `enqueue` has returned, but front and back are NULL while the size is not decreased.
pub run-IsLost :
    (size : ℕ) (h : Heap) (p node previous : Ptr) (m : RequestNode)
    → p ≢ null
    → h p ≡ some (record { previous = previous; next = null })
    → node ≢ null
    → node ≢ p
    → h node ≡ some m
    → (s : Threads) × ((run node enqueue_in_between (both_enter (one_node size p) h) ≡ some s)
        × IsLost size p s)
unfolding run modify load IsLost
run-IsLost size h p node previous m some_front found some_node fresh at_node =
    let e : (p == null) ≡ false = ground arith in
    let k : (node == null) ≡ false = ground arith in
    let f : (node == p) ≡ false = ground arith in
    let f' : (p == node) ≡ false = ground arith in
    let r : (p == p) ≡ true = ground arith in
    rw (e, dequeue_step)
      (rw (e, found, load)
        (rw (e, found, load, enqueue_step)
          (rw e
            (rw (k, f, at_node) (rw (f', r) (_, (refl, (refl, refl, refl, refl, omega arith))))))))

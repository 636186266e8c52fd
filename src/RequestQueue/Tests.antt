-- ===== src/RequestQueue/Tests.antt =====
-- The theorems on the request queue at a queue of one node, at address 1, and a fresh node at 2.
use heimdall_web_switch.Prelude.{◌≡◌, refl, none, some, [], ◌∷◌, arith, ◌==◌, if◌then◌else◌}
use heimdall_web_switch.RequestQueue.{
  Heap, RequestQueue, init_request_node, enqueue, dequeue, destroy_loop,
}
use heimdall_web_switch.RequestQueue.Race.{
  Threads, both_enter, run, enqueue_in_between, IsLost, run-IsLost,
}
use heimdall_web_switch.RequestQueue.Fifo.{
  IsFifo, Out, SameOutside, Freed, enqueue-IsFifo, dequeue-Out, destroy_loop-Freed,
}

abbrev memory : Heap
memory p =
    if p == 1 then some init_request_node else if p == 2 then some init_request_node else none

abbrev one : RequestQueue
one = record { size = 1; front = 1; back = 1 }

one-IsFifo : IsFifo memory one (1 ∷ [])
one-IsFifo = record {
  size = refl;
  front = refl;
  back = refl;
  chain = (omega arith, refl, refl, tt);
}

enqueue-IsFifo_example :
    (q' : RequestQueue) × (g : Heap) × (enqueue one 2 memory ≡ some (q', g))
    × IsFifo g q' (1 ∷ 2 ∷ [])
    × SameOutside (2 ∷ 1 ∷ []) memory g
enqueue-IsFifo_example = enqueue-IsFifo memory one (1 ∷ []) 2 one-IsFifo (omega arith) refl refl

dequeue-Out_example :
    (q' : RequestQueue) × (g : Heap) × (dequeue one memory ≡ some (1, q', g)) × Out memory 1 [] q' g
dequeue-Out_example = dequeue-Out memory one 1 [] one-IsFifo

destroy_loop-Freed_example :
    (g : Heap) × (destroy_loop 2 one memory ≡ some g)
    × Freed (1 ∷ []) g
    × SameOutside (1 ∷ []) memory g
destroy_loop-Freed_example = destroy_loop-Freed 2 memory one (1 ∷ []) one-IsFifo (omega arith)

run-IsLost_example :
    (s : Threads) × ((run 2 enqueue_in_between (both_enter one memory) ≡ some s) × IsLost 1 1 s)
run-IsLost_example =
    run-IsLost 1 memory 1 2 0 init_request_node (ground arith) refl (ground arith) (ground arith)
      refl

-- ===== src/RequestQueue.antt =====
-- code/web_switch/request_queue.c: the queue of a worker's pending requests, a doubly linked list.
-- A node is its two links; its request, response and chunk are reached through its address.
pub mod Chain
pub mod Fifo
pub mod Race
mod Tests
use heimdall_web_switch.Prelude.{
  ℕ, zero, suc, ◌+◌, ◌-◌, Bool, true, false, Option, none, some, ◌==◌, if◌then◌else◌,
}
use heimdall_web_switch.Pointers.{Ptr, null, ◌>>=◌, write, load, modify}

pub record RequestNode : Type 0 where
  pub previous : Ptr
  pub next : Ptr

abbrev pub Heap : Type 0
Heap = Ptr → Option RequestNode

pub record RequestQueue : Type 0 where
  pub size : ℕ
  pub front : Ptr
  pub back : Ptr

abbrev pub init_request_queue : RequestQueue
init_request_queue = record { size = 0; front = null; back = null }

-- The links of the node that `init_request_node` returns.
abbrev pub init_request_node : RequestNode
init_request_node = record { previous = null; next = null }

pub get_size : RequestQueue → ℕ
get_size self = self.size

pub get_front : RequestQueue → Ptr
get_front self = self.front

pub is_empty : RequestQueue → Bool
is_empty self = if self.front == null then true else false

pub enqueue : RequestQueue → Ptr → Heap → Option (RequestQueue × Heap)
enqueue self node h =
    if self.back == null
    then some (record self { front = node; back = node; size = self.size + 1 }, h)
    else do
      h ← modify self.back (λ n. record n { next = node }) h
      h ← modify node (λ n. record n { previous = self.back }) h
      some (record self { back = node; size = self.size + 1 }, h)

-- The branch of `dequeue` for a queue that is not empty.
unlink_front : RequestQueue → Heap → Option (RequestQueue × Heap)
unlink_front self h = do
  front ← load self.front h
  h ← modify self.front (λ n. record n { next = null }) h
  if front.next == null
      then some (record self { back = null; front = front.next; size = self.size - 1 }, h)
      else do
        h ← modify front.next (λ n. record n { previous = null }) h
        some (record self { front = front.next; size = self.size - 1 }, h)

-- The pointer that it returns beside the queue; `size--` runs only with a node in the queue.
pub dequeue : RequestQueue → Heap → Option (Ptr × RequestQueue × Heap)
unfolding get_front
dequeue self h =
    let front = get_front self in
    if front == null
    then some (front, self, h)
    else do (self', h') ← unlink_front self h; some (front, self', h')

-- The loop of `destroy_request_queue`, on fuel; `node->destroy` frees the node's memory.
pub destroy_loop : ℕ → RequestQueue → Heap → Option Heap
unfolding dequeue
destroy_loop zero self h = none
destroy_loop (suc fuel) self h = do
  (node, self', h') ← dequeue self h
  let rest = destroy_loop fuel self' (write h' node none)
  if node == null then some h' else rest

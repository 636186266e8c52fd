-- ===== src/ServerPool.antt =====
-- code/web_switch/server_pool.c: the pool of servers, a singly linked list in memory.
pub mod Links
pub mod Delete
mod Tests
use heimdall_web_switch.Prelude.{ℕ, zero, suc, ◌+◌, Option, none, some, ◌==◌, if◌then◌else◌}
use heimdall_web_switch.Pointers.{Ptr, null, ◌>>=◌, write, load, modify}
use heimdall_web_switch.Scheduler.{ServerNode}

-- A node in memory: the server's data and the link.
pub record PoolNode : Type 0 where
  pub server : ServerNode
  pub next : Ptr

abbrev pub PoolHeap : Type 0
PoolHeap = Ptr → Option PoolNode

pub record ServerPool : Type 0 where
  pub head : Ptr
  pub tail : Ptr
  pub num_servers : ℕ

abbrev pub init_server_pool : ServerPool
init_server_pool = record { head = null; tail = null; num_servers = 0 }

-- The two branches of `add_server`. `none` is a fault.
add_first : ServerPool → Ptr → PoolHeap → Option (ServerPool × PoolHeap)
add_first pool new_node h = do
  h ← modify new_node (λ n. record n { next = null }) h
  some (record { head = new_node; tail = new_node; num_servers = pool.num_servers + 1 }, h)

add_behind : ServerPool → Ptr → PoolHeap → Option (ServerPool × PoolHeap)
add_behind pool new_node h = do
  h ← modify pool.tail (λ n. record n { next = new_node }) h
  h ← modify new_node (λ n. record n { next = null }) h
  some (record pool { tail = new_node; num_servers = pool.num_servers + 1 }, h)

pub add_server : ServerPool → Ptr → PoolHeap → Option (ServerPool × PoolHeap)
unfolding add_first add_behind
add_server pool new_node h =
    if pool.head == null then add_first pool new_node h else add_behind pool new_node h

-- How a loop over memory ends.
pub data Outcome (A : Type 0) : Type 0 where
  fault : Outcome A
  out_of_fuel : Outcome A
  done : A → Outcome A

-- `while (server->next != del_node) server = server->next`
pub find_previous : ℕ → Ptr → Ptr → PoolHeap → Outcome Ptr
find_previous zero server del_node h = out_of_fuel
find_previous (suc fuel) server del_node h = elim (load server h) [
  | none ↦ fault
  | some n ↦
      let on = find_previous fuel n.next del_node h in
      if n.next == del_node then done server else on
]

-- The rest of `delete_server`, with the previous node.
pub unlink : ServerPool → (server del_node : Ptr) → PoolHeap → Option (ServerPool × PoolHeap)
unlink pool server del_node h = do
  d ← load del_node h
  h ← modify server (λ n. record n { next = d.next }) h
  some (
    record pool { tail = if pool.tail == del_node then server else pool.tail },
    write h del_node none,
  )

pub delete_server : ℕ → ServerPool → Ptr → PoolHeap → Outcome (ServerPool × PoolHeap)
unfolding find_previous unlink
delete_server fuel pool del_node h = elim (find_previous fuel pool.head del_node h) [
  | fault ↦ fault
  | out_of_fuel ↦ out_of_fuel
  | done server ↦ elim (unlink pool server del_node h) [ none ↦ fault | some result ↦ done result ]
]

-- ===== src/ServerPool/Tests.antt =====
-- The theorems on the pool at a pool of two nodes, at the addresses 1 and 2, and a node at 3.
use heimdall_web_switch.Prelude.{◌≡◌, refl, none, some, [], ◌∷◌, ◌++◌, arith, ◌==◌, if◌then◌else◌}
use heimdall_web_switch.Pointers.{Ptr, null}
use heimdall_web_switch.Scheduler.{ServerNode}
use heimdall_web_switch.ServerPool.{PoolHeap, ServerPool, done, delete_server}
use heimdall_web_switch.ServerPool.Links.{pool_node, IsPool}
use heimdall_web_switch.ServerPool.Delete.{delete_server-IsPool}
use heimdall_web_switch.Prelude.Int.{pos}

abbrev data_of : Ptr → ServerNode
data_of p = record { host_address = none; host_ip = none; status = pos p; weight = pos 1 }

abbrev memory : PoolHeap
memory p =
    if p == 1
    then some (pool_node (data_of 1) 2)
    else if p == 2
    then some (pool_node (data_of 2) null)
    else if p == 3
    then some (pool_node (data_of 3) 99)
    else none

abbrev two : ServerPool
two = record { head = 1; tail = 2; num_servers = 2 }

two-IsPool : IsPool memory data_of two (1 ∷ 2 ∷ [])
two-IsPool = record {
  head = refl;
  tail = refl;
  links = (omega arith, refl, refl, (omega arith, refl, refl, tt));
}

delete_server-IsPool_example :
    (pool' : ServerPool) × (g : PoolHeap) × (delete_server 1 two 2 memory ≡ done (pool', g))
    × IsPool g data_of pool' ([] ++ (1 ∷ []))
    × (g 2 ≡ none)
    × (pool'.num_servers ≡ two.num_servers)
delete_server-IsPool_example =
    delete_server-IsPool 1 memory data_of two [] 1 2 [] two-IsPool (omega arith)

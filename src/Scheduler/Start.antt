-- ===== src/Scheduler/Start.antt =====
-- The composition of scheduler, pool and round robin: `reset_servers` of code/web_switch/round_robin.c over
-- the pool in memory, and `init_scheduler`, `get_scheduler` and `update_server_routine` of
-- code/web_switch/scheduler.c.
-- `locked` and `unlocked` say whether the mutex calls succeed, `fuel` bounds the loop of `weight_servers`.
-- `none` is a fault, or a loop that has not ended.
pub mod Reset
pub mod Order
pub mod Rounds
mod Tests
use heimdall_web_switch.Prelude.{
  ℕ, zero, suc, ◌-◌, Bool, not, ◌&&◌, ltb, length, if◌then◌else◌, Option, none, some, List, [], ◌∷◌,
}
use heimdall_web_switch.Prelude.Int.{ℤ, pos, pos_part, eq_ℤ}
use heimdall_web_switch.Throwable.{Throwable, ok_from, thrown}
use heimdall_web_switch.Helper.{Strtol, str_to_int}
use heimdall_web_switch.Types.{CString, Server}
use heimdall_web_switch.Pointers.{Ptr, ◌>>=◌, write, load}
use heimdall_web_switch.Circular.{Circular, allocate_buffer}
use heimdall_web_switch.RoundRobin.{weight_pattern}
use heimdall_web_switch.Scheduler.{
  ServerNode, Answers, failed, update_pool, server_of, auxiliary_buffer, init_node,
}
use heimdall_web_switch.ServerPool.{PoolNode, PoolHeap, ServerPool, init_server_pool, add_server}

-- The loop of `reset_servers` over the nodes.
pub copy_servers : ℕ → Ptr → PoolHeap → Option (List Server)
copy_servers zero node h = some []
copy_servers (suc n) node h = do
  x ← load node h
  rest ← copy_servers n x.next h
  some (server_of x.server ∷ rest)

-- `weight_servers`, with its call of `allocate_buffer`.
pub weight_servers :
    ℕ
    → Circular
    → List Server
    → (server_num : ℕ) → (locked unlocked : Bool) → Option (Circular × Throwable)
weight_servers fuel circular servers server_num locked unlocked =
    elim (weight_pattern fuel servers server_num) [
      | none ↦ none
      | some (w_servers, weight_sum) ↦
          let (circular', t) =
            allocate_buffer circular (some w_servers) (pos_part weight_sum) locked unlocked in
          some (circular', if failed t then thrown t "weight_servers" else ok_from "weight_servers")
    ]

-- `weight_servers` for `reset_servers`, and its result.
pub reset_from :
    ℕ
    → Circular
    → List Server
    → (server_num : ℕ) → (locked unlocked : Bool) → Option (Circular × Throwable)
unfolding weight_servers
reset_from fuel circular servers server_num locked unlocked =
    elim (weight_servers fuel circular servers server_num locked unlocked) [
      | none ↦ none
      | some (circular', t) ↦
          some (circular', if failed t then thrown t "reset_servers" else ok_from "reset_servers")
    ]

pub reset_servers :
    ℕ
    → Circular
    → ServerPool
    → (server_num : ℕ) → PoolHeap
    → (locked unlocked : Bool) → Option (Circular × Throwable)
unfolding copy_servers reset_from
reset_servers fuel circular pool server_num h locked unlocked = do
  servers ← copy_servers pool.num_servers pool.head h
  reset_from fuel circular servers server_num locked unlocked

-- The loop of `init_scheduler` over the configured servers, each with its name, its address and where
-- `malloc` puts its node; `junk` is what the link of a fresh node holds.
pub add_all :
    (junk : Ptr)
    → List ((CString × CString) × Ptr)
    → ServerPool
    → PoolHeap
    → Option (ServerPool × PoolHeap)
add_all junk [] pool h = some (pool, h)
add_all junk ((config, p) ∷ rest) pool h = do
  (pool', h') ←
      add_server pool p (write h p (some (record { server = init_node config; next = junk })))
  add_all junk rest pool' h'

pub record Scheduler : Type 0 where
  pub circular : Circular
  pub server_pool : ServerPool
  pub heap : PoolHeap

-- AWARENESS_LEVEL_LOW and AWARENESS_LEVEL_HIGH of code/include/scheduler.h
abbrev pub awareness_level_low : ℤ
awareness_level_low = pos 0

abbrev pub awareness_level_high : ℤ
awareness_level_high = pos 1

-- The end of `init_scheduler`: the thread that updates the pool.
pub start_updater : (awareness_level : ℤ) → (created detached : Bool) → Scheduler → Option Scheduler
start_updater awareness_level created detached scheduler =
    if eq_ℤ awareness_level awareness_level_high && not (created && detached)
    then none
    else some scheduler

-- `init_scheduler`: the scheduler, or NULL.
pub init_scheduler :
    (fuel junk : ℕ)
    → List ((CString × CString) × Ptr)
    → Circular
    → PoolHeap
    → (locked unlocked : Bool) → (awareness_level : ℤ) → (created detached : Bool)
    → Option (Option Scheduler)
unfolding add_all reset_servers start_updater
init_scheduler fuel junk servers fresh h locked unlocked awareness_level created detached = do
  (pool, h') ← add_all junk servers init_server_pool h
  (circular, t) ← reset_servers fuel fresh pool pool.num_servers h' locked unlocked
  let scheduler : Scheduler = record { circular = circular; server_pool = pool; heap = h' }
  some (if failed t then none else start_updater awareness_level created detached scheduler)

-- `get_scheduler`, which returns the singleton or ends the process.
pub data Got : Type 0 where
  got : Scheduler → Got
  exits : Got

pub got_from : Option Scheduler → Got
got_from none = exits
got_from (some scheduler) = got scheduler

-- `init` is `init_scheduler` at a level.
pub get_scheduler :
    (scheduler_singleton : Option Scheduler)
    → Strtol
    → (init : ℤ → Option (Option Scheduler)) → Option Got
unfolding got_from
get_scheduler (some scheduler) algorithm_selection init = some (got scheduler)
get_scheduler none algorithm_selection init =
    let (awareness, t) = str_to_int algorithm_selection in
    if failed t
    then some exits
    else if eq_ℤ awareness awareness_level_low
    then elim (init awareness_level_low) [ none ↦ none | some s ↦ some (got_from s) ]
    else if eq_ℤ awareness awareness_level_high
    then elim (init awareness_level_high) [ none ↦ none | some s ↦ some (got_from s) ]
    else some exits

-- The state of `update_server_routine`, with the pool as its nodes.
pub record Updater : Type 0 where
  pub nodes : List ServerNode
  pub circular : Circular
  pub up_since : ℕ

-- How a round of its loop ends.
pub data UpdateEnd : Type 0 where
  goes_on : Updater → UpdateEnd
  returns_null : UpdateEnd

-- The part behind the scan: the reset if the routine has not failed, and the new time stamp.
pub end_update :
    ℕ
    → Circular
    → (finished : ℕ) → (locked unlocked : Bool) → List ServerNode
    → ℤ
    → Option UpdateEnd
unfolding reset_from
end_update fuel circular finished locked unlocked nodes proceed =
    let kept : Updater = record { nodes = nodes; circular = circular; up_since = finished } in
    if eq_ℤ proceed (pos 0)
    then elim (reset_from fuel circular (auxiliary_buffer nodes) (length nodes) locked unlocked) [
      | none ↦ none
      | some (circular', t) ↦
          some (if failed t then returns_null else goes_on (record kept { circular = circular' }))
    ]
    else some (goes_on kept)

-- The nodes with the answers of the network, in the order in which they are asked.
pub asked : (ℕ → Answers) → List ServerNode → List (ServerNode × Answers)
asked answers [] = []
asked answers (node ∷ nodes) = (node, answers 0) ∷ asked (λ k. answers (suc k)) nodes

-- A round of `update_server_routine` at a time `now`, which ends at `finished`. A time that has gone back
-- counts as none, which is not above `up_time` either.
pub update_round :
    (fuel up_time now finished : ℕ)
    → (answers : ℕ → Answers) → (locked unlocked : Bool) → Updater
    → Option UpdateEnd
unfolding end_update
update_round fuel up_time now finished answers locked unlocked u =
    if ltb up_time (now - u.up_since)
    then elim (update_pool (asked answers u.nodes) (pos 0)) [
      | none ↦ none
      | some (nodes, proceed) ↦ end_update fuel u.circular finished locked unlocked nodes proceed
    ]
    else some (goes_on u)

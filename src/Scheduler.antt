-- ===== src/Scheduler.antt =====
-- code/web_switch/scheduler.c: the score of a server and the update of the pool.
-- The pool is the list of its nodes, head first. What the network and the status page gave for a node
-- is an argument: how the calls of `apache_score` ended, and the two counts that were parsed.
pub mod Score
pub mod Update
pub mod Start
pub mod Poll
use heimdall_web_switch.Prelude.{
  ℕ, ◌/◌, Bool, true, false, Option, none, some, List, [], ◌∷◌, ◌==◌, if◌then◌else◌, map,
}
use heimdall_web_switch.Prelude.Int.{
  ℤ, pos, negsuc, pos_part, neg_part, sub_ℕ, ltb_ℤ, eq_ℤ, ◌+ℤ◌, ◌-ℤ◌, ◌*ℤ◌,
}
use heimdall_web_switch.Throwable.{
  Throwable, Message, text, null_message, propagate, create, status_ok, ok_from, thrown,
  is_an_error,
}
use heimdall_web_switch.Types.{CString, Server, server_status_ready, server_status_broken}

-- code/include/server_pool.h
pub record ServerNode : Type 0 where
  pub host_address : CString
  pub host_ip : CString
  pub status : ℤ
  pub weight : ℤ

-- WEIGHT_DEFAULT and WEIGHT_MAXIMUM of code/include/round_robin.h
abbrev pub weight_default : ℤ
weight_default = pos 1

abbrev pub weight_maximum : ℤ
weight_maximum = pos 5

-- The division of C rounds towards zero. `none`: division by zero.
unfoldable pub div_ℤ : ℤ → ℤ → Option ℤ
div_ℤ a (pos n) = if n == 0 then none else some (sub_ℕ (pos_part a / n) (neg_part a / n))
div_ℤ a (negsuc n) = let d = neg_part (negsuc n) in some (sub_ℕ (neg_part a / d) (pos_part a / d))

-- The score of a server with these counts of workers.
pub score : (idle_workers busy_workers : ℤ) → Option ℤ
score idle_workers busy_workers =
    let total_workers = busy_workers +ℤ idle_workers in
    elim (div_ℤ ((idle_workers -ℤ weight_default) *ℤ (weight_maximum -ℤ weight_default))
      (total_workers -ℤ weight_default)) [ none ↦ none | some q ↦ some (q +ℤ weight_default) ]

-- What the environment answers while a node is scored.
pub record Answers : Type 0 where
  pub set_url : Throwable
  pub retrieve : Throwable
  pub parse : Throwable
  pub idle_workers : ℤ
  pub busy_workers : ℤ

abbrev pub failed : Throwable → Bool
failed t = if eq_ℤ t.status status_ok then false else true

-- `none`: the process is stopped by a division by zero.
pub apache_score : ServerNode → Answers → Option (ServerNode × Throwable)
unfolding thrown create
apache_score server a =
    if failed a.set_url
    then some (server, thrown a.set_url "apache_score")
    else if failed a.retrieve
    then some (
      record server { weight = weight_default; status = server_status_broken },
      thrown a.retrieve "apache_score",
    )
    else let up : ServerNode = record server { status = server_status_ready } in
      if failed a.parse
      then some (up, thrown a.parse "apache_score")
      else if ltb_ℤ a.idle_workers (pos 0)
      then some (up, create status_ok (text "No update") "apache_score")
      else elim (score a.idle_workers a.busy_workers) [
        | none ↦ none
        | some s ↦ some (record up { weight = s }, ok_from "apache_score")
      ]

-- The scan of `update_server_routine` over the pool, with its variable `proceed`.
pub update_pool : List (ServerNode × Answers) → ℤ → Option (List ServerNode × ℤ)
update_pool [] proceed = some ([], proceed)
update_pool ((node, a) ∷ rest) proceed = elim (apache_score node a) [
  | none ↦ none
  | some (node', t) ↦
      elim (update_pool rest (
        if failed t
        then (if eq_ℤ node'.status server_status_broken then proceed else proceed -ℤ pos 1)
        else proceed)) [ none ↦ none | some (nodes, proceed') ↦ some (node' ∷ nodes, proceed') ]
]

-- `reset_servers` of code/web_switch/round_robin.c: the entry of a node, and the auxiliary buffer that it
-- fills from the pool.
abbrev pub server_of : ServerNode → Server
server_of node = record {
  address = node.host_address;
  ip = node.host_ip;
  weight = node.weight;
  status = node.status;
}

pub auxiliary_buffer : List ServerNode → List Server
auxiliary_buffer pool = map server_of pool

-- The node that `init_scheduler` makes for a configured server.
abbrev pub init_node : CString × CString → ServerNode
init_node (name, ip) = record {
  host_address = name;
  host_ip = ip;
  weight = weight_default;
  status = server_status_ready;
}

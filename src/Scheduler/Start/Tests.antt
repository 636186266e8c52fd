-- ===== src/Scheduler/Start/Tests.antt =====
-- Runs of the scheduler's start, and the theorem about it on two servers.
use heimdall_web_switch.Prelude.{
  ℕ, ◌⊎◌, inl, inr, ◌≡◌, refl, true, false, none, some, List, [], ◌∷◌, length, arith, map, ◌==◌,
  if◌then◌else◌,
}
use heimdall_web_switch.Prelude.Int.{pos, eq_ℤ}
use heimdall_web_switch.Types.{CString, server_status_ready}
use heimdall_web_switch.Pointers.{Ptr}
use heimdall_web_switch.Circular.{Circular}
use heimdall_web_switch.ServerPool.{PoolHeap}
use heimdall_web_switch.ServerPool.Links.{IsPool}
use heimdall_web_switch.Scheduler.{update_pool, ServerNode, Answers, server_of, init_node}
use heimdall_web_switch.Scheduler.Update.{Answered, AllWellWeighted}
use heimdall_web_switch.Throwable.{ok_from, error_from, errno_text}
use heimdall_web_switch.Scheduler.Start.Rounds.{IsRenewed, IsEndless, update_round-Answered}
use heimdall_web_switch.Scheduler.Start.{
  Scheduler, init_scheduler, start_updater, awareness_level_low, awareness_level_high, asked,
  Updater,
}
use heimdall_web_switch.Scheduler.Start.Reset.{holding}
use heimdall_web_switch.Scheduler.Start.Order.{entries, node_of, init_scheduler-order}

abbrev no_nodes : PoolHeap
no_nodes a = none

abbrev fresh_circular : Circular
fresh_circular = record { buffer = []; buffer_position = 0; buffer_len = 5; head = 5; tail = 5 }

abbrev config_of : Ptr → CString × CString
config_of p = if p == 16 then (some "first", some "10.0.0.1") else (some "second", some "10.0.0.2")

abbrev up : Answers
up = record {
  set_url = ok_from "set_url";
  retrieve = ok_from "retrieve";
  parse = ok_from "parse";
  idle_workers = pos 7;
  busy_workers = pos 3;
}

abbrev silent : Answers
silent = record up { retrieve = error_from errno_text "retrieve" }

-- The first server is silent, the others are up.
abbrev answers : ℕ → Answers
answers k = if k == 0 then silent else up

abbrev two_servers : Updater
two_servers = record {
  nodes = init_node (config_of 16) ∷ init_node (config_of 32) ∷ [];
  circular = fresh_circular;
  up_since = 100;
}

answers-Answered : Answered (asked answers two_servers.nodes)
unfolding asked ok_from error_from
answers-Answered = (
  inr (record { url = refl; lost = refl }),
  (
    inl (record {
      url = refl;
      got = refl;
      parsed = refl;
      idle = (7, refl, omega arith);
      busy = (3, refl, omega arith);
    }),
    tt,
  ),
)

-- A silent server and one that is up, asked 60 seconds after the last time.
update_round-Answered_example :
    (nodes : List ServerNode) × (update_pool (asked answers two_servers.nodes) (pos 0)
      ≡ some (nodes, pos 0))
    × (length nodes ≡ length two_servers.nodes)
    × AllWellWeighted nodes
    × (IsRenewed (λ x. eq_ℤ x.status server_status_ready) 20 30 160 161 answers two_servers nodes
        ⊎ IsEndless
            (λ x. eq_ℤ x.status server_status_ready)
            20
            30
            160
            161
            answers
            two_servers
            nodes)
update_round-Answered_example =
    update_round-Answered (λ x. eq_ℤ x.status server_status_ready) 20 30 160 161 answers two_servers
      (λ x w. refl) (omega arith) (omega arith) answers-Answered (omega arith)

-- Two servers whose nodes are at the addresses 16 and 32.
init_scheduler-order_example :
    (s : Scheduler) × (init_scheduler 2 7
        (entries config_of 7 (16 ∷ 32 ∷ []))
        fresh_circular
        no_nodes
        true
        true
        awareness_level_high
        true
        true
      ≡ some (some s))
    × (s.circular
        ≡ holding fresh_circular (map (λ q. server_of (init_node (config_of q))) (16 ∷ 32 ∷ [])))
    × IsPool s.heap (node_of config_of 7) s.server_pool (16 ∷ 32 ∷ [])
    × (s.server_pool.num_servers ≡ 2)
init_scheduler-order_example =
    init_scheduler-order config_of 7 16 (32 ∷ []) fresh_circular no_nodes 2 awareness_level_high
      (omega arith, refl, (omega arith, refl, tt)) (omega arith)

-- At the high level the scheduler is dropped when its thread cannot be made.
start_updater-not_created : (s : Scheduler) → start_updater awareness_level_high false true s ≡ none
unfolding start_updater
start_updater-not_created s = refl

start_updater-low : (s : Scheduler) → start_updater awareness_level_low false true s ≡ some s
unfolding start_updater
start_updater-low s = refl

-- ===== src/Scheduler/Start/Order.antt =====
-- The first buffer of the round robin: the configured servers in their order (code/web_switch/scheduler.c and
-- code/web_switch/round_robin.c).
use heimdall_web_switch.Prelude.{
  ℕ, suc, ◌+◌, Bool-cases, inl, inr, ◌<◌, ◌≡◌, refl, ◌≢◌, ap, ap₂, sym, subst, ◌∙◌, true, false,
  some, List, [], ◌∷◌, ◌++◌, map, length, append-nil, append_assoc, arith,
}
use heimdall_web_switch.Prelude.Int.{ℤ, eq_ℤ}
use heimdall_web_switch.Throwable.{ok_from}
use heimdall_web_switch.Types.{CString, Server}
use heimdall_web_switch.Pointers.{Ptr, null, write, has, first}
use heimdall_web_switch.Circular.{Circular}
use heimdall_web_switch.RoundRobin.Even.{AllOne, weight_pattern-AllOne}
use heimdall_web_switch.Scheduler.{ServerNode, server_of, init_node}
use heimdall_web_switch.ServerPool.{PoolHeap, ServerPool, init_server_pool}
use heimdall_web_switch.ServerPool.Links.{
  pool_node, Linked, IsPool, Linked-frame, load_node, add_server-IsPool,
}
use heimdall_web_switch.Scheduler.Start.Reset.{holding, reset_from-holding}
use heimdall_web_switch.Scheduler.Start.{
  copy_servers, reset_from, reset_servers, add_all, Scheduler, start_updater, init_scheduler,
  awareness_level_high,
}

-- `reset_servers` finds the servers of the pool in their order.
copy_servers-Linked :
    (h : PoolHeap) (data_of : Ptr → ServerNode) (xs : List Ptr)
    → Linked h data_of xs
    → copy_servers (length xs) (first xs) h ≡ some (map (λ p. server_of (data_of p)) xs)
unfolding copy_servers
copy_servers-Linked h data_of [] c = refl
copy_servers-Linked h data_of (p ∷ xs) (ne, out, at, c) =
    rw (load_node p h (pool_node (data_of p) (first xs)) ne at)
      (rw (copy_servers-Linked h data_of xs c))

-- Fresh, distinct addresses that are not among `old`.
abbrev pub AreFresh : List Ptr → List Ptr → Type 0
AreFresh old [] = Unit {0}
AreFresh old (p ∷ ps) = (p ≢ null) × (has p old ≡ false) × AreFresh (old ++ (p ∷ [])) ps

module _ (config_of : Ptr → CString × CString) (junk : Ptr) where
  abbrev pub entries : List Ptr → List ((CString × CString) × Ptr)
  entries ps = map (λ p. (config_of p, p)) ps

  abbrev pub node_of : Ptr → ServerNode
  node_of p = init_node (config_of p)

  add_all-IsPool :
      (ps old : List Ptr) (pool : ServerPool) (h : PoolHeap)
      → IsPool h node_of pool old
      → AreFresh old ps
      → (pool' : ServerPool) × (g : PoolHeap) × (add_all junk (entries ps) pool h ≡ some (pool', g))
        × IsPool g node_of pool' (old ++ ps)
        × (pool'.num_servers ≡ pool.num_servers + length ps)
  unfolding add_all
  add_all-IsPool [] old pool h i fresh = (pool, h, refl, rw (append-nil old) i, omega arith)
  add_all-IsPool (p ∷ ps) old pool h i (ne, out, fresh) =
      let h' : PoolHeap = write h p (some (pool_node (node_of p) junk)) in
      let kept : IsPool h' node_of pool old = record {
        head = i.head;
        tail = i.tail;
        links =
            Linked-frame h h' node_of old i.links
              (λ a m. ground (arith, ap (λ q. has q old) {x = a} {y = p}));
      } in
      let new : h' p ≡ some (pool_node (node_of p) junk) = ground arith in
      let (pool1, g1, e1, i1, n1) = add_server-IsPool h' node_of pool old p junk kept ne out new in
      let (pool2, g2, e2, i2, n2) = add_all-IsPool ps (old ++ (p ∷ [])) pool1 g1 i1 fresh in
      (
        pool2,
        g2,
        rw e1 e2,
        subst (IsPool g2 node_of pool2) (append_assoc old (p ∷ []) ps) i2,
        omega (arith, n1, n2),
      )

-- The servers of nodes that `init_scheduler` makes have weight 1.
AllOne-init :
    (config_of : Ptr → CString × CString) (ps : List Ptr)
    → AllOne (map (λ p. server_of (init_node (config_of p))) ps)
AllOne-init config_of [] = tt
AllOne-init config_of (p ∷ ps) = (refl, AllOne-init config_of ps)

length-map : (f : Ptr → Server) (ps : List Ptr) → length (map f ps) ≡ length ps
length-map f [] = refl
length-map f (p ∷ ps) = ap suc (length-map f ps)

reset_from-AllOne :
    (x : Server) (xs : List Server) (c : Circular) (n fuel : ℕ)
    → AllOne (x ∷ xs)
    → n ≡ suc (length xs)
    → length xs < fuel
    → reset_from fuel c (x ∷ xs) n true true ≡ some (holding c (x ∷ xs), ok_from "reset_servers")
reset_from-AllOne x xs c n fuel ones e h =
    reset_from-holding fuel c (x ∷ xs) n (x ∷ xs) (suc (length xs))
      (rw e (weight_pattern-AllOne x xs fuel ones h)) refl (omega arith)

start_updater-fine : (level : ℤ) (s : Scheduler) → start_updater level true true s ≡ some s
unfolding start_updater
start_updater-fine level s = elim (Bool-cases (eq_ℤ level awareness_level_high)) [
  | inl high ↦ rw high
  | inr low ↦ rw low
]

module _ (config_of : Ptr → CString × CString) (junk : Ptr) where
  -- For one or more configured servers, whose nodes get distinct fresh addresses, when the mutex calls
  -- and, at the high level, those that make the thread succeed, `init_scheduler` does not fault and its loop
  -- ends within as many steps as there are servers: the scheduler's pool is these servers in their
  -- order, and its buffer holds each of them once, in this order, up and with weight 1, the head at the
  -- first.
  pub init_scheduler-order :
      (p : Ptr) (ps : List Ptr) (fresh_circular : Circular) (h : PoolHeap) (fuel : ℕ) (level : ℤ)
      → AreFresh [] (p ∷ ps)
      → length ps < fuel
      → (s : Scheduler) × (init_scheduler fuel junk
            (entries config_of junk (p ∷ ps))
            fresh_circular
            h
            true
            true
            level
            true
            true
          ≡ some (some s))
        × (s.circular
            ≡ holding fresh_circular (map (λ q. server_of (init_node (config_of q))) (p ∷ ps)))
        × IsPool s.heap (node_of config_of junk) s.server_pool (p ∷ ps)
        × (s.server_pool.num_servers ≡ length (p ∷ ps))
  unfolding init_scheduler reset_servers start_updater ok_from
  init_scheduler-order p ps c h fuel level fresh k =
      let servers = map (λ q. server_of (init_node (config_of q))) (p ∷ ps) in
      let empty : IsPool h (node_of config_of junk) init_server_pool [] = record {
        head = refl;
        tail = refl;
        links = tt;
      } in
      let (pool, g, added, i, count) =
        add_all-IsPool config_of junk (p ∷ ps) [] init_server_pool h empty fresh in
      let number : pool.num_servers ≡ suc (length ps) = omega (arith, count) in
      let copied : copy_servers pool.num_servers pool.head g ≡ some servers =
        ap₂ (λ n q. copy_servers n q g) number i.head
        ∙ copy_servers-Linked g (node_of config_of junk) (p ∷ ps) i.links in
      let len : pool.num_servers
          ≡ suc (length (map (λ q. server_of (init_node (config_of q))) ps)) =
        number ∙ ap suc (sym (length-map (λ q. server_of (init_node (config_of q))) ps)) in
      let reset : reset_from fuel c servers pool.num_servers true true
          ≡ some (holding c servers, ok_from "reset_servers") =
        reset_from-AllOne (server_of (init_node (config_of p)))
          (map (λ q. server_of (init_node (config_of q))) ps) c pool.num_servers fuel
          (AllOne-init config_of (p ∷ ps)) len
          (omega (arith, length-map (λ q. server_of (init_node (config_of q))) ps)) in
      let s : Scheduler = record { circular = holding c servers; server_pool = pool; heap = g } in
      (
        s,
        rw (added, init_scheduler)
            (rw (copied, reset_servers) (rw (reset) (rw (start_updater-fine level s) refl))),
        refl,
        i,
        number,
      )

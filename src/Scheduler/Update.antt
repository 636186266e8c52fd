-- ===== src/Scheduler/Update.antt =====
-- The update of the pool (`update_server_routine` of code/web_switch/scheduler.c).
use heimdall_web_switch.Prelude.{
  ℕ, ◌<◌, ◌≤◌, ◌≡◌, refl, ◌⊎◌, inl, inr, true, false, some, List, [], ◌∷◌, arith, length,
}
use heimdall_web_switch.Prelude.Int.{ℤ, pos, ltb_ℤ, eq_ℤ}
use heimdall_web_switch.Types.{server_status_ready, server_status_broken}
use heimdall_web_switch.RoundRobin.Exchange.{NonNeg, total}
use heimdall_web_switch.Scheduler.{
  ServerNode, Answers, apache_score, update_pool, auxiliary_buffer, score, failed, weight_default,
}
use heimdall_web_switch.Throwable.{Throwable, thrown, ok_from}
use heimdall_web_switch.Scheduler.Score.{score-range}

-- Answers of a server that is up: every call succeeded and the page gave both counts.
pub record IsUp (a : Answers) : Type 0 where
  pub url : failed a.set_url ≡ false
  pub got : failed a.retrieve ≡ false
  pub parsed : failed a.parse ≡ false
  pub idle : (n : ℕ) × (a.idle_workers ≡ pos n) × (0 < n)
  pub busy : (m : ℕ) × (a.busy_workers ≡ pos m) × (0 < m)

-- Answers of a server that does not reply.
pub record IsSilent (a : Answers) : Type 0 where
  pub url : failed a.set_url ≡ false
  pub lost : failed a.retrieve ≡ true

-- The weight that the update gives is from 1 to 5.
abbrev pub WellWeighted : ServerNode → Type 0
WellWeighted n = (w : ℕ) × (n.weight ≡ pos w) × (1 ≤ w) × (w ≤ 5)

still_failed : (t : Throwable) → failed t ≡ true → failed (thrown t "apache_score") ≡ true
unfolding thrown
still_failed t h = h

-- A server that does not reply is marked broken, its weight is from 1 to 5, and the call reports an
-- error.
pub apache_score-silent :
    (node : ServerNode) (a : Answers)
    → IsSilent a
    → (node' : ServerNode) × (t : Throwable) × (apache_score node a ≡ some (node', t))
      × (failed t ≡ true)
      × (node'.status ≡ server_status_broken)
      × WellWeighted node'
unfolding apache_score
apache_score-silent node a s = (
  record node { weight = weight_default; status = server_status_broken },
  thrown a.retrieve "apache_score",
  rw (s.url, s.lost),
  still_failed a.retrieve s.lost,
  refl,
  (1, refl, omega arith, omega arith),
)

-- A server that answers with both counts above 0 is marked ready, its weight is from 1 to 5, and the
-- call reports no error.
pub apache_score-up :
    (node : ServerNode) (a : Answers)
    → IsUp a
    → (node' : ServerNode) × (t : Throwable) × (apache_score node a ≡ some (node', t))
      × (failed t ≡ false)
      × (node'.status ≡ server_status_ready)
      × WellWeighted node'
unfolding apache_score ok_from
apache_score-up node a u =
    let (n, idle, some_idle) = u.idle in
    let (m, busy, some_busy) = u.busy in
    let (w, scored, low, high) = score-range n m some_idle (omega arith) in
    let counts : ltb_ℤ a.idle_workers (pos 0) ≡ false = rw idle (ground arith) in
    let result : score a.idle_workers a.busy_workers ≡ some (pos w) = rw (idle, busy) scored in
    (
      record node { status = server_status_ready; weight = pos w },
      ok_from "apache_score",
      rw (u.url, u.got, u.parsed, counts, result),
      refl,
      refl,
      (w, refl, low, high),
    )

abbrev pub Answered : List (ServerNode × Answers) → Type 0
Answered [] = Unit {0}
Answered ((node, a) ∷ rest) = (IsUp a ⊎ IsSilent a) × Answered rest

abbrev pub AllWellWeighted : List ServerNode → Type 0
AllWellWeighted [] = Unit {0}
AllWellWeighted (n ∷ ns) = WellWeighted n × AllWellWeighted ns

-- When each server of the pool is up and gave its counts, with a worker idle and one busy, or does not
-- reply, the scan of the pool gives every server a weight from 1 to 5, keeps their number, and leaves
-- `proceed` as it was, so that the round robin is reset.
pub update_pool-Answered :
    (l : List (ServerNode × Answers)) (proceed : ℤ)
    → Answered l
    → (nodes : List ServerNode) × (update_pool l proceed ≡ some (nodes, proceed))
      × (length nodes ≡ length l)
      × AllWellWeighted nodes
unfolding update_pool
update_pool-Answered [] proceed all = ([], refl, refl, tt)
update_pool-Answered ((node, a) ∷ rest) proceed (inl up, all) =
    let (node', t, e, fine, ready, well) = apache_score-up node a up in
    let (nodes, e', len, wells) = update_pool-Answered rest proceed all in
    (node' ∷ nodes, rw (e, fine, e', update_pool), omega (arith, len), (well, wells))
update_pool-Answered ((node, a) ∷ rest) proceed (inr silent, all) =
    let (node', t, e, bad, broken, well) = apache_score-silent node a silent in
    let (nodes, e', len, wells) = update_pool-Answered rest proceed all in
    let test : eq_ℤ node'.status server_status_broken ≡ true = rw broken refl in
    (node' ∷ nodes, rw (e, bad, test, e', update_pool), omega (arith, len), (well, wells))

-- What `reset_servers` hands on to be weighted after such an update: as many servers as the pool has,
-- none with a negative weight, and at least that much weight in all.
pub auxiliary_buffer-NonNeg :
    (nodes : List ServerNode)
    → AllWellWeighted nodes
    → NonNeg (auxiliary_buffer nodes)
      × (length (auxiliary_buffer nodes) ≡ length nodes)
      × (length nodes ≤ total (auxiliary_buffer nodes))
unfolding auxiliary_buffer
auxiliary_buffer-NonNeg [] all = (tt, refl, omega arith)
auxiliary_buffer-NonNeg (n ∷ ns) ((w, e, low, high), all) =
    let (nonneg, len, heavy) = auxiliary_buffer-NonNeg ns all in
    ((ground arith, nonneg), omega (arith, len), ground (arith, heavy))

-- ===== src/RoundRobin/Turns.antt =====
-- Successive calls of `get_server` (code/web_switch/round_robin.c) while every server is up.
use heimdall_web_switch.Prelude.{
  ℕ, zero, suc, ◌+◌, ◌%◌, ◌<◌, ◌≡◌, refl, sym, ap₂, true, arith, Option, none, some, List, [], ◌∷◌,
}
use heimdall_web_switch.Prelude.{length, get_or}
use heimdall_web_switch.Types.{Server, server_status_ready}
use heimdall_web_switch.Prelude.Int.{eq_ℤ}
use heimdall_web_switch.Circular.{Circular, progress, at_tail, no_server}
use heimdall_web_switch.RoundRobin.{find_ready, get_server}
use heimdall_web_switch.RoundRobin.Scan.{
  IsReady, entry, IsRing, IsSynced, progress-IsRing, progress-IsSynced,
}

-- The servers that `k` calls in a row return.
pub turns : ℕ → Circular → Option (List Server)
turns zero c = some []
turns (suc k) c = elim (get_server c) [
  | none ↦ none
  | some (c', out) ↦ elim (turns k c') [ none ↦ none | some outs ↦ some (out ∷ outs) ]
]

-- `k` entries of a buffer from index `i` on, going round.
abbrev pub window : List Server → ℕ → ℕ → List Server
window buffer i zero = []
window buffer i (suc k) = get_or buffer i no_server ∷ window buffer ((i + 1) % length buffer) k

find_ready-up :
    (rounds k : ℕ) (c : Circular) (current : Server)
    → 0 < rounds
    → IsReady current
    → find_ready rounds c current k ≡ some (c, current)
unfolding find_ready
find_ready-up zero k c current h up = absurd (omega arith)
find_ready-up (suc rounds) k c current h up =
    let test : eq_ℤ current.status server_status_ready ≡ true = rw up refl in rw test

get_server-all_up :
    (c : Circular)
    → IsRing c
    → ((j : ℕ) → j < c.buffer_len → IsReady (entry c j))
    → get_server c ≡ some (progress c, entry c c.head)
unfolding get_server
get_server-all_up c v up =
    find_ready-up c.buffer_len 0 (progress c) (at_tail (progress c)) (omega (arith, v.in_range))
      (up c.head v.head_in)

module _ (c : Circular) where
  next_head : IsRing c → IsSynced c → (progress c).head ≡ (c.head + 1) % length c.buffer
  unfolding progress
  next_head v synced = ap₂ (λ h n. (h + 1) % n) (sym synced) v.len

  same_buffer : (progress c).buffer ≡ c.buffer
  unfolding progress
  same_buffer = refl

  still_up :
      ((j : ℕ) → j < c.buffer_len → IsReady (entry c j))
      → (j : ℕ) → j < (progress c).buffer_len
      → IsReady (entry (progress c) j)
  unfolding progress
  still_up up = up

-- While every server of the buffer is up, any number of calls of `get_server` returns the entries of
-- the buffer in order from the head on, round the buffer.
pub turns-window :
    (k : ℕ) (c : Circular)
    → IsRing c
    → IsSynced c
    → ((j : ℕ) → j < c.buffer_len → IsReady (entry c j))
    → turns k c ≡ some (window c.buffer c.head k)
unfolding turns
turns-window zero c v synced up = refl
turns-window (suc k) c v synced up =
    let next : (progress c).head ≡ (c.head + 1) % length c.buffer = next_head c v synced in
    let rest =
      turns-window k (progress c) (progress-IsRing c v) (progress-IsSynced c) (still_up c up) in
    rw (get_server-all_up c v up, rest, turns) (rw (same_buffer c, next))

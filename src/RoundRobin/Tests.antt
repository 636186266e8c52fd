-- ===== src/RoundRobin/Tests.antt =====
-- The theorems on the weighted round robin at two servers.
use heimdall_web_switch.Prelude.{
  ℕ, zero, suc, ◌≢◌, ◌≡◌, refl, ◌⊎◌, ◌<◌, true, some, none, List, [], ◌∷◌, Bool, arith, length,
  get_or, count_if,
}
use heimdall_web_switch.Prelude.Int.{pos, eq_ℤ, ℤ}
use heimdall_web_switch.Types.{Server, server_status_ready, server_status_broken}
use heimdall_web_switch.Circular.{Circular, allocate_buffer, no_server}
use heimdall_web_switch.RoundRobin.{weight_pattern, get_server}
use heimdall_web_switch.RoundRobin.Pattern.{weight_pattern-Ascending, weight_pattern-unsorted}
use heimdall_web_switch.RoundRobin.Scan.{
  IsReady, entry, IsRing, get_server-IsReady, get_server-stale,
}
use heimdall_web_switch.RoundRobin.Turns.{turns, window, turns-window}

abbrev server_of : ℤ → ℤ → Server
server_of weight status = record {
  address = none;
  ip = some "10.0.0.1";
  weight = weight;
  status = status;
}

abbrev light : Server
light = server_of (pos 1) server_status_broken

abbrev heavy : Server
heavy = server_of (pos 2) server_status_ready

abbrev is_up : Server → Bool
is_up x = eq_ℤ x.status server_status_ready

weight_pattern-Ascending_example :
    (pat : List Server) × (weight_pattern 6 (light ∷ heavy ∷ []) 2 ≡ some (pat, pos 3))
    × (length pat ≡ 3)
    × (count_if is_up pat ≡ 2)
weight_pattern-Ascending_example =
    weight_pattern-Ascending is_up 1 6 (light ∷ heavy ∷ []) (λ x w. refl) refl (refl, (refl, tt))
      ((omega arith, tt), (tt, tt)) (omega arith) (omega arith)

weight_pattern-unsorted_example : weight_pattern 100 (heavy ∷ light ∷ []) 2 ≡ none
weight_pattern-unsorted_example =
    weight_pattern-unsorted 1 100 (heavy ∷ light ∷ []) refl (refl, (refl, tt))
      (λ a. absurd (omega (arith, a.0.0)))

abbrev ring_of : List Server → Circular
ring_of servers = record {
  buffer = servers;
  buffer_position = 0;
  buffer_len = length servers;
  head = 0;
  tail = 1;
}

abbrev half_up : Circular
half_up = ring_of (light ∷ heavy ∷ [])

half_up-IsRing : IsRing half_up
half_up-IsRing = record { len = refl; in_range = omega arith; head_in = omega arith }

get_server-IsReady_example :
    (c' : Circular) × (out : Server) × (get_server half_up ≡ some (c', out))
    × (IsReady out × ((j : ℕ) × (j < 2) × (out ≡ entry half_up j))
        ⊎ (out.status ≡ server_status_broken) × ((j : ℕ) → j < 2 → ¬ IsReady (entry half_up j)))
get_server-IsReady_example = get_server-IsReady half_up half_up-IsRing refl

abbrev stale : Circular
stale = record { buffer = []; buffer_position = 1; buffer_len = 2; head = 1; tail = 0 }

only_first : (j : ℕ) → j < 2 → j ≢ 1 → ¬ IsReady (get_or (light ∷ heavy ∷ []) j no_server)
only_first zero h ne = λ e. cc e
only_first (suc zero) h ne = absurd (ne refl)
only_first (suc (suc j)) h ne = absurd (omega arith)

get_server-stale_example :
    (c' : Circular) × (out : Server) × (get_server
        (allocate_buffer stale (some (light ∷ heavy ∷ [])) 2 true true).0
      ≡ some (c', out))
    × (out.status ≡ server_status_broken)
get_server-stale_example =
    get_server-stale stale (light ∷ heavy ∷ []) 2 1 refl (omega arith) (omega arith) refl only_first

abbrev all_up : Circular
all_up = ring_of (heavy ∷ heavy ∷ [])

both : (j : ℕ) → j < 2 → IsReady (entry all_up j)
both zero h = refl
both (suc zero) h = refl
both (suc (suc j)) h = absurd (omega arith)

turns-window_example : turns 3 all_up ≡ some (window all_up.buffer 0 3)
turns-window_example =
    turns-window 3 all_up (record { len = refl; in_range = omega arith; head_in = omega arith })
      refl both

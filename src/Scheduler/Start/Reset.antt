-- ===== src/Scheduler/Start/Reset.antt =====
-- The end of `reset_servers`: a pattern becomes the buffer (code/web_switch/round_robin.c and
-- code/web_switch/circular.c).
use heimdall_web_switch.Prelude.{
  ℕ, ◌<◌, ◌-◌, ◌≡◌, refl, true, false, some, none, List, length, arith, ◌==◌,
}
use heimdall_web_switch.Prelude.Int.{pos}
use heimdall_web_switch.Throwable.{ok_from, propagate}
use heimdall_web_switch.Types.{Server}
use heimdall_web_switch.Circular.{Circular, allocate_buffer}
use heimdall_web_switch.RoundRobin.{weight_pattern}
use heimdall_web_switch.Scheduler.Start.{reset_from, weight_servers}

-- The buffer that holds exactly these servers, with its head at the first and its tail at the last.
abbrev pub holding : Circular → List Server → Circular
holding c servers = record c {
  buffer = servers;
  buffer_len = length servers;
  head = 0;
  tail = length servers - 1;
}

allocate_buffer-holding :
    (c : Circular) (xs : List Server) (n : ℕ)
    → length xs ≡ n
    → 0 < n
    → allocate_buffer c (some xs) n true true ≡ (holding c xs, ok_from "allocate_buffer")
unfolding allocate_buffer ok_from propagate
allocate_buffer-holding c xs n e h =
    let some_left : (n == 0) ≡ false = ground arith in rw (e, some_left) refl

pub reset_from-holding :
    (fuel : ℕ) (c : Circular) (xs : List Server) (n : ℕ) (pat : List Server) (w : ℕ)
    → weight_pattern fuel xs n ≡ some (pat, pos w)
    → length pat ≡ w
    → 0 < w
    → reset_from fuel c xs n true true ≡ some (holding c pat, ok_from "reset_servers")
unfolding reset_from weight_servers ok_from
reset_from-holding fuel c xs n pat w made len h =
    rw (made, reset_from, weight_servers) (rw (allocate_buffer-holding c pat w len h) refl)

pub reset_from-endless :
    (fuel : ℕ) (c : Circular) (xs : List Server) (n : ℕ)
    → weight_pattern fuel xs n ≡ none
    → reset_from fuel c xs n true true ≡ none
unfolding reset_from weight_servers
reset_from-endless fuel c xs n made = rw (made, reset_from, weight_servers)

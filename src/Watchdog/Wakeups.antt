-- ===== src/Watchdog/Wakeups.antt =====
-- When the watchdog of code/web_switch/watchdog.c ends a connection, and the sleep it asks for.
use heimdall_web_switch.Prelude.{
  ℕ, ◌^◌, ◌<◌, ◌≡◌, refl, ◌↔◌, true, false, List, [], ◌∷◌, ◌++◌, arith,
}
use heimdall_web_switch.Prelude.Int.{ℤ, pos, ltb_ℤ, ◌-ℤ◌, pos_part, neg_part}
use heimdall_web_switch.Throwable.{status_ok, ok_from}
use heimdall_web_switch.Helper.{Strtol}
use heimdall_web_switch.Helper.Convert.{IsNumeral, str_to_long-IsNumeral}
use heimdall_web_switch.Watchdog.{
  Watchdog, Timespec, watch_over_code, detach_watchdog, watch_over, sleep_request, Sleep, slept,
  interrupted, bad_address, watch_loop,
}

-- Wakeups at which the worker is not over its time, and interrupted sleeps.
abbrev pub Calm : ℤ → List Sleep → Type 0
Calm timeout [] = Unit {0}
Calm timeout (slept timestamp now ∷ sleeps) =
    (ltb_ℤ timeout (now -ℤ timestamp) ≡ false) × Calm timeout sleeps
Calm timeout (interrupted rem_nsec ∷ sleeps) = Calm timeout sleeps
Calm timeout (bad_address ∷ sleeps) = ⊥

-- However often the watchdog has woken up without the worker being over its time, and however often its
-- sleep was interrupted, it does not end; at the first wakeup at which the worker is over its time it
-- raises the worker's flag and ends with STATUS_OK.
pub watch_loop-Calm :
    (watchdog : Watchdog) (request : Timespec) (calm rest : List Sleep) (timestamp now : ℤ)
    → Calm watchdog.timeout_worker calm
    → ltb_ℤ watchdog.timeout_worker (now -ℤ timestamp) ≡ true
    → ((watch_loop watchdog request calm).1 ≡ false)
      × ((watch_loop watchdog request calm).0.worker_await_flag ≡ watchdog.worker_await_flag)
      × (watch_loop watchdog request (calm ++ (slept timestamp now ∷ rest)) ≡ (
        record watchdog {
          status = status_ok;
          worker_await_flag = watch_over_code;
          timestamp_worker = timestamp;
        },
        true,
      ))
unfolding watch_loop watch_over
watch_loop-Calm watchdog request [] rest timestamp now calm late = (refl, refl, rw late)
watch_loop-Calm watchdog request (slept t n ∷ sleeps) rest timestamp now (early, calm) late =
    rw early (
      watch_loop-Calm (record watchdog { timestamp_worker = t })
        (sleep_request (record watchdog { timestamp_worker = t })) sleeps rest timestamp now calm
        late)
watch_loop-Calm watchdog request (interrupted r ∷ sleeps) rest timestamp now calm late =
    watch_loop-Calm watchdog (record request { tv_nsec = r }) sleeps rest timestamp now calm late
watch_loop-Calm watchdog request (bad_address ∷ sleeps) rest timestamp now calm late = absurd calm

-- What `nanosleep` takes: the nanoseconds are less than a second.
pub record IsTimespec (t : Timespec) : Type 0 where
  pub seconds : neg_part t.tv_sec ≡ 0
  pub nanoseconds : (neg_part t.tv_nsec ≡ 0) × (pos_part t.tv_nsec < 10 ^ 9)

-- For a `killer_time` that is not negative, the sleep that the watchdog asks for is one that `nanosleep`
-- takes exactly when `killer_time` is less than a second.
pub sleep_request-IsTimespec :
    (watchdog : Watchdog) (n : ℕ)
    → watchdog.killer_time ≡ pos n
    → IsTimespec (sleep_request watchdog) ↔ (n < 10 ^ 9)
unfolding sleep_request
sleep_request-IsTimespec watchdog n e = (
  λ t. ground (arith, t.nanoseconds),
  λ h. record { seconds = rw e (ground arith); nanoseconds = rw e (refl, h) },
)

-- With two numerals in the configuration `detach_watchdog` sets both times and returns STATUS_OK.
pub detach_watchdog-IsNumeral :
    (watchdog : Watchdog) (killer_time timeout_worker : Strtol)
    → IsNumeral killer_time
    → IsNumeral timeout_worker
    → detach_watchdog watchdog killer_time timeout_worker ≡ (
      record watchdog { killer_time = killer_time.value; timeout_worker = timeout_worker.value },
      ok_from "detach_watchdog",
    )
unfolding detach_watchdog ok_from
detach_watchdog-IsNumeral watchdog k t nk nt =
    rw (str_to_long-IsNumeral k nk, str_to_long-IsNumeral t nt)

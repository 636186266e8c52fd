-- ===== src/Watchdog/Tests.antt =====
-- The theorems on the watchdog at a timeout of 5 seconds and a wakeup every half second.
use heimdall_web_switch.Prelude.{◌≡◌, refl, true, false, List, [], ◌∷◌, ◌++◌}
use heimdall_web_switch.Prelude.Int.{pos, ◌-ℤ◌}
use heimdall_web_switch.Throwable.{status_ok}
use heimdall_web_switch.Watchdog.{
  Watchdog, watch_over_code, sleep_request, Sleep, slept, interrupted, watch_loop,
}
use heimdall_web_switch.Watchdog.Wakeups.{watch_loop-Calm}

abbrev watchdog : Watchdog
watchdog = record {
  status = status_ok;
  worker_await_flag = pos 0;
  killer_time = pos 500000000;
  timeout_worker = pos 5;
  timestamp_worker = pos 100;
}

abbrev calm : List Sleep
calm = slept (pos 100) (pos 101) ∷ interrupted (pos 3) ∷ slept (pos 100) (pos 105) ∷ []

watch_loop-Calm_example :
    ((watch_loop watchdog (sleep_request watchdog) calm).1 ≡ false)
    × ((watch_loop watchdog (sleep_request watchdog) calm).0.worker_await_flag ≡ pos 0)
    × (watch_loop watchdog (sleep_request watchdog) (calm ++ (slept (pos 100) (pos 106) ∷ [])) ≡ (
      record watchdog {
        status = status_ok;
        worker_await_flag = watch_over_code;
        timestamp_worker = pos 100;
      },
      true,
    ))
unfolding ◌-ℤ◌
watch_loop-Calm_example =
    watch_loop-Calm watchdog (sleep_request watchdog) calm [] (pos 100) (pos 106) (refl, (refl, tt))
      refl

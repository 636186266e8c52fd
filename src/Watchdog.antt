-- ===== src/Watchdog.antt =====
-- code/web_switch/watchdog.c: the thread that ends a worker's idle connection.
-- The worker's flag stands in the record, for the pointer to it. What `strtol`, `nanosleep` and `time`
-- answer are arguments; the allocation of the two time structures is taken to succeed.
pub mod Wakeups
mod Tests
use heimdall_web_switch.Prelude.{ℕ, ◌/◌, ◌^◌, Bool, true, false, List, [], ◌∷◌, if◌then◌else◌}
use heimdall_web_switch.Prelude.Int.{ℤ, pos, pos_part, neg_part, sub_ℕ, ltb_ℤ, eq_ℤ, ◌-ℤ◌}
use heimdall_web_switch.Throwable.{Throwable, status_ok, status_error, thrown, ok_from}
use heimdall_web_switch.Helper.{Strtol, str_to_long}

-- WATCH_OVER of code/include/watchdog.h
abbrev pub watch_over_code : ℤ
watch_over_code = pos 42

pub record Watchdog : Type 0 where
  pub status : ℤ
  pub worker_await_flag : ℤ
  pub killer_time : ℤ
  pub timeout_worker : ℤ
  pub timestamp_worker : ℤ

pub detach_watchdog : Watchdog → (killer_time timeout_worker : Strtol) → Watchdog × Throwable
unfolding thrown
detach_watchdog watchdog killer_time timeout_worker =
    let (k_time, first) = str_to_long killer_time in
    let (out_time, second) = str_to_long timeout_worker in
    if eq_ℤ first.status status_ok
    then (if eq_ℤ second.status status_ok
        then (
          record watchdog { killer_time = k_time; timeout_worker = out_time },
          ok_from "detach_watchdog",
        )
        else (watchdog, thrown second "detach_watchdog"))
    else (watchdog, thrown first "detach_watchdog")

pub watch_over : Watchdog → (running_timestamp current_timestamp : ℤ) → Watchdog × ℤ
watch_over watchdog running_timestamp current_timestamp =
    if ltb_ℤ watchdog.timeout_worker (current_timestamp -ℤ running_timestamp)
    then (record watchdog { worker_await_flag = watch_over_code }, watch_over_code)
    else (watchdog, status_ok)

pub record Timespec : Type 0 where
  pub tv_sec : ℤ
  pub tv_nsec : ℤ

-- The time that the loop of `enable_watchdog` asks `nanosleep` for.
pub sleep_request : Watchdog → Timespec
sleep_request watchdog = record {
  tv_sec = sub_ℕ (pos_part watchdog.killer_time / 10 ^ 9) (neg_part watchdog.killer_time / 10 ^ 9);
  tv_nsec = watchdog.killer_time;
}

-- How a call of `nanosleep` ends. After a whole sleep the timestamp is what the worker has written
-- there by then, and `now` what `time` gives. EFAULT is `bad_address`; after another error `rem_nsec` is
-- in `rem_time`.
pub data Sleep : Type 0 where
  slept : (timestamp now : ℤ) → Sleep
  interrupted : (rem_nsec : ℤ) → Sleep
  bad_address : Sleep

-- The loop of `enable_watchdog`, about to sleep for `request`: the watchdog, and whether the thread has
-- returned when the answers are used up.
pub watch_loop : Watchdog → Timespec → List Sleep → Watchdog × Bool
unfolding watch_over sleep_request
watch_loop watchdog request [] = (watchdog, false)
watch_loop watchdog request (interrupted rem_nsec ∷ sleeps) =
    watch_loop watchdog (record request { tv_nsec = rem_nsec }) sleeps
watch_loop watchdog request (bad_address ∷ sleeps) =
    (record watchdog { status = status_error }, true)
watch_loop watchdog request (slept timestamp now ∷ sleeps) =
    let (watchdog', watch_status) =
      watch_over (record watchdog { timestamp_worker = timestamp }) timestamp now in
    let on = watch_loop watchdog' (sleep_request watchdog') sleeps in
    if eq_ℤ watch_status watch_over_code
    then (record watchdog' { status = status_ok }, true)
    else on

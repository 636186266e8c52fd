-- ===== src/Log/Tests.antt =====
-- The log at a numeral level, at a level that is no number, and with a file that is not open.
use heimdall_web_switch.Prelude.{◌≡◌, refl, inl, true, false, none, some, []}
use heimdall_web_switch.Prelude.Int.{ℤ, pos}
use heimdall_web_switch.Throwable.{ok_from, error_from}
use heimdall_web_switch.Scheduler.{failed}
use heimdall_web_switch.Helper.{Strtol, str_to_int}
use heimdall_web_switch.HttpRequest.{new_http_request}
use heimdall_web_switch.Log.{
  Settings, Line, formatted, exhausted, stdout, stderr, of_throwable, e, t, i, d,
}
use heimdall_web_switch.Log.Levels.{Says, logs-IsBroken, logs-Taken}
use heimdall_web_switch.Log.Files.{rqst_arg, Files, FileLine, Recorded, r}

-- "3", "1" and "info".
abbrev three : Strtol
three = record {
  value = pos 3;
  consumed = 1;
  string_len = 1;
  errno_set = false;
  out_of_range = false;
}

abbrev one : Strtol
one = record {
  value = pos 1;
  consumed = 1;
  string_len = 1;
  errno_set = false;
  out_of_range = false;
}

abbrev info : Strtol
info = record {
  value = pos 0;
  consumed = 0;
  string_len = 4;
  errno_set = false;
  out_of_range = false;
}

abbrev settings : Settings
settings = record { log_level = three; print_enable = one; write_enable = one }

abbrev worded : Settings
worded = record { log_level = info; print_enable = one; write_enable = one }

abbrev eight : Line → ℤ
eight _ = pos 8

abbrev six : FileLine → ℤ
six _ = pos 6

refused : failed (str_to_int info).1 ≡ true
unfolding str_to_int error_from
refused = refl

logs-IsBroken_example :
    (i eight 5 worded "MAIN" (formatted "up") [] ≡ exhausted)
    × (d eight 5 worded "MAIN" (formatted "up") [] ≡ exhausted)
    × (e eight 5 worded "MAIN" (formatted "up") [] ≡ exhausted)
    × (t eight 5 worded [] (ok_from "main") ≡ exhausted)
logs-IsBroken_example =
    logs-IsBroken eight 5 worded "MAIN" (formatted "up") (ok_from "main") [] (inl refused)

taken_three : ((str_to_int three).0 ≡ pos 3) × (failed (str_to_int three).1 ≡ false)
unfolding str_to_int ok_from
taken_three = (refl, refl)

taken_one : ((str_to_int one).0 ≡ pos 1) × (failed (str_to_int one).1 ≡ false)
unfolding str_to_int ok_from
taken_one = (refl, refl)

logs-Taken_example :
    Says eight 3 3 1
      (record { stream = stdout; letter = "I"; tag = "MAIN"; body = formatted "up" })
      []
      (i eight 1 settings "MAIN" (formatted "up") [])
    × Says eight 2 3 1
        (record { stream = stdout; letter = "D"; tag = "MAIN"; body = formatted "up" })
        []
        (d eight 1 settings "MAIN" (formatted "up") [])
    × Says eight 4 3 1
        (record { stream = stderr; letter = "E"; tag = "MAIN"; body = formatted "up" })
        []
        (e eight 1 settings "MAIN" (formatted "up") [])
    × Says eight 4 3 1
        (record {
          stream = stderr;
          letter = "E";
          tag = "Throwable";
          body = of_throwable (ok_from "main");
        })
        []
        (t eight 1 settings [] (ok_from "main"))
logs-Taken_example =
    logs-Taken eight 0 settings "MAIN" (formatted "up") (ok_from "main") [] 3 1 taken_three
      taken_one

-- The file of the requests is not open.
abbrev half_open : Files
half_open = record { req_log = none; resp_log = some [] }

abbrev ended : Recorded
ended = r eight six 1 settings (rqst_arg new_http_request) [] 7 half_open []

-- ===== src/Config/Tests.antt =====
-- The theorem on the configuration at two lines with one key.
use heimdall_web_switch.Prelude.{
  ℕ, ◌≡◌, refl, Option, none, some, List, [], ◌∷◌, map, arith, get_or,
}
use heimdall_web_switch.HttpRequest.{Chars}
use heimdall_web_switch.HttpRequest.FirstLine.{ZeroFree}
use heimdall_web_switch.HttpRequest.Headers.{codes}
use heimdall_web_switch.Config.Servers.{count_server}
use heimdall_web_switch.Config.Servers.Entries.{name_of, file_of}
use heimdall_web_switch.Config.Settings.{Config, get_config}
use heimdall_web_switch.Config.Settings.Stored.{fields, get_config-last}
use heimdall_web_switch.Config.Lines.{Line, setting, array_of, IsSetting, Without}

-- A name with "IP" at an even distance from the start of its line is counted as an address.
count_server-name : count_server (file_of (name_of (codes "xIP") ∷ [])) ≡ 1
unfolding count_server
count_server-name = refl

-- A configuration in fresh memory, and one that holds two settings of one key.
abbrev fresh : Config
fresh = record {
  algorithm_selection = none;
  pre_fork = none;
  print_enable = none;
  log_level = none;
  write_enable = none;
  log_file_req = none;
  log_file_resp = none;
  timeout_worker = none;
  killer_time = none;
  update_time = none;
  server_config = none;
  server_main_port = none;
  backlog = none;
  max_fd = none;
  sockets_path = none;
  max_thread_pchild = none;
}

abbrev twice : List Line
twice =
    setting (codes "backlog") (codes "5") (0 ∷ [])
    ∷ setting (codes "backlog") (codes "7") (0 ∷ [])
    ∷ []

backlog_form :
    (value : Chars) → Without b'\n' value → ZeroFree value → IsSetting (codes "backlog") value
backlog_form value w z = ((omega arith, omega arith), (w, z))

get_config-last_example :
    (config : Config) × (get_config some none (some (map array_of twice)) fresh
      ≡ some (some config))
    × (get_or (fields config) 12 none ≡ some (codes "7"))
    × ((lines' : Option (List (List ℕ))) (fresh' : Config)
        → get_config some (some config) lines' fresh' ≡ some (some config))
get_config-last_example =
    get_config-last some twice fresh 12
      (
        (backlog_form (codes "5") (omega arith) (omega arith), refl, (12, refl), refl),
        ((backlog_form (codes "7") (omega arith) (omega arith), refl, (12, refl), refl), tt),
      )
      (omega arith)

-- ===== src/Config/Settings.antt =====
-- The configuration of code/config/heimdall_config.c: `config_handler`, which stores what `init_config`
-- reads, and `get_config`.
-- `copy` is what `asprintf` makes of a value: the copied string, or `none` for -1. A field that nothing was
-- stored in holds what `malloc` left there.
pub mod Stored
use heimdall_web_switch.Prelude.{ℕ, if◌then◌else◌, Option, none, some, List, [], ◌∷◌}
use heimdall_web_switch.Prelude.Int.{ℤ, pos, negsuc, eq_ℤ}
use heimdall_web_switch.HttpRequest.{Chars}
use heimdall_web_switch.HttpRequest.Headers.{codes, eq_chars}
use heimdall_web_switch.Config.{init_config}

pub record Config : Type 0 where
  pub algorithm_selection : Option Chars
  pub pre_fork : Option Chars
  pub print_enable : Option Chars
  pub log_level : Option Chars
  pub write_enable : Option Chars
  pub log_file_req : Option Chars
  pub log_file_resp : Option Chars
  pub timeout_worker : Option Chars
  pub killer_time : Option Chars
  pub update_time : Option Chars
  pub server_config : Option Chars
  pub server_main_port : Option Chars
  pub backlog : Option Chars
  pub max_fd : Option Chars
  pub sockets_path : Option Chars
  pub max_thread_pchild : Option Chars

-- `asprintf` into a field.
abbrev pub store : Option Chars → Config → (Chars → Config) → Config × ℤ
store none config put = (config, negsuc 0)
store (some string) config put = (put string, pos 0)

module _ (copy : Chars → Option Chars) where
  pub config_handler : Chars → Chars → Config → Config × ℤ
  config_handler key value c =
      let s = store (copy value) c in
      if eq_chars key (codes "algorithm_selection")
      then s (λ v. record c { algorithm_selection = some v })
      else if eq_chars key (codes "pre_fork")
      then s (λ v. record c { pre_fork = some v })
      else if eq_chars key (codes "print_enable")
      then s (λ v. record c { print_enable = some v })
      else if eq_chars key (codes "log_level")
      then s (λ v. record c { log_level = some v })
      else if eq_chars key (codes "write_enable")
      then s (λ v. record c { write_enable = some v })
      else if eq_chars key (codes "log_file_req")
      then s (λ v. record c { log_file_req = some v })
      else if eq_chars key (codes "log_file_resp")
      then s (λ v. record c { log_file_resp = some v })
      else if eq_chars key (codes "timeout_worker")
      then s (λ v. record c { timeout_worker = some v })
      else if eq_chars key (codes "killer_time")
      then s (λ v. record c { killer_time = some v })
      else if eq_chars key (codes "update_time")
      then s (λ v. record c { update_time = some v })
      else if eq_chars key (codes "server_config")
      then s (λ v. record c { server_config = some v })
      else if eq_chars key (codes "server_main_port")
      then s (λ v. record c { server_main_port = some v })
      else if eq_chars key (codes "backlog")
      then s (λ v. record c { backlog = some v })
      else if eq_chars key (codes "max_fd")
      then s (λ v. record c { max_fd = some v })
      else if eq_chars key (codes "sockets_path")
      then s (λ v. record c { sockets_path = some v })
      else if eq_chars key (codes "max_thread_pchild")
      then s (λ v. record c { max_thread_pchild = some v })
      else (c, negsuc 0)

  -- `new_config`: the configuration, or NULL; `none` is a fault. `lines` is what `fopen` opened, if it did,
  -- and `fresh` the memory that was allocated.
  pub new_config : Option (List (List ℕ)) → (fresh : Config) → Option (Option Config)
  unfolding config_handler
  new_config none fresh = some none
  new_config (some lines) fresh = elim (init_config config_handler lines fresh) [
    | none ↦ none
    | some (config, status) ↦ some (if eq_ℤ status (negsuc 0) then none else some config)
  ]

  -- `get_config`, and `singleton_config` afterwards, which is what it returns.
  pub get_config :
      (singleton_config : Option Config)
      → Option (List (List ℕ))
      → (fresh : Config) → Option (Option Config)
  unfolding new_config
  get_config (some config) lines fresh = some (some config)
  get_config none lines fresh = new_config lines fresh

-- ===== src/Config/Settings/Stored.antt =====
-- Which field of the configuration a setting ends up in, and what a whole file leaves there.
use heimdall_web_switch.Prelude.{
  ℕ, zero, suc, ◌<◌, ◌≡◌, refl, ◌∙◌, ap, sym, subst, Bool, true, false, ◌==◌, if◌then◌else◌, Option,
  none, some, List, [], ◌∷◌, map, arith, get_or, set, length,
}
use heimdall_web_switch.Prelude.Int.{ℤ, pos, negsuc}
use heimdall_web_switch.HttpRequest.{Chars}
use heimdall_web_switch.HttpRequest.Headers.{codes, eq_chars}
use heimdall_web_switch.Config.{is_skipped}
use heimdall_web_switch.Config.Lines.{
  Line, skipped, setting, array_of, IsSetting, Accepted, apply_all, init_config-Accepted,
}
use heimdall_web_switch.Config.Settings.{Config, config_handler, new_config, get_config}

-- The known keys, and the fields in the same order.
abbrev pub known_keys : List Chars
known_keys =
    codes "algorithm_selection"
    ∷ codes "pre_fork"
    ∷ codes "print_enable"
    ∷ codes "log_level"
    ∷ codes "write_enable"
    ∷ codes "log_file_req"
    ∷ codes "log_file_resp"
    ∷ codes "timeout_worker"
    ∷ codes "killer_time"
    ∷ codes "update_time"
    ∷ codes "server_config"
    ∷ codes "server_main_port"
    ∷ codes "backlog"
    ∷ codes "max_fd"
    ∷ codes "sockets_path"
    ∷ codes "max_thread_pchild"
    ∷ []

abbrev pub fields : Config → List (Option Chars)
fields c =
    c.algorithm_selection ∷ c.pre_fork ∷ c.print_enable ∷ c.log_level ∷ c.write_enable
    ∷ c.log_file_req ∷ c.log_file_resp ∷ c.timeout_worker ∷ c.killer_time ∷ c.update_time
    ∷ c.server_config ∷ c.server_main_port ∷ c.backlog ∷ c.max_fd ∷ c.sockets_path
    ∷ c.max_thread_pchild ∷ []

-- The position of a key.
abbrev pub position_in : Chars → ℕ → List Chars → Option ℕ
position_in key i [] = none
position_in key i (name ∷ names) =
    if eq_chars key name then some i else position_in key (suc i) names

abbrev pub position : Chars → Option ℕ
position key = position_in key 0 known_keys

-- What `config_handler` does with a key at that position, when the value is copied.
abbrev pub Handled : Config → Chars → Option ℕ → Config × ℤ → Type 0
Handled config value none end = end ≡ (config, negsuc 0)
Handled config value (some n) end =
    (fields end.0 ≡ set (fields config) n (some value)) × (end.1 ≡ pos 0)

module _ (copy : Chars → Option Chars) where
  config_handler-Handled :
      (key value : Chars) (config : Config)
      → copy value ≡ some value
      → Handled config value (position key) (config_handler copy key value config)
  unfolding config_handler
  config_handler-Handled key value config copied = rw copied (ground arith)

-- Whether the line of a file is skipped or is a setting with a known key whose value can be copied.
abbrev pub IsGood : (Chars → Option Chars) → Line → Type 0
IsGood copy (skipped array) = is_skipped array ≡ true
IsGood copy (setting key value behind) =
    IsSetting key value
    × (is_skipped (array_of (setting key value behind)) ≡ false)
    × ((n : ℕ) × (position key ≡ some n))
    × (copy value ≡ some value)

abbrev pub AllGood : (Chars → Option Chars) → List Line → Type 0
AllGood copy [] = Unit {0}
AllGood copy (line ∷ lines) = IsGood copy line × AllGood copy lines

abbrev stands_at : ℕ → Option ℕ → Bool
stands_at n none = false
stands_at n (some m) = m == n

-- The value of the last line whose key stands at position `n`, or `old` if there is none.
abbrev pub last_value : ℕ → List Line → (old : Option Chars) → Option Chars
last_value n [] old = old
last_value n (skipped array ∷ lines) old = last_value n lines old
last_value n (setting key value behind ∷ lines) old =
    last_value n lines (if stands_at n (position key) then some value else old)

get_or-set :
    (xs : List (Option Chars)) (n m : ℕ) (v : Option Chars)
    → n < length xs
    → get_or (set xs m v) n none ≡ (if m == n then v else get_or xs n none)
get_or-set [] n m v h = absurd (omega arith)
get_or-set (x ∷ xs) zero zero v h = refl
get_or-set (x ∷ xs) zero (suc m) v h = ground arith
get_or-set (x ∷ xs) (suc n) zero v h = ground arith
get_or-set (x ∷ xs) (suc n) (suc m) v h = ground (arith, get_or-set xs n m v (omega arith))

module _ (copy : Chars → Option Chars) where
  handled : Chars → Chars → Config → Config
  handled key value config = (config_handler copy key value config).0

  config_handler-known :
      (key value : Chars) (config : Config) (n m : ℕ)
      → n < 16
      → copy value ≡ some value
      → position key ≡ some m
      → ((config_handler copy key value config).1 ≡ pos 0)
        × (get_or (fields (config_handler copy key value config).0) n none
            ≡ (if m == n then some value else get_or (fields config) n none))
  config_handler-known key value config n m h copied e =
      let all =
        subst (λ (o : Option ℕ). Handled config value o (config_handler copy key value config)) e
          (config_handler-Handled copy key value config copied) in
      (
        all.1,
        ap (λ (xs : List (Option Chars)). get_or xs n none) all.0
            ∙ get_or-set (fields config) n m (some value) h,
      )

  apply_all-last :
      (lines : List Line) (config : Config) (n : ℕ)
      → n < 16
      → AllGood copy lines
      → Accepted (config_handler copy) lines config
        × (get_or (fields (apply_all (config_handler copy) lines config)) n none
            ≡ last_value n lines (get_or (fields config) n none))
  apply_all-last [] config n h good = (tt, refl)
  apply_all-last (skipped array ∷ lines) config n h (skip, good) =
      let (accepted, at) = apply_all-last lines config n h good in ((skip, accepted), at)
  apply_all-last (setting key value behind ∷ lines) config n h
        ((form, other, (m, known), copied), good) =
      let (fine, field) = config_handler-known key value config n m h copied known in
      let (accepted, at) = apply_all-last lines (config_handler copy key value config).0 n h good in
      (
        (form, other, fine, accepted),
        at
            ∙ ap (last_value n lines) (
                field
                ∙ ap
                    (λ (o : Option ℕ).
                      if stands_at n o then some value else get_or (fields config) n none)
                    (sym known)),
      )

  -- When `fopen` opens a file whose lines are all skipped or settings of one of the 16 known keys, with values
  -- that can be copied: the first `get_config` does not fault and returns a configuration in which each
  -- field holds the value of the last line with its key, and what `malloc` left there if there is no such
  -- line; every later call returns the same.
  pub get_config-last :
      (lines : List Line) (fresh : Config) (n : ℕ)
      → AllGood copy lines
      → n < 16
      → (config : Config) × (get_config copy none (some (map array_of lines)) fresh
          ≡ some (some config))
        × (get_or (fields config) n none ≡ last_value n lines (get_or (fields fresh) n none))
        × ((lines' : Option (List (List ℕ))) (fresh' : Config)
            → get_config copy (some config) lines' fresh' ≡ some (some config))
  unfolding get_config new_config
  get_config-last lines fresh n good h =
      let (accepted, at) = apply_all-last lines fresh n h good in
      (
        apply_all (config_handler copy) lines fresh,
        rw (init_config-Accepted (config_handler copy) lines fresh accepted, new_config) refl,
        at,
        λ lines' fresh'. refl,
      )

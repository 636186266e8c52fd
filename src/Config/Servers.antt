-- ===== src/Config/Servers.antt =====
-- The file of servers: `parse_line` and `count_server` of code/config/server_config.c. Lines are shorter
-- than the buffer of `parse_line`, and its two arrays are long enough.
pub mod Entries
use heimdall_web_switch.Prelude.{
  ℕ, zero, suc, ◌+◌, ◌&&◌, ◌==◌, if◌then◌else◌, Option, none, some, List, [], ◌∷◌, ◌++◌, length,
}
use heimdall_web_switch.HttpRequest.{Chars}
use heimdall_web_switch.HttpRequest.Headers.{codes, eq_chars}
use heimdall_web_switch.Config.{escape_chr, line_get, is_skipped}

pub record ServerConfig : Type 0 where
  pub servers_names : List Chars
  pub servers_ip : List Chars

-- The type and the value of a line.
pub type_value : List ℕ → Option (Chars × Chars)
unfolding line_get
type_value string = elim (line_get string 0 escape_chr) [
  | none ↦ none
  | some kind ↦ elim (line_get string (length kind + 1) b'\n') [
    | none ↦ none
    | some value ↦ some (kind, value)
  ]
]

-- The two comparisons, which exclude each other.
pub store_server : Chars → Chars → ServerConfig → ServerConfig
store_server kind value config =
    if eq_chars kind (codes "IP")
    then record config { servers_ip = config.servers_ip ++ (value ∷ []) }
    else if eq_chars kind (codes "Name")
    then record config { servers_names = config.servers_names ++ (value ∷ []) }
    else config

-- The loop over the lines. `none` is a read beyond the line.
pub parse_line : List (List ℕ) → ServerConfig → Option ServerConfig
unfolding type_value store_server
parse_line [] config = some config
parse_line (string ∷ strings) config =
    let skip = parse_line strings config in
    if is_skipped string then skip else elim (type_value string) [
      | none ↦ none
      | some (kind, value) ↦ parse_line strings (store_server kind value config)
    ]

-- `fgets` with room for two bytes takes two, or one when that is a line break: whether the pair is "IP".
unfoldable pub count_server : List ℕ → ℕ
count_server [] = 0
count_server (a ∷ []) = 0
count_server (a ∷ b ∷ rest) =
    let behind_break = count_server (b ∷ rest) in
    let behind_pair = count_server rest in
    if a == b'\n' then behind_break else (if (a == b'I') && (b == b'P') then 1 else 0) + behind_pair

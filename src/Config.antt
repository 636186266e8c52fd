-- ===== src/Config.antt =====
-- code/config/heimdall_config.c and the same cut of a line in code/config/server_config.c.
-- `array` is the memory into which `fgets` has put a line: the line, its 0, and what stood behind it.
-- The configuration itself is what the callback makes of it, a parameter.
pub mod Lines
pub mod Servers
pub mod Settings
mod Tests
use heimdall_web_switch.Prelude.{
  ℕ, ◌+◌, ◌==◌, Bool, true, false, ◌||◌, if◌then◌else◌, Option, none, some, List, [], ◌∷◌, get_or,
  drop, length,
}
use heimdall_web_switch.Prelude.Int.{ℤ, pos, negsuc, eq_ℤ}
use heimdall_web_switch.HttpRequest.{Chars, string_at, space}

-- ESCAPE_CHARACTER of code/include/heimdall_config.h, ESCAPE_CHR of code/include/server_config.h
abbrev pub escape_character : ℕ
escape_character = space

abbrev pub escape_chr : ℕ
escape_chr = b':'

-- The bytes up to the first `escape`. `none`: the memory is read beyond its end.
pub get_until : ℕ → List ℕ → Option (List ℕ)
get_until escape [] = none
get_until escape (c ∷ cs) =
    let rest = get_until escape cs in
    if c == escape then some [] else elim rest [ none ↦ none | some bytes ↦ some (c ∷ bytes) ]

-- `_get` of heimdall_config.c, with the allocation successful: the string
-- in the fresh memory ends at the first 0.
pub get_part : List ℕ → ℕ → ℕ → Option Chars
unfolding get_until
get_part array from escape = elim (get_until escape (drop from array)) [
  | none ↦ none
  | some bytes ↦ some (string_at bytes)
]

-- `line_get` of server_config.c, which uses the colon.
pub line_get : List ℕ → ℕ → ℕ → Option Chars
unfolding get_part
line_get array from escape = get_part array from escape

abbrev pub is_skipped : List ℕ → Bool
is_skipped array = (get_or array 0 0 == b'#') || (get_or array 0 0 == b'\n')

-- The key and the value of a line.
pub key_value : List ℕ → Option (Chars × Chars)
unfolding get_part
key_value array = elim (get_part array 0 escape_character) [
  | none ↦ none
  | some key ↦ elim (get_part array (length key + 1) b'\n') [
    | none ↦ none
    | some value ↦ some (key, value)
  ]
]

module _ {ℓ} {C : Type ℓ} (config_handler : Chars → Chars → C → C × ℤ) where
  -- The loop of `init_config` over the lines, and its result. `none` is a fault.
  pub init_config : List (List ℕ) → C → Option (C × ℤ)
  unfolding key_value
  init_config [] config = some (config, pos 0)
  init_config (array ∷ arrays) config =
      let skip = init_config arrays config in
      if is_skipped array then skip else elim (key_value array) [
        | none ↦ none
        | some (key, value) ↦
            let (config', status) = config_handler key value config in
            let on = init_config arrays config' in
            if eq_ℤ status (negsuc 0) then some (config', negsuc 0) else on
      ]

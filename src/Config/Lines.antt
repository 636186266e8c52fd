-- ===== src/Config/Lines.antt =====
-- The lines of a configuration (`init_config` of code/config/heimdall_config.c).
use heimdall_web_switch.Prelude.{
  ℕ, ◌+◌, ◌≡◌, refl, ap, ◌∙◌, ◌≢◌, ◌==◌, true, false, some, List, [], ◌∷◌, ◌++◌, map, arith, length,
  drop,
}
use heimdall_web_switch.Prelude.Int.{ℤ, pos, negsuc, eq_ℤ}
use heimdall_web_switch.HttpRequest.{Chars, string_at, space}
use heimdall_web_switch.HttpRequest.FirstLine.{ZeroFree, drop-behind}
use heimdall_web_switch.Config.{get_until, get_part, is_skipped, key_value, init_config}

abbrev pub Without : ℕ → List ℕ → Type 0
Without e [] = Unit {0}
Without e (c ∷ cs) = (c ≢ e) × Without e cs

get_until-append : (e : ℕ) (xs ys : List ℕ) → Without e xs → get_until e (xs ++ (e ∷ ys)) ≡ some xs
unfolding get_until
get_until-append e [] ys w = let test : (e == e) ≡ true = ground arith in rw test
get_until-append e (x ∷ xs) ys w =
    let test : (x == e) ≡ false = ground (arith, w.0) in rw (test, get_until-append e xs ys w.1)

pub string_at-whole : (xs : List ℕ) → ZeroFree xs → string_at xs ≡ xs
string_at-whole [] z = refl
string_at-whole (x ∷ xs) z =
    let test : (x == 0) ≡ false = ground (arith, z.0) in
    rw test (ap (λ l. x ∷ l) (string_at-whole xs z.1))

pub get_part-append :
    (array : List ℕ) (from e : ℕ) (xs ys : List ℕ)
    → drop from array ≡ xs ++ (e ∷ ys)
    → Without e xs
    → ZeroFree xs
    → get_part array from e ≡ some xs
unfolding get_part
get_part-append array from e xs ys at w z =
    let found : get_until e (drop from array) ≡ some xs =
      ap (get_until e) at ∙ get_until-append e xs ys w in
    rw (found, get_part) (ap some (string_at-whole xs z))

-- A line in memory: one that is skipped, or a key and a value, with what stands behind the line's end.
pub data Line : Type 0 where
  skipped : List ℕ → Line
  setting : (key value : Chars) (behind : List ℕ) → Line

abbrev pub array_of : Line → List ℕ
array_of (skipped array) = array
array_of (setting key value behind) = key ++ (space ∷ (value ++ (b'\n' ∷ behind)))

-- No zero stands in the key or the value, no space in the key and no newline in the value.
abbrev pub IsSetting : Chars → Chars → Type 0
IsSetting key value = (Without space key × ZeroFree key) × (Without b'\n' value × ZeroFree value)

key_value-setting :
    (key value : Chars) (behind : List ℕ)
    → IsSetting key value
    → key_value (array_of (setting key value behind)) ≡ some (key, value)
unfolding key_value
key_value-setting key value behind ((k, zk), (v, zv)) = rw (
  get_part-append (array_of (setting key value behind)) 0 space key (value ++ (b'\n' ∷ behind)) refl
      k zk,
  get_part-append (array_of (setting key value behind)) (length key + 1) b'\n' value behind
      (drop-behind key (space ∷ (value ++ (b'\n' ∷ behind))) 1) v zv,
  key_value,
)

module _ {ℓ} {C : Type ℓ} (config_handler : Chars → Chars → C → C × ℤ) where
  -- Every line is well-formed, and the callback accepts every setting.
  abbrev pub Accepted : List Line → C → Type 0
  Accepted [] config = Unit {0}
  Accepted (skipped array ∷ lines) config = (is_skipped array ≡ true) × Accepted lines config
  Accepted (setting key value behind ∷ lines) config =
      IsSetting key value
      × (is_skipped (array_of (setting key value behind)) ≡ false)
      × ((config_handler key value config).1 ≡ pos 0)
      × Accepted lines (config_handler key value config).0

  -- The settings, one after the other.
  abbrev pub apply_all : List Line → C → C
  apply_all [] config = config
  apply_all (skipped array ∷ lines) config = apply_all lines config
  apply_all (setting key value behind ∷ lines) config =
      apply_all lines (config_handler key value config).0

  -- Where every line is one that is skipped or a setting that the callback accepts, `init_config` does
  -- not read beyond a line's memory, hands the callback exactly the keys and values, in their order,
  -- whatever stands in memory behind a line, and returns 0.
  pub init_config-Accepted :
      (lines : List Line) (config : C)
      → Accepted lines config
      → init_config config_handler (map array_of lines) config
        ≡ some (apply_all lines config, pos 0)
  unfolding init_config
  init_config-Accepted [] config a = refl
  init_config-Accepted (skipped array ∷ lines) config a =
      rw (a.0) (init_config-Accepted lines config a.1)
  init_config-Accepted (setting key value behind ∷ lines) config (form, other, fine, a) =
      let go : eq_ℤ (config_handler key value config).1 (negsuc 0) ≡ false = rw fine refl in
      rw (other, key_value-setting key value behind form, go)
        (init_config-Accepted lines (config_handler key value config).0 a)

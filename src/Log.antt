-- ===== src/Log.antt =====
-- code/utils/log.c: the lines that are printed and written.
-- What `strtol` answers for the three settings is an argument, and so is what `asprintf` returns for a
-- line; the time stamp, which differs from call to call, is left out of the lines. The functions of the
-- log call one another, so they recurse on the depth of stack that is left.
pub mod Levels
pub mod Files
mod Tests
use heimdall_web_switch.Prelude.{
  ℕ, zero, suc, Bool, true, false, not, ◌&&◌, if◌then◌else◌, List, [], ◌∷◌, ◌++◌,
}
use heimdall_web_switch.Prelude.Int.{ℤ, pos, ltb_ℤ, eq_ℤ}
use heimdall_web_switch.Throwable.{Throwable}
use heimdall_web_switch.Scheduler.{failed}
use heimdall_web_switch.Helper.{Strtol, str_to_int}
use heimdall_web_switch.HttpRequest.{HttpRequest}
use heimdall_web_switch.HttpRequest.Headers.{Kind, rqst, resp}
use heimdall_web_switch.Types.{CString}
use Prim.Native.String.{String}

-- `log_level`, `print_enable` and `write_enable` of the configuration.
pub record Settings : Type 0 where
  pub log_level : Strtol
  pub print_enable : Strtol
  pub write_enable : Strtol

-- What a line says behind its tag: a formatted text, or a throwable as `t` formats it.
pub data Body : Type 0 where
  formatted : String → Body
  of_throwable : Throwable → Body

pub data Stream : Type 0 where
  stdout : Stream
  stderr : Stream

-- A line: the letter of its level, its tag and the rest.
pub record Line : Type 0 where
  pub stream : Stream
  pub letter : String
  pub tag : String
  pub body : Body

-- How a call ends: with what it returns and what has been printed by then, or beyond the stack.
pub data Ended : Type 0 where
  returned : ℤ → List Line → Ended
  exhausted : Ended

-- DEBUG_LEVEL, INFO_LEVEL and ERROR_LEVEL of code/include/log.h
abbrev pub debug_level : ℤ
debug_level = pos 2

abbrev pub info_level : ℤ
info_level = pos 3

abbrev pub error_level : ℤ
error_level = pos 4

-- `str_to_int`, whose error is handed to `t`; then the rest, with the value that was stored.
pub checked : (List Line → Throwable → Ended) → Strtol → (ℤ → List Line → Ended) → List Line → Ended
checked t answer rest out =
    let (value, throwable) = str_to_int answer in
    if failed throwable
    then elim (t out throwable) [ returned _ out' ↦ rest value out' | exhausted ↦ exhausted ]
    else rest value out

-- What a call ends with for a line of `level`.
abbrev pub printed : (Line → ℤ) → ℤ → Line → (log_level print_enable : ℤ) → List Line → Ended
printed asprintf level line log_level print_enable out =
    if not (ltb_ℤ level log_level) && eq_ℤ print_enable (pos 1)
    then returned (asprintf line) (out ++ (line ∷ []))
    else returned (pos 0) out

-- The body that `i`, `d` and `e` share, with the `t` that it calls.
pub log_line :
    (asprintf : Line → ℤ)
    → (t : List Line → Throwable → Ended) → (level : ℤ) → Settings
    → Line
    → List Line
    → Ended
unfolding checked
log_line asprintf t level s line =
    checked t s.log_level
      (λ log_level. checked t s.print_enable (printed asprintf level line log_level))

module _ (asprintf : Line → ℤ) where
  pub e : (depth : ℕ) → Settings → (tag : String) → Body → List Line → Ended
  unfolding log_line
  e zero s tag body out = exhausted
  e (suc depth) s tag body out =
      log_line asprintf (λ out throwable. e depth s "Throwable" (of_throwable throwable) out)
        error_level s (record { stream = stderr; letter = "E"; tag = tag; body = body }) out

  -- `t` passes the throwable on to `e`, and frees it.
  unfoldable pub t : (depth : ℕ) → Settings → List Line → Throwable → Ended
  unfolding e
  t depth s out throwable = e depth s "Throwable" (of_throwable throwable) out

  pub i : (depth : ℕ) → Settings → (tag : String) → Body → List Line → Ended
  unfolding log_line
  i zero s tag body out = exhausted
  i (suc depth) s tag body out =
      log_line asprintf (t depth s) info_level s
        (record { stream = stdout; letter = "I"; tag = tag; body = body }) out

  pub d : (depth : ℕ) → Settings → (tag : String) → Body → List Line → Ended
  unfolding log_line
  d zero s tag body out = exhausted
  d (suc depth) s tag body out =
      log_line asprintf (t depth s) debug_level s
        (record { stream = stdout; letter = "D"; tag = tag; body = body }) out

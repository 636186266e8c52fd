-- ===== src/Log/Levels.antt =====
-- What `i`, `d`, `e` and `t` of code/utils/log.c print, by the settings of the configuration.
use heimdall_web_switch.Prelude.{
  ℕ, zero, suc, ◌≤◌, ◌<◌, ◌≢◌, ◌++◌, [], ◌∷◌, ltb, ◌==◌, arith, ◌≡◌, refl, ◌⊎◌, inl, inr, true,
  false, List, Bool-cases, ◌∙◌,
}
use heimdall_web_switch.Prelude.Int.{ℤ, pos}
use heimdall_web_switch.Throwable.{Throwable}
use heimdall_web_switch.Scheduler.{failed}
use heimdall_web_switch.Helper.{Strtol, str_to_int}
use heimdall_web_switch.Log.{
  Settings, Body, of_throwable, Line, stdout, stderr, Ended, returned, exhausted, printed,
  debug_level, info_level, error_level, checked, log_line, e, t, i, d,
}
use Prim.Native.String.{String}

-- Whether `str_to_int` refuses a setting, and what it stores for one that it takes.
abbrev pub Refused : Strtol → Type 0
Refused answer = failed (str_to_int answer).1 ≡ true

abbrev pub Taken : Strtol → ℤ → Type 0
Taken answer value = ((str_to_int answer).0 ≡ value) × (failed (str_to_int answer).1 ≡ false)

-- A `t` that never returns.
abbrev Endless : (List Line → Throwable → Ended) → Type 0
Endless f = (out : List Line) (throwable : Throwable) → f out throwable ≡ exhausted

module _ (f : List Line → Throwable → Ended) (answer : Strtol) (rest : ℤ → List Line → Ended)
    (out : List Line) where
  checked-Refused : Endless f → Refused answer → checked f answer rest out ≡ exhausted
  unfolding checked
  checked-Refused endless bad = rw (bad, endless out (str_to_int answer).1)

  checked-exhausted :
      Endless f → ((value : ℤ) → rest value out ≡ exhausted) → checked f answer rest out ≡ exhausted
  unfolding checked
  checked-exhausted endless fails = elim (Bool-cases (failed (str_to_int answer).1)) [
    | inl bad ↦ rw (bad, endless out (str_to_int answer).1)
    | inr fine ↦ rw fine (fails (str_to_int answer).0)
  ]

  checked-Taken : (value : ℤ) → Taken answer value → checked f answer rest out ≡ rest value out
  unfolding checked
  checked-Taken value (stored, fine) = rw (fine, stored)

-- One of the two settings that every line needs is refused.
abbrev pub IsBroken : Settings → Type 0
IsBroken s = Refused s.log_level ⊎ Refused s.print_enable

module _ (asprintf : Line → ℤ) where
  -- What is left once `log_level` has been read.
  abbrev printing : (List Line → Throwable → Ended) → ℤ → Settings → Line → ℤ → List Line → Ended
  printing f level s line log_level =
      checked f s.print_enable (printed asprintf level line log_level)

  log_line-IsBroken :
      (f : List Line → Throwable → Ended) (level : ℤ) (s : Settings) (line : Line) (out : List Line)
      → IsBroken s
      → Endless f
      → log_line asprintf f level s line out ≡ exhausted
  unfolding log_line
  log_line-IsBroken f level s line out (inl bad) endless =
      checked-Refused f s.log_level (printing f level s line) out endless bad
  log_line-IsBroken f level s line out (inr bad) endless =
      checked-exhausted f s.log_level (printing f level s line) out endless (λ value.
        checked-Refused f s.print_enable (printed asprintf level line value) out endless bad)

  e-IsBroken :
      (depth : ℕ) (s : Settings) (tag : String) (body : Body) (out : List Line)
      → IsBroken s
      → e asprintf depth s tag body out ≡ exhausted
  unfolding e
  e-IsBroken zero s tag body out broken = refl
  e-IsBroken (suc depth) s tag body out broken =
      log_line-IsBroken _ error_level s _ out broken
        (λ out' throwable. e-IsBroken depth s "Throwable" (of_throwable throwable) out' broken)

  t-IsBroken : (depth : ℕ) (s : Settings) → IsBroken s → Endless (t asprintf depth s)
  unfolding t
  t-IsBroken depth s broken out throwable =
      e-IsBroken depth s "Throwable" (of_throwable throwable) out broken

  -- When `str_to_int` refuses the text of `log_level` or of `print_enable`, none of `i`, `d`, `e` and `t`
  -- returns, whatever the depth of the stack: the refusal is reported by `t`, which calls `e`, which
  -- reads the same settings again.
  pub logs-IsBroken :
      (depth : ℕ) (s : Settings) (tag : String) (body : Body) (throwable : Throwable)
      (out : List Line)
      → IsBroken s
      → (i asprintf depth s tag body out ≡ exhausted)
        × (d asprintf depth s tag body out ≡ exhausted)
        × (e asprintf depth s tag body out ≡ exhausted)
        × (t asprintf depth s out throwable ≡ exhausted)
  unfolding i d
  logs-IsBroken zero s tag body throwable out broken =
      (refl, refl, e-IsBroken 0 s tag body out broken, t-IsBroken 0 s broken out throwable)
  logs-IsBroken (suc depth) s tag body throwable out broken = (
    log_line-IsBroken _ info_level s _ out broken (t-IsBroken depth s broken),
    log_line-IsBroken _ debug_level s _ out broken (t-IsBroken depth s broken),
    e-IsBroken (suc depth) s tag body out broken,
    t-IsBroken (suc depth) s broken out throwable,
  )

  log_line-Taken :
      (f : List Line → Throwable → Ended) (level : ℤ) (s : Settings) (line : Line) (out : List Line)
      (log_level print_enable : ℤ)
      → Taken s.log_level log_level
      → Taken s.print_enable print_enable
      → log_line asprintf f level s line out
        ≡ printed asprintf level line log_level print_enable out
  unfolding log_line
  log_line-Taken f level s line out log_level print_enable a b =
      checked-Taken f s.log_level (printing f level s line) out log_level a
      ∙ checked-Taken f s.print_enable (printed asprintf level line log_level) out print_enable b

  -- What a call for a line of `level` does: it prints the line, or nothing.
  abbrev pub Says : (level log_level print_enable : ℕ) → Line → List Line → Ended → Type 0
  Says level log_level print_enable line out end =
      ((log_level ≤ level)
        × (print_enable ≡ 1)
        × (end ≡ returned (asprintf line) (out ++ (line ∷ []))))
      ⊎ (((level < log_level) ⊎ (print_enable ≢ 1)) × (end ≡ returned (pos 0) out))

  log_line-Says :
      (f : List Line → Throwable → Ended) (level : ℕ) (s : Settings) (line : Line) (out : List Line)
      (log_level print_enable : ℕ)
      → Taken s.log_level (pos log_level)
      → Taken s.print_enable (pos print_enable)
      → Says level log_level print_enable line out (log_line asprintf f (pos level) s line out)
  log_line-Says f level s line out log_level print_enable a b =
      let same = log_line-Taken f (pos level) s line out (pos log_level) (pos print_enable) a b in
      elim (Bool-cases (ltb level log_level)) [
        | inl low ↦ inr (inl (ground arith), same ∙ ground arith)
        | inr high ↦ elim (Bool-cases (print_enable == 1)) [
          | inl on ↦ inl (ground arith, ground arith, same ∙ ground arith)
          | inr off ↦ inr (inr (ground arith), same ∙ ground arith)
        ]
      ]

  -- When `str_to_int` takes both settings and they are not negative, each of `i`, `d`, `e` and `t` returns and
  -- calls no other. If `log_level` is at most its level, 3, 2, 4 and 4, and `print_enable` is 1, it
  -- prints its one line, with its letter, its tag and its text, and returns what `asprintf` did; otherwise it
  -- prints nothing and returns 0. What `e` and `t` print goes to stderr, the rest to stdout.
  pub logs-Taken :
      (depth : ℕ) (s : Settings) (tag : String) (body : Body) (throwable : Throwable)
      (out : List Line) (log_level print_enable : ℕ)
      → Taken s.log_level (pos log_level)
      → Taken s.print_enable (pos print_enable)
      → Says 3 log_level print_enable
          (record { stream = stdout; letter = "I"; tag = tag; body = body })
          out
          (i asprintf (suc depth) s tag body out)
        × Says 2 log_level print_enable
            (record { stream = stdout; letter = "D"; tag = tag; body = body })
            out
            (d asprintf (suc depth) s tag body out)
        × Says 4 log_level print_enable
            (record { stream = stderr; letter = "E"; tag = tag; body = body })
            out
            (e asprintf (suc depth) s tag body out)
        × Says 4 log_level print_enable
            (record {
              stream = stderr;
              letter = "E";
              tag = "Throwable";
              body = of_throwable throwable;
            })
            out
            (t asprintf (suc depth) s out throwable)
  unfolding i d e t
  logs-Taken depth s tag body throwable out log_level print_enable a b = (
    log_line-Says (t asprintf depth s) 3 s _ out log_level print_enable a b,
    log_line-Says (t asprintf depth s) 2 s _ out log_level print_enable a b,
    log_line-Says (t asprintf depth s) 4 s _ out log_level print_enable a b,
    log_line-Says (t asprintf depth s) 4 s _ out log_level print_enable a b,
  )

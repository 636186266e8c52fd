-- ===== src/Log/Files.antt =====
-- The two files of code/utils/log.c: their opening, and the lines that `r` writes.
-- `type` says which of the two `arg` is; each is written with the worker's remote host and pid.
use heimdall_web_switch.Prelude.{
  ℕ, ◌≡◌, refl, ◌⊎◌, inl, inr, true, false, Bool-cases, if◌then◌else◌, Option, none, some, List, [],
  ◌∷◌, ◌++◌, arith,
}
use heimdall_web_switch.Prelude.Int.{ℤ, pos, eq_ℤ}
use heimdall_web_switch.Scheduler.{failed}
use heimdall_web_switch.Helper.{str_to_int}
use heimdall_web_switch.HttpRequest.{Chars, HttpRequest}
use heimdall_web_switch.HttpResponse.{HttpResponse}
use heimdall_web_switch.Log.{Settings, Line, returned, exhausted, t}
use heimdall_web_switch.Log.Levels.{Taken}

-- What is logged: `arg` when `type` is RQST and when it is RESP.
pub data Logged : Type 0 where
  rqst_arg : HttpRequest → Logged
  resp_arg : HttpResponse → Logged

-- The fields of a line, in their order; a NULL field is printed as such.
pub record FileLine : Type 0 where
  pub remote : Chars
  pub pid : ℕ
  pub fields : List (Option Chars)

-- The lines in a file, or `none` for one that could not be opened.
pub record Files : Type 0 where
  pub req_log : Option (List FileLine)
  pub resp_log : Option (List FileLine)

-- `new_log`, with what each file holds already if `fopen` can open it.
pub new_log : (req resp : Option (List FileLine)) → Files
new_log req resp = record { req_log = req; resp_log = resp }

-- `get_log`: `singleton_log`, which is made at the first call.
pub get_log : (singleton_log : Option Files) → (req resp : Option (List FileLine)) → Files
unfolding new_log
get_log none req resp = new_log req resp
get_log (some log) req resp = log

-- How `r` ends: `fwrite` to a file that is NULL is a fault.
pub data Recorded : Type 0 where
  recorded : ℤ → Files → List Line → Recorded
  fault : Recorded
  endless : Recorded

pub request_line : HttpRequest → Chars → ℕ → FileLine
request_line request remote pid = record {
  remote = remote;
  pid = pid;
  fields = request.req_host ∷ request.req_type ∷ request.req_resource ∷ request.req_protocol ∷ [];
}

pub response_line : HttpRequest → Chars → ℕ → FileLine
response_line response remote pid = record {
  remote = remote;
  pid = pid;
  fields = response.req_protocol ∷ response.resp_code ∷ response.resp_msg ∷ [];
}

module _ (asprintf : Line → ℤ) (fwrite : FileLine → ℤ) where
  -- The branch of `r` that writes.
  pub write_file : Logged → Chars → ℕ → Files → List Line → Recorded
  unfolding request_line response_line
  write_file (rqst_arg request) remote pid files out =
      let line = request_line request remote pid in
      elim files.req_log [
        | none ↦ fault
        | some lines ↦
            recorded (fwrite line) (record files { req_log = some (lines ++ (line ∷ [])) }) out
      ]
  write_file (resp_arg response) remote pid files out =
      let line = response_line response.response remote pid in
      elim files.resp_log [
        | none ↦ fault
        | some lines ↦
            recorded (fwrite line) (record files { resp_log = some (lines ++ (line ∷ [])) }) out
      ]

  -- From the value that was stored for `write_enable` on.
  enabled : ℤ → Logged → Chars → ℕ → Files → List Line → Recorded
  unfolding write_file
  enabled write_enable arg remote pid files out =
      if eq_ℤ write_enable (pos 1)
      then write_file arg remote pid files out
      else recorded (pos 0) files out

  pub r : (depth : ℕ) → Settings → Logged → Chars → ℕ → Files → List Line → Recorded
  unfolding enabled t
  r depth s arg remote pid files out =
      let (write_enable, throwable) = str_to_int s.write_enable in
      if failed throwable
      then elim (t asprintf depth s out throwable) [
        | returned _ out' ↦ enabled write_enable arg remote pid files out'
        | exhausted ↦ endless
      ]
      else enabled write_enable arg remote pid files out

  -- The file of an argument, and the line that is due to it.
  abbrev pub file_of : Logged → Files → Option (List FileLine)
  file_of (rqst_arg request) files = files.req_log
  file_of (resp_arg response) files = files.resp_log

  abbrev pub line_of : Logged → Chars → ℕ → FileLine
  line_of (rqst_arg request) remote pid = request_line request remote pid
  line_of (resp_arg response) remote pid = response_line response.response remote pid

  abbrev pub other_of : Logged → Files → Option (List FileLine)
  other_of (rqst_arg request) files = files.resp_log
  other_of (resp_arg response) files = files.req_log

  -- How `r` can end when `write_enable` is 1.
  abbrev pub Wrote :
      Logged → Chars → ℕ → Files → List Line → Option (List FileLine) → Recorded → Type 0
  Wrote arg remote pid files out none end = end ≡ fault
  Wrote arg remote pid files out (some lines) end =
      (files' : Files) × (end ≡ recorded (fwrite (line_of arg remote pid)) files' out)
      × (file_of arg files' ≡ some (lines ++ (line_of arg remote pid ∷ [])))
      × (other_of arg files' ≡ other_of arg files)

  write_file-Wrote :
      (arg : Logged) (remote : Chars) (pid : ℕ) (files : Files) (out : List Line)
      (file : Option (List FileLine))
      → file_of arg files ≡ file
      → Wrote arg remote pid files out file (write_file arg remote pid files out)
  unfolding write_file
  write_file-Wrote (rqst_arg request) remote pid files out none e = ground (arith)
  write_file-Wrote (rqst_arg request) remote pid files out (some lines) e = (
    record files { req_log = some (lines ++ (request_line request remote pid ∷ [])) },
    ground arith,
    refl,
    refl,
  )
  write_file-Wrote (resp_arg response) remote pid files out none e = ground (arith)
  write_file-Wrote (resp_arg response) remote pid files out (some lines) e = (
    record files { resp_log = some (lines ++ (response_line response.response remote pid ∷ [])) },
    ground arith,
    refl,
    refl,
  )

  -- When `str_to_int` takes `write_enable`: with a value other than 1 `r` writes nothing and returns 0.
  -- With 1 it appends the line of the request or the response to the file for its kind, leaves the other
  -- file as it is, and returns what `fwrite` did, but if that file could not be opened it faults.
  pub r-Taken :
      (depth : ℕ) (s : Settings) (arg : Logged) (remote : Chars) (pid : ℕ) (files : Files)
      (out : List Line) (value : ℤ)
      → Taken s.write_enable value
      → ((eq_ℤ value (pos 1) ≡ false)
          × (r depth s arg remote pid files out ≡ recorded (pos 0) files out))
        ⊎ ((eq_ℤ value (pos 1) ≡ true)
            × Wrote arg remote pid files out
                (file_of arg files)
                (r depth s arg remote pid files out))
  unfolding r enabled
  r-Taken depth s arg remote pid files out value (stored, fine) =
      rw (fine, stored)
        (elim (Bool-cases (eq_ℤ value (pos 1))) [
          | inl one ↦
              inr (one, rw one (write_file-Wrote arg remote pid files out (file_of arg files) refl))
          | inr other ↦ inl (other, rw other)
        ])

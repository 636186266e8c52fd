-- ===== src/Scheduler/Poll.antt =====
-- The calls of `apache_score` (code/web_switch/scheduler.c) to the status of a server: what it is told about
-- the server, from what the calls of the system answer.
mod Tests
use heimdall_web_switch.Prelude.{
  ℕ, ◌+◌, ◌-◌, ◌*◌, ◌/◌, ◌<◌, ◌≡◌, refl, ap, ◌∙◌, true, false, if◌then◌else◌, Option, none, some,
  List, [], ◌∷◌, arith,
}
use heimdall_web_switch.Prelude.Int.{ℤ, pos, ltb_ℤ}
use heimdall_web_switch.Throwable.{Throwable, ok_from}
use heimdall_web_switch.Helper.{Strtol}
use heimdall_web_switch.Scheduler.{ServerNode, Answers, failed, score, apache_score}
use heimdall_web_switch.Scheduler.Score.{score_lem}
use heimdall_web_switch.Types.{server_status_ready}
use heimdall_web_switch.Scheduler.Update.{IsSilent}
use heimdall_web_switch.HttpRequest.{Chars}
use heimdall_web_switch.ApacheStatus.{
  ApacheServerStatus, Strtof, ParseEnd, new_apache_server_status, parse_apache_status,
}
use heimdall_web_switch.ApacheStatus
use heimdall_web_switch.ApacheStatus.Retrieve.{
  RetrieveCalls, RetrieveEnd, waits, faults, returns, set_url_apache_status, retrieve_apache_status,
}
use heimdall_web_switch.ApacheStatus.Retrieve.Fetched.{
  IsConnected, IsAnswered, named, request_for, retrieve_apache_status-page,
}

module _ {F : Type 0} (tolower : ℕ → ℕ) (copy : Chars → Option Chars)
    (convert strtol : Chars → Strtol) (strtof : Chars → Strtof F) (minus_one : F) where
  -- The results up to a call that fails stand for those behind it, which are not looked at.
  abbrev told : (set_url retrieve parse : Throwable) → ApacheServerStatus F → Answers
  told set_url retrieve parse status = record {
    set_url = set_url;
    retrieve = retrieve;
    parse = parse;
    idle_workers = status.idle_workers;
    busy_workers = status.busy_workers;
  }

  pub parse_answer : (set_url retrieve : Throwable) → ParseEnd F → Option Answers
  parse_answer set_url retrieve ApacheStatus.fault = none
  parse_answer set_url retrieve (ApacheStatus.done status parse) =
      some (told set_url retrieve parse status)

  pub retrieve_answer : (set_url : Throwable) → RetrieveEnd F → Option Answers
  unfolding parse_answer
  retrieve_answer set_url waits = none
  retrieve_answer set_url faults = none
  retrieve_answer set_url (returns status sent left_open retrieve) =
      if failed retrieve
      then some (told set_url retrieve retrieve status)
      else parse_answer set_url retrieve (parse_apache_status tolower strtol strtof status)

  -- `none`: a call has not returned, or a read through NULL.
  pub poll : (host_ip : Chars) → RetrieveCalls → Option Answers
  unfolding retrieve_answer
  poll host_ip calls =
      let (status, set_url) =
        set_url_apache_status copy (new_apache_server_status minus_one) host_ip in
      if failed set_url
      then some (told set_url set_url set_url status)
      else retrieve_answer set_url (retrieve_apache_status tolower copy convert status calls)

  module _ (copies : (s : Chars) → copy s ≡ some s) (host_ip : Chars) (calls : RetrieveCalls) where
    abbrev pub asked_status : ApacheServerStatus F
    asked_status = named (new_apache_server_status minus_one) host_ip

    poll-named :
        poll host_ip calls
        ≡ retrieve_answer
            (ok_from "set_url_apache_status")
            (retrieve_apache_status tolower copy convert asked_status calls)
    unfolding poll set_url_apache_status ok_from
    poll-named = rw (copies host_ip, set_url_apache_status) refl

    -- When every copy succeeds, and the server is connected and answers with a response whose page is
    -- parsed without an error into `n` idle and `m` busy workers, both above 0: `apache_score` of its node,
    -- over what it is told, returns STATUS_OK, marks the node as ready, and sets its weight to one more than
    -- four times the idle workers but one, divided by all workers but one.
    pub poll-apache_score :
        (fd : ℕ) (head page : Chars) (parsed : ApacheServerStatus F) (t : Throwable) (n m : ℕ)
        (node : ServerNode)
        → IsConnected tolower copy convert copies host_ip calls fd
        → IsAnswered tolower copy convert copies host_ip calls head page
        → parse_apache_status tolower strtol strtof
            (record asked_status { status_page = some page })
          ≡ ApacheStatus.done parsed t
        → failed t ≡ false
        → parsed.idle_workers ≡ pos n
        → 0 < n
        → parsed.busy_workers ≡ pos m
        → 0 < m
        → (a : Answers) × (poll host_ip calls ≡ some a)
          × (apache_score node a
              ≡ some (
                record node {
                  status = server_status_ready;
                  weight = pos ((n - 1) * 4 / (m + n - 1) + 1);
                },
                ok_from "apache_score",
              ))
    unfolding retrieve_answer apache_score ok_from
    poll-apache_score fd head page parsed t n m node c a e fine idle some_idle busy some_busy =
        let got =
          retrieve_apache_status-page tolower copy convert copies host_ip calls
            (new_apache_server_status minus_one) fd head page c a in
        let counts : ltb_ℤ parsed.idle_workers (pos 0) ≡ false = rw idle (ground arith) in
        let result : score parsed.idle_workers parsed.busy_workers
            ≡ some (pos ((n - 1) * 4 / (m + n - 1) + 1)) =
          rw (idle, busy) (score_lem n m some_idle (omega arith)) in
        (
          told (ok_from "set_url_apache_status") (ok_from "retrieve_apache_status") t parsed,
          poll-named
              ∙ ap (retrieve_answer (ok_from "set_url_apache_status")) got
              ∙ ap
                  (parse_answer (ok_from "set_url_apache_status")
                    (ok_from "retrieve_apache_status"))
                  e,
          rw (fine, counts, result),
        )

    -- When `retrieve_apache_status` returns an error, the scheduler is told that the server does not reply.
    pub poll-IsSilent :
        (status : ApacheServerStatus F) (sent : List ℕ) (left_open : Option ℕ) (t : Throwable)
        → retrieve_apache_status tolower copy convert asked_status calls
          ≡ returns status sent left_open t
        → failed t ≡ true
        → (a : Answers) × (poll host_ip calls ≡ some a) × IsSilent a
    unfolding retrieve_answer ok_from
    poll-IsSilent status sent left_open t e bad = (
      told (ok_from "set_url_apache_status") t t status,
      poll-named ∙ ap (retrieve_answer (ok_from "set_url_apache_status")) e ∙ rw bad refl,
      record { url = refl; lost = bad },
    )

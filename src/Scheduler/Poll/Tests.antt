-- ===== src/Scheduler/Poll/Tests.antt =====
-- What the scheduler is told about a server that answers with a short page.
use heimdall_web_switch.Prelude.{
  ℕ, zero, suc, ◌+◌, ◌-◌, ◌*◌, ◌/◌, ◌<◌, ◌≡◌, refl, false, true, Bool, Bool-cases, inl, inr, ◌&&◌,
  leb, ◌==◌, if◌then◌else◌, some, List, [], ◌∷◌, length, arith,
}
use heimdall_web_switch.Prelude.Int.{pos}
use heimdall_web_switch.Throwable.{ok_from}
use heimdall_web_switch.Helper.{Strtol, str_to_int}
use heimdall_web_switch.Scheduler.{ServerNode, Answers, apache_score}
use heimdall_web_switch.Types.{server_status_ready, server_status_broken}
use heimdall_web_switch.Scheduler.Poll.{poll, poll-apache_score}
use heimdall_web_switch.HttpRequest.{Chars, new_http_request, get_response}
use heimdall_web_switch.HttpRequest.FirstLine.{ZeroFree}
use heimdall_web_switch.HttpRequest.Headers.{codes, read_headers, split_colon}
use heimdall_web_switch.HttpResponse.Body.{divided}
use heimdall_web_switch.Connection.{WriteAnswer, wrote, grown}
use heimdall_web_switch.Connection.Send.{Honest, NoFailure}
use heimdall_web_switch.Connection.Messages.{received}
use heimdall_web_switch.Connection.Sockets.{inet, address, hostname_to_ip, create_client_socket}
use heimdall_web_switch.ApacheStatus.{
  ApacheServerStatus, Strtof, new_apache_server_status, done, parse_apache_status,
}
use heimdall_web_switch.ApacheStatus.Retrieve.{RetrieveCalls}
use heimdall_web_switch.ApacheStatus.Retrieve.Fetched.{request_for, IsConnected, IsAnswered, named}

abbrev lower : ℕ → ℕ
lower c = if leb 65 c && leb c 90 then c + 32 else c

-- A numeral of one digit.
abbrev digit : Chars → Strtol
digit s = record {
  value = pos (elim s [ [] ↦ 0 | c ∷ cs ↦ c - 48 ]);
  consumed = 1;
  string_len = length s;
  errno_set = false;
  out_of_range = false;
}

abbrev no_float : Chars → Strtof ℕ
no_float s = record {
  value = 0;
  is_zero = false;
  is_limit = false;
  consumed = 0;
  string_len = length s;
  errno_set = false;
  out_of_range = false;
}

-- A status line and one header line, whose own line break belongs to the empty line.
abbrev head : Chars
head = codes "P 2 K\r\nHost: a"

abbrev page : Chars
page = codes "BusyWorkers: 3\nIdleWorkers: 7\n"

-- A socket that takes one byte in each call.
abbrev one_by_one : ℕ → List WriteAnswer
one_by_one zero = wrote 0 ∷ []
one_by_one (suc n) = wrote 1 ∷ one_by_one n

one_by_one-Honest : (n : ℕ) → Honest n (one_by_one n)
one_by_one-Honest zero = (omega arith, (λ e. refl), tt)
one_by_one-Honest (suc n) =
    let left : suc n - 1 ≡ n = omega arith in
    (omega arith, (λ e. absurd (omega arith)), rw left (one_by_one-Honest n))

one_by_one-NoFailure : (n : ℕ) → NoFailure (one_by_one n)
one_by_one-NoFailure zero = tt
one_by_one-NoFailure (suc n) = one_by_one-NoFailure n

length-one_by_one : (n : ℕ) → n < length (one_by_one n)
length-one_by_one zero = omega arith
length-one_by_one (suc n) = omega (arith, length-one_by_one n)

abbrev no_zero : Chars → Bool
no_zero [] = true
no_zero (c ∷ cs) = if c == 0 then false else no_zero cs

ZeroFree-test : (xs : Chars) → no_zero xs ≡ true → ZeroFree xs
ZeroFree-test [] h = tt
ZeroFree-test (x ∷ xs) h = elim (Bool-cases (x == 0)) [
  | inl zero_byte ↦ absurd (ground (arith, h))
  | inr fine ↦
      let rest : no_zero xs ≡ true = ground (arith, h) in (ground arith, ZeroFree-test xs rest)
]

abbrev answers : RetrieveCalls
answers = record {
  getaddrinfo = some (inet (some (codes "10.0.0.1")) ∷ []);
  socket = some 7;
  inet_pton = address;
  connect = true;
  writes = one_by_one (length (request_for (codes "h")));
  reads = received (divided head page) ∷ [];
  realloc = λ _. grown;
  close = true;
}

connected : IsConnected lower some digit (λ s. refl) (codes "h") answers 7
unfolding hostname_to_ip create_client_socket ok_from
connected = record {
  resolved = refl;
  connected = refl;
  honest = one_by_one-Honest (length (request_for (codes "h")));
  no_failure = one_by_one-NoFailure (length (request_for (codes "h")));
  taken = length-one_by_one (length (request_for (codes "h")));
}

answered : IsAnswered lower some digit (λ s. refl) (codes "h") answers head page
unfolding read_headers get_response ok_from
answered = record {
  chunks = [];
  last = divided head page;
  behind = [];
  in_place = λ _. refl;
  reads = refl;
  full = tt;
  short = omega arith;
  whole = refl;
  zero_free = ZeroFree-test (divided head page) refl;
  undivided = (
    refl,
    (
      refl,
      (
        refl,
        (refl, (refl, (refl, (refl, (refl, (refl, (refl, (refl, (refl, (refl, (refl, tt))))))))))),
      ),
    ),
  );
  response = record new_http_request {
    req_protocol = some (codes "P");
    resp_code = some (codes "2");
    resp_msg = some (codes "K");
  };
  t = ok_from "read_headers";
  readable = refl;
  fine = refl;
}

abbrev with_page : ApacheServerStatus ℕ
with_page = record (named (new_apache_server_status 9) (codes "h")) { status_page = some page }

abbrev parsed : ApacheServerStatus ℕ
parsed = record with_page { busy_workers = pos 3; idle_workers = pos 7 }

parse_apache_status-with_page :
    parse_apache_status lower digit no_float with_page ≡ done parsed (ok_from "parse_apache_status")
unfolding parse_apache_status str_to_int ok_from split_colon
parse_apache_status-with_page = refl

abbrev node : ServerNode
node = record {
  host_address = some "h";
  host_ip = some "10.0.0.1";
  status = server_status_broken;
  weight = pos 1;
}

poll-apache_score_example :
    (a : Answers) × (poll lower some digit digit no_float 9 (codes "h") answers ≡ some a)
    × (apache_score node a
        ≡ some (
          record node {
            status = server_status_ready;
            weight = pos ((7 - 1) * 4 / (3 + 7 - 1) + 1);
          },
          ok_from "apache_score",
        ))
unfolding ok_from
poll-apache_score_example =
    poll-apache_score lower some digit digit no_float 9 (λ s. refl) (codes "h") answers 7 head page
      parsed (ok_from "parse_apache_status") 7 3 node connected answered
      parse_apache_status-with_page refl refl (omega arith) refl (omega arith)

-- ===== src/ApacheStatus/Retrieve/Tests.antt =====
-- The theorem on `retrieve_apache_status` at a server that answers with a short page.
use heimdall_web_switch.Prelude.{
  ℕ, zero, suc, ◌-◌, ◌<◌, ◌≡◌, refl, false, true, none, some, List, [], ◌∷◌, length, arith,
}
use heimdall_web_switch.Prelude.Int.{pos}
use heimdall_web_switch.Throwable.{ok_from}
use heimdall_web_switch.Helper.{Strtol}
use heimdall_web_switch.HttpRequest.{Chars, new_http_request, get_response}
use heimdall_web_switch.HttpRequest.Headers.{codes, read_headers}
use heimdall_web_switch.HttpResponse.Body.{divided}
use heimdall_web_switch.Connection.{WriteAnswer, wrote, grown}
use heimdall_web_switch.Connection.Send.{Honest, NoFailure}
use heimdall_web_switch.Connection.Messages.{received}
use heimdall_web_switch.Connection.Sockets.{inet, address, hostname_to_ip, create_client_socket}
use heimdall_web_switch.ApacheStatus.{ApacheServerStatus, new_apache_server_status}
use heimdall_web_switch.ApacheStatus.Retrieve.{RetrieveCalls, returns, retrieve_apache_status}
use heimdall_web_switch.ApacheStatus.Retrieve.Left.{IsLeft, retrieve_apache_status-IsLeft}
use heimdall_web_switch.ApacheStatus.Retrieve.Fetched.{
  request_for, IsConnected, IsAnswered, named, retrieve_apache_status-page,
}

abbrev same : ℕ → ℕ
same c = c

abbrev no_number : Chars → Strtol
no_number s = record {
  value = pos 0;
  consumed = 0;
  string_len = length s;
  errno_set = false;
  out_of_range = false;
}

-- A status line and one header line, whose own line break belongs to the empty line.
abbrev head : Chars
head = codes "P 2 K\r\nHost: a"

abbrev page : Chars
page = codes "ok"

-- A socket that takes one byte in each call.
abbrev one_by_one : ℕ → List WriteAnswer
one_by_one zero = wrote 0 ∷ []
one_by_one (suc n) = wrote 1 ∷ one_by_one n

one_by_one-Honest : (n : ℕ) → Honest n (one_by_one n)
one_by_one-Honest zero = (omega arith, (λ e. refl), tt)
one_by_one-Honest (suc n) =
    let left : suc n - 1 ≡ n = omega arith in
    (omega arith, (λ e. absurd (omega arith)), rw left (one_by_one-Honest n))

one_by_one-NoFailure : (n : ℕ) → NoFailure (one_by_one n)
one_by_one-NoFailure zero = tt
one_by_one-NoFailure (suc n) = one_by_one-NoFailure n

length-one_by_one : (n : ℕ) → n < length (one_by_one n)
length-one_by_one zero = omega arith
length-one_by_one (suc n) = omega (arith, length-one_by_one n)

abbrev answers : RetrieveCalls
answers = record {
  getaddrinfo = some (inet (some (codes "10.0.0.1")) ∷ []);
  socket = some 7;
  inet_pton = address;
  connect = true;
  writes = one_by_one (length (request_for (codes "h")));
  reads = received (divided head page) ∷ [];
  realloc = λ _. grown;
  close = true;
}

abbrev fresh : ApacheServerStatus ℕ
fresh = new_apache_server_status 9

connected : IsConnected same some no_number (λ s. refl) (codes "h") answers 7
unfolding hostname_to_ip create_client_socket ok_from
connected = record {
  resolved = refl;
  connected = refl;
  honest = one_by_one-Honest (length (request_for (codes "h")));
  no_failure = one_by_one-NoFailure (length (request_for (codes "h")));
  taken = length-one_by_one (length (request_for (codes "h")));
}

answered : IsAnswered same some no_number (λ s. refl) (codes "h") answers head page
unfolding read_headers get_response ok_from
answered = record {
  chunks = [];
  last = divided head page;
  behind = [];
  in_place = λ _. refl;
  reads = refl;
  full = tt;
  short = omega arith;
  whole = refl;
  zero_free = (
    omega arith,
    (
      omega arith,
      (
        omega arith,
        (
          omega arith,
          (
            omega arith,
            (
              omega arith,
              (
                omega arith,
                (
                  omega arith,
                  (
                    omega arith,
                    (
                      omega arith,
                      (
                        omega arith,
                        (
                          omega arith,
                          (
                            omega arith,
                            (
                              omega arith,
                              (
                                omega arith,
                                (
                                  omega arith,
                                  (omega arith, (omega arith, (omega arith, (omega arith, tt)))),
                                ),
                              ),
                            ),
                          ),
                        ),
                      ),
                    ),
                  ),
                ),
              ),
            ),
          ),
        ),
      ),
    ),
  );
  undivided = (
    refl,
    (
      refl,
      (
        refl,
        (refl, (refl, (refl, (refl, (refl, (refl, (refl, (refl, (refl, (refl, (refl, tt))))))))))),
      ),
    ),
  );
  response = record new_http_request {
    req_protocol = some (codes "P");
    resp_code = some (codes "2");
    resp_msg = some (codes "K");
  };
  t = ok_from "read_headers";
  readable = refl;
  fine = refl;
}

retrieve_apache_status-page_example :
    retrieve_apache_status same some no_number (named fresh (codes "h")) answers
    ≡ returns
        (record (named fresh (codes "h")) { status_page = some page })
        (request_for (codes "h"))
        none
        (ok_from "retrieve_apache_status")
retrieve_apache_status-page_example =
    retrieve_apache_status-page same some no_number (λ s. refl) (codes "h") answers fresh 7 head
      page connected answered

-- The same server, whose `connect` fails.
abbrev refused : RetrieveCalls
refused = record answers { connect = false }

retrieve_apache_status-IsLeft_example :
    IsLeft
      (named fresh (codes "h"))
      refused
      (retrieve_apache_status same some no_number (named fresh (codes "h")) refused)
retrieve_apache_status-IsLeft_example =
    retrieve_apache_status-IsLeft (named fresh (codes "h")) refused same some no_number

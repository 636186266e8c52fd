-- ===== src/ApacheStatus/Retrieve.antt =====
-- How a status page is asked for: `set_url_apache_status` and `retrieve_apache_status` of
-- code/web_switch/apache_status.c, over what the system's calls answer.
-- `copy` is `strdup` and the other copies of strings: the copied string, or `none`.
pub mod Fetched
pub mod Left
mod Tests
use heimdall_web_switch.Prelude.{ℕ, Bool, if◌then◌else◌, Option, none, some, List, [], ◌∷◌}
use heimdall_web_switch.Throwable.{Throwable, errno_text, ok_from, error_from, thrown}
use heimdall_web_switch.Helper.{Strtol}
use heimdall_web_switch.Scheduler.{failed}
use heimdall_web_switch.HttpRequest.{
  Chars, HttpRequest, new_http_request, string_at, make_simple_request, set_simple_request,
}
use heimdall_web_switch.HttpRequest.Headers.{codes}
use heimdall_web_switch.HttpResponse.{ResponseEnd, new_http_response, get_http_response}
use heimdall_web_switch.HttpResponse
use heimdall_web_switch.Connection.{WriteAnswer, Realloc, send_http}
use heimdall_web_switch.Connection.Messages.{
  ChunkAnswer, MessageEnd, waiting, freed, returned, receive_http,
}
use heimdall_web_switch.Connection.Sockets.{
  AddressInfo, PtonAnswer, create_client_socket, hostname_to_ip,
}
use heimdall_web_switch.ApacheStatus.{ApacheServerStatus}

-- What the calls of the system answer.
pub record RetrieveCalls : Type 0 where
  pub getaddrinfo : Option (List AddressInfo)
  pub socket : Option ℕ
  pub inet_pton : PtonAnswer
  pub connect : Bool
  pub writes : List WriteAnswer
  pub reads : List ChunkAnswer
  pub realloc : ℕ → Realloc
  pub close : Bool

-- `waits`: a call of `read` or `write` has not returned. `faults`: a read through NULL, or a
-- write into memory that `realloc` has freed. `returns`: the status,
-- the bytes sent to the server, the socket that is left open, and the result.
pub data RetrieveEnd (F : Type 0) : Type 0 where
  waits : RetrieveEnd F
  faults : RetrieveEnd F
  returns :
      ApacheServerStatus F → (sent : List ℕ) → (left_open : Option ℕ) → Throwable → RetrieveEnd F

unfoldable pub set_url_apache_status :
    {F : Type 0}
    → (Chars → Option Chars)
    → ApacheServerStatus F
    → (url : Chars) → ApacheServerStatus F × Throwable
set_url_apache_status copy self url = elim (copy url) [
  | none ↦ (self, error_from errno_text "set_url_apache_status")
  | some new_url ↦ (record self { url = some new_url }, ok_from "set_url_apache_status")
]

-- The request for the page of the server `url`; the result of `set_simple_request` is dropped.
pub status_request : (Chars → Option Chars) → (url : Chars) → HttpRequest
status_request copy url =
    (set_simple_request copy new_http_request (codes "GET") (codes "/server-status?auto")
      (codes "HTTP/1.1") url).0

module _ {F : Type 0} (tolower : ℕ → ℕ) (copy : Chars → Option Chars)
    (convert : Chars → Strtol) where
  -- The end of `retrieve_apache_status`, which does not look at the result of `get_http_response`.
  pub store_page :
      ApacheServerStatus F → (sent : List ℕ) → (left_open : Option ℕ) → ResponseEnd → RetrieveEnd F
  store_page self sent left_open HttpResponse.fault = faults
  store_page self sent left_open (HttpResponse.done http_response t) =
      elim http_response.http_response_body [
        | none ↦ faults
        | some body ↦
            returns (record self { status_page = copy body }) sent left_open
              (ok_from "retrieve_apache_status")
      ]

  -- From `receive_http` on.
  pub receive_page :
      ApacheServerStatus F → (sent : List ℕ) → (sockfd : Option ℕ) → RetrieveCalls → RetrieveEnd F
  unfolding store_page
  receive_page self sent sockfd calls = elim (receive_http calls.realloc [] calls.reads) [
    | waiting ↦ waits
    | freed ↦ faults
    | returned response t ↦
        if failed t
        then returns self sent sockfd (thrown t "retrieve_apache_status")
        else store_page self sent (if calls.close then none else sockfd)
            (get_http_response tolower copy convert new_http_response (string_at response))
  ]

  -- From the result of `make_simple_request` on.
  pub send_page :
      ApacheServerStatus F
      → (sockfd : Option ℕ) → RetrieveCalls
      → Option Chars × Throwable
      → RetrieveEnd F
  unfolding receive_page
  send_page self sockfd calls (message, made) =
      if failed made
      then returns self [] sockfd (thrown made "retrieve_apache_status")
      else elim message [
        | none ↦ faults
        | some bytes ↦
            let (sent, result) = send_http bytes calls.writes in
            elim result [
              | none ↦ waits
              | some t ↦
                  if failed t
                  then returns self sent sockfd (thrown t "retrieve_apache_status")
                  else receive_page self sent sockfd calls
            ]
      ]

  pub retrieve_apache_status : ApacheServerStatus F → RetrieveCalls → RetrieveEnd F
  unfolding send_page status_request
  retrieve_apache_status self calls = elim self.url [
    | none ↦ faults
    | some url ↦
        let (ip, resolved) = hostname_to_ip calls.getaddrinfo in
        if failed resolved
        then returns self [] none (thrown resolved "retrieve_apache_status")
        else let (sockfd, connected) =
            create_client_socket 0 calls.socket calls.inet_pton calls.connect in
          if failed connected
          then returns self [] sockfd (thrown connected "retrieve_apache_status")
          else send_page self sockfd calls (make_simple_request copy (status_request copy url))
  ]

-- ===== src/ApacheStatus/Retrieve/Fetched.antt =====
-- What `retrieve_apache_status` of code/web_switch/apache_status.c leaves behind.
use heimdall_web_switch.Prelude.{
  ℕ, ◌<◌, ◌≡◌, refl, ap, ap₂, ◌∙◌, false, Option, none, some, List, [], ◌∷◌, ◌++◌, map, length,
  if◌then◌else◌, arith,
}
use heimdall_web_switch.Throwable.{Throwable, ok_from}
use heimdall_web_switch.Helper.{Strtol}
use heimdall_web_switch.Scheduler.{failed}
use heimdall_web_switch.HttpRequest.{
  Chars, HttpRequest, string_at, simple_request, new_http_request,
}
use heimdall_web_switch.HttpRequest.FirstLine.{ZeroFree}
use heimdall_web_switch.HttpRequest.Simple.{make_simple_request-set_simple_request}
use heimdall_web_switch.HttpRequest.Headers.{codes, resp, read_headers}
use heimdall_web_switch.HttpRequest.Headers
use heimdall_web_switch.HttpResponse.{new_http_response, get_http_response}
use heimdall_web_switch.HttpResponse.Body.{IsUndivided, divided, get_http_response-body}
use heimdall_web_switch.Connection.{grown}
use heimdall_web_switch.Connection.Send.{Honest, NoFailure, send_http-all}
use heimdall_web_switch.Connection.Messages.{ChunkAnswer, returned, received, receive_http}
use heimdall_web_switch.Connection.Messages.Whole.{AllFull, concat, receive_http-short}
use heimdall_web_switch.Connection.Sockets.{hostname_to_ip, create_client_socket}
use heimdall_web_switch.ApacheStatus.{ApacheServerStatus}
use heimdall_web_switch.ApacheStatus.Retrieve.{
  RetrieveCalls, returns, store_page, receive_page, send_page, status_request,
  retrieve_apache_status,
}

string_at-ZeroFree : (xs : Chars) → ZeroFree xs → string_at xs ≡ xs
string_at-ZeroFree [] z = refl
string_at-ZeroFree (x ∷ xs) (some_byte, z) = let on = string_at-ZeroFree xs z in ground (arith, on)

-- The request for the page of `url`.
abbrev pub request_for : (url : Chars) → Chars
request_for url = simple_request (codes "GET") (codes "/server-status?auto") (codes "HTTP/1.1") url

-- The status once its `set_url` has succeeded.
abbrev pub named : {F : Type 0} → ApacheServerStatus F → (url : Chars) → ApacheServerStatus F
named self url = record self { url = some url }

module _ (tolower : ℕ → ℕ) (copy : Chars → Option Chars) (convert : Chars → Strtol)
    (copies : (s : Chars) → copy s ≡ some s) (url : Chars) (calls : RetrieveCalls) where
  -- The connection is made on the socket `fd`, and takes the request.
  pub record IsConnected (fd : ℕ) : Type 0 where
    pub resolved : failed (hostname_to_ip calls.getaddrinfo).1 ≡ false
    pub connected :
        create_client_socket 0 calls.socket calls.inet_pton calls.connect
        ≡ (some fd, ok_from "create_client_socket")
    pub honest : Honest (length (request_for url)) calls.writes
    pub no_failure : NoFailure calls.writes
    pub taken : length (request_for url) < length calls.writes

  -- The answer is a response whose head can be read, in full reads and one that is not.
  pub record IsAnswered (head page : Chars) : Type 0 where
    pub chunks : List (List ℕ)
    pub last : List ℕ
    pub behind : List ChunkAnswer
    pub in_place : (size : ℕ) → calls.realloc size ≡ grown
    pub reads : calls.reads ≡ map received chunks ++ (received last ∷ behind)
    pub full : AllFull chunks
    pub short : length last < 4096
    pub whole : concat chunks ++ last ≡ divided head page
    pub zero_free : ZeroFree (divided head page)
    pub undivided : IsUndivided head (b'\r' ∷ b'\n' ∷ b'\r' ∷ b'\n' ∷ page)
    pub response : HttpRequest
    pub t : Throwable
    pub readable :
        read_headers tolower copy convert new_http_request head resp ≡ Headers.done response t
    pub fine : failed t ≡ false

  receive_page-IsAnswered :
      {F : Type 0} (status : ApacheServerStatus F) (head page : Chars) (sent : List ℕ)
      (sockfd : Option ℕ)
      → IsAnswered head page
      → receive_page tolower copy convert status sent sockfd calls
        ≡ returns
            (record status { status_page = some page })
            sent
            (if calls.close then none else sockfd)
            (ok_from "retrieve_apache_status")
  unfolding receive_page store_page ok_from
  receive_page-IsAnswered status head page sent sockfd a =
      let got =
        ap (receive_http calls.realloc []) a.reads
        ∙ receive_http-short calls.realloc a.in_place a.chunks a.last a.behind a.full a.short
        ∙ ap (λ m. returned m (ok_from "receive_http")) a.whole in
      let string : string_at (divided head page) ≡ divided head page =
        string_at-ZeroFree (divided head page) a.zero_free in
      let parsed =
        ap (get_http_response tolower copy convert new_http_response) string
        ∙ get_http_response-body tolower copy convert new_http_response head page a.response a.t
            a.undivided a.readable a.fine (copies page) in
      rw (got, receive_page) (rw (parsed, receive_page) (rw (copies page) refl))

  -- When every copy succeeds, the name is resolved, the socket `fd` is connected and takes all bytes, and the
  -- server's response, read up to the first short read, has no zero byte and a head that can be read, and
  -- `realloc`, which is called for a response of 4096 bytes or more, grows the block where it is:
  -- `retrieve_apache_status` returns STATUS_OK, has sent exactly the request line and the Host line for
  -- the page of the server, has stored exactly what stands behind the empty line as the page, and has
  -- closed the socket if `close` succeeds.
  pub retrieve_apache_status-page :
      {F : Type 0} (self : ApacheServerStatus F) (fd : ℕ) (head page : Chars)
      → IsConnected fd
      → IsAnswered head page
      → retrieve_apache_status tolower copy convert (named self url) calls
        ≡ returns
            (record (named self url) { status_page = some page })
            (request_for url)
            (if calls.close then none else some fd)
            (ok_from "retrieve_apache_status")
  unfolding retrieve_apache_status send_page status_request ok_from
  retrieve_apache_status-page self fd head page c a =
      let made =
        make_simple_request-set_simple_request copy new_http_request (codes "GET")
          (codes "/server-status?auto") (codes "HTTP/1.1") url copies in
      let sent = send_http-all (request_for url) calls.writes c.honest c.no_failure c.taken in
      let rest =
        ap₂ (λ bytes sockfd. receive_page tolower copy convert (named self url) bytes sockfd calls)
          (ap (λ (r : List ℕ × Option Throwable). r.0) sent)
          (ap (λ (r : Option ℕ × Throwable). r.0) c.connected)
        ∙ receive_page-IsAnswered (named self url) head page (request_for url) (some fd) a in
      rw (c.resolved, retrieve_apache_status)
        (rw (c.connected, retrieve_apache_status)
          (rw (made, send_page) (rw (sent, send_page) rest)))

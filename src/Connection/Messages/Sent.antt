-- ===== src/Connection/Messages/Sent.antt =====
-- The request that goes to a server (`send_http_request` of code/http/connection.c).
use heimdall_web_switch.Prelude.{◌≡◌, ◌<◌, ap, ◌∙◌, Option, some, List, length}
use heimdall_web_switch.Throwable.{ok_from}
use heimdall_web_switch.HttpRequest.{Chars, HttpRequest, simple_request, set_simple_request}
use heimdall_web_switch.HttpRequest.Simple.{make_simple_request-set_simple_request}
use heimdall_web_switch.Connection.{WriteAnswer}
use heimdall_web_switch.Connection.Send.{Honest, NoFailure, send_http-all}
use heimdall_web_switch.Connection.Messages.{return_from, send_http_request, send_made}

-- A request whose four values were set, when every copy succeeds and the socket takes bytes until
-- all are taken: `send_http_request` sends the request line and the Host line of those values, nothing
-- else, and returns STATUS_OK.
pub send_http_request-set_simple_request :
    (copy : Chars → Option Chars) (self : HttpRequest) (method resource protocol host : Chars)
    (answers : List WriteAnswer)
    → ((s : Chars) → copy s ≡ some s)
    → Honest (length (simple_request method resource protocol host)) answers
    → NoFailure answers
    → length (simple_request method resource protocol host) < length answers
    → send_http_request copy (set_simple_request copy self method resource protocol host).0 answers
      ≡ (simple_request method resource protocol host, some (ok_from "send_http_request"))
unfolding send_http_request send_made ok_from
send_http_request-set_simple_request copy self method resource protocol host answers copies h f k =
    ap (λ made. send_made made answers)
      (make_simple_request-set_simple_request copy self method resource protocol host copies)
    ∙ ap (λ r. (r.0, return_from "send_http_request_2" "send_http_request" r.1))
        (send_http-all (simple_request method resource protocol host) answers h f k)

-- ===== src/HttpRequest/Simple.antt =====
-- The request that is sent on (`set_simple_request` and `make_simple_request` of
-- code/http/http_request.c).
use heimdall_web_switch.Prelude.{◌≡◌, ap, ◌∙◌, Option, some}
use heimdall_web_switch.Throwable.{ok_from}
use heimdall_web_switch.HttpRequest.{
  Chars, HttpRequest, simple_request, make_simple_request, set_simple_request,
}

abbrev simple : HttpRequest → (method resource protocol host : Chars) → HttpRequest
simple self method resource protocol host = record self {
  req_type = some method;
  req_resource = some resource;
  req_protocol = some protocol;
  req_host = some host;
}

set_simple_request-set :
    (copy : Chars → Option Chars) (self : HttpRequest) (method resource protocol host : Chars)
    → ((s : Chars) → copy s ≡ some s)
    → set_simple_request copy self method resource protocol host
      ≡ (simple self method resource protocol host, ok_from "set_simple_http_request")
unfolding set_simple_request
set_simple_request-set copy self method resource protocol host copies =
    rw (copies method, copies protocol, copies resource, copies host, set_simple_request)

-- When `asprintf` succeeds, `make_simple_request` of what `set_simple_request` has set, whatever was set
-- before, stores the request line and the Host line of the four values, and returns STATUS_OK.
pub make_simple_request-set_simple_request :
    (copy : Chars → Option Chars) (self : HttpRequest) (method resource protocol host : Chars)
    → ((s : Chars) → copy s ≡ some s)
    → make_simple_request copy (set_simple_request copy self method resource protocol host).0
      ≡ (some (simple_request method resource protocol host), ok_from "make_simple_request")
unfolding make_simple_request
make_simple_request-set_simple_request copy self method resource protocol host copies =
    ap (λ r. make_simple_request copy r.0)
      (set_simple_request-set copy self method resource protocol host copies)
    ∙ rw (copies (simple_request method resource protocol host), make_simple_request)

-- ===== src/HttpResponse/Body.antt =====
-- Where `get_http_response` of code/http/http_response.c divides a response.
use heimdall_web_switch.Prelude.{ℕ, ◌≡◌, refl, ap, ◌∙◌, false, Option, some, [], ◌∷◌, ◌++◌}
use heimdall_web_switch.Throwable.{Throwable, ok_from}
use heimdall_web_switch.Helper.{Strtol}
use heimdall_web_switch.Scheduler.{failed}
use heimdall_web_switch.HttpRequest.{Chars, HttpRequest}
use heimdall_web_switch.HttpRequest.Headers.{ReadEnd, read_headers}
use heimdall_web_switch.HttpRequest.Headers
use heimdall_web_switch.HttpResponse.{
  HttpResponse, done, is_double, split_body, get_response_head, get_response_body, body_behind,
  get_http_response,
}

-- No two line breaks in a row begin within `head`, when `tail` stands behind it.
abbrev pub IsUndivided : (head tail : Chars) → Type 0
IsUndivided [] tail = Unit {0}
IsUndivided (c ∷ cs) tail = (is_double (c ∷ (cs ++ tail)) ≡ false) × IsUndivided cs tail

abbrev pub divided : (head body : Chars) → Chars
divided head body = head ++ (b'\r' ∷ b'\n' ∷ b'\r' ∷ b'\n' ∷ body)

split_body-divided :
    (head body : Chars)
    → IsUndivided head (b'\r' ∷ b'\n' ∷ b'\r' ∷ b'\n' ∷ body)
    → split_body (divided head body) ≡ (head, some body)
unfolding split_body
split_body-divided [] body u = refl
split_body-divided (c ∷ cs) body (e, u) =
    rw (e, split_body)
      (ap (λ (r : Chars × Option Chars). (c ∷ r.0, r.1)) (split_body-divided cs body u))

-- A response whose head holds no empty line and is read with the result `t`, not an error, followed by an
-- empty line and a body that can be copied: `get_http_response` keeps what was read of the head, and
-- stores the body from the byte behind the empty line on, unchanged and to its end.
pub get_http_response-body :
    (tolower : ℕ → ℕ) (copy : Chars → Option Chars) (convert : Chars → Strtol) (self : HttpResponse)
    (head body : Chars) (response : HttpRequest) (t : Throwable)
    → IsUndivided head (b'\r' ∷ b'\n' ∷ b'\r' ∷ b'\n' ∷ body)
    → read_headers tolower copy convert self.response head self.http_response_type
      ≡ Headers.done response t
    → failed t ≡ false
    → copy body ≡ some body
    → get_http_response tolower copy convert self (divided head body)
      ≡ done
          (record self { response = response; http_response_body = some body })
          (ok_from "get_response")
unfolding get_http_response get_response_head get_response_body body_behind ok_from
get_http_response-body tolower copy convert self head body response t u e f c =
    ap
      (λ (r : Chars × Option Chars).
        body_behind tolower copy convert r.1 (get_response_head tolower copy convert self r.0))
      (split_body-divided head body u)
    ∙ rw (e, f, get_response_head) (rw (c, get_response_body) refl)

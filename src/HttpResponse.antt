-- ===== src/HttpResponse.antt =====
-- code/http/http_response.c: a response in one buffer, cut into its header and its body.
-- `copy` is also the `malloc` and `strcpy` of the body: the copied string, or `none`.
pub mod Body
use heimdall_web_switch.Prelude.{
  ℕ, Bool, ◌&&◌, ◌==◌, if◌then◌else◌, Option, none, some, List, [], ◌∷◌, get_or, drop,
}
use heimdall_web_switch.Throwable.{Throwable, text, errno_text, ok_from, error_from, thrown}
use heimdall_web_switch.Helper.{Strtol}
use heimdall_web_switch.Scheduler.{failed}
use heimdall_web_switch.HttpRequest.{Chars, HttpRequest, new_http_request}
use heimdall_web_switch.HttpRequest.Headers.{ReadEnd, Kind, resp, read_headers}
use heimdall_web_switch.HttpRequest.Headers

pub record HttpResponse : Type 0 where
  pub http_response_type : Kind
  pub response : HttpRequest
  pub http_response_body : Option Chars

abbrev pub new_http_response : HttpResponse
new_http_response = record {
  http_response_type = resp;
  response = new_http_request;
  http_response_body = none;
}

-- Two line breaks of two bytes each.
abbrev pub is_double : List ℕ → Bool
is_double buffer =
    (get_or buffer 0 0 == b'\r')
    && ((get_or buffer 1 0 == b'\n')
        && ((get_or buffer 2 0 == b'\r') && (get_or buffer 3 0 == b'\n')))

-- The loop over the buffer: the string that `head` is then, and `body`.
pub split_body : Chars → Chars × Option Chars
split_body [] = ([], none)
split_body (c ∷ cs) =
    let (head, body) = split_body cs in
    if is_double (c ∷ cs) then ([], some (drop 3 cs)) else (c ∷ head, body)

-- A fault is that of `read_headers`.
pub data ResponseEnd : Type 0 where
  fault : ResponseEnd
  done : HttpResponse → Throwable → ResponseEnd

module _ (tolower : ℕ → ℕ) (copy : Chars → Option Chars) (convert : Chars → Strtol) where
  pub get_response_head : HttpResponse → (head : Chars) → ResponseEnd
  get_response_head self head =
      elim (read_headers tolower copy convert self.response head self.http_response_type) [
        | Headers.fault ↦ fault
        | Headers.done response t ↦
            done (record self { response = response })
              (if failed t
                then error_from (text "Trying to parse remote server response") "get_response_head"
                else ok_from "get_response_head")
      ]

  pub get_response_body : HttpResponse → (body : Option Chars) → HttpResponse × Throwable
  get_response_body self body = elim body [
    | none ↦ (
      self,
      error_from (text "Trying to parse remote server response - no body") "get_response_body",
    )
    | some string ↦ elim (copy string) [
      | none ↦ (self, error_from errno_text "get_response_body")
      | some stored ↦
          (record self { http_response_body = some stored }, ok_from "get_response_body")
    ]
  ]

  -- The body is read when the head could be.
  body_behind : (body : Option Chars) → ResponseEnd → ResponseEnd
  unfolding get_response_body
  body_behind body fault = fault
  body_behind body (done self t) =
      let (self', t') = get_response_body self body in
      if failed t
      then done self (thrown t "get_http_response")
      else done self' (if failed t' then thrown t' "get_http_response" else ok_from "get_response")

  pub get_http_response : HttpResponse → (buffer : Chars) → ResponseEnd
  unfolding split_body get_response_head body_behind
  get_http_response self buffer =
      let (head, body) = split_body buffer in body_behind body (get_response_head self head)

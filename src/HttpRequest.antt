-- ===== src/HttpRequest.antt =====
-- code/http/http_request.c: the first line of a request or response, and the request that is sent on.
-- A `char` is its code; memory that holds a string is a list of codes, in which 0 ends the string.
-- `copy` is `asprintf` with "%s": the copied string, or `none` where it returned -1.
pub mod FirstLine
pub mod Simple
pub mod Headers
mod Tests
use heimdall_web_switch.Prelude.{
  ℕ, zero, suc, ◌+◌, ◌==◌, if◌then◌else◌, Option, none, some, List, [], ◌∷◌, ◌++◌, get_or, set,
  drop,
}
use heimdall_web_switch.Prelude.Int.{ℤ, negsuc}
use heimdall_web_switch.Throwable.{Throwable, text, errno_text, ok_from, error_from}
use Prim.Native.String.{String}

abbrev pub Chars : Type 0
Chars = List ℕ

-- A `char *` is `none` for NULL.
pub record HttpRequest : Type 0 where
  pub status : Option Chars
  pub req_type : Option Chars
  pub req_protocol : Option Chars
  pub resp_code : Option Chars
  pub resp_msg : Option Chars
  pub req_resource : Option Chars
  pub req_accept : Option Chars
  pub req_from : Option Chars
  pub req_host : Option Chars
  pub req_content_type : Option Chars
  pub req_content_len : ℤ
  pub req_upgrade : Option Chars
  pub header : Option Chars

abbrev pub new_http_request : HttpRequest
new_http_request = record {
  status = none;
  req_type = none;
  req_protocol = none;
  resp_code = none;
  resp_msg = none;
  req_resource = none;
  req_accept = none;
  req_from = none;
  req_host = none;
  req_content_type = none;
  req_content_len = negsuc 0;
  req_upgrade = none;
  header = none;
}

-- The string that starts where the list does.
abbrev pub string_at : List ℕ → Chars
string_at [] = []
string_at (c ∷ cs) = if c == 0 then [] else c ∷ string_at cs

abbrev pub space : ℕ
space = b' '

-- Where the three parts of a first line go, and the frames of the throwables.
pub record Parts : Type 0 where
  pub set_first : HttpRequest → Chars → HttpRequest
  pub set_second : HttpRequest → Chars → HttpRequest
  pub set_third : HttpRequest → Chars → HttpRequest
  pub function : String
  pub found : String

module _ (copy : Chars → Option Chars) (parts : Parts) where
  -- What the second space does, at index `i`.
  second_space : List ℕ → (i start : ℕ) → HttpRequest → HttpRequest × Throwable
  second_space req_line i start self = elim (copy (string_at (drop start (set req_line i 0)))) [
    | none ↦ (self, error_from errno_text parts.function)
    | some second ↦
        let self' = parts.set_second self second in
        elim (copy (string_at (drop (i + 1) (set req_line i 0)))) [
          | none ↦ (self', error_from errno_text parts.function)
          | some third ↦ (parts.set_third self' third, ok_from parts.found)
        ]
  ]

  -- The loop with `counter` 2, for the `rounds` that are left.
  second_loop : (rounds : ℕ) → List ℕ → (i start : ℕ) → HttpRequest → HttpRequest × Throwable
  unfolding second_space
  second_loop zero req_line i start self = (self, ok_from parts.function)
  second_loop (suc rounds) req_line i start self =
      let on = second_loop rounds req_line (i + 1) start self in
      if get_or req_line i 0 == space then second_space req_line i start self else on

  -- The loop with `counter` 1.
  first_loop : (rounds : ℕ) → List ℕ → (i : ℕ) → HttpRequest → HttpRequest × Throwable
  unfolding second_loop
  first_loop zero req_line i self = (self, ok_from parts.function)
  first_loop (suc rounds) req_line i self =
      let on = first_loop rounds req_line (i + 1) self in
      if get_or req_line i 0 == space
      then elim (copy (string_at (set req_line i 0))) [
        | none ↦ (self, error_from errno_text parts.function)
        | some first ↦
            second_loop rounds (set req_line i 0) (i + 1) (i + 1) (parts.set_first self first)
      ]
      else on

abbrev pub request_parts : Parts
request_parts = record {
  set_first = λ self s. record self { req_type = some s };
  set_second = λ self s. record self { req_resource = some s };
  set_third = λ self s. record self { req_protocol = some s };
  function = "get_request";
  found = "get_header_self_request";
}

abbrev pub response_parts : Parts
response_parts = record {
  set_first = λ self s. record self { req_protocol = some s };
  set_second = λ self s. record self { resp_code = some s };
  set_third = λ self s. record self { resp_msg = some s };
  function = "get_response";
  found = "get_response";
}

pub get_request : (Chars → Option Chars) → HttpRequest → List ℕ → ℕ → HttpRequest × Throwable
unfolding first_loop
get_request copy self req_line len = first_loop copy request_parts len req_line 0 self

unfoldable pub get_response :
    (Chars → Option Chars) → HttpRequest → List ℕ → ℕ → HttpRequest × Throwable
unfolding first_loop
get_response copy self req_line len = first_loop copy response_parts len req_line 0 self

-- The format "%s %s %s\nHost: %s\n\n".
abbrev pub simple_request : (req_type req_resource req_protocol req_host : Chars) → Chars
simple_request req_type req_resource req_protocol req_host =
    req_type
    ++ (space
        ∷ (req_resource
            ++ (space
                ∷ (req_protocol
                    ++ (b'\n'
                        ∷ b'H'
                        ∷ b'o'
                        ∷ b's'
                        ∷ b't'
                        ∷ b':'
                        ∷ space
                        ∷ (req_host ++ (b'\n' ∷ b'\n' ∷ [])))))))

-- The string that is stored through `result`, if any.
pub make_simple_request : (Chars → Option Chars) → HttpRequest → Option Chars × Throwable
make_simple_request copy self = elim self.req_type [
  | none ↦ (
    none,
    error_from (text "Trying to create a simple http request with no param req_type set")
        "make_simple_request",
  )
  | some req_type ↦ elim self.req_protocol [
    | none ↦ (
      none,
      error_from (text "Trying to create a simple http request with no param req_protocol set")
          "make_simple_request",
    )
    | some req_protocol ↦ elim self.req_resource [
      | none ↦ (
        none,
        error_from (text "Trying to create a simple http request with no param req_resource set")
            "make_simple_request",
      )
      | some req_resource ↦ elim self.req_host [
        | none ↦ (
          none,
          error_from (text "Trying to create a simple http request with no param req_host set")
              "make_simple_request",
        )
        | some req_host ↦ elim (copy (simple_request req_type req_resource req_protocol req_host)) [
          | none ↦ (none, error_from errno_text "get_response")
          | some message ↦ (some message, ok_from "make_simple_request")
        ]
      ]
    ]
  ]
]

-- Each field is set as soon as its copy is made.
pub set_simple_request :
    (Chars → Option Chars)
    → HttpRequest
    → (request_type request_resource request_protocol host : Chars) → HttpRequest × Throwable
set_simple_request copy self request_type request_resource request_protocol host =
    elim (copy request_type) [
      | none ↦ (self, error_from errno_text "set_simple_request")
      | some a ↦
          let self1 : HttpRequest = record self { req_type = some a } in
          elim (copy request_protocol) [
            | none ↦ (self1, error_from errno_text "set_simple_request")
            | some b ↦
                let self2 : HttpRequest = record self1 { req_protocol = some b } in
                elim (copy request_resource) [
                  | none ↦ (self2, error_from errno_text "set_simple_request")
                  | some c ↦
                      let self3 : HttpRequest = record self2 { req_resource = some c } in
                      elim (copy host) [
                        | none ↦ (self3, error_from errno_text "set_simple_request")
                        | some d ↦
                            (record self3 { req_host = some d }, ok_from "set_simple_http_request")
                      ]
                ]
          ]
    ]

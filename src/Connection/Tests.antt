-- ===== src/Connection/Tests.antt =====
-- The theorems on sockets at short messages.
use heimdall_web_switch.Prelude.{
  if◌then◌else◌, length, false, ◌+◌, ℕ, ◌≡◌, refl, some, [], ◌∷◌, ◌++◌, map, arith,
}
use heimdall_web_switch.Throwable.{thrown}
use heimdall_web_switch.Connection.{byte, Realloc, grown}
use heimdall_web_switch.Prelude.Int.{pos}
use heimdall_web_switch.Helper.{Strtol}
use heimdall_web_switch.Scheduler.{failed}
use heimdall_web_switch.HttpRequest.{Chars, HttpRequest, new_http_request}
use heimdall_web_switch.HttpRequest.Headers.{codes, done, rqst, read_first}
use heimdall_web_switch.HttpRequest.Headers.Message
use heimdall_web_switch.HttpRequest.Headers.Message.{Field, body, read_fields}
use heimdall_web_switch.Connection.Messages.{end_from, receive_http_request}
use heimdall_web_switch.Connection.Messages.Received.{receive_http_request-message}

abbrev get : Chars
get = codes "GET / H1"

abbrev host_field : Field
host_field = record { name = codes "h"; gap = b' '; value = codes "a" }

abbrev same : ℕ → ℕ
same c = c

abbrev no_number : Chars → Strtol
no_number s = record {
  value = pos 0;
  consumed = 0;
  string_len = length s;
  errno_set = false;
  out_of_range = false;
}

abbrev grows : ℕ → Realloc
grows _ = grown

-- With one byte behind the variable.
receive_http_request-message_example :
    receive_http_request same some no_number grows
      (7 ∷ [])
      new_http_request
      (map byte (Message.message get (host_field ∷ []) []) ++ (byte 65 ∷ []))
    ≡ (let kept : HttpRequest = record new_http_request {
      header = some (Message.message get (host_field ∷ []) []);
    } in
        let buffer =
          get ++ (0 ∷ b'\n' ∷ (body (host_field ∷ []) (b'\r' ∷ b'\n' ∷ []) ++ (0 ∷ []))) in
        let (self, t) = read_first same some no_number rqst kept buffer (length get + 1) in
        (
          byte 65 ∷ [],
          end_from "receive_http_request" "receive_http_request" (
              if failed t
              then done self (thrown t "read_headers")
              else read_fields same some no_number (host_field ∷ []) self),
        ))
receive_http_request-message_example =
    receive_http_request-message same some no_number grows (7 ∷ []) get (host_field ∷ [])
      (byte 65 ∷ []) new_http_request (λ s. refl)
      (
        omega arith,
        omega arith,
        omega arith,
        (
          omega arith,
          omega arith,
          omega arith,
          (
            omega arith,
            omega arith,
            omega arith,
            (
              omega arith,
              omega arith,
              omega arith,
              (
                omega arith,
                omega arith,
                omega arith,
                (
                  omega arith,
                  omega arith,
                  omega arith,
                  (
                    omega arith,
                    omega arith,
                    omega arith,
                    (omega arith, omega arith, omega arith, tt),
                  ),
                ),
              ),
            ),
          ),
        ),
      )
      (
        record {
          name = (omega arith, omega arith, tt);
          line = (
            omega arith,
            omega arith,
            omega arith,
            (
              omega arith,
              omega arith,
              omega arith,
              (omega arith, omega arith, omega arith, (omega arith, omega arith, omega arith, tt)),
            ),
          );
        },
        tt,
      )
      (omega arith)

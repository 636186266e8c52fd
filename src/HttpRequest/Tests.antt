-- ===== src/HttpRequest/Tests.antt =====
-- The theorems on first lines and whole messages at short ones.
use heimdall_web_switch.Prelude.{
  ℕ, ◌≡◌, ◌+◌, refl, false, some, List, [], ◌∷◌, ◌++◌, arith, length, ◌==◌, if◌then◌else◌,
}
use heimdall_web_switch.Prelude.Int.{pos}
use heimdall_web_switch.Helper.{Strtol}
use heimdall_web_switch.Scheduler.{failed}
use heimdall_web_switch.HttpRequest.Headers.{codes, done, rqst, read_first, read_headers}
use heimdall_web_switch.HttpRequest.Headers.Message.{
  Field, body, message, read_fields, read_headers-message,
}
use heimdall_web_switch.Throwable.{ok_from, thrown}
use heimdall_web_switch.HttpRequest.{Chars, new_http_request, space, get_request}

abbrev get : Chars
get = b'G' ∷ b'E' ∷ b'T' ∷ []

abbrev slash : Chars
slash = b'/' ∷ []

abbrev protocol : Chars
protocol = b'H' ∷ b'1' ∷ []

-- `Host: a` and, without a space behind its colon, `From:bc`.
abbrev fields : List Field
fields =
    record { name = codes "Host"; gap = space; value = codes "a" }
    ∷ record { name = codes "From"; gap = b'b'; value = codes "c" }
    ∷ []

abbrev lower : ℕ → ℕ
lower c = if c == b'H' then b'h' else if c == b'F' then b'f' else c

abbrev no_number : Chars → Strtol
no_number s = record {
  value = pos 0;
  consumed = 0;
  string_len = length s;
  errno_set = false;
  out_of_range = false;
}

abbrev line : Chars
line = get ++ (space ∷ (slash ++ (space ∷ protocol)))

abbrev after_line : Chars
after_line = 0 ∷ b'\n' ∷ (body fields (b'\r' ∷ b'\n' ∷ []) ++ (0 ∷ []))

read_headers-message_example :
    read_headers lower some no_number new_http_request (message line fields []) rqst ≡ (
      let (self, t) =
        read_first lower some no_number rqst new_http_request
          (line ++ after_line)
          (length line + 1) in
      if failed t
      then done self (thrown t "read_headers")
      else read_fields lower some no_number fields self)
read_headers-message_example =
    read_headers-message lower some no_number rqst line fields [] (message line fields [])
      new_http_request refl
      (
        omega arith,
        (
          omega arith,
          (
            omega arith,
            (omega arith, (omega arith, (omega arith, (omega arith, (omega arith, tt))))),
          ),
        ),
      )
      (
        record {
          name = (
            omega arith,
            omega arith,
            (omega arith, omega arith, (omega arith, omega arith, (omega arith, omega arith, tt))),
          );
          value = (omega arith, tt);
          breaks = (
            omega arith,
            (
              omega arith,
              (omega arith, (omega arith, (omega arith, (omega arith, (omega arith, tt))))),
            ),
          );
          first = omega arith;
        },
        (
          record {
            name = (
              omega arith,
              omega arith,
              (
                omega arith,
                omega arith,
                (omega arith, omega arith, (omega arith, omega arith, tt)),
              ),
            );
            value = (omega arith, tt);
            breaks = (
              omega arith,
              (
                omega arith,
                (omega arith, (omega arith, (omega arith, (omega arith, (omega arith, tt))))),
              ),
            );
            first = omega arith;
          },
          tt,
        ),
      )

-- The value behind a colon without a space loses its first character.
read_headers-short_value :
    read_headers lower some no_number new_http_request (message line fields []) rqst
    ≡ done
        (record new_http_request {
          req_type = some get;
          req_resource = some slash;
          req_protocol = some protocol;
          req_host = some (codes "a");
          req_from = some (codes "c");
        })
        (ok_from "read_headers")
unfolding read_headers get_request ok_from
read_headers-short_value = refl

-- ===== src/HttpRequest/Headers.antt =====
-- The header lines of a message: `get_header` and `read_headers` of code/http/http_request.c, and
-- `str_to_lower` of code/utils/helper.c.
-- `tolower` is the C library's, and `convert` is what `strtol` answers for a string. What `get_request` and
-- `get_header` write into the buffer lies before the next line and is not read again.
pub mod Message
pub mod Lines
use heimdall_web_switch.Prelude.{
  ℕ, zero, suc, ◌+◌, ◌-◌, Bool, true, false, ◌&&◌, ◌==◌, if◌then◌else◌, Option, none, some, List,
  [], ◌∷◌, ◌++◌, map, length, get_or, set, drop,
}
use heimdall_web_switch.Throwable.{Throwable, errno_text, ok_from, error_from, thrown}
use heimdall_web_switch.Helper.{Strtol, str_to_int}
use heimdall_web_switch.Scheduler.{failed}
use heimdall_web_switch.HttpRequest.{Chars, HttpRequest, string_at, get_request, get_response}
use Prim.Native.Char.{code}
use Prim.Native.String.{String}

abbrev pub codes : String → Chars
codes String.[] = []
codes (String.◌∷◌ c s) = code c ∷ codes s

-- `strcmp(a, b) == 0`
abbrev pub eq_chars : Chars → Chars → Bool
eq_chars [] [] = true
eq_chars [] (b ∷ bs) = false
eq_chars (a ∷ xs) [] = false
eq_chars (a ∷ xs) (b ∷ bs) = (a == b) && eq_chars xs bs

-- ACCEPT, FROM, HOST, CONTENT_TYPE and CONTENT_LEN of code/include/http_request.h
abbrev pub accept : Chars
accept = codes "accept"

abbrev pub from : Chars
from = codes "from"

abbrev pub host : Chars
host = codes "host"

abbrev pub content_type : Chars
content_type = codes "content-type"

abbrev pub content_len : Chars
content_len = codes "content-length"

abbrev pub str_to_lower : (ℕ → ℕ) → Chars → Chars
str_to_lower tolower string = map tolower string

-- The string before the first colon, and what stands in memory behind that colon.
unfoldable pub split_colon : List ℕ → Option (Chars × List ℕ)
split_colon [] = none
split_colon (c ∷ cs) =
    let rest = split_colon cs in
    if c == 0
    then none
    else if c == b':'
    then some ([], cs)
    else elim rest [ none ↦ none | some (name, behind) ↦ some (c ∷ name, behind) ]

-- How `read_headers` ends: a fault is a call through NULL or a write before the buffer.
pub data ReadEnd : Type 0 where
  fault : ReadEnd
  done : HttpRequest → Throwable → ReadEnd

-- RQST, RESP, or another type.
pub data Kind : Type 0 where
  rqst : Kind
  resp : Kind
  other : Kind

module _ (tolower : ℕ → ℕ) (copy : Chars → Option Chars) (convert : Chars → Strtol) where
  -- A copy of the data that is stored by `store`.
  store_copy : HttpRequest → (Chars → HttpRequest) → Chars → HttpRequest × Throwable
  store_copy self store header_data = elim (copy header_data) [
    | none ↦ (self, error_from errno_text "get_header")
    | some copied ↦ (store copied, ok_from "get_header")
  ]

  -- The branch for `content-length`.
  store_length : HttpRequest → Chars → HttpRequest × Throwable
  store_length self header_data = elim (copy header_data) [
    | none ↦ (self, error_from errno_text "get_header")
    | some copied ↦
        let (value, throwable) = str_to_int (convert copied) in
        (
          record self { req_content_len = value },
          if failed throwable then thrown throwable "get_header" else ok_from "get_header",
        )
  ]

  -- The comparisons of the header's name.
  pub store_header : HttpRequest → (header header_data : Chars) → HttpRequest × Throwable
  unfolding store_copy store_length
  store_header self header header_data =
      if eq_chars header accept
      then store_copy self (λ s. record self { req_accept = some s }) header_data
      else if eq_chars header from
      then store_copy self (λ s. record self { req_from = some s }) header_data
      else if eq_chars header host
      then store_copy self (λ s. record self { req_host = some s }) header_data
      else if eq_chars header content_type
      then store_copy self (λ s. record self { req_content_type = some s }) header_data
      else if eq_chars header content_len
      then store_length self header_data
      else (self, ok_from "get_header")

  -- The data starts one byte behind the byte behind the colon. NULL for a line without a colon.
  pub get_header : HttpRequest → (req_line : List ℕ) → HttpRequest × Option Throwable
  unfolding split_colon store_header
  get_header self req_line = elim (split_colon req_line) [
    | none ↦ (self, none)
    | some (name, behind) ↦
        let (self', throwable) =
          store_header self (str_to_lower tolower name) (string_at (drop 1 behind)) in
        (self', some throwable)
  ]

  -- The first line, by RQST, RESP or another type.
  pub read_first : Kind → HttpRequest → (buffer : List ℕ) → (len : ℕ) → HttpRequest × Throwable
  read_first rqst self buffer len = get_request copy self buffer len
  read_first resp self buffer len = get_response copy self buffer len
  read_first other self buffer len = (self, ok_from "read_headers")

  -- The call that reads a line.
  pub read_at :
      Kind → (buffer : List ℕ) → (i start : ℕ) → HttpRequest → HttpRequest × Option Throwable
  unfolding read_first get_header
  read_at kind buffer i start self =
      let (self', throwable) = read_first kind self buffer i in
      if start == 0 then (self', some throwable) else get_header self (drop start buffer)

  -- Behind a line that ended at index `i`: its result, then `on`, the rest of the loop.
  pub line_ended :
      (on : List ℕ → ℕ → HttpRequest → ReadEnd)
      → (buffer : List ℕ) → (i : ℕ) → HttpRequest × Option Throwable
      → ReadEnd
  line_ended on buffer i (self, none) = fault
  line_ended on buffer i (self, some throwable) =
      if failed throwable
      then done self (thrown throwable "read_headers")
      else if (get_or buffer (i + 1) 0 == b'\r') && (get_or buffer (i + 2) 0 == b'\n')
      then done self (ok_from "read_headers")
      else on buffer (i + 1) self

  -- A line that ends at index `i`: the byte before the break becomes 0.
  pub read_line :
      Kind
      → (on : List ℕ → ℕ → HttpRequest → ReadEnd) → (buffer : List ℕ) → (i start : ℕ) → HttpRequest
      → ReadEnd
  unfolding read_at line_ended
  read_line kind on buffer i start self =
      if i == 0
      then fault
      else (let buffer' = set buffer (i - 1) 0 in
          line_ended on buffer' i (read_at kind buffer' i start self))

  -- The loop, with the `rounds` that are left.
  pub read_loop : (rounds : ℕ) → Kind → List ℕ → (i start : ℕ) → HttpRequest → ReadEnd
  unfolding read_line
  read_loop zero kind buffer i start self = done self (ok_from "read_headers")
  read_loop (suc rounds) kind buffer i start self =
      let on = λ (b : List ℕ) (s : ℕ) (h : HttpRequest). read_loop rounds kind b (i + 1) s h in
      if get_or buffer i 0 == b'\n'
      then read_line kind on buffer i start self
      else on buffer start self

  unfoldable pub read_headers : HttpRequest → (string : List ℕ) → Kind → ReadEnd
  unfolding read_loop
  read_headers self string kind = elim (copy (string_at string)) [
    | none ↦ done self (error_from errno_text "read_headers")
    | some buffer ↦ read_loop (length buffer) kind (buffer ++ (0 ∷ [])) 0 0 self
  ]

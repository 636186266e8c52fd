-- ===== src/Connection/Messages.antt =====
-- Requests and responses over sockets: the functions of code/http/connection.c that compose the
-- socket's calls with the messages of code/http/http_request.c.
pub mod Received
pub mod Sent
pub mod Whole
use heimdall_web_switch.Prelude.{
  ℕ, ◌+◌, Option, none, some, List, [], ◌∷◌, ◌++◌, length, ltb, if◌then◌else◌,
}
use heimdall_web_switch.Throwable.{Throwable, text, errno_text, ok_from, error_from, thrown}
use heimdall_web_switch.Helper.{Strtol}
use heimdall_web_switch.Scheduler.{failed}
use heimdall_web_switch.HttpRequest.{Chars, HttpRequest, make_simple_request}
use heimdall_web_switch.HttpRequest.Headers.{ReadEnd, fault, done, Kind, rqst, resp, read_headers}
use heimdall_web_switch.Connection.{
  WriteAnswer, ReadAnswer, send_http, HeaderEnd, ended, corrupted, Realloc, grown, moved, no_memory,
  receive_http_header2,
}
use Prim.Native.String.{String}

-- The result of a call, under the frame of its caller: `none` while the call has not returned.
abbrev pub return_from : (failure frame : String) → Option Throwable → Option Throwable
return_from failure frame none = none
return_from failure frame (some t) = some (if failed t then thrown t failure else ok_from frame)

-- The request that was made, or not, is sent: the bytes that reached the socket, and the result.
pub send_made : Option Chars × Throwable → List WriteAnswer → List ℕ × Option Throwable
send_made (request_message, t) answers =
    if failed t then ([], some (thrown t "send_http_request_1")) else elim request_message [
      | none ↦ ([], none)
      | some message ↦
          let (sent, result) = send_http message answers in
          (sent, return_from "send_http_request_2" "send_http_request" result)
    ]

pub send_http_request :
    (Chars → Option Chars) → HttpRequest → List WriteAnswer → List ℕ × Option Throwable
unfolding send_made
send_http_request copy http_request answers =
    send_made (make_simple_request copy http_request) answers

pub send_http_response_header : (header : Chars) → List WriteAnswer → List ℕ × Option Throwable
send_http_response_header header answers =
    let (sent, result) = send_http header answers in
    (sent, return_from "send_http_response_header" "send_http_response_header" result)

-- A `read` of up to 4096 bytes.
pub data ChunkAnswer : Type 0 where
  received : List ℕ → ChunkAnswer
  receive_failed : ChunkAnswer

-- How `receive_http` ends: while it waits for `read`, with a write into a block that `realloc` has freed, or with
-- the message and its result.
pub data MessageEnd : Type 0 where
  waiting : MessageEnd
  freed : MessageEnd
  returned : (message : List ℕ) → Throwable → MessageEnd

-- What follows once `realloc` has moved the block: the next bytes are read into the old one.
pub behind_moved : (message : List ℕ) → List ChunkAnswer → MessageEnd
behind_moved message [] = waiting
behind_moved message (receive_failed ∷ answers) =
    returned message (error_from errno_text "receive_http")
behind_moved message (received bytes ∷ answers) = freed

-- The loop of `receive_http`, behind `message`. A `read` of 4096 bytes fills the block; `realloc` answers for
-- the size that it has then.
pub receive_http : (ℕ → Realloc) → (message : List ℕ) → List ChunkAnswer → MessageEnd
unfolding behind_moved
receive_http realloc message [] = waiting
receive_http realloc message (receive_failed ∷ answers) =
    returned message (error_from errno_text "receive_http")
receive_http realloc message (received bytes ∷ answers) =
    let on = receive_http realloc (message ++ bytes) answers in
    if ltb (length bytes) 4096
    then returned (message ++ bytes) (ok_from "receive_http")
    else elim (realloc (length message + length bytes)) [
      | grown ↦ on
      | moved ↦ behind_moved (message ++ bytes) answers
      | no_memory ↦ returned (message ++ bytes) (error_from errno_text "receive_http")
    ]

-- The end of `read_headers`, under the frame of its caller.
abbrev pub end_from : (failure frame : String) → ReadEnd → ReadEnd
end_from failure frame fault = fault
end_from failure frame (done self t) =
    done self (if failed t then thrown t failure else ok_from frame)

module _ (tolower : ℕ → ℕ) (copy : Chars → Option Chars) (convert : Chars → Strtol) where
  -- From the header that was received on; what is left to read, and the message with its fields. A corrupted
  -- memory is a fault.
  pub parse_received :
      Kind
      → (failure frame : String) → HttpRequest
      → HeaderEnd × Throwable
      → List ReadAnswer × ReadEnd
  parse_received kind failure frame message (corrupted, t) = ([], fault)
  parse_received kind failure frame message (ended header rest fine, t) =
      let self : HttpRequest = record message { header = some header } in
      (
        rest,
        if failed t
            then done self (thrown t failure)
            else end_from failure frame (read_headers tolower copy convert self header kind),
      )

  module _ (realloc : ℕ → Realloc) (behind : List ℕ) where
    pub receive_http_request : HttpRequest → List ReadAnswer → List ReadAnswer × ReadEnd
    unfolding parse_received
    receive_http_request http_request input =
        parse_received rqst "receive_http_request" "receive_http_request" http_request
          (receive_http_header2 realloc behind input)

    pub receive_http_response_header : HttpRequest → List ReadAnswer → List ReadAnswer × ReadEnd
    unfolding parse_received
    receive_http_response_header http_response input =
        parse_received resp "receive_http_response" "receive_http_response_header" http_response
          (receive_http_header2 realloc behind input)

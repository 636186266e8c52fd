-- ===== src/Connection.antt =====
-- code/http/connection.c: sending a message and receiving a header over a socket.
-- A socket's answers are lists. For `write`: how many bytes each call took, or an error. For `read` of one
-- byte: the byte or an error; at the end of the list is the end of the stream.
pub mod Send
pub mod Header
pub mod Messages
pub mod Sockets
mod Tests
use heimdall_web_switch.Prelude.{
  ℕ, zero, suc, ◌+◌, ◌-◌, Bool, true, false, ◌||◌, Option, none, some, List, [], ◌∷◌, ◌++◌,
}
use heimdall_web_switch.Prelude.{◌==◌, if◌then◌else◌, leb, length, take, drop}
use heimdall_web_switch.Throwable.{Throwable, text, errno_text, ok_from, error_from}

-- `send_http`, with the bytes that reached the socket. `none`: it is still waiting for `write`.
pub data WriteAnswer : Type 0 where
  wrote : ℕ → WriteAnswer
  write_failed : WriteAnswer

-- The loop, with the rest of the message from `sent` on.
unfoldable pub send_http : List ℕ → List WriteAnswer → List ℕ × Option Throwable
send_http message [] = ([], none)
send_http message (write_failed ∷ answers) = ([], some (error_from errno_text "send_http"))
send_http message (wrote zero ∷ answers) = ([], some (ok_from "send_http"))
send_http message (wrote (suc last_sent) ∷ answers) =
    let (out, result) = send_http (drop (suc last_sent) message) answers in
    (take (suc last_sent) message ++ out, result)

pub data ReadAnswer : Type 0 where
  byte : ℕ → ReadAnswer
  read_failed : ReadAnswer

abbrev pub is_break : ℕ → Bool
is_break c = (c == b'\n') || (c == b'\r')

-- What `realloc` does: the block grows where it is, or is freed and stands elsewhere, or it returns NULL. The
-- source keeps the old pointer.
pub data Realloc : Type 0 where
  grown : Realloc
  moved : Realloc
  no_memory : Realloc

-- How the loop of `receive_http_header2` ends: with the bytes of the header, what is left to read, and whether
-- no call has failed; or with a write behind the end of the block, or into one that `realloc` has freed.
pub data HeaderEnd : Type 0 where
  ended : (header : List ℕ) → (rest : List ReadAnswer) → Bool → HeaderEnd
  corrupted : HeaderEnd

-- The result behind the loop.
pub header_result : HeaderEnd → HeaderEnd × Throwable
header_result corrupted = (corrupted, ok_from "receive_http_header2")
header_result (ended header rest fine) = (
  ended header rest fine,
  if fine
      then (if length header == 0
          then error_from (text "0 bytes -> close socket from client") "receive_http_header2"
          else ok_from "receive_http_header2")
      else error_from errno_text "receive_http_header2",
)

-- `behind` is what stands in memory behind `last_read`, up to a zero: `strcpy` copies it too; it is taken to
-- stay the same while the loop runs. `realloc` answers
-- for each size.
module _ (realloc : ℕ → Realloc) (behind : List ℕ) where
  -- The header when its end has not been set: the last copy is longer than the byte that was read.
  abbrev pub unended : List ℕ → List ℕ
  unended [] = []
  unended (c ∷ cs) = (c ∷ cs) ++ behind

  -- How many bytes `strcpy` writes for the byte `c`, without the zero.
  abbrev pub copied : ℕ → ℕ
  copied c = if c == 0 then 0 else length behind + 1

  -- The first block has `size + 1` bytes, one that has grown has `size`.
  abbrev pub last_index : (size : ℕ) → ℕ
  last_index size = if size == 4096 then size else size - 1

  pub header_loop : (size number : ℕ) → List ℕ → List ReadAnswer → HeaderEnd
  header_loop size number header [] = ended (if number == 4 then header else unended header) [] true
  header_loop size number header (read_failed ∷ rest) =
      if number == 4
      then ended header (read_failed ∷ rest) true
      else ended (unended header) rest false
  header_loop size number header (byte c ∷ rest) =
      let full = length header + 1 == size in
      let on =
        header_loop (if full then size + 4096 else size) (if is_break c then number + 1 else 0)
          (header ++ (c ∷ [])) rest in
      if number == 4
      then ended header (byte c ∷ rest) true
      else if leb (length header + copied c) (last_index size)
      then (if full
          then (elim (realloc size) [
            | grown ↦ on
            | moved ↦ corrupted
            | no_memory ↦ ended (unended (header ++ (c ∷ []))) rest false
          ])
          else on)
      else corrupted

  -- The header and what is left to read, and the result, which means nothing for memory that is corrupted.
  pub receive_http_header2 : List ReadAnswer → HeaderEnd × Throwable
  unfolding header_loop header_result
  receive_http_header2 input = header_result (header_loop 4096 0 [] input)

-- ===== src/Chunk.antt =====
-- The chunk that a request thread and the writer of a worker share: `receive_http_chunks` and
-- `send_http_chunks` of code/http/connection.c over the structure of code/web_switch/chunk.c.
-- What one of them does from locking the chunk's mutex to unlocking it is a step of the model. Waiting on
-- the condition is a step that is not enabled. Each round fetches with one `read` and sends with
-- `send_http`, which delivers the chunk, or fails when it has delivered a part of it. On that failure
-- `send_http_chunks` returns without unlocking the mutex, so `locked` stays set.
pub mod Handoff
pub mod Stuck
mod Tests
use heimdall_web_switch.Prelude.{
  ℕ, ◌+◌, ◌-◌, ◌≤◌, ◌<◌, ◌≡◌, Bool, true, false, List, [], ◌++◌, leb, ◌==◌, if◌then◌else◌, length,
  take, drop,
}

-- MAX_CHUNK_SIZE of code/include/chunk.h
abbrev pub max_chunk_size : ℕ
max_chunk_size = 4096

-- How far a side is.
pub data Side : Type 0 where
  running : Side
  finished : Side
  failed : Side

-- The chunk, the two sides' variables, and what went through the sockets: `input` is what the server
-- still sends, `output` what the client got.
pub record Transfer : Type 0 where
  pub locked : Bool
  pub wrote : Bool
  pub chunk : List ℕ
  pub receiver : Side
  pub total_received : ℕ
  pub input : List ℕ
  pub sender : Side
  pub total_sent : ℕ
  pub output : List ℕ

-- `new_chunk`, before both sides begin.
abbrev pub start : List ℕ → Transfer
start input = record {
  locked = false;
  wrote = true;
  chunk = [];
  receiver = running;
  total_received = 0;
  input = input;
  sender = running;
  total_sent = 0;
  output = [];
}

-- The size that a round of `receive_http_chunks` asks for.
pub read_size : (req_content_len total_received : ℕ) → ℕ
read_size req_content_len total_received =
    if leb max_chunk_size (req_content_len - total_received)
    then max_chunk_size
    else req_content_len - total_received

-- The round after `read` gave the next `last_received` bytes, not 0.
pub receive_round : ℕ → ℕ → Transfer → Transfer
receive_round req_content_len last_received t =
    let total = t.total_received + last_received in
    record t {
      wrote = false;
      chunk = take last_received t.input;
      receiver = (if total == req_content_len then finished else running);
      total_received = total;
      input = drop last_received t.input;
    }

-- The round of `send_http_chunks` whose `send_http` succeeded.
pub send_round : ℕ → Transfer → Transfer
send_round total t =
    let sent = t.total_sent + length t.chunk in
    record t {
      wrote = true;
      chunk = [];
      sender = (if sent == total then (if leb 1 sent then finished else running) else running);
      total_sent = sent;
      output = t.output ++ t.chunk;
    }

-- One step, for a response of `n` bytes by its header.
pub data Step (n : ℕ) : Transfer → Transfer → Type 0 where
  receive :
      (t : Transfer) (k : ℕ)
      → t.locked ≡ false
      → t.receiver ≡ running
      → t.wrote ≡ true
      → 0 < k
      → k ≤ read_size n t.total_received
      → k ≤ length t.input
      → Step n t (receive_round n k t)
  receive_eof :
      (t : Transfer)
      → t.locked ≡ false
      → t.receiver ≡ running
      → t.wrote ≡ true
      → Step n t (record t { receiver = finished })
  receive_error :
      (t : Transfer)
      → t.locked ≡ false
      → t.receiver ≡ running
      → t.wrote ≡ true
      → Step n t (record t { receiver = failed })
  send :
      (t : Transfer)
      → t.locked ≡ false
      → t.sender ≡ running
      → t.wrote ≡ false
      → Step n t (send_round n t)
  send_error :
      (t : Transfer) (k : ℕ)
      → t.locked ≡ false
      → t.sender ≡ running
      → t.wrote ≡ false
      → Step n t (record t { locked = true; sender = failed; output = t.output ++ take k t.chunk })

pub data Reach (n : ℕ) (s : Transfer) : Transfer → Type 0 where
  here : Reach n s s
  next : {t u : Transfer} → Reach n s t → Step n t u → Reach n s u

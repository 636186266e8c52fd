-- ===== src/MessageController.antt =====
-- code/web_switch/message_controller.c: a descriptor goes from the pool's thread to a worker over a socket
-- whose path holds the worker's pid.
-- What the system's calls answer is an argument, as in UnixSocket, whose `opened` is kept on.
pub mod Passing
mod Tests
use heimdall_web_switch.Prelude.{
  ℕ, Bool, true, false, not, if◌then◌else◌, Option, none, some, List, [], ◌∷◌,
}
use heimdall_web_switch.Throwable.{Throwable, text, ok_from, error_from, thrown}
use heimdall_web_switch.Scheduler.{failed}
use heimdall_web_switch.HttpRequest.{Chars}
use heimdall_web_switch.UnixSocket.{Opened, unix_listen, unix_connect}

-- The header of the ancillary data: whether its length is that of one `int`, its level SOL_SOCKET and its
-- type SCM_RIGHTS; and the descriptor behind it.
pub record ControlMessage : Type 0 where
  pub cmsg_len : Bool
  pub cmsg_level : Bool
  pub cmsg_type : Bool
  pub fd : ℕ

-- `recvmsg`: -1, no header, or a header.
pub data RecvAnswer : Type 0 where
  recv_failed : RecvAnswer
  no_header : RecvAnswer
  received : ControlMessage → RecvAnswer

-- The answers to the calls of `receive_fd`. `remove` is false when it fails with another error than ENOENT.
pub record ReceiveCalls : Type 0 where
  pub asprintf : Option Chars
  pub remove : Bool
  pub socket : Option ℕ
  pub bind : Bool
  pub listen : Bool
  pub accept : Option ℕ
  pub recvmsg : RecvAnswer

-- What a failure leaves.
abbrev pub refused : List ℕ → Throwable → Opened
refused opened throwable = record { opened = opened; value = none; throwable = throwable }

-- The checks of the header. With one that is not of this form no descriptor is taken to have come.
pub checked_header : ControlMessage → List ℕ → Opened
checked_header m opened =
    if not m.cmsg_len
    then refused opened (error_from (text "bad cmsg header / message length") "receive_fd")
    else if not m.cmsg_level
    then refused opened (error_from (text "cmsg_level != SOL_SOCKET") "receive_fd")
    else if not m.cmsg_type
    then refused opened (error_from (text "cmsg_type != SCM_RIGHTS") "receive_fd")
    else record { opened = m.fd ∷ opened; value = some m.fd; throwable = ok_from "receive_fd" }

-- From `recvmsg` on.
pub receive_message : RecvAnswer → List ℕ → Opened
unfolding checked_header
receive_message recv_failed opened = refused opened (error_from (text "recvmsg") "receive_fd")
receive_message no_header opened =
    refused opened (error_from (text "bad cmsg header / message length") "receive_fd")
receive_message (received m) opened = checked_header m opened

-- From `accept` on.
pub accept_sender : Option ℕ → RecvAnswer → List ℕ → Opened
unfolding receive_message
accept_sender none answer opened = refused opened (error_from (text "accept") "receive_fd")
accept_sender (some sfd) answer opened = receive_message answer (sfd ∷ opened)

module _ (size : ℕ) where
  -- From the path on.
  pub receive_at : Chars → ReceiveCalls → List ℕ → Opened
  unfolding accept_sender
  receive_at pathname a opened =
      let listening = unix_listen size (some pathname) a.socket a.bind a.listen opened in
      if not a.remove
      then refused opened (error_from (text "remove") "receive_fd")
      else if failed listening.throwable
      then refused listening.opened (thrown listening.throwable "unix_listen")
      else accept_sender a.accept a.recvmsg listening.opened

  -- What is stored through `file_descriptor`, and the result.
  unfoldable pub receive_fd : ReceiveCalls → List ℕ → Opened
  unfolding receive_at
  receive_fd a opened = elim a.asprintf [
    | none ↦ refused opened (error_from (text "asprintf") "receive_fd")
    | some pathname ↦ receive_at pathname a opened
  ]

-- The answers to the calls of `send_fd`.
pub record SendCalls : Type 0 where
  pub asprintf : Option Chars
  pub socket : Option ℕ
  pub connect : Bool
  pub sendmsg : Bool

-- The header that `send_fd` fills in.
abbrev pub control_of : ℕ → ControlMessage
control_of fd = record { cmsg_len = true; cmsg_level = true; cmsg_type = true; fd = fd }

-- What `send_fd` leaves: the open descriptors, the message that it handed to `sendmsg`, and its result.
pub record Sent : Type 0 where
  pub opened : List ℕ
  pub message : Option ControlMessage
  pub throwable : Throwable

module _ (size : ℕ) where
  pub send_at : Chars → ℕ → SendCalls → List ℕ → Sent
  send_at pathname fd a opened =
      let connected = unix_connect size (some pathname) a.socket a.connect opened in
      if failed connected.throwable
      then record {
        opened = connected.opened;
        message = none;
        throwable = thrown connected.throwable "unix_connect";
      }
      else record {
        opened = connected.opened;
        message = some (control_of fd);
        throwable = if a.sendmsg then ok_from "send_fd" else error_from (text "sendmsg") "send_fd";
      }

  unfoldable pub send_fd : ℕ → SendCalls → List ℕ → Sent
  unfolding send_at
  send_fd fd a opened = elim a.asprintf [
    | none ↦ record {
      opened = opened;
      message = none;
      throwable = error_from (text "asprintf") "receive_fd";
    }
    | some pathname ↦ send_at pathname fd a opened
  ]

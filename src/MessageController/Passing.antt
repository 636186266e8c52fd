-- ===== src/MessageController/Passing.antt =====
-- What `receive_fd` and `send_fd` of code/web_switch/message_controller.c leave open, and that a descriptor
-- arrives.
use heimdall_web_switch.Prelude.{
  ℕ, ◌≡◌, refl, ◌⊎◌, inl, inr, true, false, Option, none, some, List, ◌∷◌, Bool-cases,
}
use heimdall_web_switch.Throwable.{text, ok_from, error_from, thrown}
use heimdall_web_switch.Scheduler.{failed}
use heimdall_web_switch.HttpRequest.{Chars}
use heimdall_web_switch.UnixSocket.{Opened, unix_listen, unix_connect}
use heimdall_web_switch.UnixSocket.Address.{unix_listen-Ends, unix_connect-Ends}
use heimdall_web_switch.MessageController.{
  ControlMessage, RecvAnswer, recv_failed, no_header, received, ReceiveCalls, refused,
  checked_header, receive_message, accept_sender, receive_at, receive_fd, SendCalls, control_of,
  Sent, send_at, send_fd,
}

-- Nothing was stored, with an error; or a descriptor was, and beside it two sockets are open.
abbrev pub Received : List ℕ → Opened → Type 0
Received opened o =
    ((o.value ≡ none) × (failed o.throwable ≡ true))
    ⊎ ((fd : ℕ) × (sfd : ℕ) × (value_lfd : ℕ) × (o.value ≡ some fd)
        × (o.opened ≡ fd ∷ sfd ∷ value_lfd ∷ opened)
        × (o.throwable ≡ ok_from "receive_fd"))

checked_header-Received :
    (m : ControlMessage) (sfd value_lfd : ℕ) (opened : List ℕ)
    → Received opened (checked_header m (sfd ∷ value_lfd ∷ opened))
unfolding checked_header error_from
checked_header-Received m sfd value_lfd opened = elim (Bool-cases m.cmsg_len) [
  | inr no_len ↦ rw no_len (inl (refl, refl))
  | inl len ↦ elim (Bool-cases m.cmsg_level) [
    | inr no_level ↦ rw (len, no_level) (inl (refl, refl))
    | inl level ↦ elim (Bool-cases m.cmsg_type) [
      | inr no_type ↦ rw (len, level, no_type) (inl (refl, refl))
      | inl type ↦ rw (len, level, type) (inr (m.fd, sfd, value_lfd, refl, refl, refl))
    ]
  ]
]

accept_sender-Received :
    (accept : Option ℕ) (answer : RecvAnswer) (value_lfd : ℕ) (opened : List ℕ)
    → Received opened (accept_sender accept answer (value_lfd ∷ opened))
unfolding accept_sender receive_message error_from
accept_sender-Received none answer value_lfd opened = inl (refl, refl)
accept_sender-Received (some sfd) recv_failed value_lfd opened = inl (refl, refl)
accept_sender-Received (some sfd) no_header value_lfd opened = inl (refl, refl)
accept_sender-Received (some sfd) (received m) value_lfd opened =
    checked_header-Received m sfd value_lfd opened

module _ (size : ℕ) where
  receive_at-Received :
      (pathname : Chars) (a : ReceiveCalls) (opened : List ℕ)
      → Received opened (receive_at size pathname a opened)
  unfolding receive_at error_from thrown ok_from
  receive_at-Received pathname a opened = elim (Bool-cases a.remove) [
    | inr stays ↦ rw stays (inl (refl, refl))
    | inl removed ↦ elim (unix_listen-Ends size (some pathname) a.socket a.bind a.listen opened) [
      | inl (no_value, same, bad) ↦ rw (removed, bad) (inl (refl, bad))
      | inr (value_lfd, value, more, fine) ↦
          let going : failed
                (unix_listen size (some pathname) a.socket a.bind a.listen opened).throwable
              ≡ false =
            rw fine in
          rw (removed, going, more) (accept_sender-Received a.accept a.recvmsg value_lfd opened)
    ]
  ]

  -- Whatever the calls of the system answer: `receive_fd` stores nothing and returns an error, or it returns
  -- STATUS_OK, has stored a descriptor, and leaves two more open, the socket that listens and the one that
  -- was accepted, which nobody can close any more.
  pub receive_fd-Received :
      (a : ReceiveCalls) (opened : List ℕ) → Received opened (receive_fd size a opened)
  unfolding receive_fd error_from
  receive_fd-Received a opened = by_path a.asprintf
    where
      by_path :
          (path : Option Chars)
          → Received opened (elim path [
            | none ↦ refused opened (error_from (text "asprintf") "receive_fd")
            | some pathname ↦ receive_at size pathname a opened
          ])
      by_path none = inl (refl, refl)
      by_path (some pathname) = receive_at-Received pathname a opened

  -- Nothing more is open than before, and nothing was sent; or the header of the descriptor was handed to
  -- `sendmsg`, and the socket is open.
  abbrev pub Delivered : ℕ → List ℕ → Sent → Type 0
  Delivered fd opened s =
      ((s.message ≡ none) × (s.opened ≡ opened) × (failed s.throwable ≡ true))
      ⊎ ((sfd : ℕ) × (s.message ≡ some (control_of fd)) × (s.opened ≡ sfd ∷ opened))

  send_at-Delivered :
      (pathname : Chars) (fd : ℕ) (a : SendCalls) (opened : List ℕ)
      → Delivered fd opened (send_at size pathname fd a opened)
  unfolding send_at thrown ok_from
  send_at-Delivered pathname fd a opened =
      elim (unix_connect-Ends size (some pathname) a.socket a.connect opened) [
        | inl (no_value, same, bad) ↦ rw bad (inl (refl, same, bad))
        | inr (sfd, value, more, fine) ↦
            let going : failed
                  (unix_connect size (some pathname) a.socket a.connect opened).throwable
                ≡ false =
              rw fine in
            rw going (inr (sfd, refl, more))
      ]

  -- Whatever the calls of the system answer: either `send_fd` returns an error, has sent nothing and leaves
  -- nothing open that it opened, or it has handed the header of the descriptor to `sendmsg` and leaves
  -- its socket open, whether or not `sendmsg` succeeded.
  pub send_fd-Delivered :
      (fd : ℕ) (a : SendCalls) (opened : List ℕ) → Delivered fd opened (send_fd size fd a opened)
  unfolding send_fd error_from
  send_fd-Delivered fd a opened = by_path a.asprintf
    where
      by_path :
          (path : Option Chars)
          → Delivered fd opened (elim path [
            | none ↦ record {
              opened = opened;
              message = none;
              throwable = error_from (text "asprintf") "receive_fd";
            }
            | some pathname ↦ send_at size pathname fd a opened
          ])
      by_path none = inl (refl, refl, refl)
      by_path (some pathname) = send_at-Delivered pathname fd a opened

  -- The message that `send_fd` handed to `sendmsg` is one that `receive_fd` accepts: when the worker's
  -- `recvmsg` gives it with the number that the descriptor has in the worker, and its calls before that
  -- succeed, `receive_fd` returns STATUS_OK and stores this number.
  pub receive_fd-send_fd :
      (fd fd' : ℕ) (a : SendCalls) (opened opened' : List ℕ) (r : ReceiveCalls) (m : ControlMessage)
      (pathname : Chars) (sfd : ℕ)
      → (send_fd size fd a opened).message ≡ some m
      → r.asprintf ≡ some pathname
      → r.remove ≡ true
      → failed (unix_listen size (some pathname) r.socket r.bind r.listen opened').throwable ≡ false
      → r.accept ≡ some sfd
      → r.recvmsg ≡ received (record m { fd = fd' })
      → ((receive_fd size r opened').value ≡ some fd')
        × ((receive_fd size r opened').throwable ≡ ok_from "receive_fd")
  unfolding receive_fd receive_at accept_sender receive_message checked_header
  receive_fd-send_fd fd fd' a opened opened' r m pathname sfd was named removed listens took got =
      elim (send_fd-Delivered fd a opened) [
        | inl (nothing, same, bad) ↦ cc
        | inr (own, handed, more) ↦
            let header : control_of fd ≡ m = cc in
            rw (named, receive_at) (rw (removed, listens, took, got) (rw (← header) (refl, refl)))
      ]

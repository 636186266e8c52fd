-- ===== src/Connection/Sockets.antt =====
-- The setup of sockets in code/http/connection.c, over what the system's calls answer: `none` and false
-- are the -1 that sets errno. A descriptor that is stored stands before the result.
pub mod Hostname
use heimdall_web_switch.Prelude.{ℕ, Bool, ◌==◌, if◌then◌else◌, Option, none, some, List, [], ◌∷◌}
use heimdall_web_switch.Throwable.{Throwable, text, errno_text, ok_from, error_from, thrown}
use heimdall_web_switch.Scheduler.{failed}
use heimdall_web_switch.HttpRequest.{Chars}
use Prim.Native.String.{String}

-- A call that only succeeds or not.
abbrev pub by_call : Bool → (frame : String) → Throwable
by_call fine frame = if fine then ok_from frame else error_from errno_text frame

-- A call that gives a descriptor.
abbrev pub by_descriptor : Option ℕ → (frame : String) → Option ℕ × Throwable
by_descriptor none frame = (none, error_from errno_text frame)
by_descriptor (some fd) frame = (some fd, ok_from frame)

-- `type`: 0 is TCP and 1 is UDP.
pub create_socket : (type : ℕ) → (socket : Option ℕ) → Option ℕ × Throwable
create_socket type socket =
    if type == 0
    then by_descriptor socket "create_socket"
    else if type == 1
    then by_descriptor socket "create_socket"
    else (
      none,
      error_from
          (text "Usage create_socket_and_bind(<type>), <type> = 0 for TCP <type> = 1 for UDP")
          "create_socket",
    )

pub create_server_socket :
    (type : ℕ) → (socket : Option ℕ) → (setsockopt bind : Bool) → Option ℕ × Throwable
unfolding create_socket
create_server_socket type socket setsockopt bind =
    let (sockfd, t) = create_socket type socket in
    (
      sockfd,
      if failed t
          then thrown t "create_server_socket"
          else if setsockopt
          then by_call bind "create_server_socket"
          else error_from errno_text "create_server_socket",
    )

-- `inet_pton`: 1, 0 for a text that is no address, or -1.
pub data PtonAnswer : Type 0 where
  address : PtonAnswer
  no_address : PtonAnswer
  pton_failed : PtonAnswer

-- The result of `inet_pton` is compared with -1 only.
unfoldable pub create_client_socket :
    (type : ℕ)
    → (socket : Option ℕ) → (inet_pton : PtonAnswer) → (connect : Bool) → Option ℕ × Throwable
unfolding create_socket
create_client_socket type socket inet_pton connect =
    let (sockfd, t) = create_socket type socket in
    (
      sockfd,
      if failed t then thrown t "create_client_socket" else elim inet_pton [
        | pton_failed ↦ error_from errno_text "create_client_socket"
        | address ↦ by_call connect "create_client_socket"
        | no_address ↦ by_call connect "create_client_socket"
      ],
    )

pub listen_to : (listen : Bool) → Throwable
listen_to listen = by_call listen "listen_to"

pub accept_connection : (accept : Option ℕ) → Option ℕ × Throwable
accept_connection accept = by_descriptor accept "accept_connection"

unfoldable pub close_connection : (close : Bool) → Throwable
close_connection close =
    if close
    then ok_from "close_connection"
    else error_from errno_text "close_connection - shutdown"

-- An entry of the list of `getaddrinfo`: its family, and the text that `inet_ntop` gives for it.
pub data AddressInfo : Type 0 where
  inet : Option Chars → AddressInfo
  inet6 : Option Chars → AddressInfo
  other_family : AddressInfo

-- What is stored through `ip`, and the result. `strcpy` returns its first argument.
pub hostname_loop : List AddressInfo → Option Chars × Throwable
hostname_loop [] = (none, ok_from "hostname_to_ip")
hostname_loop (inet none ∷ result) = (none, error_from errno_text "hostname_to_ip")
hostname_loop (inet (some addrstr) ∷ result) = (some addrstr, ok_from "hostname_to_ip")
hostname_loop (inet6 none ∷ result) = (none, error_from errno_text "hostname_to_ip")
hostname_loop (inet6 (some addrstr) ∷ result) = hostname_loop result
hostname_loop (other_family ∷ result) =
    (none, error_from (text "Not a valid IP family") "hostname_to_ip")

unfoldable pub hostname_to_ip : (getaddrinfo : Option (List AddressInfo)) → Option Chars × Throwable
unfolding hostname_loop
hostname_to_ip none = (none, error_from errno_text "hostname_to_ip")
hostname_to_ip (some result) = hostname_loop result

-- ===== src/UnixSocket.antt =====
-- code/utils/unix_socket.c: the sockets over which descriptors are passed.
-- What the system's calls answer is an argument: `none` and false are the -1 that sets errno. `opened` is
-- the list of the descriptors that the process has open, the newest first; `close` succeeds.
pub mod Address
mod Tests
use heimdall_web_switch.Prelude.{
  ℕ, ◌-◌, Bool, true, false, ltb, leb, ◌==◌, if◌then◌else◌, Option, none, some, List, [], ◌∷◌, ◌++◌,
  length, take, replicate,
}
use heimdall_web_switch.Throwable.{
  Throwable, Message, text, errno_text, ok_from, error_from, thrown,
}
use heimdall_web_switch.Scheduler.{failed}
use heimdall_web_switch.HttpRequest.{Chars}
use Prim.Native.String.{String}

-- The list without the newest entry for `fd`.
unfoldable pub close_fd : ℕ → List ℕ → List ℕ
close_fd fd [] = []
close_fd fd (x ∷ opened) = let rest = close_fd fd opened in if x == fd then opened else x ∷ rest

-- What a call leaves: the open descriptors, what it stored through `value`, and its result.
pub record Opened : Type 0 where
  pub opened : List ℕ
  pub value : Option ℕ
  pub throwable : Throwable

-- `strncpy` of at most `n` bytes into memory that was cleared, `size` bytes in all.
abbrev pub copied_into : (size n : ℕ) → Chars → List ℕ
copied_into size n path = let part = take n path in part ++ replicate (size - length part) 0

-- What `get_error_by_errno` gives for the two errors that are set here: two texts of the C library.
abbrev pub einval_text : Message
einval_text = text "EINVAL"

abbrev pub enametoolong_text : Message
enametoolong_text = text "ENAMETOOLONG"

-- `unix_build_address`: the bytes of `sun_path`, of which there are `size`, and the result. A path that is
-- `none` is NULL.
pub unix_build_address : (size : ℕ) → Option Chars → Option (List ℕ) × Throwable
unix_build_address size none = (none, error_from einval_text "unix_build_address")
unix_build_address size (some path) =
    if leb (size - 1) (length path)
    then (none, error_from einval_text "unix_build_address")
    else if ltb (length path) size
    then (some (copied_into size (size - 1) path), ok_from "unix_build_address")
    else (none, error_from enametoolong_text "unix_build_address")

module _ (size : ℕ) where
  -- The part of `unix_passive_socket` that has a socket.
  pub bound_socket : (sd : ℕ) (bind do_listen listen : Bool) → List ℕ → Opened
  bound_socket sd bind do_listen listen opened =
      let fails : String → Opened = λ frame. record {
        opened = close_fd sd (sd ∷ opened);
        value = none;
        throwable = error_from errno_text frame;
      } in
      let fine : Opened = record {
        opened = sd ∷ opened;
        value = some sd;
        throwable = ok_from "unix_passive_socket";
      } in
      if bind
      then (if do_listen then (if listen then fine else fails "listen") else fine)
      else fails "bind"

  pub unix_passive_socket :
      Option Chars
      → (do_listen : Bool) → (socket : Option ℕ) → (bind listen : Bool) → List ℕ
      → Opened
  unfolding unix_build_address bound_socket
  unix_passive_socket path do_listen socket bind listen opened =
      let (address, throwable) = unix_build_address size path in
      if failed throwable
      then record {
        opened = opened;
        value = none;
        throwable = thrown throwable "unix_build_address";
      }
      else elim socket [
        | none ↦ record {
          opened = opened;
          value = none;
          throwable = error_from (text "socket") "unix_passive_socket";
        }
        | some sd ↦ bound_socket sd bind do_listen listen opened
      ]

  unfoldable pub unix_listen :
      Option Chars → (socket : Option ℕ) → (bind listen : Bool) → List ℕ → Opened
  unfolding unix_passive_socket
  unix_listen path socket bind listen opened =
      let passive = unix_passive_socket path true socket bind listen opened in
      record passive {
        throwable =
            if failed passive.throwable
            then thrown passive.throwable "unix_passive_socket"
            else ok_from "unix_listen";
      }

  -- The part of `unix_connect` that has a socket.
  pub connected_socket : (sd : ℕ) (connect : Bool) → List ℕ → Opened
  connected_socket sd connect opened =
      if connect
      then record { opened = sd ∷ opened; value = some sd; throwable = ok_from "unix_connect" }
      else record {
        opened = close_fd sd (sd ∷ opened);
        value = none;
        throwable = error_from errno_text "unix_connect.connect";
      }

  unfoldable pub unix_connect :
      Option Chars → (socket : Option ℕ) → (connect : Bool) → List ℕ → Opened
  unfolding unix_build_address connected_socket
  unix_connect path socket connect opened =
      let (address, throwable) = unix_build_address size path in
      if failed throwable
      then record {
        opened = opened;
        value = none;
        throwable = thrown throwable "unix_build_address";
      }
      else elim socket [
        | none ↦ record {
          opened = opened;
          value = none;
          throwable = error_from (text "socket") "unix_connect";
        }
        | some sd ↦ connected_socket sd connect opened
      ]

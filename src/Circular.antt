-- ===== src/Circular.antt =====
-- code/web_switch/circular.c: the circular buffer of scheduled servers.
-- `buffer` is the array behind the pointer, `[]` for NULL. The pointers `head` and `tail` go into that
-- array and are offsets in it. What a mutex call returned is an argument: `true` is success.
use heimdall_web_switch.Prelude.{ℕ, ◌+◌, ◌-◌, ◌%◌, Bool, Option, none, some, List, []}
use heimdall_web_switch.Prelude.{◌==◌, if◌then◌else◌, get_or}
use heimdall_web_switch.Prelude.Int.{pos}
use heimdall_web_switch.Throwable.{Throwable, errno_text, ok_from, error_from, propagate}
use heimdall_web_switch.Types.{Server, server_status_broken}

pub record Circular : Type 0 where
  pub buffer : List Server
  pub buffer_position : ℕ
  pub buffer_len : ℕ
  pub head : ℕ
  pub tail : ℕ

-- `new_circular` sets two fields; the others hold what `malloc` left there.
unfoldable pub new_circular : (junk_len junk_head junk_tail : ℕ) → Circular
new_circular junk_len junk_head junk_tail = record {
  buffer = [];
  buffer_position = 0;
  buffer_len = junk_len;
  head = junk_head;
  tail = junk_tail;
}

unfoldable pub acquire_circular : Bool → Throwable
acquire_circular locked =
    if locked
    then ok_from "pthread_mutex_lock in get_circular"
    else error_from errno_text "pthread_mutex_lock in get_circular"

unfoldable pub release_circular : Bool → Throwable
release_circular unlocked =
    if unlocked
    then ok_from "pthread_mutex_unlock in release_circular"
    else error_from errno_text "pthread_mutex_unlock in release_circular"

-- `servers` is `none` for NULL. The buffer position is not touched.
unfoldable pub allocate_buffer :
    Circular → Option (List Server) → ℕ → (locked unlocked : Bool) → Circular × Throwable
unfolding acquire_circular release_circular
allocate_buffer circular none len locked unlocked =
    (circular, error_from errno_text "allocate_buffer")
allocate_buffer circular (some servers) len locked unlocked =
    if len == 0
    then (circular, error_from errno_text "allocate_buffer")
    else if locked
    then (
      record circular { buffer = servers; buffer_len = len; head = 0; tail = len - 1 },
      propagate (release_circular unlocked) "allocate_buffer" (ok_from "allocate_buffer"),
    )
    else (
      circular,
      propagate (acquire_circular locked) "allocate_buffer" (ok_from "allocate_buffer"),
    )

unfoldable pub progress : Circular → Circular
progress circular =
    let position = (circular.buffer_position + 1) % circular.buffer_len in
    record circular { tail = circular.head; buffer_position = position; head = position }

-- What an entry out of range reads as; no valid buffer shows it.
abbrev pub no_server : Server
no_server = record { address = none; ip = none; weight = pos 0; status = server_status_broken }

-- `*(circular->tail)`
abbrev pub at_tail : Circular → Server
at_tail circular = get_or circular.buffer circular.tail no_server

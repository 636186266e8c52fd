-- ===== src/Throwable.antt =====
-- The error object of code/utils/throwable.c, and the values of code/include/macro.h it carries.
-- A pointer to a throwable is the object itself; `is_an_error` says beside its answer whether the
-- object is still allocated. The stack trace is the list of the frames that `asprintf` joins by "->".
mod Tests
pub mod Chain
use heimdall_web_switch.Prelude.{Bool, true, false, Option, none, some, List, [], ◌∷◌, ◌++◌}
use heimdall_web_switch.Prelude.{if◌then◌else◌}
use heimdall_web_switch.Prelude.Int.{ℤ, pos, negsuc, eq_ℤ}
use Prim.Native.String.{String}

-- STATUS_OK and STATUS_ERROR
abbrev pub status_ok : ℤ
status_ok = pos 0

abbrev pub status_error : ℤ
status_error = negsuc 0

-- The `char *message`: NULL, a literal of the source, or what `get_error_by_errno` returns.
pub data Message : Type 0 where
  null_message : Message
  text : String → Message
  errno_text : Message

pub record Throwable : Type 0 where
  pub message : Message
  pub status : ℤ
  pub stack_trace : List String

unfoldable pub create : ℤ → Message → String → Throwable
create status msg frame = record { message = msg; status = status; stack_trace = frame ∷ [] }

-- The answer, and the object behind the pointer after the call: `none` when it was freed.
unfoldable pub is_an_error : Throwable → Bool × Option Throwable
is_an_error self = if eq_ℤ self.status status_ok then (false, none) else (true, some self)

unfoldable pub thrown : Throwable → String → Throwable
thrown self frame = record self { stack_trace = self.stack_trace ++ (frame ∷ []) }

-- `throwable = callee(); if (throwable->is_an_error(throwable)) return throwable->thrown(throwable,
-- frame);` and then the rest of the caller.
unfoldable pub propagate : Throwable → String → Throwable → Throwable
unfolding is_an_error thrown
propagate callee frame rest =
    let (failed, _) = is_an_error callee in if failed then thrown callee frame else rest

-- The two ways in which the functions of the program end.
unfoldable pub ok_from : String → Throwable
unfolding create
ok_from frame = create status_ok null_message frame

unfoldable pub error_from : Message → String → Throwable
unfolding create
error_from msg frame = create status_error msg frame

-- ===== src/Throwable/Chain.antt =====
-- How errors travel up a chain of calls (code/utils/throwable.c).
use heimdall_web_switch.Prelude.{◌≡◌, true, false, none, some, List, [], ◌∷◌, ◌++◌}
use heimdall_web_switch.Prelude.{◌⊎◌, ◌≢◌, arith, ap, ◌∙◌, append-nil, append_assoc}
use heimdall_web_switch.Throwable.{Throwable, Message, status_ok, status_error, is_an_error}
use heimdall_web_switch.Throwable.{propagate, ok_from}
use Prim.Native.String.{String}

-- The frames through which an error passes on its way up, innermost first.
pub propagate_all : Throwable → List String → Throwable
propagate_all t [] = t
propagate_all t (f ∷ fs) = propagate_all (propagate t f (ok_from f)) fs

-- An error that passes through any chain of callers keeps its status and message, and its trace
-- lists the frames in the order in which they were left.
pub propagate_all-error :
    (m : Message) (st fs : List String)
    → propagate_all (record { message = m; status = status_error; stack_trace = st }) fs
      ≡ record { message = m; status = status_error; stack_trace = st ++ fs }
unfolding propagate_all propagate
propagate_all-error m st [] = rw append-nil
propagate_all-error m st (f ∷ fs) =
    propagate_all-error m (st ++ (f ∷ [])) fs
    ∙ ap (λ l. record { message = m; status = status_error; stack_trace = l })
        (append_assoc st (f ∷ []) fs)

-- A throwable is freed by the check exactly when its status is STATUS_OK, and an error stays
-- allocated and unchanged.
pub is_an_error_lem :
    (t : Throwable)
    → ((t.status ≡ status_ok) × (is_an_error t ≡ (false, none)))
      ⊎ ((t.status ≢ status_ok) × (is_an_error t ≡ (true, some t)))
unfolding is_an_error
is_an_error_lem t = ground arith

-- ===== src/Throwable/Tests.antt =====
-- Runs of code/utils/throwable.c at concrete objects.
use heimdall_web_switch.Prelude.{◌≡◌, refl, true, some}
use heimdall_web_switch.Throwable.{errno_text, error_from, is_an_error}

error_is_kept :
    is_an_error (error_from errno_text "get_fd") ≡ (true, some (error_from errno_text "get_fd"))
unfolding is_an_error error_from
error_is_kept = refl

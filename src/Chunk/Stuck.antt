-- ===== src/Chunk/Stuck.antt =====
-- Transfers that do not end (code/http/connection.c).
use heimdall_web_switch.Prelude.{ℕ, ◌<◌, ◌≡◌, ap, ◌≢◌, ◌⊎◌, List, arith, length, length-append}
use heimdall_web_switch.Chunk.{finished, Transfer, start, Reach}
use heimdall_web_switch.Chunk.Handoff.{Reach-finished}

-- A response whose body is shorter than its header says, and any response of length 0: in no state that
-- the transfer can reach has the sender finished.
pub never_finished :
    (n : ℕ) (body : List ℕ) (t : Transfer)
    → (n ≡ 0) ⊎ (length body < n)
    → Reach n (start body) t
    → t.sender ≢ finished
never_finished n body t short r e =
    let (rest, whole, len, some_bytes) = Reach-finished n body t r e in
    absurd (omega (arith, len, some_bytes, short, length-append t.output rest, ap length whole))

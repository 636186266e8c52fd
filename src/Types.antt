-- ===== src/Types.antt =====
-- The structures of code/include/types.h, and the server states of code/include/server_pool.h.
use heimdall_web_switch.Prelude.{ℕ, Option, List}
use heimdall_web_switch.Prelude.Int.{ℤ, pos, negsuc}
use Prim.Native.String.{String}

-- A `char *` that may be NULL.
abbrev pub CString : Type 0
CString = Option String

-- SERVER_STATUS_READY and SERVER_STATUS_BROKEN
abbrev pub server_status_ready : ℤ
server_status_ready = pos 1

abbrev pub server_status_broken : ℤ
server_status_broken = negsuc 0

pub record Server : Type 0 where
  pub address : CString
  pub ip : CString
  pub weight : ℤ
  pub status : ℤ

-- The shared segment: four arrays with an entry for each worker.
pub record ThpSharedMem : Type 0 where
  pub worker_array : List ℕ
  pub worker_busy : List ℕ
  pub worker_counter : List ℕ
  pub worker_server : List Server

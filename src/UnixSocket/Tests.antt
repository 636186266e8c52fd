-- ===== src/UnixSocket/Tests.antt =====
-- An address of eight bytes at a path of two.
use heimdall_web_switch.Prelude.{
  ℕ, ◌+◌, ◌<◌, ◌≤◌, ◌≡◌, ◌⊎◌, none, some, List, [], ◌∷◌, length, arith,
}
use heimdall_web_switch.Throwable.{ok_from, error_from}
use heimdall_web_switch.HttpRequest.{Chars, string_at}
use heimdall_web_switch.UnixSocket.{einval_text, unix_build_address}
use heimdall_web_switch.UnixSocket.Address.{unix_build_address_lem}

abbrev path : Chars
path = b'/' ∷ b's' ∷ []

unix_build_address_example :
    ((length path + 1 < 8)
      × ((address : List ℕ) × (unix_build_address 8 (some path)
            ≡ (some address, ok_from "unix_build_address"))
          × (string_at address ≡ path)
          × (length address ≡ 8)))
    ⊎ ((8 ≤ length path + 1)
        × (unix_build_address 8 (some path) ≡ (none, error_from einval_text "unix_build_address")))
unix_build_address_example = unix_build_address_lem 8 path (omega arith, (omega arith, tt))

-- ===== src/Connection/Sockets/Hostname.antt =====
-- Which address `hostname_to_ip` of code/http/connection.c takes.
use heimdall_web_switch.Prelude.{◌≡◌, refl, none, some, List, [], ◌∷◌, ◌++◌, map}
use heimdall_web_switch.Throwable.{ok_from}
use heimdall_web_switch.HttpRequest.{Chars}
use heimdall_web_switch.Connection.Sockets.{AddressInfo, inet, inet6, hostname_loop, hostname_to_ip}

-- The addresses of the newer family that stand before the first of the older one.
abbrev pub skipped : List Chars → List AddressInfo
skipped texts = map (λ t. inet6 (some t)) texts

hostname_loop-skipped :
    (texts : List Chars) (rest : List AddressInfo)
    → hostname_loop (skipped texts ++ rest) ≡ hostname_loop rest
unfolding hostname_loop
hostname_loop-skipped [] rest = refl
hostname_loop-skipped (t ∷ ts) rest = hostname_loop-skipped ts rest

-- `hostname_to_ip` passes over all IPv6 addresses: it stores the text of the first IPv4 address behind
-- them, whatever follows; when there is none, it stores nothing and returns STATUS_OK all the same.
pub hostname_to_ip-inet :
    (texts : List Chars) (ip : Chars) (rest : List AddressInfo)
    → (hostname_to_ip (some (skipped texts ++ (inet (some ip) ∷ rest)))
        ≡ (some ip, ok_from "hostname_to_ip"))
      × (hostname_to_ip (some (skipped texts ++ [])) ≡ (none, ok_from "hostname_to_ip"))
unfolding hostname_to_ip hostname_loop
hostname_to_ip-inet texts ip rest =
    (hostname_loop-skipped texts (inet (some ip) ∷ rest), hostname_loop-skipped texts [])

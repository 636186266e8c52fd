-- ===== src/Config/Servers/Entries.antt =====
-- The two passes over the file of servers (code/config/server_config.c) on the same entries.
use heimdall_web_switch.Prelude.{
  ℕ, suc, ◌+◌, ◌≡◌, refl, ap, ◌∙◌, false, ◌==◌, ◌&&◌, Option, none, some, List, [], ◌∷◌, ◌++◌, map,
  arith, append_assoc, length-append, length,
}
use heimdall_web_switch.HttpRequest.{Chars}
use heimdall_web_switch.HttpRequest.FirstLine.{ZeroFree}
use heimdall_web_switch.HttpRequest.Headers.{codes}
use heimdall_web_switch.Config.{line_get}
use heimdall_web_switch.Config.Lines.{Without, get_part-append}
use heimdall_web_switch.Config.Servers.{
  ServerConfig, type_value, store_server, parse_line, count_server,
}

pub data Entry : Type 0 where
  ip_of : Chars → Entry
  name_of : Chars → Entry

abbrev pub kind : Entry → Chars
kind (ip_of value) = codes "IP"
kind (name_of value) = codes "Name"

abbrev pub value : Entry → Chars
value (ip_of v) = v
value (name_of v) = v

abbrev pub text_of : Entry → List ℕ
text_of e = kind e ++ (b':' ∷ (value e ++ (b'\n' ∷ [])))

-- The whole file.
abbrev pub file_of : List Entry → List ℕ
file_of [] = []
file_of (e ∷ es) = text_of e ++ file_of es

-- The line in the buffer.
abbrev pub line_of : Entry → List ℕ
line_of e = kind e ++ (b':' ∷ (value e ++ (b'\n' ∷ 0 ∷ [])))

abbrev pub IsValue : Chars → Type 0
IsValue v = Without b'\n' v × Without b'P' v × ZeroFree v

abbrev pub AllValues : List Entry → Type 0
AllValues [] = Unit {0}
AllValues (e ∷ es) = IsValue (value e) × AllValues es

-- The description: the values of each kind, in the order of the file.
abbrev pub add_all : List Entry → ServerConfig → ServerConfig
add_all [] config = config
add_all (ip_of v ∷ es) config =
    add_all es (record config { servers_ip = config.servers_ip ++ (v ∷ []) })
add_all (name_of v ∷ es) config =
    add_all es (record config { servers_names = config.servers_names ++ (v ∷ []) })

abbrev pub count_ips : List Entry → ℕ
count_ips [] = 0
count_ips (ip_of v ∷ es) = suc (count_ips es)
count_ips (name_of v ∷ es) = count_ips es

abbrev with_value : Chars → Option Chars → Option (Chars × Chars)
with_value k none = none
with_value k (some v) = some (k, v)

type_value-entry : (e : Entry) → IsValue (value e) → type_value (line_of e) ≡ some (kind e, value e)
unfolding type_value line_get
type_value-entry (ip_of v) (b, p, z) =
    ap (with_value (codes "IP")) (get_part-append (line_of (ip_of v)) 3 b'\n' v (0 ∷ []) refl b z)
type_value-entry (name_of v) (b, p, z) =
    ap (with_value (codes "Name"))
      (get_part-append (line_of (name_of v)) 5 b'\n' v (0 ∷ []) refl b z)

count_server-line :
    (xs rest : List ℕ)
    → Without b'\n' xs
    → Without b'P' xs
    → count_server (xs ++ (b'\n' ∷ rest)) ≡ count_server rest
unfolding count_server
count_server-line [] [] b p = refl
count_server-line [] (c ∷ cs) b p = refl
count_server-line (c ∷ []) rest b p =
    let e : (c == b'\n') ≡ false = ground (arith, b.0) in
    let f : ((c == b'I') && false) ≡ false = ground arith in rw (e, f) (omega arith)
count_server-line (c ∷ d ∷ cs) rest b p =
    let e : (c == b'\n') ≡ false = ground (arith, b.0) in
    let f : ((c == b'I') && (d == b'P')) ≡ false = ground (arith, p.1.0) in
    rw (e, f) (omega (arith, count_server-line cs rest b.1.1 p.1.1))

parse_line-entries :
    (es : List Entry) (config : ServerConfig)
    → AllValues es
    → parse_line (map line_of es) config ≡ some (add_all es config)
unfolding parse_line store_server
parse_line-entries [] config v = refl
parse_line-entries (ip_of x ∷ es) config (v, vs) =
    rw (type_value-entry (ip_of x) v) (parse_line-entries es _ vs)
parse_line-entries (name_of x ∷ es) config (v, vs) =
    rw (type_value-entry (name_of x) v) (parse_line-entries es _ vs)

count_server-value :
    (x : Chars) (es : List Entry)
    → Without b'\n' x
    → Without b'P' x
    → count_server (b':' ∷ ((x ++ (b'\n' ∷ [])) ++ file_of es)) ≡ count_server (file_of es)
count_server-value x es b p =
    ap (λ l. count_server (b':' ∷ l)) (append_assoc x (b'\n' ∷ []) (file_of es))
    ∙ count_server-line (b':' ∷ x) (file_of es) (omega arith, b) (omega arith, p)

count_server-entries : (es : List Entry) → AllValues es → count_server (file_of es) ≡ count_ips es
unfolding count_server
count_server-entries [] v = refl
count_server-entries (ip_of x ∷ es) ((b, p, z), vs) =
    omega (arith, count_server-value x es b p, count_server-entries es vs)
count_server-entries (name_of x ∷ es) ((b, p, z), vs) =
    omega (arith, count_server-value x es b p, count_server-entries es vs)

length-add_all :
    (es : List Entry) (config : ServerConfig)
    → length (add_all es config).servers_ip ≡ length config.servers_ip + count_ips es
length-add_all [] config = omega arith
length-add_all (ip_of x ∷ es) config = omega (
  arith,
  length-add_all es (record config { servers_ip = config.servers_ip ++ (x ∷ []) }),
  length-append config.servers_ip (x ∷ []),
)
length-add_all (name_of x ∷ es) config =
    length-add_all es (record config { servers_names = config.servers_names ++ (x ∷ []) })

abbrev pub no_servers : ServerConfig
no_servers = record { servers_names = []; servers_ip = [] }

-- On a file of entries `IP:` and `Name:` whose values hold no line break, no P and no zero byte,
-- `parse_line` succeeds with the values of each kind in the order of the file, and `count_server`, by
-- which the array of the addresses is made, counts exactly the addresses that `parse_line` stores.
pub parse_line-count_server :
    (es : List Entry)
    → AllValues es
    → (parse_line (map line_of es) no_servers ≡ some (add_all es no_servers))
      × (count_server (file_of es) ≡ length (add_all es no_servers).servers_ip)
parse_line-count_server es v = (
  parse_line-entries es no_servers v,
  omega (arith, count_server-entries es v, length-add_all es no_servers),
)

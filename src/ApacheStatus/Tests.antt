-- ===== src/ApacheStatus/Tests.antt =====
-- The theorems on status pages at short ones.
use heimdall_web_switch.Prelude.{
  ℕ, ◌+◌, ◌≡◌, refl, false, ◌&&◌, leb, if◌then◌else◌, some, [], ◌∷◌, ◌++◌, arith, length,
}
use heimdall_web_switch.Prelude.Int.{pos}
use heimdall_web_switch.Throwable.{ok_from}
use heimdall_web_switch.Helper.{Strtol, str_to_int}
use heimdall_web_switch.HttpRequest.{Chars, space}
use heimdall_web_switch.HttpRequest.Headers.{codes, split_colon}
use heimdall_web_switch.HttpRequest.Headers.Message.{Field}
use heimdall_web_switch.ApacheStatus.{
  ApacheServerStatus, Strtof, new_apache_server_status, fault, done, parse_apache_status,
}
use heimdall_web_switch.ApacheStatus.Page.{
  page, parse_fields, parse_apache_status-page, parse_apache_status-fault,
}

abbrev lower : ℕ → ℕ
lower c = if leb 65 c && leb c 90 then c + 32 else c

-- A numeral of one digit.
abbrev digit : Chars → Strtol
digit s = record {
  value = pos (elim s [ [] ↦ 0 | c ∷ cs ↦ if leb 49 c then 1 else 0 ]);
  consumed = 1;
  string_len = length s;
  errno_set = false;
  out_of_range = false;
}

abbrev no_float : Chars → Strtof ℕ
no_float s = record {
  value = 0;
  is_zero = false;
  is_limit = false;
  consumed = 0;
  string_len = length s;
  errno_set = false;
  out_of_range = false;
}

abbrev busy : Field
busy = record { name = codes "Busy"; gap = space; value = codes "1" }

abbrev idle : Field
idle = record { name = codes "IdleWorkers"; gap = space; value = codes "0" }

abbrev with_page : Chars → ApacheServerStatus ℕ
with_page s = record (new_apache_server_status 7) { status_page = some s }

parse_apache_status-page_example :
    parse_apache_status lower digit no_float (with_page (page (idle ∷ busy ∷ []) []))
    ≡ parse_fields lower digit no_float (idle ∷ busy ∷ []) (with_page (page (idle ∷ busy ∷ []) []))
parse_apache_status-page_example =
    parse_apache_status-page lower digit no_float idle (busy ∷ []) []
      (with_page (page (idle ∷ busy ∷ []) [])) refl tt
      (record {
        name = (
          omega arith,
          omega arith,
          (
            omega arith,
            omega arith,
            (
              omega arith,
              omega arith,
              (
                omega arith,
                omega arith,
                (
                  omega arith,
                  omega arith,
                  (
                    omega arith,
                    omega arith,
                    (
                      omega arith,
                      omega arith,
                      (
                        omega arith,
                        omega arith,
                        (
                          omega arith,
                          omega arith,
                          (omega arith, omega arith, (omega arith, omega arith, tt)),
                        ),
                      ),
                    ),
                  ),
                ),
              ),
            ),
          ),
        );
        value = (omega arith, tt);
        breaks = (
          omega arith,
          (
            omega arith,
            (
              omega arith,
              (
                omega arith,
                (
                  omega arith,
                  (
                    omega arith,
                    (
                      omega arith,
                      (
                        omega arith,
                        (
                          omega arith,
                          (
                            omega arith,
                            (omega arith, (omega arith, (omega arith, (omega arith, tt)))),
                          ),
                        ),
                      ),
                    ),
                  ),
                ),
              ),
            ),
          ),
        );
      })
      (
        record {
          name = (
            omega arith,
            omega arith,
            (omega arith, omega arith, (omega arith, omega arith, (omega arith, omega arith, tt))),
          );
          value = (omega arith, tt);
          breaks = (
            omega arith,
            (
              omega arith,
              (omega arith, (omega arith, (omega arith, (omega arith, (omega arith, tt))))),
            ),
          );
        },
        tt,
      )

-- What is stored.
idle_stored :
    parse_apache_status lower digit no_float (with_page (page (idle ∷ busy ∷ []) []))
    ≡ done
        (record (with_page (page (idle ∷ busy ∷ []) [])) { idle_workers = pos 0 })
        (ok_from "parse_apache_status")
unfolding parse_apache_status split_colon str_to_int ok_from
idle_stored = refl

parse_apache_status-fault_example :
    parse_apache_status lower digit no_float
      (with_page (codes "web" ++ (b'\n' ∷ page (idle ∷ []) [])))
    ≡ fault
parse_apache_status-fault_example =
    parse_apache_status-fault lower digit no_float (codes "web") (page (idle ∷ []) [])
      (with_page (codes "web" ++ (b'\n' ∷ page (idle ∷ []) []))) refl
      (omega arith, omega arith, (omega arith, omega arith, (omega arith, omega arith, tt)))
      (omega arith, (omega arith, (omega arith, tt)))

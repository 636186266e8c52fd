-- ===== src/Helper/Tests.antt =====
-- The conversions at the answers of `strtol` for "10" and "4294967301".
use heimdall_web_switch.Prelude.{◌≡◌, refl, false}
use heimdall_web_switch.Prelude.Int.{pos}
use heimdall_web_switch.Throwable.{ok_from}
use heimdall_web_switch.Helper.{Strtol, str_to_int}

abbrev ten : Strtol
ten = record {
  value = pos 10;
  consumed = 2;
  string_len = 2;
  errno_set = false;
  out_of_range = false;
}

str_to_int-ten : str_to_int ten ≡ (pos 10, ok_from "str_to_int")
unfolding str_to_int
str_to_int-ten = refl

abbrev large : Strtol
large = record {
  value = pos 4294967301;
  consumed = 10;
  string_len = 10;
  errno_set = false;
  out_of_range = false;
}

str_to_int-large : str_to_int large ≡ (pos 5, ok_from "str_to_int")
unfolding str_to_int
str_to_int-large = refl

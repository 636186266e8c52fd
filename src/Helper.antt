-- ===== src/Helper.antt =====
-- code/utils/helper.c: the conversion of strings to numbers.
-- What `strtol` answers for the string is an argument.
pub mod Convert
mod Tests
use heimdall_web_switch.Prelude.{
  ℕ, ◌+◌, ◌-◌, ◌%◌, ◌^◌, Bool, true, false, ◌&&◌, ◌||◌, ltb, ◌==◌, if◌then◌else◌,
}
use heimdall_web_switch.Prelude.Int.{ℤ, pos, negsuc, pos_part, neg_part, sub_ℕ, eq_ℤ}
use heimdall_web_switch.Throwable.{Throwable, text, errno_text, ok_from, error_from}

-- The value, how far `pointer` is behind the string's start, how long the string is, and `errno`:
-- whether it is set, and whether to ERANGE.
pub record Strtol : Type 0 where
  pub value : ℤ
  pub consumed : ℕ
  pub string_len : ℕ
  pub errno_set : Bool
  pub out_of_range : Bool

-- The conversion of a `long` to a 32-bit `int`, which wraps around.
pub to_int : ℤ → ℤ
to_int z =
    let r = (pos_part z + (2 ^ 32 - neg_part z % 2 ^ 32)) % 2 ^ 32 in
    if ltb r (2 ^ 31) then pos r else sub_ℕ r (2 ^ 32)

-- The checks behind the conversion, on the value that was stored.
convert_status : ℤ → Strtol → Throwable → Throwable → Throwable → Throwable → Throwable
convert_status stored a range_error no_digits trailing fine =
    if a.out_of_range || (a.errno_set && eq_ℤ stored (pos 0))
    then range_error
    else if a.consumed == 0
    then no_digits
    else if a.consumed == a.string_len
    then fine
    else trailing

-- What is stored through `value`, and the result.
unfoldable pub str_to_int : Strtol → ℤ × Throwable
unfolding to_int convert_status
str_to_int a = (
  to_int a.value,
  convert_status (to_int a.value) a (error_from errno_text "str_to_int")
      (error_from (text "No digits were found") "str_to_int")
      (error_from (text "There is some characters") "str_to_int") (ok_from "str_to_int"),
)

pub str_to_long : Strtol → ℤ × Throwable
unfolding convert_status
str_to_long a = (
  a.value,
  convert_status a.value a (error_from errno_text "str_to_long")
      (error_from (text "No digits were found") "str_to_long")
      (error_from (text "There is some characters") "str_to_long") (ok_from "str_to_long"),
)

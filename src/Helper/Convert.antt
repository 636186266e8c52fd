-- ===== src/Helper/Convert.antt =====
-- What `str_to_int` and `str_to_long` of code/utils/helper.c accept, and what they store.
use heimdall_web_switch.Prelude.{ℕ, ◌+◌, ◌^◌, ◌≤◌, ◌<◌, ◌≡◌, true, false, arith, ◌==◌, ap, ◌∙◌}
use heimdall_web_switch.Prelude.Int.{ℤ, pos, negsuc, pos_part, neg_part}
use heimdall_web_switch.Throwable.{ok_from}
use heimdall_web_switch.Helper.{Strtol, to_int, convert_status, str_to_int, str_to_long}

-- `strtol` read a number that is the whole string, and reported no error.
pub record IsNumeral (a : Strtol) : Type 0 where
  pub some_digits : 0 < a.consumed
  pub whole : a.consumed ≡ a.string_len
  pub no_error : a.errno_set ≡ false
  pub in_range : a.out_of_range ≡ false

-- The range of `int`.
abbrev pub FitsInt : ℤ → Type 0
FitsInt z = (pos_part z < 2 ^ 31) × (neg_part z ≤ 2 ^ 31)

to_int-FitsInt : (z : ℤ) → FitsInt z → to_int z ≡ z
unfolding to_int
to_int-FitsInt (pos n) h = ground arith
to_int-FitsInt (negsuc n) h = ground arith

-- A numeral whose value is in the range of `int` is converted: the value is stored, with STATUS_OK.
pub str_to_int-IsNumeral :
    (a : Strtol) → IsNumeral a → FitsInt a.value → str_to_int a ≡ (a.value, ok_from "str_to_int")
unfolding str_to_int convert_status
str_to_int-IsNumeral a n h =
    let digits : (a.consumed == 0) ≡ false = ground (arith, n.some_digits) in
    let end : (a.consumed == a.string_len) ≡ true = ground (arith, n.whole) in
    rw (to_int-FitsInt a.value h, n.in_range, n.no_error, digits, end)

to_int-wraps : (n : ℕ) → n < 2 ^ 31 → to_int (pos (2 ^ 32 + n)) ≡ pos n
unfolding to_int
to_int-wraps n h = ground arith

-- A numeral from 2 ^ 32 on and less than 2 ^ 31 above that is accepted too, with STATUS_OK, but its
-- value less 2 ^ 32 is stored.
pub str_to_int-wraps :
    (a : Strtol) (n : ℕ)
    → IsNumeral a
    → n < 2 ^ 31
    → a.value ≡ pos (2 ^ 32 + n)
    → str_to_int a ≡ (pos n, ok_from "str_to_int")
unfolding str_to_int convert_status
str_to_int-wraps a n num h e =
    let stored : to_int a.value ≡ pos n = ap to_int e ∙ to_int-wraps n h in
    let digits : (a.consumed == 0) ≡ false = ground (arith, num.some_digits) in
    let end : (a.consumed == a.string_len) ≡ true = ground (arith, num.whole) in
    rw (stored, num.in_range, num.no_error, digits, end)

pub str_to_long-IsNumeral :
    (a : Strtol) → IsNumeral a → str_to_long a ≡ (a.value, ok_from "str_to_long")
unfolding str_to_long convert_status
str_to_long-IsNumeral a n =
    let digits : (a.consumed == 0) ≡ false = ground (arith, n.some_digits) in
    let end : (a.consumed == a.string_len) ≡ true = ground (arith, n.whole) in
    rw (n.in_range, n.no_error, digits, end)

-- ===== src/ApacheStatus.antt =====
-- The status page of an Apache server: `get_data` and `parse_apache_status` of
-- code/web_switch/apache_status.c, and `str_to_float` of code/utils/helper.c.
-- `F` is the type of floats, which nothing here computes with. `tolower`, `strtol` and `strtof` are the C
-- library's; the memory for the copy of the page is taken to be there.
pub mod Page
pub mod Retrieve
mod Tests
use heimdall_web_switch.Prelude.{
  ℕ, Bool, true, ◌&&◌, ◌||◌, ◌==◌, if◌then◌else◌, Option, none, some, List, [], ◌∷◌, ◌++◌, drop,
}
use heimdall_web_switch.Prelude.Int.{ℤ, negsuc}
use heimdall_web_switch.Throwable.{Throwable, text, errno_text, ok_from, error_from, thrown}
use heimdall_web_switch.Helper.{Strtol, str_to_int}
use heimdall_web_switch.Scheduler.{failed}
use heimdall_web_switch.HttpRequest.{Chars, string_at}
use heimdall_web_switch.HttpRequest.Headers.{codes, eq_chars, str_to_lower, split_colon}
use Prim.Native.String.{String}

-- What `strtof` answers: the value, whether it is 0, whether it is LONG_MAX or LONG_MIN, how many bytes
-- were read of how many, and `errno`.
pub record Strtof (F : Type 0) : Type 0 where
  pub value : F
  pub is_zero : Bool
  pub is_limit : Bool
  pub consumed : ℕ
  pub string_len : ℕ
  pub errno_set : Bool
  pub out_of_range : Bool

pub record ApacheServerStatus (F : Type 0) : Type 0 where
  pub url : Option Chars
  pub status_page : Option Chars
  pub total_accesses : ℤ
  pub total_k_bytes : ℤ
  pub cpu_load : F
  pub uptime : ℤ
  pub req_per_sec : F
  pub bytes_per_sec : F
  pub bytes_per_req : F
  pub busy_workers : ℤ
  pub idle_workers : ℤ

-- What is stored through `value`, and the result.
pub str_to_float : {F : Type 0} → Strtof F → F × Throwable
str_to_float a = (
  a.value,
  if (a.out_of_range && a.is_limit) || (a.errno_set && a.is_zero)
      then error_from errno_text "str_to_float"
      else if a.consumed == 0
      then error_from (text "No digits were found") "str_to_float"
      else if a.consumed == a.string_len
      then ok_from "str_to_float"
      else error_from (text "There is some characters") "str_to_float",
)

-- The float that stands for -1 is an argument.
abbrev pub new_apache_server_status : {F : Type 0} → F → ApacheServerStatus F
new_apache_server_status minus_one = record {
  url = none;
  status_page = none;
  total_accesses = negsuc 0;
  total_k_bytes = negsuc 0;
  cpu_load = minus_one;
  uptime = negsuc 0;
  req_per_sec = minus_one;
  bytes_per_sec = minus_one;
  bytes_per_req = minus_one;
  busy_workers = negsuc 0;
  idle_workers = negsuc 0;
}

-- A fault is a read through NULL.
pub data ParseEnd (F : Type 0) : Type 0 where
  fault : ParseEnd F
  done : ApacheServerStatus F → Throwable → ParseEnd F

-- One of the conversions of `get_data`, whose value has been stored.
abbrev pub converted :
    {F : Type 0}
    → ApacheServerStatus F × Throwable
    → (frame : String) → ApacheServerStatus F × Throwable
converted (self, throwable) frame =
    (self, if failed throwable then thrown throwable frame else ok_from "get_data")

module _ {F : Type 0} (tolower : ℕ → ℕ) (strtol : Chars → Strtol) (strtof : Chars → Strtof F) where
  store_int :
      (ℤ → ApacheServerStatus F) → (frame : String) → Chars → ApacheServerStatus F × Throwable
  store_int store frame text_data =
      let (value, throwable) = str_to_int (strtol text_data) in
      converted (store value, throwable) frame

  store_float :
      (F → ApacheServerStatus F) → (frame : String) → Chars → ApacheServerStatus F × Throwable
  unfolding str_to_float
  store_float store frame text_data =
      let (value, throwable) = str_to_float (strtof text_data) in
      converted (store value, throwable) frame

  -- The comparisons of the text before the colon, which exclude each other.
  pub store_data :
      ApacheServerStatus F → (line_text text_data : Chars) → ApacheServerStatus F × Throwable
  unfolding store_int store_float
  store_data self line_text text_data =
      if eq_chars line_text (codes "total accesses")
      then store_int (λ v. record self { total_accesses = v }) "get_data.total_access" text_data
      else if eq_chars line_text (codes "total kbytes")
      then store_int (λ v. record self { total_k_bytes = v }) "get_data.total_kBytes" text_data
      else if eq_chars line_text (codes "cpuload")
      then store_float (λ v. record self { cpu_load = v }) "get_data.cpu_load" text_data
      else if eq_chars line_text (codes "uptime")
      then store_int (λ v. record self { uptime = v }) "get_data.uptime" text_data
      else if eq_chars line_text (codes "reqpersec")
      then store_float (λ v. record self { req_per_sec = v }) "get_data.req_per_sec" text_data
      else if eq_chars line_text (codes "bytespersec")
      then store_float (λ v. record self { bytes_per_sec = v }) "get_data.bytes_per_sec" text_data
      else if eq_chars line_text (codes "bytesperreq")
      then store_float (λ v. record self { bytes_per_req = v }) "get_data.bytes_per_req" text_data
      else if eq_chars line_text (codes "busyworkers")
      then store_int (λ v. record self { busy_workers = v }) "get_data.busy_workers" text_data
      else if eq_chars line_text (codes "idleworkers")
      then store_int (λ v. record self { idle_workers = v }) "get_data.idle_workers" text_data
      else (self, ok_from "get_data")

  -- Without a colon `strcmp` is called with NULL.
  pub get_data : ApacheServerStatus F → (line : List ℕ) → ParseEnd F
  unfolding store_data
  get_data self line = elim (split_colon line) [
    | none ↦ fault
    | some (name, behind) ↦
        let (self', throwable) =
          store_data self (str_to_lower tolower name) (string_at (drop 1 behind)) in
        done self' throwable
  ]

  -- Whether the page ends here: at an empty line or at the end of the string.
  pub ends_page : List ℕ → Bool
  ends_page page = elim page [ [] ↦ true | c ∷ cs ↦ (c == b'\n') || (c == 0) ]

  -- Behind a line: its result, and what the rest of the loop gives.
  pub line_parsed :
      ParseEnd F → (ended : Bool) → (on : ApacheServerStatus F → ParseEnd F) → ParseEnd F
  line_parsed fault ended on = fault
  line_parsed (done self throwable) ended on =
      if failed throwable
      then done self (thrown throwable "parse_apache_status")
      else if ended
      then done self (ok_from "parse_apache_status")
      else on self

  -- The loop, with the line that has been read up to here and the rest of the page.
  pub parse_loop : (line page : List ℕ) → ApacheServerStatus F → ParseEnd F
  unfolding get_data ends_page line_parsed
  parse_loop line [] self = done self (ok_from "parse_apache_status")
  parse_loop line (c ∷ cs) self =
      let on = λ (next : ApacheServerStatus F). parse_loop [] cs next in
      let longer = parse_loop (line ++ (c ∷ [])) cs self in
      if c == b'\n'
      then line_parsed (get_data self (line ++ (0 ∷ cs))) (ends_page cs) on
      else longer

  unfoldable pub parse_apache_status : ApacheServerStatus F → ParseEnd F
  unfolding parse_loop
  parse_apache_status self = elim self.status_page [
    | none ↦ fault
    | some page ↦ parse_loop [] page self
  ]

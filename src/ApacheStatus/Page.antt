-- ===== src/ApacheStatus/Page.antt =====
-- Whole status pages: `parse_apache_status` of code/web_switch/apache_status.c against a description by
-- lines.
use heimdall_web_switch.Prelude.{
  ℕ, ◌≡◌, refl, sym, ap, ◌∙◌, true, false, ◌==◌, if◌then◌else◌, Option, none, some, List, [], ◌∷◌,
  ◌++◌, arith, append_assoc, append-nil,
}
use heimdall_web_switch.Throwable.{Throwable, ok_from, thrown}
use heimdall_web_switch.Helper.{Strtol}
use heimdall_web_switch.Scheduler.{failed}
use heimdall_web_switch.HttpRequest.{Chars}
use heimdall_web_switch.HttpRequest.FirstLine.{ZeroFree, string_at-append}
use heimdall_web_switch.HttpRequest.Headers.{str_to_lower}
use heimdall_web_switch.HttpRequest.Headers.Lines.{NoBreak}
use heimdall_web_switch.HttpRequest.Headers.Message.{
  Field, field_line, IsName, split_colon-name, split_colon-none,
}
use heimdall_web_switch.ApacheStatus.{
  ApacheServerStatus, Strtof, ParseEnd, fault, done, store_data, get_data, ends_page, line_parsed,
  parse_loop, parse_apache_status,
}

pub record IsEntry (f : Field) : Type 0 where
  pub name : IsName f.name
  pub value : ZeroFree f.value
  pub breaks : NoBreak (field_line f)

abbrev pub AllEntries : List Field → Type 0
AllEntries [] = Unit {0}
AllEntries (f ∷ fs) = IsEntry f × AllEntries fs

abbrev pub page : List Field → List ℕ → List ℕ
page [] tail = tail
page (f ∷ fs) tail = field_line f ++ (b'\n' ∷ page fs tail)

-- What may follow the lines: nothing, or an empty line and anything.
abbrev pub IsEnd : List ℕ → Type 0
IsEnd [] = Unit {0}
IsEnd (c ∷ cs) = c ≡ b'\n'

module _ {F : Type 0} (tolower : ℕ → ℕ) (strtol : Chars → Strtol) (strtof : Chars → Strtof F) where
  -- The description: every line is stored in its turn, up to the first error.
  pub parse_fields : List Field → ApacheServerStatus F → ParseEnd F
  parse_fields [] self = done self (ok_from "parse_apache_status")
  parse_fields (f ∷ fs) self =
      let (self', t) =
        store_data tolower strtol strtof self (str_to_lower tolower f.name) f.value in
      let rest = parse_fields fs self' in
      if failed t then done self' (thrown t "parse_apache_status") else rest

  get_data-field :
      (f : Field) (ys : List ℕ) (self : ApacheServerStatus F)
      → IsEntry f
      → get_data tolower strtol strtof self (field_line f ++ (0 ∷ ys)) ≡ (
          let (self', t) =
            store_data tolower strtol strtof self (str_to_lower tolower f.name) f.value in
          done self' t)
  unfolding get_data
  get_data-field f ys self v =
      ap (get_data tolower strtol strtof self)
        (append_assoc f.name (b':' ∷ f.gap ∷ f.value) (0 ∷ ys))
      ∙ rw (split_colon-name f.name (f.gap ∷ (f.value ++ (0 ∷ ys))) v.name, get_data)
          (ap
            (λ d.
              let (self', t) =
                store_data tolower strtol strtof self (str_to_lower tolower f.name) d in
              done self' t)
            (string_at-append f.value ys v.value))

  parse_loop-skip :
      (acc line ys : List ℕ) (self : ApacheServerStatus F)
      → NoBreak line
      → parse_loop tolower strtol strtof acc (line ++ ys) self
        ≡ parse_loop tolower strtol strtof (acc ++ line) ys self
  unfolding parse_loop
  parse_loop-skip acc [] ys self p =
      ap (λ l. parse_loop tolower strtol strtof l ys self) (sym (append-nil acc))
  parse_loop-skip acc (c ∷ cs) ys self (p, ps) =
      let goes_on : (c == b'\n') ≡ false = ground arith in
      rw goes_on (
        parse_loop-skip (acc ++ (c ∷ [])) cs ys self ps
        ∙ ap (λ l. parse_loop tolower strtol strtof l ys self) (append_assoc acc (c ∷ []) cs))

  -- The loop over a line is the call for it.
  parse_loop-line :
      (line rest : List ℕ) (self : ApacheServerStatus F)
      → NoBreak line
      → parse_loop tolower strtol strtof [] (line ++ (b'\n' ∷ rest)) self
        ≡ line_parsed tolower strtol strtof
            (get_data tolower strtol strtof self (line ++ (0 ∷ rest)))
            (ends_page tolower strtol strtof rest)
            (λ next. parse_loop tolower strtol strtof [] rest next)
  unfolding parse_loop
  parse_loop-line line rest self p = parse_loop-skip [] line (b'\n' ∷ rest) self p ∙ refl

  -- An entry does not end the page.
  ends_page-field :
      (f : Field) (ys : List ℕ)
      → IsEntry f
      → ends_page tolower strtol strtof (field_line f ++ ys) ≡ false
  unfolding ends_page
  ends_page-field f ys v = go f.name v.name v.breaks
    where
      go :
          (name : Chars)
          → IsName name
          → NoBreak (name ++ (b':' ∷ f.gap ∷ f.value))
          → ends_page tolower strtol strtof ((name ++ (b':' ∷ f.gap ∷ f.value)) ++ ys) ≡ false
      go [] n b = refl
      go (c ∷ cs) n b = ground (arith, n.0, b.0)

  -- What is left behind an entry.
  abbrev behind_entry : List ℕ → ApacheServerStatus F → Throwable → ParseEnd F
  behind_entry rest self t =
      line_parsed tolower strtol strtof (done self t) (ends_page tolower strtol strtof rest)
        (λ next. parse_loop tolower strtol strtof [] rest next)

  parse_loop-field :
      (f : Field) (rest : List ℕ) (self : ApacheServerStatus F)
      → IsEntry f
      → parse_loop tolower strtol strtof [] (field_line f ++ (b'\n' ∷ rest)) self ≡ (
          let (self', t) =
            store_data tolower strtol strtof self (str_to_lower tolower f.name) f.value in
          behind_entry rest self' t)
  parse_loop-field f rest self v =
      parse_loop-line (field_line f) rest self v.breaks
      ∙ ap
          (λ r.
            line_parsed tolower strtol strtof r (ends_page tolower strtol strtof rest)
              (λ next. parse_loop tolower strtol strtof [] rest next))
          (get_data-field f rest self v)

  behind_entry-fields :
      (fs : List Field) (tail : List ℕ) (self : ApacheServerStatus F) (t : Throwable)
      → AllEntries fs
      → ends_page tolower strtol strtof tail ≡ true
      → behind_entry (page fs tail) self t
        ≡ (if failed t then done self (thrown t "parse_apache_status") else parse_fields fs self)
  unfolding parse_fields line_parsed
  behind_entry-fields [] tail self t vs e = rw e refl
  behind_entry-fields (f ∷ fs) tail self t (v, vs) e =
      rw (ends_page-field f (b'\n' ∷ page fs tail) v) (
        ap (λ r. if failed t then done self (thrown t "parse_apache_status") else r)
          (parse_loop-field f (page fs tail) self v
            ∙ (let (self', t') =
                  store_data tolower strtol strtof self (str_to_lower tolower f.name) f.value in
                behind_entry-fields fs tail self' t' vs e)))

  parse_apache_status-at :
      (string : Chars) (self : ApacheServerStatus F)
      → self.status_page ≡ some string
      → parse_apache_status tolower strtol strtof self
        ≡ parse_loop tolower strtol strtof [] string self
  unfolding parse_apache_status
  parse_apache_status-at string self p =
      ap
        (λ (o : Option Chars). elim o [
          | none ↦ fault
          | some string ↦ parse_loop tolower strtol strtof [] string self
        ])
        p

  ends_page-IsEnd : (tail : List ℕ) → IsEnd tail → ends_page tolower strtol strtof tail ≡ true
  unfolding ends_page
  ends_page-IsEnd [] e = refl
  ends_page-IsEnd (c ∷ cs) e = ground (arith, e)

-- `parse_apache_status` on a page of one or more lines with a name, a colon, any byte and a value, up to
-- an empty line or the end of the page: it never faults, and stores under each name what stands two
-- bytes behind its colon, in the order of the lines and up to the first error.
pub parse_apache_status-page :
    {F : Type 0} (tolower : ℕ → ℕ) (strtol : Chars → Strtol) (strtof : Chars → Strtof F) (f : Field)
    (fs : List Field) (tail : List ℕ) (self : ApacheServerStatus F)
    → self.status_page ≡ some (page (f ∷ fs) tail)
    → IsEnd tail
    → IsEntry f
    → AllEntries fs
    → parse_apache_status tolower strtol strtof self
      ≡ parse_fields tolower strtol strtof (f ∷ fs) self
unfolding parse_fields
parse_apache_status-page tolower strtol strtof f fs tail self p e v vs =
    let (self', t) = store_data tolower strtol strtof self (str_to_lower tolower f.name) f.value in
    parse_apache_status-at tolower strtol strtof (page (f ∷ fs) tail) self p
    ∙ parse_loop-field tolower strtol strtof f (page fs tail) self v
    ∙ behind_entry-fields tolower strtol strtof fs tail self' t vs
        (ends_page-IsEnd tolower strtol strtof tail e)

-- A page whose first line has no colon makes `parse_apache_status` compare with NULL, whatever stands
-- behind that line.
pub parse_apache_status-fault :
    {F : Type 0} (tolower : ℕ → ℕ) (strtol : Chars → Strtol) (strtof : Chars → Strtof F)
    (line rest : List ℕ) (self : ApacheServerStatus F)
    → self.status_page ≡ some (line ++ (b'\n' ∷ rest))
    → IsName line
    → NoBreak line
    → parse_apache_status tolower strtol strtof self ≡ fault
unfolding get_data line_parsed
parse_apache_status-fault tolower strtol strtof line rest self p n b =
    parse_apache_status-at tolower strtol strtof (line ++ (b'\n' ∷ rest)) self p
    ∙ parse_loop-line tolower strtol strtof line rest self b
    ∙ rw (split_colon-none line rest n, get_data) refl

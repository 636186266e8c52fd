-- ===== src/HttpRequest/Headers/Message.antt =====
-- Whole messages: `read_headers` of code/http/http_request.c against a description that knows no
-- indices, over a first line and header lines.
use heimdall_web_switch.Prelude.{
  ℕ, suc, ◌+◌, ◌<◌, ◌≡◌, ◌≢◌, refl, sym, ap, ap₂, subst, ◌∙◌, false, ◌&&◌, ◌==◌, if◌then◌else◌,
  Option, none, some, List, [], ◌∷◌, ◌++◌, arith, length, get_or, append_assoc, length-append,
}
use heimdall_web_switch.Throwable.{ok_from, thrown}
use heimdall_web_switch.Helper.{Strtol}
use heimdall_web_switch.Scheduler.{failed}
use heimdall_web_switch.HttpRequest.{Chars, HttpRequest, string_at}
use heimdall_web_switch.HttpRequest.FirstLine.{ZeroFree, string_at-append, drop-append}
use heimdall_web_switch.HttpRequest.Headers.{
  ReadEnd, done, Kind, str_to_lower, split_colon, store_header, get_header, read_first, read_at,
  read_headers,
}
use heimdall_web_switch.HttpRequest.Headers.Lines.{
  NoBreak, loop, buffer_with, break_at, read_loop-line, read_line-result,
}

-- A header line: the byte behind the colon is any.
pub record Field : Type 0 where
  pub name : Chars
  pub gap : ℕ
  pub value : Chars

abbrev pub field_line : Field → List ℕ
field_line f = f.name ++ (b':' ∷ f.gap ∷ f.value)

-- No code of the name is 0 or a colon.
abbrev pub IsName : Chars → Type 0
IsName [] = Unit {0}
IsName (c ∷ cs) = (c ≢ 0) × (c ≢ b':') × IsName cs

pub record IsField (f : Field) : Type 0 where
  pub name : IsName f.name
  pub value : ZeroFree f.value
  pub breaks : NoBreak (field_line f)
  pub first : get_or (field_line f) 0 0 ≢ b'\r'

abbrev pub AllFields : List Field → Type 0
AllFields [] = Unit {0}
AllFields (f ∷ fs) = IsField f × AllFields fs

-- The lines, each with its break, and what stands behind them.
abbrev pub body : List Field → List ℕ → List ℕ
body [] tail = tail
body (f ∷ fs) tail = field_line f ++ (b'\r' ∷ b'\n' ∷ body fs tail)

-- A first line, the header lines, the empty line, and what follows.
abbrev pub message : (first_line : List ℕ) → List Field → (rest : List ℕ) → List ℕ
message first_line fs rest = first_line ++ (b'\r' ∷ b'\n' ∷ body fs (b'\r' ∷ b'\n' ∷ rest))

pub split_colon-name :
    (name behind : List ℕ)
    → IsName name
    → split_colon (name ++ (b':' ∷ behind)) ≡ some (name, behind)
unfolding split_colon
split_colon-name [] behind v = refl
split_colon-name (c ∷ cs) behind v =
    let some_code : (c == 0) ≡ false = ground (arith, v.0) in
    let no_colon : (c == b':') ≡ false = ground (arith, v.1) in
    rw (some_code, no_colon, split_colon-name cs behind v.2) refl

pub split_colon-none :
    (line behind : List ℕ) → IsName line → split_colon (line ++ (0 ∷ behind)) ≡ none
unfolding split_colon
split_colon-none [] behind v = refl
split_colon-none (c ∷ cs) behind v =
    let some_code : (c == 0) ≡ false = ground (arith, v.0) in
    let no_colon : (c == b':') ≡ false = ground (arith, v.1) in
    rw (some_code, no_colon, split_colon-none cs behind v.2) refl

body-append : (fs : List Field) (tail ys : List ℕ) → body fs tail ++ ys ≡ body fs (tail ++ ys)
body-append [] tail ys = refl
body-append (f ∷ fs) tail ys =
    append_assoc (field_line f) (b'\r' ∷ b'\n' ∷ body fs tail) ys
    ∙ ap (λ l. field_line f ++ (b'\r' ∷ b'\n' ∷ l)) (body-append fs tail ys)

next_line :
    (pre line post : List ℕ)
    → buffer_with pre line 0 post ≡ (pre ++ (line ++ (0 ∷ b'\n' ∷ []))) ++ post
next_line pre line post =
    ap (λ l. pre ++ l) (sym (append_assoc line (0 ∷ b'\n' ∷ []) post))
    ∙ sym (append_assoc pre (line ++ (0 ∷ b'\n' ∷ [])) post)

length-next :
    (pre line : List ℕ) → length (pre ++ (line ++ (0 ∷ b'\n' ∷ []))) ≡ break_at pre line + 1
length-next pre line =
    length-append pre (line ++ (0 ∷ b'\n' ∷ []))
    ∙ ap (λ n. length pre + n) (length-append line (0 ∷ b'\n' ∷ []))
    ∙ omega arith

module _ (tolower : ℕ → ℕ) (copy : Chars → Option Chars) (convert : Chars → Strtol) where
  -- The description: every header line is stored in its turn, up to the first error.
  pub read_fields : List Field → HttpRequest → ReadEnd
  read_fields [] self = done self (ok_from "read_headers")
  read_fields (f ∷ fs) self =
      let (self', t) =
        store_header tolower copy convert self (str_to_lower tolower f.name) f.value in
      let rest = read_fields fs self' in
      if failed t then done self' (thrown t "read_headers") else rest

  get_header-field :
      (f : Field) (ys : List ℕ) (self : HttpRequest)
      → IsField f
      → get_header tolower copy convert self (field_line f ++ (0 ∷ ys)) ≡ (
          let (self', t) =
            store_header tolower copy convert self (str_to_lower tolower f.name) f.value in
          (self', some t))
  unfolding get_header
  get_header-field f ys self v =
      ap (get_header tolower copy convert self)
        (append_assoc f.name (b':' ∷ f.gap ∷ f.value) (0 ∷ ys))
      ∙ rw (split_colon-name f.name (f.gap ∷ (f.value ++ (0 ∷ ys))) v.name, get_header)
          (ap
            (λ d.
              let (self', t) =
                store_header tolower copy convert self (str_to_lower tolower f.name) d in
              (self', some t))
            (string_at-append f.value ys v.value))

  -- Behind a header line stands another one, or the empty line.
  no_return :
      (f : Field) (tail : List ℕ) → IsField f → (get_or (field_line f ++ tail) 0 0 == b'\r') ≡ false
  no_return f tail v =
      subst (λ c. (c == b'\r') ≡ false) (sym (first_code f.name)) (ground (arith, v.first))
    where
      first_code :
          (name : Chars)
          → get_or ((name ++ (b':' ∷ f.gap ∷ f.value)) ++ tail) 0 0
            ≡ get_or (name ++ (b':' ∷ f.gap ∷ f.value)) 0 0
      first_code [] = refl
      first_code (c ∷ cs) = refl

  read_at-field :
      (kind : Kind) (f : Field) (pre post : List ℕ) (i : ℕ) (self : HttpRequest)
      → IsField f
      → 0 < length pre
      → read_at tolower copy convert kind
          (buffer_with pre (field_line f) 0 post)
          i
          (length pre)
          self
        ≡ (let (self', t) =
              store_header tolower copy convert self (str_to_lower tolower f.name) f.value in
            (self', some t))
  unfolding read_at
  read_at-field kind f pre post i self v h =
      let not_first : (length pre == 0) ≡ false = ground arith in
      rw (not_first, read_at)
        (ap (get_header tolower copy convert self)
            (drop-append pre (field_line f ++ (0 ∷ b'\n' ∷ post)))
          ∙ get_header-field f (b'\n' ∷ post) self v)

  -- The memory up to the end of a line that was read.
  abbrev read_up_to : (pre line : List ℕ) → List ℕ
  read_up_to pre line = pre ++ (line ++ (0 ∷ b'\n' ∷ []))

  -- What the loop does behind a line, when `post` stands there.
  abbrev behind_line : Kind → ℕ → (pre line post : List ℕ) → HttpRequest → ReadEnd
  behind_line kind r pre line post self =
      if (get_or post 0 0 == b'\r') && (get_or post 1 0 == b'\n')
      then done self (ok_from "read_headers")
      else loop tolower copy convert kind r (buffer_with pre line 0 post) (break_at pre line + 1)
          (break_at pre line + 1) self

  behind_line-field :
      (kind : Kind) (r : ℕ) (pre line : List ℕ) (f : Field) (tail : List ℕ) (self : HttpRequest)
      → IsField f
      → behind_line kind r pre line (field_line f ++ tail) self
        ≡ loop tolower copy convert kind r
            (read_up_to pre line ++ (field_line f ++ tail))
            (length (read_up_to pre line))
            (length (read_up_to pre line))
            self
  behind_line-field kind r pre line f tail self v = rw (no_return f tail v) (
      ap₂ (λ b n. loop tolower copy convert kind r b n n self)
        (next_line pre line (field_line f ++ tail)) (sym (length-next pre line)))

  -- The loop from the start of a header line, with the rest of the loop left.
  read_loop-field :
      (kind : Kind) (f : Field) (post : List ℕ) (r : ℕ) (pre : List ℕ) (self : HttpRequest)
      → IsField f
      → 0 < length pre
      → loop tolower copy convert kind
          (length (field_line f) + suc (suc r))
          (buffer_with pre (field_line f) b'\r' post)
          (length pre)
          (length pre)
          self
        ≡ (let (self', t) =
              store_header tolower copy convert self (str_to_lower tolower f.name) f.value in
            if failed t
            then done self' (thrown t "read_headers")
            else behind_line kind r pre (field_line f) post self')
  read_loop-field kind f post r pre self v h =
      let (self', t) =
        store_header tolower copy convert self (str_to_lower tolower f.name) f.value in
      read_loop-line tolower copy convert kind pre (field_line f) post r (length pre) self v.breaks
      ∙ read_line-result tolower copy convert kind _ pre (field_line f) post (length pre) self self'
          t (read_at-field kind f pre post (break_at pre (field_line f)) self v h)

  -- The loop behind a line, with some header lines left.
  behind_line-fields :
      (kind : Kind) (fs : List Field) (rest behind pre line : List ℕ) (self : HttpRequest)
      → AllFields fs
      → behind_line kind
          (length (body fs (b'\r' ∷ b'\n' ∷ rest)))
          pre
          line
          (body fs (b'\r' ∷ b'\n' ∷ behind))
          self
        ≡ read_fields fs self
  unfolding read_fields
  behind_line-fields kind [] rest behind pre line self vs = refl
  behind_line-fields kind (f ∷ fs) rest behind pre line self (v, vs) =
      let post = body fs (b'\r' ∷ b'\n' ∷ behind) in
      let left = body fs (b'\r' ∷ b'\n' ∷ rest) in
      let before = read_up_to pre line in
      let n = length before in
      let (self', t) =
        store_header tolower copy convert self (str_to_lower tolower f.name) f.value in
      behind_line-field kind _ pre line f (b'\r' ∷ b'\n' ∷ post) self v
      ∙ ap
          (λ r.
            loop tolower copy convert kind r (buffer_with before (field_line f) b'\r' post) n n
              self)
          (length-append (field_line f) (b'\r' ∷ b'\n' ∷ left))
      ∙ read_loop-field kind f post (length left) before self v
          (omega (arith, length-next pre line))
      ∙ ap (λ end. if failed t then done self' (thrown t "read_headers") else end)
          (behind_line-fields kind fs rest behind before (field_line f) self' vs)

-- `read_headers` on a message of a first line without a break, and header lines that have a name
-- without a colon, a colon, any byte and a value: when the copy of the message succeeds, it never
-- faults, reads the first line, and then stores under each name what stands two bytes behind its
-- colon, in the order of the lines and up to the first error, whatever follows the empty line.
pub read_headers-message :
    (tolower : ℕ → ℕ) (copy : Chars → Option Chars) (convert : Chars → Strtol) (kind : Kind)
    (first_line : List ℕ) (fs : List Field) (rest string : List ℕ) (self : HttpRequest)
    → copy (string_at string) ≡ some (message first_line fs rest)
    → NoBreak first_line
    → AllFields fs
    → read_headers tolower copy convert self string kind ≡ (
        let buffer = first_line ++ (0 ∷ b'\n' ∷ (body fs (b'\r' ∷ b'\n' ∷ rest) ++ (0 ∷ []))) in
        let (self', t) = read_first tolower copy convert kind self buffer (length first_line + 1) in
        if failed t
        then done self' (thrown t "read_headers")
        else read_fields tolower copy convert fs self')
unfolding read_headers read_at
read_headers-message tolower copy convert kind first_line fs rest string self c p vs =
    let left = body fs (b'\r' ∷ b'\n' ∷ rest) in
    let post = left ++ (0 ∷ []) in
    let i = length first_line + 1 in
    let (self', t) =
      read_first tolower copy convert kind self (first_line ++ (0 ∷ b'\n' ∷ post)) i in
    rw (c, read_headers)
      (ap₂ (λ n b. loop tolower copy convert kind n b 0 0 self)
          (length-append first_line (b'\r' ∷ b'\n' ∷ left))
          (append_assoc first_line (b'\r' ∷ b'\n' ∷ left) (0 ∷ []))
        ∙ read_loop-line tolower copy convert kind [] first_line post (length left) 0 self p
        ∙ read_line-result tolower copy convert kind
            (λ b s h.
              loop tolower copy convert kind (length left) b (break_at [] first_line + 1) s h)
            [] first_line post 0 self self' t
            (ap
              (λ k.
                let (self', t) =
                  read_first tolower copy convert kind self (first_line ++ (0 ∷ b'\n' ∷ post)) k in
                (self', some t))
              (omega arith))
        ∙ ap (λ end. if failed t then done self' (thrown t "read_headers") else end)
            (ap (λ b. behind_line tolower copy convert kind (length left) [] first_line b self')
                (body-append fs (b'\r' ∷ b'\n' ∷ rest) (0 ∷ []))
              ∙ behind_line-fields tolower copy convert kind fs rest (rest ++ (0 ∷ [])) []
                  first_line self' vs))

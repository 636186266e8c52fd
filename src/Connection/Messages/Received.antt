-- ===== src/Connection/Messages/Received.antt =====
-- A whole message from the socket to the fields of the request (`receive_http_request` of
-- code/http/connection.c, over `read_headers` of code/http/http_request.c).
use heimdall_web_switch.Prelude.{
  ℕ, ◌+◌, ◌<◌, length-append, ◌≡◌, ◌≢◌, refl, sym, ap, ◌∙◌, true, false, if◌then◌else◌, Option,
  some, List, [], ◌∷◌, ◌++◌, map, arith, append_assoc, length, get_or,
}
use heimdall_web_switch.Throwable.{thrown, ok_from}
use heimdall_web_switch.Helper.{Strtol}
use heimdall_web_switch.Scheduler.{failed}
use heimdall_web_switch.Config.Lines.{string_at-whole}
use heimdall_web_switch.HttpRequest.{Chars, HttpRequest, string_at}
use heimdall_web_switch.HttpRequest.FirstLine.{ZeroFree}
use heimdall_web_switch.HttpRequest.Headers.{done, rqst, read_first}
use heimdall_web_switch.HttpRequest.Headers.Lines.{NoBreak}
use heimdall_web_switch.HttpRequest.Headers.Message.{
  Field, field_line, IsName, IsField, AllFields, body, message, read_fields, read_headers-message,
}
use heimdall_web_switch.Connection.{
  Realloc, ended, ReadAnswer, byte, is_break, receive_http_header2,
}
use heimdall_web_switch.Connection.Header.{Quiet, trailing, receive_http_header2-stops}
use heimdall_web_switch.Connection.Messages.{end_from, parse_received, receive_http_request}

-- Text without a zero byte or the characters of a line break.
abbrev pub IsPlain : Chars → Type 0
IsPlain [] = Unit {0}
IsPlain (c ∷ cs) = (c ≢ 0) × (c ≢ b'\n') × (c ≢ b'\r') × IsPlain cs

pub record IsPlainField (f : Field) : Type 0 where
  pub name : IsName f.name
  pub line : IsPlain (field_line f)

abbrev pub AllPlain : List Field → Type 0
AllPlain [] = Unit {0}
AllPlain (f ∷ fs) = IsPlainField f × AllPlain fs

IsPlain-NoBreak : (xs : Chars) → IsPlain xs → NoBreak xs
IsPlain-NoBreak [] p = tt
IsPlain-NoBreak (c ∷ cs) p = (p.1, IsPlain-NoBreak cs p.3)

IsPlain-ZeroFree : (xs ys : Chars) → IsPlain xs → ZeroFree ys → ZeroFree (xs ++ ys)
IsPlain-ZeroFree [] ys p z = z
IsPlain-ZeroFree (c ∷ cs) ys p z = (p.0, IsPlain-ZeroFree cs ys p.3 z)

whole : (xs : Chars) → IsPlain xs → ZeroFree xs
whole [] p = tt
whole (c ∷ cs) p = (p.0, whole cs p.3)

IsPlain-behind : (xs : Chars) (a b : ℕ) (ys : Chars) → IsPlain (xs ++ (a ∷ b ∷ ys)) → ZeroFree ys
IsPlain-behind [] a b ys p = let (_, _, _, q) = p in let (_, _, _, r) = q in whole ys r
IsPlain-behind (c ∷ cs) a b ys p = IsPlain-behind cs a b ys p.3

IsPlainField-IsField : (f : Field) → IsPlainField f → IsField f
IsPlainField-IsField f v = record {
  name = v.name;
  value = IsPlain-behind f.name b':' f.gap f.value v.line;
  breaks = IsPlain-NoBreak (field_line f) v.line;
  first = starts f.name v.line;
}
  where
    starts :
        (name : Chars)
        → IsPlain (name ++ (b':' ∷ f.gap ∷ f.value))
        → get_or (name ++ (b':' ∷ f.gap ∷ f.value)) 0 0 ≢ b'\r'
    starts [] p = p.2
    starts (c ∷ cs) p = p.2

AllPlain-AllFields : (fs : List Field) → AllPlain fs → AllFields fs
AllPlain-AllFields [] v = tt
AllPlain-AllFields (f ∷ fs) (v, vs) = (IsPlainField-IsField f v, AllPlain-AllFields fs vs)

body-ZeroFree : (fs : List Field) (ys : Chars) → AllPlain fs → ZeroFree ys → ZeroFree (body fs ys)
body-ZeroFree [] ys v z = z
body-ZeroFree (f ∷ fs) ys (v, vs) z =
    IsPlain-ZeroFree (field_line f) (b'\r' ∷ b'\n' ∷ body fs ys) v.line
      (omega arith, (omega arith, body-ZeroFree fs ys vs z))

-- The header lines, each behind its break.
abbrev more : List Field → List ℕ
more [] = []
more (f ∷ fs) = b'\r' ∷ b'\n' ∷ (field_line f ++ more fs)

abbrev two_breaks : List ℕ
two_breaks = b'\r' ∷ b'\n' ∷ b'\r' ∷ b'\n' ∷ []

body-more : (fs : List Field) → b'\r' ∷ b'\n' ∷ body fs (b'\r' ∷ b'\n' ∷ []) ≡ more fs ++ two_breaks
body-more [] = refl
body-more (f ∷ fs) =
    ap (λ l. b'\r' ∷ b'\n' ∷ l)
      (ap (λ l. field_line f ++ l) (body-more fs)
        ∙ sym (append_assoc (field_line f) (more fs) two_breaks))

no_break : (c : ℕ) → c ≢ b'\n' → c ≢ b'\r' → is_break c ≡ false
no_break c n r = ground arith

Quiet-plain : (xs tail : List ℕ) → IsPlain xs → Quiet 0 tail → Quiet 0 (xs ++ tail)
Quiet-plain [] tail p q = q
Quiet-plain (c ∷ cs) tail (z, n, r, p) q =
    (omega arith, rw (no_break c n r) (Quiet-plain cs tail p q))

trailing-plain : (xs tail : List ℕ) → IsPlain xs → trailing 0 (xs ++ tail) ≡ trailing 0 tail
trailing-plain [] tail p = refl
trailing-plain (c ∷ cs) tail (z, n, r, p) =
    ap (λ b. trailing (if b then 0 + 1 else 0) (cs ++ tail)) (no_break c n r)
    ∙ trailing-plain cs tail p

-- A header line ends the count of line breaks.
Quiet-field :
    (f : Field) (n : ℕ) (tail : List ℕ)
    → n ≢ 4
    → IsPlainField f
    → Quiet 0 tail
    → Quiet n (field_line f ++ tail)
Quiet-field f n tail ne v q = go f.name v.line
  where
    go :
        (name : Chars)
        → IsPlain (name ++ (b':' ∷ f.gap ∷ f.value))
        → Quiet n ((name ++ (b':' ∷ f.gap ∷ f.value)) ++ tail)
    go [] (z, m, r, p) = (ne, Quiet-plain (f.gap ∷ f.value) tail p q)
    go (c ∷ cs) (z, m, r, p) =
        (ne, rw (no_break c m r) (Quiet-plain (cs ++ (b':' ∷ f.gap ∷ f.value)) tail p q))

trailing-field :
    (f : Field) (n : ℕ) (tail : List ℕ)
    → IsPlainField f
    → trailing n (field_line f ++ tail) ≡ trailing 0 tail
trailing-field f n tail v = go f.name v.line
  where
    go :
        (name : Chars)
        → IsPlain (name ++ (b':' ∷ f.gap ∷ f.value))
        → trailing n ((name ++ (b':' ∷ f.gap ∷ f.value)) ++ tail) ≡ trailing 0 tail
    go [] (z, m, r, p) = trailing-plain (f.gap ∷ f.value) tail p
    go (c ∷ cs) (z, m, r, p) =
        ap (λ b. trailing (if b then n + 1 else 0) ((cs ++ (b':' ∷ f.gap ∷ f.value)) ++ tail))
          (no_break c m r)
        ∙ trailing-plain (cs ++ (b':' ∷ f.gap ∷ f.value)) tail p

Quiet-more : (fs : List Field) → AllPlain fs → Quiet 0 (more fs)
Quiet-more [] v = omega arith
Quiet-more (f ∷ fs) (v, vs) =
    (omega arith, (omega arith, Quiet-field f 2 (more fs) (omega arith) v (Quiet-more fs vs)))

trailing-more : (fs : List Field) → AllPlain fs → trailing 0 (more fs) ≡ 0
trailing-more [] v = refl
trailing-more (f ∷ fs) (v, vs) = trailing-field f 2 (more fs) v ∙ trailing-more fs vs

message-more :
    (first : Chars) (fs : List Field) → message first fs [] ≡ (first ++ more fs) ++ two_breaks
message-more first fs =
    ap (λ l. first ++ l) (body-more fs) ∙ sym (append_assoc first (more fs) two_breaks)

-- A message of a first line and header lines, all of plain text and each header line with a name
-- without a colon, as a client sends it, when every copy succeeds, and when the message leaves room in the
-- first block of 4096 bytes for what stands behind the variable `last_read`: `receive_http_request` reads exactly the
-- message, keeps it as the header, and ends as the description does that reads the first line and then stores
-- the fields in their order; what the client sends next is left for the next call.
pub receive_http_request-message :
    (tolower : ℕ → ℕ) (copy : Chars → Option Chars) (convert : Chars → Strtol)
    (realloc : ℕ → Realloc) (behind : List ℕ) (first : Chars) (fs : List Field)
    (rest : List ReadAnswer) (request : HttpRequest)
    → ((s : Chars) → copy s ≡ some s)
    → IsPlain first
    → AllPlain fs
    → length (message first fs []) + length behind < 4096
    → receive_http_request tolower copy convert realloc behind request
        (map byte (message first fs []) ++ rest)
      ≡ (let kept : HttpRequest = record request { header = some (message first fs []) } in
          let buffer = first ++ (0 ∷ b'\n' ∷ (body fs (b'\r' ∷ b'\n' ∷ []) ++ (0 ∷ []))) in
          let (self, t) = read_first tolower copy convert rqst kept buffer (length first + 1) in
          (
            rest,
            end_from "receive_http_request" "receive_http_request" (
                if failed t
                then done self (thrown t "read_headers")
                else read_fields tolower copy convert fs self),
          ))
unfolding receive_http_request parse_received ok_from
receive_http_request-message tolower copy convert realloc behind first fs rest request copies p vs
      h =
    let m = message first fs [] in
    let received : receive_http_header2 realloc behind (map byte m ++ rest)
        ≡ (ended m rest true, ok_from "receive_http_header2") =
      ap (λ l. receive_http_header2 realloc behind (map byte l ++ rest)) (message-more first fs)
      ∙ receive_http_header2-stops realloc behind (first ++ more fs) b'\r' b'\n' b'\r' b'\n' rest
          (Quiet-plain first (more fs) p (Quiet-more fs vs))
          (trailing-plain first (more fs) p ∙ trailing-more fs vs) refl refl refl refl
          (omega (
            arith,
            ap (length {A = ℕ}) (message-more first fs),
            length-append (first ++ more fs) two_breaks,
          ))
      ∙ ap (λ l. (ended l rest true, ok_from "receive_http_header2"))
          (sym (message-more first fs)) in
    let copied : copy (string_at m) ≡ some m =
      copies (string_at m)
      ∙ ap some (
          string_at-whole m (
            IsPlain-ZeroFree first (b'\r' ∷ b'\n' ∷ body fs (b'\r' ∷ b'\n' ∷ [])) p (
              omega arith,
              (
                omega arith,
                body-ZeroFree fs (b'\r' ∷ b'\n' ∷ []) vs (omega arith, (omega arith, tt)),
              ),
            ))) in
    let parse =
      parse_received tolower copy convert rqst "receive_http_request" "receive_http_request" in
    ap (parse request) received
    ∙ ap (λ e. (rest, end_from "receive_http_request" "receive_http_request" e))
        (read_headers-message tolower copy convert rqst first fs [] m _ copied
          (IsPlain-NoBreak first p) (AllPlain-AllFields fs vs))

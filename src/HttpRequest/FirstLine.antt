-- ===== src/HttpRequest/FirstLine.antt =====
-- First lines of messages (`get_request` and `get_response` of code/http/http_request.c).
use heimdall_web_switch.Prelude.{
  ℕ, zero, suc, ◌+◌, ◌-◌, ◌<◌, ◌≡◌, refl, sym, ap, ap₂, subst, ◌∙◌, ◌≢◌, false, ◌==◌, Option, some,
  List, [], ◌∷◌, ◌++◌, arith, length, get_or, set, drop, append_assoc, length-append,
}
use heimdall_web_switch.Throwable.{ok_from}
use heimdall_web_switch.HttpRequest.{
  Chars, HttpRequest, Parts, space, string_at, second_space, second_loop, first_loop, get_request,
  get_response, request_parts, response_parts,
}

-- No code of the string is 0.
abbrev pub ZeroFree : Chars → Type 0
ZeroFree [] = Unit {0}
ZeroFree (c ∷ cs) = (c ≢ 0) × ZeroFree cs

-- No code of the string is a space.
abbrev pub NoSpace : Chars → Type 0
NoSpace [] = Unit {0}
NoSpace (c ∷ cs) = (c ≢ space) × NoSpace cs

pub string_at-append : (xs ys : List ℕ) → ZeroFree xs → string_at (xs ++ (0 ∷ ys)) ≡ xs
string_at-append [] ys z = refl
string_at-append (x ∷ xs) ys z =
    let test : (x == 0) ≡ false = ground (arith, z.0) in
    rw test (ap (λ l. x ∷ l) (string_at-append xs ys z.1))

pub set-append :
    (xs : List ℕ) (y : ℕ) (ys : List ℕ) (v : ℕ)
    → set (xs ++ (y ∷ ys)) (length xs) v ≡ xs ++ (v ∷ ys)
set-append [] y ys v = refl
set-append (x ∷ xs) y ys v = ap (λ l. x ∷ l) (set-append xs y ys v)

pub drop-append : (xs ys : List ℕ) → drop (length xs) (xs ++ ys) ≡ ys
drop-append [] ys = refl
drop-append (x ∷ xs) ys = drop-append xs ys

pub index_from : (i j : ℕ) → i + suc j ≡ i + 1 + j
index_from i j = omega arith

pub index_zero : (i : ℕ) → i + 0 ≡ i
index_zero i = omega arith

index_suc : (n i : ℕ) → suc n + i ≡ suc (n + i)
index_suc n i = omega arith

pub get_or-append : (xs ys : List ℕ) (j : ℕ) → get_or (xs ++ ys) (length xs + j) 0 ≡ get_or ys j 0
get_or-append [] ys j = ap (λ k. get_or ys k 0) (omega arith)
get_or-append (x ∷ xs) ys j =
    ap (λ k. get_or (x ∷ (xs ++ ys)) k 0) (index_suc (length xs) j) ∙ get_or-append xs ys j

get_or-NoSpace :
    (xs ys : List ℕ) (j : ℕ) → NoSpace xs → j < length xs → get_or (xs ++ ys) j 0 ≢ space
get_or-NoSpace [] ys j p h = absurd (omega arith)
get_or-NoSpace (x ∷ xs) ys zero p h = p.0
get_or-NoSpace (x ∷ xs) ys (suc j) p h = get_or-NoSpace xs ys j p.1 (omega arith)

pub set-behind : (xs ys : List ℕ) (i v : ℕ) → set (xs ++ ys) (length xs + i) v ≡ xs ++ set ys i v
set-behind [] ys i v = ap (λ k. set ys k v) (omega arith)
set-behind (x ∷ xs) ys i v =
    ap (λ k. set (x ∷ (xs ++ ys)) k v) (index_suc (length xs) i)
    ∙ ap (λ l. x ∷ l) (set-behind xs ys i v)

pub drop-behind : (xs ys : List ℕ) (i : ℕ) → drop (length xs + i) (xs ++ ys) ≡ drop i ys
drop-behind [] ys i = ap (λ k. drop k ys) (omega arith)
drop-behind (x ∷ xs) ys i =
    ap (λ k. drop k (x ∷ (xs ++ ys))) (index_suc (length xs) i) ∙ drop-behind xs ys i

-- The line at its second space, the line cut there, and what stands behind the cut.
second_at :
    (l b rest : List ℕ) → get_or (l ++ (b ++ (space ∷ rest))) (length l + length b) 0 ≡ space
second_at l b rest =
    get_or-append l (b ++ (space ∷ rest)) (length b)
    ∙ ap (λ k. get_or (b ++ (space ∷ rest)) k 0) (sym (index_zero (length b)))
    ∙ get_or-append b (space ∷ rest) 0

cut :
    (l b rest : List ℕ)
    → set (l ++ (b ++ (space ∷ rest))) (length l + length b) 0 ≡ l ++ (b ++ (0 ∷ rest))
cut l b rest =
    set-behind l (b ++ (space ∷ rest)) (length b) 0 ∙ ap (λ m. l ++ m) (set-append b space rest 0)

third_at : (l b rest : List ℕ) → drop (length l + length b + 1) (l ++ (b ++ (0 ∷ rest))) ≡ rest
third_at l b rest =
    ap (λ k. drop k (l ++ (b ++ (0 ∷ rest)))) (omega arith)
    ∙ drop-behind l (b ++ (0 ∷ rest)) (length b + 1)
    ∙ drop-behind b (0 ∷ rest) 1

module _ (copy : Chars → Option Chars) (parts : Parts) where
  first_loop-skip :
      (fuel n r i : ℕ) (line : List ℕ) (self : HttpRequest)
      → fuel ≡ n + r
      → ((j : ℕ) → j < n → get_or line (i + j) 0 ≢ space)
      → first_loop copy parts fuel line i self ≡ first_loop copy parts r line (i + n) self
  unfolding first_loop
  first_loop-skip fuel zero r i line self e out =
      ap₂ (λ f k. first_loop copy parts f line k self) (omega arith) (omega arith)
  first_loop-skip zero (suc n) r i line self e out = absurd (omega arith)
  first_loop-skip (suc fuel) (suc n) r i line self e out =
      let at : get_or line i 0 ≢ space =
        subst (λ k. get_or line k 0 ≢ space) (index_zero i) (out 0 (omega arith)) in
      let other : (get_or line i 0 == space) ≡ false = ground arith in
      rw other (
        first_loop-skip fuel n r (i + 1) line self (omega arith)
          (λ j h. subst (λ k. get_or line k 0 ≢ space) (index_from i j) (out (suc j) (omega arith)))
        ∙ ap (λ k. first_loop copy parts r line k self) (omega arith))

  second_loop-skip :
      (fuel n r i start : ℕ) (line : List ℕ) (self : HttpRequest)
      → fuel ≡ n + r
      → ((j : ℕ) → j < n → get_or line (i + j) 0 ≢ space)
      → second_loop copy parts fuel line i start self
        ≡ second_loop copy parts r line (i + n) start self
  unfolding second_loop
  second_loop-skip fuel zero r i start line self e out =
      ap₂ (λ f k. second_loop copy parts f line k start self) (omega arith) (omega arith)
  second_loop-skip zero (suc n) r i start line self e out = absurd (omega arith)
  second_loop-skip (suc fuel) (suc n) r i start line self e out =
      let at : get_or line i 0 ≢ space =
        subst (λ k. get_or line k 0 ≢ space) (index_zero i) (out 0 (omega arith)) in
      let other : (get_or line i 0 == space) ≡ false = ground arith in
      rw other (
        second_loop-skip fuel n r (i + 1) start line self (omega arith)
          (λ j h. subst (λ k. get_or line k 0 ≢ space) (index_from i j) (out (suc j) (omega arith)))
        ∙ ap (λ k. second_loop copy parts r line k start self) (omega arith))

  module _ (copies : (s : Chars) → copy s ≡ some s) where
    -- At the first space, which stands behind `a`.
    first_loop-space :
        (r : ℕ) (a rest : List ℕ) (self : HttpRequest)
        → ZeroFree a
        → first_loop copy parts (suc r) (a ++ (space ∷ rest)) (length a) self
          ≡ second_loop copy parts r
              (a ++ (0 ∷ rest))
              (length a + 1)
              (length a + 1)
              (parts.set_first self a)
    unfolding first_loop
    first_loop-space r a rest self z =
        let at : get_or (a ++ (space ∷ rest)) (length a) 0 ≡ space =
          ap (λ k. get_or (a ++ (space ∷ rest)) k 0) (sym (index_zero (length a)))
          ∙ get_or-append a (space ∷ rest) 0 in
        rw (at, set-append a space rest 0, string_at-append a rest z, copies a)
          (ap
            (λ line.
              second_loop copy parts r line (length a + 1) (length a + 1) (parts.set_first self a))
            (set-append a space rest 0))

    -- What happens at the second space, behind `l ++ b`.
    second_space-copied :
        (l b c tail : List ℕ) (self : HttpRequest)
        → ZeroFree b
        → ZeroFree c
        → second_space copy parts
            (l ++ (b ++ (space ∷ (c ++ (0 ∷ tail)))))
            (length l + length b)
            (length l)
            self
          ≡ (parts.set_third (parts.set_second self b) c, ok_from parts.found)
    unfolding second_space
    second_space-copied l b c tail self zb zc =
        let line = l ++ (b ++ (space ∷ (c ++ (0 ∷ tail)))) in
        let second : copy (string_at (drop (length l) (set line (length l + length b) 0)))
            ≡ some b =
          ap (λ m. copy (string_at (drop (length l) m))) (cut l b (c ++ (0 ∷ tail)))
          ∙ ap (λ m. copy (string_at m)) (drop-append l (b ++ (0 ∷ (c ++ (0 ∷ tail)))))
          ∙ ap copy (string_at-append b (c ++ (0 ∷ tail)) zb)
          ∙ copies b in
        let third : copy
              (string_at (drop (length l + length b + 1) (set line (length l + length b) 0)))
            ≡ some c =
          ap (λ m. copy (string_at (drop (length l + length b + 1) m))) (cut l b (c ++ (0 ∷ tail)))
          ∙ ap (λ m. copy (string_at m)) (third_at l b (c ++ (0 ∷ tail)))
          ∙ ap copy (string_at-append c tail zc)
          ∙ copies c in
        rw (second, third, second_space)

    second_loop-space :
        (r : ℕ) (l b c tail : List ℕ) (self : HttpRequest)
        → ZeroFree b
        → ZeroFree c
        → second_loop copy parts
            (suc r)
            (l ++ (b ++ (space ∷ (c ++ (0 ∷ tail)))))
            (length l + length b)
            (length l)
            self
          ≡ (parts.set_third (parts.set_second self b) c, ok_from parts.found)
    unfolding second_loop
    second_loop-space r l b c tail self zb zc =
        rw (second_at l b (c ++ (0 ∷ tail))) (second_space-copied l b c tail self zb zc)

    -- From behind the first space on.
    second_loop-parts :
        (fuel start : ℕ) (l b c tail : List ℕ) (self : HttpRequest)
        → start ≡ length l
        → NoSpace b
        → ZeroFree b
        → ZeroFree c
        → length b < fuel
        → second_loop copy parts fuel (l ++ (b ++ (space ∷ (c ++ (0 ∷ tail))))) start start self
          ≡ (parts.set_third (parts.set_second self b) c, ok_from parts.found)
    second_loop-parts fuel start l b c tail self e plain zb zc enough =
        let line = l ++ (b ++ (space ∷ (c ++ (0 ∷ tail)))) in
        ap (λ k. second_loop copy parts fuel line k k self) e
        ∙ second_loop-skip fuel (length b) (suc (fuel - length b - 1)) (length l) (length l) line
            self (omega arith)
            (λ j h.
              subst (λ k. k ≢ space) (sym (get_or-append l (b ++ (space ∷ (c ++ (0 ∷ tail)))) j))
                (get_or-NoSpace b (space ∷ (c ++ (0 ∷ tail))) j plain h))
        ∙ second_loop-space (fuel - length b - 1) l b c tail self zb zc

    first_loop-parts :
        (len : ℕ) (a b c tail : List ℕ) (self : HttpRequest)
        → NoSpace a
        → NoSpace b
        → ZeroFree a
        → ZeroFree b
        → ZeroFree c
        → length a + length b + 1 < len
        → first_loop copy parts len (a ++ (space ∷ (b ++ (space ∷ (c ++ (0 ∷ tail)))))) 0 self
          ≡ (parts.set_third (parts.set_second (parts.set_first self a) b) c, ok_from parts.found)
    first_loop-parts len a b c tail self plain_a plain_b za zb zc enough =
        let rest = b ++ (space ∷ (c ++ (0 ∷ tail))) in
        first_loop-skip len (length a) (suc (len - length a - 1)) 0 (a ++ (space ∷ rest)) self
          (omega arith)
          (λ j h.
            subst (λ k. get_or (a ++ (space ∷ rest)) k 0 ≢ space) (omega arith)
              (get_or-NoSpace a (space ∷ rest) j plain_a h))
        ∙ ap (λ k. first_loop copy parts (suc (len - length a - 1)) (a ++ (space ∷ rest)) k self)
            (omega arith)
        ∙ first_loop-space (len - length a - 1) a rest self za
        ∙ ap
            (λ line.
              second_loop copy parts (len - length a - 1) line (length a + 1) (length a + 1)
                (parts.set_first self a))
            (sym (append_assoc a (0 ∷ []) rest))
        ∙ second_loop-parts (len - length a - 1) (length a + 1) (a ++ (0 ∷ [])) b c tail
            (parts.set_first self a) (omega (arith, length-append a (0 ∷ []))) plain_b zb zc
            (omega arith)

-- When `asprintf` succeeds, `get_request` of a line in memory that consists of a method, a space, a
-- resource, a space and a protocol stores these three, and returns STATUS_OK; `len` reaches behind the
-- second space, and none of the three holds a zero nor the first two a space.
pub get_request_lem :
    (copy : Chars → Option Chars) (self : HttpRequest) (len : ℕ)
    (method resource protocol tail : List ℕ)
    → ((s : Chars) → copy s ≡ some s)
    → NoSpace method × ZeroFree method
    → NoSpace resource × ZeroFree resource
    → ZeroFree protocol
    → length method + length resource + 1 < len
    → get_request copy self
        (method ++ (space ∷ (resource ++ (space ∷ (protocol ++ (0 ∷ tail))))))
        len
      ≡ (
        record self {
          req_type = some method;
          req_resource = some resource;
          req_protocol = some protocol;
        },
        ok_from "get_header_self_request",
      )
unfolding get_request
get_request_lem copy self len method resource protocol tail copies m r z enough =
    first_loop-parts copy request_parts copies len method resource protocol tail self m.0 r.0 m.1
      r.1 z enough

-- When `asprintf` succeeds, `get_response` of a line in memory that consists of a protocol, a space, a
-- code, a space and a message stores these three, and returns STATUS_OK; `len` reaches behind the second
-- space, and none of the three holds a zero nor the first two a space.
pub get_response_lem :
    (copy : Chars → Option Chars) (self : HttpRequest) (len : ℕ)
    (protocol code message tail : List ℕ)
    → ((s : Chars) → copy s ≡ some s)
    → NoSpace protocol × ZeroFree protocol
    → NoSpace code × ZeroFree code
    → ZeroFree message
    → length protocol + length code + 1 < len
    → get_response copy self (protocol ++ (space ∷ (code ++ (space ∷ (message ++ (0 ∷ tail)))))) len
      ≡ (
        record self {
          req_protocol = some protocol;
          resp_code = some code;
          resp_msg = some message;
        },
        ok_from "get_response",
      )
unfolding get_response
get_response_lem copy self len protocol code message tail copies p c z enough =
    first_loop-parts copy response_parts copies len protocol code message tail self p.0 c.0 p.1 c.1
      z enough

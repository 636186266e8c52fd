-- ===== src/HttpRequest/Headers/Lines.antt =====
-- The loop of `read_headers` (code/http/http_request.c) over one line of the buffer.
use heimdall_web_switch.Prelude.{
  ℕ, zero, suc, ◌+◌, ◌-◌, ◌<◌, ◌≡◌, ◌≢◌, refl, sym, ap, ap₂, subst, ◌∙◌, true, false, ◌&&◌, ◌==◌,
  if◌then◌else◌, Option, some, List, [], ◌∷◌, ◌++◌, arith, length, get_or, set,
}
use heimdall_web_switch.Throwable.{Throwable, ok_from, thrown}
use heimdall_web_switch.Helper.{Strtol}
use heimdall_web_switch.Scheduler.{failed}
use heimdall_web_switch.HttpRequest.{Chars, HttpRequest}
use heimdall_web_switch.HttpRequest.FirstLine.{
  get_or-append, set-behind, set-append, index_zero, index_from,
}
use heimdall_web_switch.HttpRequest.Headers.{
  ReadEnd, done, Kind, read_at, line_ended, read_line, read_loop,
}

-- No code of the string ends a line.
abbrev pub NoBreak : Chars → Type 0
NoBreak [] = Unit {0}
NoBreak (c ∷ cs) = (c ≢ b'\n') × NoBreak cs

get_or-NoBreak :
    (xs ys : List ℕ) (j : ℕ) → NoBreak xs → j < length xs → get_or (xs ++ ys) j 0 ≢ b'\n'
get_or-NoBreak [] ys j p h = absurd (omega arith)
get_or-NoBreak (x ∷ xs) ys zero p h = p.0
get_or-NoBreak (x ∷ xs) ys (suc j) p h = get_or-NoBreak xs ys j p.1 (omega arith)

-- A line of the buffer: what stands before and behind it, the byte before its break, and where
-- the break is.
abbrev pub buffer_with : (pre line : List ℕ) (c : ℕ) (post : List ℕ) → List ℕ
buffer_with pre line c post = pre ++ (line ++ (c ∷ b'\n' ∷ post))

abbrev pub break_at : (pre line : List ℕ) → ℕ
break_at pre line = length pre + (length line + 1)

code_at :
    (pre line : List ℕ) (c : ℕ) (post : List ℕ) (j : ℕ)
    → get_or (buffer_with pre line c post) (length pre + (length line + j)) 0
      ≡ get_or (c ∷ b'\n' ∷ post) j 0
code_at pre line c post j =
    get_or-append pre (line ++ (c ∷ b'\n' ∷ post)) (length line + j)
    ∙ get_or-append line (c ∷ b'\n' ∷ post) j

cut :
    (pre line : List ℕ) (c : ℕ) (post : List ℕ)
    → set (buffer_with pre line c post) (break_at pre line - 1) 0 ≡ buffer_with pre line 0 post
cut pre line c post =
    ap (λ k. set (buffer_with pre line c post) k 0) (omega arith)
    ∙ set-behind pre (line ++ (c ∷ b'\n' ∷ post)) (length line) 0
    ∙ ap (λ l. pre ++ l) (set-append line c (b'\n' ∷ post) 0)

before_break :
    (pre line : List ℕ) (post : List ℕ) (j : ℕ)
    → NoBreak line
    → j < length line + 1
    → get_or (buffer_with pre line b'\r' post) (length pre + j) 0 ≢ b'\n'
before_break pre line post j p h =
    subst (λ x. x ≢ b'\n') (sym (get_or-append pre (line ++ (b'\r' ∷ b'\n' ∷ post)) j))
      (in_line line j p h)
  where
    in_line :
        (line : List ℕ) (j : ℕ)
        → NoBreak line
        → j < length line + 1
        → get_or (line ++ (b'\r' ∷ b'\n' ∷ post)) j 0 ≢ b'\n'
    in_line [] zero p h = omega arith
    in_line [] (suc j) p h = absurd (omega arith)
    in_line (x ∷ xs) zero p h = p.0
    in_line (x ∷ xs) (suc j) p h = in_line xs j p.1 (omega arith)

module _ (tolower : ℕ → ℕ) (copy : Chars → Option Chars) (convert : Chars → Strtol)
    (kind : Kind) where
  abbrev pub loop : ℕ → List ℕ → (i start : ℕ) → HttpRequest → ReadEnd
  loop rounds = read_loop tolower copy convert rounds kind

  read_loop-skip :
      (fuel n r i start : ℕ) (buffer : List ℕ) (self : HttpRequest)
      → fuel ≡ n + r
      → ((j : ℕ) → j < n → get_or buffer (i + j) 0 ≢ b'\n')
      → loop fuel buffer i start self ≡ loop r buffer (i + n) start self
  unfolding read_loop
  read_loop-skip fuel zero r i start buffer self e out =
      ap₂ (λ f k. loop f buffer k start self) (omega arith) (omega arith)
  read_loop-skip zero (suc n) r i start buffer self e out = absurd (omega arith)
  read_loop-skip (suc fuel) (suc n) r i start buffer self e out =
      let at : get_or buffer i 0 ≢ b'\n' =
        subst (λ k. get_or buffer k 0 ≢ b'\n') (index_zero i) (out 0 (omega arith)) in
      let goes_on : (get_or buffer i 0 == b'\n') ≡ false = ground arith in
      rw goes_on (
        read_loop-skip fuel n r (i + 1) start buffer self (omega arith) (λ j h.
          subst (λ k. get_or buffer k 0 ≢ b'\n') (index_from i j) (out (suc j) (omega arith)))
        ∙ ap (λ k. loop r buffer k start self) (omega arith))

  -- The loop from the start of a line is the call for that line.
  pub read_loop-line :
      (pre line post : List ℕ) (r start : ℕ) (self : HttpRequest)
      → NoBreak line
      → loop (length line + suc (suc r)) (buffer_with pre line b'\r' post) (length pre) start self
        ≡ read_line tolower copy convert kind
            (λ b s h. loop r b (break_at pre line + 1) s h)
            (buffer_with pre line b'\r' post)
            (break_at pre line)
            start
            self
  unfolding read_loop
  read_loop-line pre line post r start self p =
      let break : (get_or (buffer_with pre line b'\r' post) (break_at pre line) 0 == b'\n') ≡ true =
        ap (λ c. c == b'\n') (code_at pre line b'\r' post 1) in
      read_loop-skip _ (length line + 1) (suc r) (length pre) start
        (buffer_with pre line b'\r' post) self (omega arith)
        (λ j h. before_break pre line post j p h)
      ∙ rw break refl

  -- What the call for a line does, by the result of reading it and the two codes behind it.
  pub read_line-result :
      (on : List ℕ → ℕ → HttpRequest → ReadEnd) (pre line post : List ℕ) (start : ℕ)
      (self self' : HttpRequest) (t : Throwable)
      → read_at tolower copy convert kind
          (buffer_with pre line 0 post)
          (break_at pre line)
          start
          self
        ≡ (self', some t)
      → read_line tolower copy convert kind on
          (buffer_with pre line b'\r' post)
          (break_at pre line)
          start
          self
        ≡ (if failed t
            then done self' (thrown t "read_headers")
            else if (get_or post 0 0 == b'\r') && (get_or post 1 0 == b'\n')
            then done self' (ok_from "read_headers")
            else on (buffer_with pre line 0 post) (break_at pre line + 1) self')
  unfolding read_line line_ended
  read_line-result on pre line post start self self' t e =
      let some_index : (break_at pre line == 0) ≡ false = ground arith in
      let first_behind : get_or (buffer_with pre line 0 post) (break_at pre line + 1) 0
          ≡ get_or post 0 0 =
        ap (λ k. get_or (buffer_with pre line 0 post) k 0) (omega arith)
        ∙ code_at pre line 0 post 2 in
      let second_behind : get_or (buffer_with pre line 0 post) (break_at pre line + 2) 0
          ≡ get_or post 1 0 =
        ap (λ k. get_or (buffer_with pre line 0 post) k 0) (omega arith)
        ∙ code_at pre line 0 post 3 in
      let b = buffer_with pre line 0 post in
      let i = break_at pre line in
      rw some_index refl
      ∙ ap
          (λ (b : List ℕ).
            line_ended tolower copy convert on b i
              (read_at tolower copy convert kind b i start self))
          (cut pre line b'\r' post)
      ∙ ap (line_ended tolower copy convert on b i) e
      ∙ rw (first_behind, second_behind, line_ended) refl

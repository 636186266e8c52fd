-- ===== src/Connection/Header.antt =====
-- Where `receive_http_header2` of code/http/connection.c stops.
use heimdall_web_switch.Prelude.{
  ℕ, ◌+◌, ◌≡◌, refl, ◌∙◌, ap, ◌≢◌, true, false, List, [], ◌∷◌, ◌++◌, map, arith, ◌==◌, leb, ◌<◌,
  Bool, if◌then◌else◌, length, append_assoc, append-nil, length-append,
}
use mathlib.Core.List.{map-append}
use heimdall_web_switch.Throwable.{ok_from}
use heimdall_web_switch.Connection.{
  ReadAnswer, byte, read_failed, is_break, Realloc, ended, copied, header_loop, header_result,
  receive_http_header2,
}

-- How many line breaks in a row end `xs`, when `n` stood before it.
abbrev pub trailing : ℕ → List ℕ → ℕ
trailing n [] = n
trailing n (c ∷ cs) = trailing (if is_break c then n + 1 else 0) cs

-- No beginning of `xs`, and `xs` itself only with fewer, ends in four line breaks in a row.
abbrev pub Quiet : ℕ → List ℕ → Type 0
Quiet n [] = n ≢ 4
Quiet n (c ∷ cs) = (n ≢ 4) × Quiet (if is_break c then n + 1 else 0) cs

module _ (realloc : ℕ → Realloc) (behind : List ℕ) where
  -- With room for `xs` and what `strcpy` copies behind it in the first block.
  abbrev pub Fits : (header xs : List ℕ) → Type 0
  Fits header xs = length header + length xs + length behind < 4096

  header_loop-byte :
      (n c : ℕ) (header : List ℕ) (rest : List ReadAnswer)
      → n ≢ 4
      → length header + 1 + length behind < 4096
      → header_loop realloc behind 4096 n header (byte c ∷ rest)
        ≡ header_loop realloc behind 4096
            (if is_break c then n + 1 else 0)
            (header ++ (c ∷ []))
            rest
  unfolding header_loop
  header_loop-byte n c header rest more h =
      let go : (n == 4) ≡ false = ground arith in
      let room : leb (length header + copied realloc behind c) 4096 ≡ true = ground arith in
      let partly : (length header + 1 == 4096) ≡ false = ground arith in rw (go, room, partly)

  header_loop-Quiet :
      (n : ℕ) (header xs : List ℕ) (rest : List ReadAnswer)
      → Quiet n xs
      → Fits header xs
      → header_loop realloc behind 4096 n header (map byte xs ++ rest)
        ≡ header_loop realloc behind 4096 (trailing n xs) (header ++ xs) rest
  header_loop-Quiet n header [] rest q h = rw append-nil
  header_loop-Quiet n header (c ∷ cs) rest q h =
      header_loop-byte n c header (map byte cs ++ rest) q.0 (omega arith)
      ∙ header_loop-Quiet (if is_break c then n + 1 else 0) (header ++ (c ∷ [])) cs rest q.1
          (omega (arith, length-append header (c ∷ [])))
      ∙ ap
          (λ h'.
            header_loop realloc behind 4096 (trailing (if is_break c then n + 1 else 0) cs) h' rest)
          (append_assoc header (c ∷ []) cs)

  header_loop-four :
      (header : List ℕ) (rest : List ReadAnswer)
      → header_loop realloc behind 4096 4 header rest ≡ ended header rest true
  unfolding header_loop
  header_loop-four header [] = refl
  header_loop-four header (read_failed ∷ rest) = refl
  header_loop-four header (byte c ∷ rest) = refl

  header_loop-break :
      (n c : ℕ) (header : List ℕ) (rest : List ReadAnswer)
      → n ≢ 4
      → is_break c ≡ true
      → length header + 1 + length behind < 4096
      → header_loop realloc behind 4096 n header (byte c ∷ rest)
        ≡ header_loop realloc behind 4096 (n + 1) (header ++ (c ∷ [])) rest
  header_loop-break n c header rest more b h =
      header_loop-byte n c header rest more h
      ∙ ap
          (λ (t : Bool).
            header_loop realloc behind 4096 (if t then n + 1 else 0) (header ++ (c ∷ [])) rest)
          b

  header_loop-breaks :
      (header : List ℕ) (a b c d : ℕ) (rest : List ReadAnswer)
      → is_break a ≡ true
      → is_break b ≡ true
      → is_break c ≡ true
      → is_break d ≡ true
      → length header + 4 + length behind < 4096
      → header_loop realloc behind 4096 0 header (byte a ∷ byte b ∷ byte c ∷ byte d ∷ rest)
        ≡ ended (header ++ (a ∷ b ∷ c ∷ d ∷ [])) rest true
  header_loop-breaks header a b c d rest ba bb bc bd h =
      let h1 = header ++ (a ∷ []) in
      let h2 = h1 ++ (b ∷ []) in
      let h3 = h2 ++ (c ∷ []) in
      let l1 = length-append header (a ∷ []) in
      let l2 = length-append h1 (b ∷ []) in
      let l3 = length-append h2 (c ∷ []) in
      header_loop-break 0 a header (byte b ∷ byte c ∷ byte d ∷ rest) (omega arith) ba (omega arith)
      ∙ header_loop-break 1 b h1 (byte c ∷ byte d ∷ rest) (omega arith) bb (omega (arith, l1))
      ∙ header_loop-break 2 c h2 (byte d ∷ rest) (omega arith) bc (omega (arith, l1, l2))
      ∙ header_loop-break 3 d h3 rest (omega arith) bd (omega (arith, l1, l2, l3))
      ∙ header_loop-four (h3 ++ (d ∷ [])) rest
      ∙ ap (λ h'. ended h' rest true) (simp append_assoc)

  -- A header whose text has no four line breaks in a row and does not end in one, followed by any four line
  -- breaks, that leaves room in the first block for what stands behind the variable `last_read`:
  -- `receive_http_header2` returns STATUS_OK, has stored exactly the text and the four breaks, and has left
  -- all that follows unread.
  pub receive_http_header2-stops :
      (xs : List ℕ) (a b c d : ℕ) (rest : List ReadAnswer)
      → Quiet 0 xs
      → trailing 0 xs ≡ 0
      → is_break a ≡ true
      → is_break b ≡ true
      → is_break c ≡ true
      → is_break d ≡ true
      → length xs + 4 + length behind < 4096
      → receive_http_header2 realloc behind (map byte (xs ++ (a ∷ b ∷ c ∷ d ∷ [])) ++ rest)
        ≡ (ended (xs ++ (a ∷ b ∷ c ∷ d ∷ [])) rest true, ok_from "receive_http_header2")
  unfolding receive_http_header2 header_result
  receive_http_header2-stops xs a b c d rest q t ba bb bc bd h =
      let split : map byte (xs ++ (a ∷ b ∷ c ∷ d ∷ [])) ++ rest
          ≡ map byte xs ++ (byte a ∷ byte b ∷ byte c ∷ byte d ∷ rest) =
        rw (map-append, append_assoc) in
      let loop : header_loop realloc behind 4096 0 []
            (map byte (xs ++ (a ∷ b ∷ c ∷ d ∷ [])) ++ rest)
          ≡ ended (xs ++ (a ∷ b ∷ c ∷ d ∷ [])) rest true =
        ap (header_loop realloc behind 4096 0 []) split
        ∙ header_loop-Quiet 0 [] xs (byte a ∷ byte b ∷ byte c ∷ byte d ∷ rest) q (omega arith)
        ∙ ap (λ n. header_loop realloc behind 4096 n xs (byte a ∷ byte b ∷ byte c ∷ byte d ∷ rest))
            t
        ∙ header_loop-breaks xs a b c d rest ba bb bc bd h in
      let some_bytes : (length (xs ++ (a ∷ b ∷ c ∷ d ∷ [])) == 0) ≡ false =
        ground (arith, length-append xs (a ∷ b ∷ c ∷ d ∷ [])) in
      ap (header_result) loop ∙ rw (some_bytes, header_result)

-- ===== src/Connection/Messages/Whole.antt =====
-- What `receive_http` of code/http/connection.c takes for a whole message.
use heimdall_web_switch.Prelude.{
  ◌≡◌, ◌<◌, refl, sym, ap, ◌∙◌, true, false, ltb, List, [], ◌∷◌, ◌++◌, map, arith, length,
  append_assoc, ℕ,
}
use heimdall_web_switch.Throwable.{ok_from}
use heimdall_web_switch.Connection.{Realloc, grown}
use heimdall_web_switch.Connection.Messages.{ChunkAnswer, received, returned, receive_http}

-- Every `read` gave all the bytes that were asked for.
abbrev pub AllFull : List (List ℕ) → Type 0
AllFull [] = Unit {0}
AllFull (c ∷ cs) = (length c ≡ 4096) × AllFull cs

abbrev pub concat : List (List ℕ) → List ℕ
concat [] = []
concat (c ∷ cs) = c ++ concat cs

module _ (realloc : ℕ → Realloc) (in_place : (size : ℕ) → realloc size ≡ grown) where
  receive_http-behind :
      (message : List ℕ) (chunks : List (List ℕ)) (last : List ℕ) (rest : List ChunkAnswer)
      → AllFull chunks
      → length last < 4096
      → receive_http realloc message (map received chunks ++ (received last ∷ rest))
        ≡ returned (message ++ (concat chunks ++ last)) (ok_from "receive_http")
  unfolding receive_http
  receive_http-behind message [] last rest v h =
      let short : ltb (length last) 4096 ≡ true = ground arith in rw short refl
  receive_http-behind message (c ∷ cs) last rest (k, v) h =
      let full : ltb (length c) 4096 ≡ false = ground arith in
      rw (full, in_place)
        (receive_http-behind (message ++ c) cs last rest v h
          ∙ ap (λ m. returned m (ok_from "receive_http"))
              (append_assoc message c (concat cs ++ last)
                ∙ ap (λ m. message ++ m) (sym (append_assoc c (concat cs) last))))

  -- If `realloc` always grows the block where it is, `receive_http` ends at the first `read` that gives fewer
  -- than 4096 bytes: it has stored what the calls gave up to then and returns STATUS_OK, whether the peer
  -- has closed the connection or more of the message would follow.
  pub receive_http-short :
      (chunks : List (List ℕ)) (last : List ℕ) (rest : List ChunkAnswer)
      → AllFull chunks
      → length last < 4096
      → receive_http realloc [] (map received chunks ++ (received last ∷ rest))
        ≡ returned (concat chunks ++ last) (ok_from "receive_http")
  receive_http-short chunks last rest v h = receive_http-behind [] chunks last rest v h

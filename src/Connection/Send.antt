-- ===== src/Connection/Send.antt =====
-- `send_http` of code/http/connection.c over a socket that takes a message in pieces.
use heimdall_web_switch.Prelude.{
  ℕ, zero, suc, ◌-◌, ◌≤◌, ◌<◌, ◌≡◌, refl, ◌∙◌, ap, some, List, [], ◌∷◌, ◌++◌, arith, length, take,
  drop, length-drop, take-append-drop, append_assoc,
}
use heimdall_web_switch.Throwable.{ok_from}
use heimdall_web_switch.Connection.{WriteAnswer, wrote, write_failed, send_http}

-- What `write` promises for `n` bytes: it takes at most those, and none only if there are none.
abbrev pub Honest : ℕ → List WriteAnswer → Type 0
Honest n [] = Unit {0}
Honest n (write_failed ∷ answers) = Unit {0}
Honest n (wrote k ∷ answers) = (k ≤ n) × (k ≡ 0 → n ≡ 0) × Honest (n - k) answers

abbrev pub NoFailure : List WriteAnswer → Type 0
NoFailure [] = Unit {0}
NoFailure (write_failed ∷ answers) = ⊥
NoFailure (wrote k ∷ answers) = NoFailure answers

-- If `write` keeps its promise and never fails, `send_http` ends after at most one call more than the
-- message has bytes, with STATUS_OK, and the bytes sent are the message.
pub send_http-all :
    (message : List ℕ) (answers : List WriteAnswer)
    → Honest (length message) answers
    → NoFailure answers
    → length message < length answers
    → send_http message answers ≡ (message, some (ok_from "send_http"))
unfolding send_http
send_http-all message [] h f k = absurd (omega arith)
send_http-all message (write_failed ∷ answers) h f k = absurd f
send_http-all [] (wrote zero ∷ answers) h f k = refl
send_http-all (x ∷ xs) (wrote zero ∷ answers) h f k = absurd (omega (arith, h.1 refl))
send_http-all message (wrote (suc n) ∷ answers) h f k =
    let len = length-drop (suc n) message in
    let on =
      send_http-all (drop (suc n) message) answers (rw len h.2) f (omega (arith, len, h.0)) in
    rw (on, send_http)
      (ap (λ m. (m, some (ok_from "send_http"))) (take-append-drop (suc n) message))

-- Whatever the socket answers, the bytes sent are the beginning of the message.
pub send_http-prefix :
    (message : List ℕ) (answers : List WriteAnswer)
    → (rest : List ℕ) × ((send_http message answers).0 ++ rest ≡ message)
unfolding send_http
send_http-prefix message [] = (message, refl)
send_http-prefix message (write_failed ∷ answers) = (message, refl)
send_http-prefix message (wrote zero ∷ answers) = (message, refl)
send_http-prefix message (wrote (suc n) ∷ answers) =
    let (rest, e) = send_http-prefix (drop (suc n) message) answers in
    (
      rest,
      append_assoc (take (suc n) message) (send_http (drop (suc n) message) answers).0 rest
          ∙ ap (λ ys. take (suc n) message ++ ys) e
          ∙ take-append-drop (suc n) message,
    )

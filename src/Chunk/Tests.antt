-- ===== src/Chunk/Tests.antt =====
-- The theorems on transfers at a response of two bytes, of which the body holds two or one.
use heimdall_web_switch.Prelude.{ℕ, ◌≡◌, refl, ◌≢◌, inr, ◌<◌, arith, length, List, [], ◌∷◌, ◌++◌}
use heimdall_web_switch.Chunk.{
  Transfer, start, finished, read_size, receive_round, send_round, Reach, here, next, receive, send,
}
use heimdall_web_switch.Chunk.Handoff.{Reach-finished}
use heimdall_web_switch.Chunk.Stuck.{never_finished}

abbrev two_bytes : List ℕ
two_bytes = 7 ∷ 8 ∷ []

abbrev sent : Transfer
sent = send_round 2 (receive_round 2 2 (start two_bytes))

sent_is_reached : Reach 2 (start two_bytes) sent
unfolding receive_round send_round read_size
sent_is_reached =
    next
      (next here
        (receive (start two_bytes) 2 refl refl refl (omega arith) (omega arith) (omega arith)))
      (send (receive_round 2 2 (start two_bytes)) refl refl refl)

sent_is_finished : sent.sender ≡ finished
unfolding receive_round send_round
sent_is_finished = refl

Reach-finished_example :
    (rest : List ℕ) × (sent.output ++ rest ≡ two_bytes) × (length sent.output ≡ 2) × (0 < 2)
Reach-finished_example = Reach-finished 2 two_bytes sent sent_is_reached sent_is_finished

abbrev half_sent : Transfer
half_sent = send_round 2 (receive_round 2 1 (start (7 ∷ [])))

half_is_reached : Reach 2 (start (7 ∷ [])) half_sent
unfolding receive_round send_round read_size
half_is_reached =
    next
      (next here
        (receive (start (7 ∷ [])) 1 refl refl refl (omega arith) (omega arith) (omega arith)))
      (send (receive_round 2 1 (start (7 ∷ []))) refl refl refl)

never_finished_example : half_sent.sender ≢ finished
never_finished_example = never_finished 2 (7 ∷ []) half_sent (inr (omega arith)) half_is_reached

-- ===== src/Chunk/Handoff.antt =====
-- What the two sides of a transfer hand over (code/http/connection.c).
use heimdall_web_switch.Prelude.{
  ℕ, ◌+◌, ◌-◌, ◌≤◌, ◌<◌, ◌≡◌, refl, sym, ap, subst, ◌∙◌, ◌≢◌, ◌⊎◌, inl, inr, true, List, [], ◌++◌,
  arith, length, take, drop, append_assoc, length-append, length-take, take-append-drop,
}
use heimdall_web_switch.Chunk.{
  max_chunk_size, finished, failed, Transfer, start, read_size, receive_round, send_round, Step,
  receive, receive_eof, receive_error, send, send_error, Reach, here, next,
}

-- What the client got, what is in the chunk and what is still to be read are the response `body` in
-- order; the counters agree with them, and the sender stops only with all `n` bytes sent.
pub record IsIntact (n : ℕ) (body : List ℕ) (t : Transfer) : Type 0 where
  pub whole : t.output ++ (t.chunk ++ t.input) ≡ body
  pub empty : t.wrote ≡ true → t.chunk ≡ []
  pub sent : t.total_sent ≡ length t.output
  pub received : t.total_received ≡ length t.output + length t.chunk
  pub within : t.total_received ≤ n
  pub fits : length t.chunk ≤ max_chunk_size
  pub alive : t.sender ≢ failed
  pub done : t.sender ≡ finished → (t.total_sent ≡ n) × (0 < n)

-- Sending failed in the middle of a chunk: the client got the beginning of the body.
pub record IsCut (body : List ℕ) (t : Transfer) : Type 0 where
  pub prefix : (rest : List ℕ) × (t.output ++ rest ≡ body)
  pub dead : t.sender ≡ failed
  pub held : t.locked ≡ true

pub start-IsIntact : (n : ℕ) (body : List ℕ) → IsIntact n body (start body)
start-IsIntact n body = record {
  whole = refl;
  empty = λ e. refl;
  sent = refl;
  received = omega arith;
  within = omega arith;
  fits = omega arith;
  alive = λ e. cc e;
  done = λ e. cc e;
}

read_size-le : (n r : ℕ) → (read_size n r ≤ n - r) × (read_size n r ≤ max_chunk_size)
unfolding read_size
read_size-le n r = ground arith

receive_round-IsIntact :
    (n k : ℕ) (body : List ℕ) (t : Transfer)
    → t.wrote ≡ true
    → k ≤ read_size n t.total_received
    → k ≤ length t.input
    → IsIntact n body t
    → IsIntact n body (receive_round n k t)
unfolding receive_round
receive_round-IsIntact n k body t w le avail i =
    let none_left : t.chunk ≡ [] = i.empty w in
    let size = length-take k t.input in
    record {
      whole =
          rw (take-append-drop k t.input)
            (subst (λ c. t.output ++ (c ++ t.input) ≡ body) none_left i.whole);
      empty = λ e. cc e;
      sent = i.sent;
      received = omega (arith, i.received, ap length none_left, size);
      within = omega (arith, read_size-le n t.total_received, i.within);
      fits = omega (arith, read_size-le n t.total_received, size);
      alive = i.alive;
      done = i.done;
    }

send_round-IsIntact :
    (n : ℕ) (body : List ℕ) (t : Transfer) → IsIntact n body t → IsIntact n body (send_round n t)
unfolding send_round
send_round-IsIntact n body t i = record {
  whole = append_assoc t.output t.chunk t.input ∙ i.whole;
  empty = λ e. refl;
  sent = omega (arith, i.sent, length-append t.output t.chunk);
  received = omega (arith, i.received, length-append t.output t.chunk);
  within = i.within;
  fits = omega arith;
  alive = ground arith;
  done = λ e. ground arith;
}

abbrev pub Good : ℕ → List ℕ → Transfer → Type 0
Good n body t = IsIntact n body t ⊎ IsCut body t

Step-Good : {n : ℕ} {body : List ℕ} {t u : Transfer} → Step n t u → Good n body t → Good n body u
Step-Good {n} {body} (receive t k free run w pos_k le avail) (inl i) =
    inl (receive_round-IsIntact n k body t w le avail i)
Step-Good (receive_eof t free run w) (inl i) = inl (record {
  whole = i.whole;
  empty = i.empty;
  sent = i.sent;
  received = i.received;
  within = i.within;
  fits = i.fits;
  alive = i.alive;
  done = i.done;
})
Step-Good (receive_error t free run w) (inl i) = inl (record {
  whole = i.whole;
  empty = i.empty;
  sent = i.sent;
  received = i.received;
  within = i.within;
  fits = i.fits;
  alive = i.alive;
  done = i.done;
})
Step-Good {n} {body} (send t free run w) (inl i) = inl (send_round-IsIntact n body t i)
Step-Good (send_error t k free run w) (inl i) = inr (record {
  prefix = (
    drop k t.chunk ++ t.input,
    append_assoc t.output (take k t.chunk) (drop k t.chunk ++ t.input)
        ∙ ap (λ c. t.output ++ c)
            (sym (append_assoc (take k t.chunk) (drop k t.chunk) t.input)
              ∙ ap (λ c. c ++ t.input) (take-append-drop k t.chunk))
        ∙ i.whole,
  );
  dead = refl;
  held = refl;
})
Step-Good (receive t k free run w pos_k le avail) (inr c) = cc c.held
Step-Good (receive_eof t free run w) (inr c) = cc c.held
Step-Good (receive_error t free run w) (inr c) = cc c.held
Step-Good (send t free run w) (inr c) = cc c.held
Step-Good (send_error t k free run w) (inr c) = cc c.held

pub Reach-Good :
    {n : ℕ} {body : List ℕ} {s t : Transfer} → Good n body s → Reach n s t → Good n body t
Reach-Good g here = g
Reach-Good g (next r st) = Step-Good st (Reach-Good g r)

-- In every state that a transfer of a response of `n` bytes can reach, however the two sides' rounds
-- interleave and fail, what the client got is the beginning of the body that the server sent.
pub Reach-prefix :
    (n : ℕ) (body : List ℕ) (t : Transfer)
    → Reach n (start body) t
    → (rest : List ℕ) × (t.output ++ rest ≡ body)
Reach-prefix n body t r = elim (Reach-Good (inl (start-IsIntact n body)) r) [
  | inl i ↦ (t.chunk ++ t.input, i.whole)
  | inr c ↦ c.prefix
]

-- When the sender has finished, the client has got the first `n` bytes of the body, where `n` is the
-- length in the response's header, and `n` is not 0.
pub Reach-finished :
    (n : ℕ) (body : List ℕ) (t : Transfer)
    → Reach n (start body) t
    → t.sender ≡ finished
    → (rest : List ℕ) × (t.output ++ rest ≡ body) × (length t.output ≡ n) × (0 < n)
Reach-finished n body t r e = elim (Reach-Good (inl (start-IsIntact n body)) r) [
  | inl i ↦ (t.chunk ++ t.input, i.whole, omega (arith, i.sent, (i.done e).0), (i.done e).1)
  | inr c ↦ absurd (ground (arith, c.dead))
]

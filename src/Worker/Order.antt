-- ===== src/Worker/Order.antt =====
-- The order of the responses over one connection (code/web_switch/worker.c).
use heimdall_web_switch.Prelude.{
  ℕ, ◌≡◌, ◌⊎◌, inl, inr, Bool, true, false, ◌||◌, refl, sym, ap, subst, ◌∙◌, Option, none, some,
  List, [], ◌∷◌, ◌++◌, map, append_assoc, get_elem?, set,
}
use heimdall_web_switch.HttpRequest.{HttpRequest, Chars}
use heimdall_web_switch.Worker.{Node, served, receiving, Worker, new_worker, fill_last, Event, run}
use mathlib.Core.List.{map-append}
use heimdall_web_switch.Worker.Requests.{
  requests, request_of, HasFresh, requests-fresh, requests-fill_last, requests-set, HasFresh-set,
  HasFresh-rest,
}
use heimdall_web_switch.Worker.Runs.{
  Stepped, waits, has_begun_enqueue, has_enqueued, has_received, has_received_last, has_stopped,
  has_failed, has_ended, has_sent, has_dequeued, has_torn, has_not_sent, Then, run-keeps,
}

-- The requests of the nodes whose responses were sent.
abbrev pub sent_to : List (HttpRequest × Chars) → List HttpRequest
sent_to sent = map (λ (p : HttpRequest × Chars). p.0) sent

pub record IsInOrder (w : Worker) : Type 0 where
  pub order : sent_to w.sent ++ requests w.requests_queue ≡ w.received
  pub waiting : w.reader ≡ receiving → HasFresh w.requests_queue

order-received :
    (w : Worker) (n : Node) (r : HttpRequest)
    → IsInOrder w
    → w.reader ≡ receiving
    → request_of n ≡ r ∷ []
    → sent_to w.sent ++ requests (fill_last n w.requests_queue) ≡ w.received ++ (r ∷ [])
order-received w n r v e k =
    ap (λ rs. sent_to w.sent ++ rs) (requests-fill_last w.requests_queue n r (v.waiting e) k)
    ∙ sym (append_assoc (sent_to w.sent) (requests w.requests_queue) (r ∷ []))
    ∙ ap (λ rs. rs ++ (r ∷ [])) v.order

-- In order, or the operations of the queue have overlapped.
abbrev IsOrdered : Worker → Type 0
IsOrdered w = (w.overlapped ≡ true) ⊎ IsInOrder w

still_overlapped : (a b : Bool) → a ≡ true → (a || b) ≡ true
still_overlapped a b e = rw e

-- Behind a step of a worker that is in order: what it leaves is in order too, unless the queue is torn.
keeps_order :
    (m : ℕ) (w : Worker) (o : Option Worker) → Stepped m w o → IsInOrder w → Then IsOrdered o
keeps_order m w _ waits v = tt
keeps_order m w _ (has_begun_enqueue e t) v =
    inr (record { order = v.order; waiting = λ e. absurd (cc e) })
keeps_order m w _ (has_enqueued e) v = inr (record {
  order = ap (λ rs. sent_to w.sent ++ rs) (requests-fresh w.requests_queue) ∙ v.order;
  waiting = λ _. record { before = w.requests_queue; ends = refl };
})
keeps_order m w _ (has_received r counter e) v =
    inr (record { order = order-received w (served r) r v e refl; waiting = λ e. absurd (cc e) })
keeps_order m w _ (has_received_last r n counter threads status e k) v =
    inr (record { order = order-received w n r v e k; waiting = λ e. absurd (cc e) })
keeps_order m w _ (has_stopped status e) v =
    inr (record { order = v.order; waiting = λ e. absurd (cc e) })
keeps_order m w _ (has_failed flag e) v =
    inr (record { order = v.order; waiting = λ e. absurd (cc e) })
keeps_order m w _ (has_ended i r n status e k) v = inr (record {
  order = ap (λ rs. sent_to w.sent ++ rs) (requests-set w.requests_queue i r n e k) ∙ v.order;
  waiting = λ t.
      let f = v.waiting t in
      record {
        before = set f.before i n;
        ends =
            ap (λ ns. set ns i n) f.ends
            ∙ HasFresh-set f.before i r n (ap (λ ns. get_elem? ns i) (sym f.ends) ∙ e);
      };
})
keeps_order m w _ (has_sent r response ns k) v = inr (record {
  order =
      ap (λ rs. rs ++ requests ns)
        (map-append (λ (p : HttpRequest × Chars). p.0) w.sent ((r, response) ∷ []))
      ∙ append_assoc (sent_to w.sent) (r ∷ []) (requests ns)
      ∙ ap (λ ms. sent_to w.sent ++ requests ms) (sym k)
      ∙ v.order;
  waiting = λ t. HasFresh-rest r response ns (subst HasFresh k (v.waiting t));
})
keeps_order m w _ has_dequeued v = inr (record { order = v.order; waiting = v.waiting })
keeps_order m w _ (has_torn ns t) v = inl t
keeps_order m w _ (has_not_sent ns k) v = inr (record {
  order = ap (λ ms. sent_to w.sent ++ requests ms) (sym k) ∙ v.order;
  waiting = λ t. subst HasFresh k (v.waiting t);
})

keeps_overlapped :
    (m : ℕ) (w : Worker) (o : Option Worker)
    → Stepped m w o
    → w.overlapped ≡ true
    → Then (λ w'. w'.overlapped ≡ true) o
keeps_overlapped m w _ waits t = tt
keeps_overlapped m w _ (has_begun_enqueue e l) t = still_overlapped w.overlapped _ t
keeps_overlapped m w _ (has_enqueued e) t = t
keeps_overlapped m w _ (has_received r counter e) t = t
keeps_overlapped m w _ (has_received_last r n counter threads status e k) t = t
keeps_overlapped m w _ (has_stopped status e) t = t
keeps_overlapped m w _ (has_failed flag e) t = t
keeps_overlapped m w _ (has_ended i r n status e k) t = t
keeps_overlapped m w _ (has_sent r response ns k) t = still_overlapped w.overlapped _ t
keeps_overlapped m w _ has_dequeued t = t
keeps_overlapped m w _ (has_torn ns l) t = t
keeps_overlapped m w _ (has_not_sent ns k) t = t

Then-weaken :
    {P Q : Worker → Type 0} (o : Option Worker) → ((w : Worker) → P w → Q w) → Then P o → Then Q o
Then-weaken none f p = tt
Then-weaken (some w) f p = f w p

step-IsOrdered :
    (m : ℕ) (w : Worker) (o : Option Worker) → Stepped m w o → IsOrdered w → Then IsOrdered o
step-IsOrdered m w o s (inl t) = Then-weaken o (λ w' t'. inl t') (keeps_overlapped m w o s t)
step-IsOrdered m w o s (inr v) = keeps_order m w o s v

-- In every run of a worker over a connection in which no enqueue and dequeue have overlapped, whatever else is
-- interleaved, the requests whose responses were sent, in the order of sending, followed by those that are
-- still in the queue, are the requests that were received, in their order: none is lost, answered twice
-- or out of its turn, also when threads or their closing of a connection fail.
pub run-in_order :
    (m counter : ℕ) (es : List Event) (w : Worker)
    → run m es (new_worker counter) ≡ some w
    → w.overlapped ≡ false
    → sent_to w.sent ++ requests w.requests_queue ≡ w.received
run-in_order m counter es w e apart =
    elim (run-keeps IsOrdered m (step-IsOrdered m) es e
      (inr (record { order = refl; waiting = λ e. absurd (cc e) }))) [
        | inl together ↦ absurd (cc (together, apart))
        | inr v ↦ v.order
      ]

-- ===== src/RequestQueue/Fifo.antt =====
-- The request queue against a sequence of nodes, oldest first.
use heimdall_web_switch.Prelude.{
  ℕ, zero, suc, ◌+◌, ◌-◌, ◌<◌, ◌≡◌, refl, sym, ◌≢◌, ◌∙◌, ap, true, false, Option, none, some, List,
  [], ◌∷◌, ◌++◌, arith, ◌==◌, length, length-append, Bool-cases, inl, inr,
}
use heimdall_web_switch.Pointers.{Ptr, null, write, has, first, last, load, modify}
use heimdall_web_switch.RequestQueue.{
  RequestNode, Heap, RequestQueue, init_request_node, enqueue, unlink_front, dequeue, destroy_loop,
  get_front, get_size, is_empty,
}
use heimdall_web_switch.RequestQueue.Chain.{
  node, Chain, Chain-frame, Chain-append, Chain-last, Chain-ne_null, last-mem, last-append,
}

-- The queue holds the nodes `xs`, oldest first.
pub record IsFifo (h : Heap) (q : RequestQueue) (xs : List Ptr) : Type 0 where
  pub size : q.size ≡ length xs
  pub front : q.front ≡ first xs
  pub back : q.back ≡ last xs
  pub chain : Chain h null xs

-- `get_size` is the number of nodes, `get_front` the oldest of them, or NULL, and `is_empty` says
-- whether there is none.
pub queries_agree :
    (h : Heap) (q : RequestQueue) (xs : List Ptr)
    → IsFifo h q xs
    → (get_size q ≡ length xs) × (get_front q ≡ first xs) × (is_empty q ≡ (length xs == 0))
unfolding get_size get_front is_empty
queries_agree h q [] f = (f.size, f.front, rw f.front)
queries_agree h q (p ∷ xs) f =
    let some_node : (q.front == null) ≡ false = ground (arith, f.chain.0, f.front) in
    (f.size, f.front, rw some_node (ground arith))

-- Memory outside `xs` is as it was.
abbrev pub SameOutside : List Ptr → Heap → Heap → Type 0
SameOutside xs h g = (a : Ptr) → has a xs ≡ false → g a ≡ h a

modify-some :
    (p : Ptr) (f : RequestNode → RequestNode) (h : Heap) (n : RequestNode)
    → p ≢ null
    → h p ≡ some n
    → modify p f h ≡ some (write h p (some (f n)))
unfolding modify
modify-some p f h n ne at = let test : (p == null) ≡ false = ground arith in rw (test, at)

load-some : (p : Ptr) (h : Heap) (n : RequestNode) → p ≢ null → h p ≡ some n → load p h ≡ some n
unfolding load
load-some p h n ne at = let test : (p == null) ≡ false = ground arith in rw test at

-- The memory after `n` was linked behind `b`.
abbrev linked : Heap → (b prev n : Ptr) → Heap
linked h b prev n = write (write h b (some (node prev n))) n (some (node b null))

relinked :
    (a b n : Ptr)
    → ◌≡◌ {A = Option RequestNode} (some (node a null)) (some (node b null))
    → ◌≡◌ {A = Option RequestNode} (some (node a n)) (some (node b n))
relinked a b n e = ground arith

ne_of_has : (a n : Ptr) (xs : List Ptr) → has a xs ≡ true → has n xs ≡ false → a ≢ n
ne_of_has a n xs i out e = ground (arith, ap (λ z. has z xs) e)

linked-other : (h : Heap) (b prev n a : Ptr) → a ≢ b → a ≢ n → linked h b prev n a ≡ h a
linked-other h b prev n a ne_b ne_n = ground arith

linked-back : (h : Heap) (b prev n : Ptr) → n ≢ b → linked h b prev n b ≡ some (node prev n)
linked-back h b prev n ne = ground arith

linked-new : (h : Heap) (b prev n : Ptr) → linked h b prev n n ≡ some (node b null)
linked-new h b prev n = ground arith

module _ (h : Heap) (q : RequestQueue) (n b prev : Ptr) (is_back : q.back ≡ b) (b_ne : b ≢ null)
    (n_ne : n ≢ null) (apart : n ≢ b) (at_b : h b ≡ some (node prev null))
    (at_n : h n ≡ some init_request_node) where
  enqueue-linked :
      enqueue q n h ≡ some (record q { back = n; size = q.size + 1 }, linked h b prev n)
  unfolding enqueue
  enqueue-linked =
      let busy : (q.back == null) ≡ false = ground arith in
      let still : write h b (some (node prev n)) n ≡ some init_request_node = ground arith in
      rw (
        busy,
        is_back,
        modify-some b (λ m. record m { next = n }) h (node prev null) b_ne at_b,
        modify-some n (λ m. record m { previous = b }) (write h b (some (node prev n)))
            init_request_node n_ne still,
      )

-- A fresh node is enqueued without a fault, behind the nodes of the queue, which stay in their order;
-- memory outside the queue and the node is not changed.
pub enqueue-IsFifo :
    (h : Heap) (q : RequestQueue) (xs : List Ptr) (n : Ptr)
    → IsFifo h q xs
    → n ≢ null
    → has n xs ≡ false
    → h n ≡ some init_request_node
    → (q' : RequestQueue) × (g : Heap) × (enqueue q n h ≡ some (q', g))
      × IsFifo g q' (xs ++ (n ∷ []))
      × SameOutside (n ∷ xs) h g
unfolding enqueue
enqueue-IsFifo h q [] n f ne fresh at = (
  record q { front = n; back = n; size = q.size + 1 },
  h,
  rw f.back,
  record { size = omega (arith, f.size); front = refl; back = refl; chain = (ne, refl, at, tt) },
  λ a out. refl,
)
enqueue-IsFifo h q (p ∷ xs) n f ne fresh at =
    let b = last (p ∷ xs) in
    let b_ne : b ≢ null = Chain-ne_null h null p xs f.chain in
    let (prev, at_b) = Chain-last h null p xs f.chain in
    let apart : n ≢ b = λ e. ground (arith, last-mem p xs, ap (λ a. has a (p ∷ xs)) e) in
    (
      record q { back = n; size = q.size + 1 },
      linked h b prev n,
      enqueue-linked h q n b prev f.back b_ne ne apart at_b at,
      record {
        size = omega (arith, f.size, length-append (p ∷ xs) (n ∷ []));
        front = f.front;
        back = sym (last-append (p ∷ xs) n);
        chain =
            Chain-append h (linked h b prev n) n ne null p xs f.chain fresh
              (λ a i not_b. linked-other h b prev n a not_b (ne_of_has a n (p ∷ xs) i fresh))
              (λ prev' at'. linked-back h b prev n apart ∙ relinked prev prev' n (sym at_b ∙ at'))
              (linked-new h b prev n);
      },
      λ a out.
          linked-other h b prev n a
            (λ e. ne_of_has b a (p ∷ xs) (last-mem p xs) (ground arith) (sym e)) (ground arith),
    )

-- The first node of the queue is taken out.
front_out-empty :
    (h : Heap) (q : RequestQueue) (p : Ptr)
    → q.front ≡ p
    → p ≢ null
    → h p ≡ some (node null null)
    → unlink_front q h
      ≡ some (
        record q { back = null; front = null; size = q.size - 1 },
        write h p (some init_request_node),
      )
unfolding unlink_front
front_out-empty h q p e ne at = rw (
  e,
  load-some p h (node null null) ne at,
  modify-some p (λ m. record m { next = null }) h (node null null) ne at,
)

front_out-cons :
    (h : Heap) (q : RequestQueue) (p r s : Ptr)
    → q.front ≡ p
    → p ≢ null
    → r ≢ null
    → p ≢ r
    → h p ≡ some (node null r)
    → h r ≡ some (node p s)
    → unlink_front q h
      ≡ some (
        record q { front = r; size = q.size - 1 },
        write (write h p (some init_request_node)) r (some (node null s)),
      )
unfolding unlink_front
front_out-cons h q p r s e p_ne r_ne apart at_p at_r =
    let more : (r == null) ≡ false = ground arith in
    let still : write h p (some init_request_node) r ≡ some (node p s) = ground arith in
    rw (
      e,
      load-some p h (node null r) p_ne at_p,
      modify-some p (λ m. record m { next = null }) h (node null r) p_ne at_p,
      more,
      modify-some r (λ m. record m { previous = null }) (write h p (some init_request_node))
          (node p s) r_ne still,
    )

-- What is left when the first node `p` was taken out: it has no links any more.
pub record Out (h : Heap) (p : Ptr) (xs : List Ptr) (q : RequestQueue) (g : Heap) : Type 0 where
  pub fifo : IsFifo g q xs
  pub unlinked : g p ≡ some init_request_node
  pub same : SameOutside (p ∷ xs) h g

unlink_front-Out :
    (h : Heap) (q : RequestQueue) (p : Ptr) (xs : List Ptr)
    → IsFifo h q (p ∷ xs)
    → (q' : RequestQueue) × (g : Heap) × (unlink_front q h ≡ some (q', g)) × Out h p xs q' g
unlink_front-Out h q p [] f = (
  record q { back = null; front = null; size = q.size - 1 },
  write h p (some init_request_node),
  front_out-empty h q p f.front f.chain.0 f.chain.2,
  record {
    fifo = record { size = omega (arith, f.size); front = refl; back = refl; chain = tt };
    unlinked = ground arith;
    same = ground arith;
  },
)
unlink_front-Out h q p (r ∷ xs) f =
    let (p_ne, out, at_p, inner) = f.chain in
    let (r_ne, r_out, at_r, rest) = inner in
    let apart : p ≢ r = ground arith in
    let g : Heap = write (write h p (some init_request_node)) r (some (node null (first xs))) in
    let kept : (a : Ptr) → a ≢ p → a ≢ r → g a ≡ h a = λ a x y. ground arith in
    (
      record q { front = r; size = q.size - 1 },
      g,
      front_out-cons h q p r (first xs) f.front p_ne r_ne apart at_p at_r,
      record {
        fifo = record {
          size = omega (arith, f.size);
          front = refl;
          back = f.back;
          chain = (
            r_ne,
            r_out,
            ground arith,
            Chain-frame h g r xs rest
                (λ a i. kept a (ne_of_has a p xs i (ground arith)) (ne_of_has a r xs i r_out)),
          );
        };
        unlinked = ground arith;
        same = λ a o. kept a (ground arith) (ground arith);
      },
    )

-- On a queue that is not empty `dequeue` does not fault and returns the oldest node, with its links
-- cleared; the queue then holds the others in their order, and memory outside the nodes of the queue is
-- not changed.
pub dequeue-Out :
    (h : Heap) (q : RequestQueue) (p : Ptr) (xs : List Ptr)
    → IsFifo h q (p ∷ xs)
    → (q' : RequestQueue) × (g : Heap) × (dequeue q h ≡ some (p, q', g)) × Out h p xs q' g
unfolding dequeue
dequeue-Out h q p xs f =
    let (q', g, e, o) = unlink_front-Out h q p xs f in
    let some_node : (q.front == null) ≡ false = ground (arith, f.chain.0, f.front) in
    (q', g, rw (some_node, e) (ap (λ z. some (z, q', g)) f.front), o)

-- On an empty queue it returns NULL and changes nothing.
pub dequeue-empty : (h : Heap) (q : RequestQueue) → IsFifo h q [] → dequeue q h ≡ some (null, q, h)
unfolding dequeue
dequeue-empty h q f = rw f.front

write-other : (g : Heap) (p a : Ptr) → a ≢ p → write g p none a ≡ g a
write-other g p a ne = ground arith

write_self : (g : Heap) (p a : Ptr) → a ≡ p → write g p none a ≡ none
write_self g p a e = ground arith

-- Every address of `xs` is free.
abbrev pub Freed : List Ptr → Heap → Type 0
Freed xs g = (a : Ptr) → has a xs ≡ true → g a ≡ none

-- `destroy_request_queue` ends in one round more than there are nodes, without a fault; it frees every
-- node of the queue and changes no other memory.
pub destroy_loop-Freed :
    (fuel : ℕ) (h : Heap) (q : RequestQueue) (xs : List Ptr)
    → IsFifo h q xs
    → length xs < fuel
    → (g : Heap) × (destroy_loop fuel q h ≡ some g) × Freed xs g × SameOutside xs h g
unfolding destroy_loop
destroy_loop-Freed zero h q xs f enough = absurd (omega arith)
destroy_loop-Freed (suc fuel) h q [] f enough =
    (h, rw (dequeue-empty h q f), λ a i. cc, λ a o. refl)
destroy_loop-Freed (suc fuel) h q (p ∷ xs) f enough =
    let (q', g, e, o) = dequeue-Out h q p xs f in
    let some_node : (p == null) ≡ false = ground (arith, f.chain.0) in
    let f' : IsFifo (write g p none) q' xs = record {
      size = o.fifo.size;
      front = o.fifo.front;
      back = o.fifo.back;
      chain =
          Chain-frame g (write g p none) null xs o.fifo.chain
            (λ a i. write-other g p a (ne_of_has a p xs i f.chain.1));
    } in
    let (g', e', freed, same) = destroy_loop-Freed fuel (write g p none) q' xs f' (omega arith) in
    (
      g',
      rw (e, some_node, destroy_loop) e',
      λ a i. elim (Bool-cases (has a xs)) [
        | inl more ↦ freed a more
        | inr out ↦ same a out ∙ write_self g p a (ground arith)
      ],
      λ a out. same a (ground arith) ∙ write-other g p a (ground arith) ∙ o.same a out,
    )

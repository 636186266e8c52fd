-- ===== src/ServerPool/Links.antt =====
-- The pool of code/web_switch/server_pool.c as a sequence of nodes, and `add_server`.
use heimdall_web_switch.Prelude.{
  ◌+◌, ◌≡◌, refl, sym, ap, ◌∙◌, ◌≢◌, true, false, Option, some, List, [], ◌∷◌, ◌++◌, arith, ◌==◌,
}
use heimdall_web_switch.Pointers.{Ptr, null, write, load, modify, has, first, last}
use heimdall_web_switch.RequestQueue.Chain.{last-mem, last-append, has-append}
use heimdall_web_switch.Scheduler.{ServerNode}
use heimdall_web_switch.ServerPool.{PoolNode, PoolHeap, ServerPool, add_server}

abbrev pub pool_node : ServerNode → Ptr → PoolNode
pool_node s p = record { server = s; next = p }

-- The distinct nodes `xs`, each linked to the next; the node at `p` is that of the server `data p`.
abbrev pub Linked : PoolHeap → (Ptr → ServerNode) → List Ptr → Type 0
Linked h data_of [] = Unit {0}
Linked h data_of (p ∷ xs) =
    (p ≢ null)
    × (has p xs ≡ false)
    × (h p ≡ some (pool_node (data_of p) (first xs)))
    × Linked h data_of xs

pub record IsPool (h : PoolHeap) (data_of : Ptr → ServerNode) (pool : ServerPool) (xs : List Ptr)
    : Type 0 where
  pub head : pool.head ≡ first xs
  pub tail : pool.tail ≡ last xs
  pub links : Linked h data_of xs

pub Linked-frame :
    (h g : PoolHeap) (data_of : Ptr → ServerNode) (xs : List Ptr)
    → Linked h data_of xs
    → ((a : Ptr) → has a xs ≡ true → g a ≡ h a)
    → Linked g data_of xs
Linked-frame h g data_of [] c same = tt
Linked-frame h g data_of (p ∷ xs) (ne, out, at, c) same = (
  ne,
  out,
  same p (ground arith) ∙ at,
  Linked-frame h g data_of xs c (λ a i. same a (ground arith)),
)

pub modify_node :
    (p : Ptr) (f : PoolNode → PoolNode) (h : PoolHeap) (n : PoolNode)
    → p ≢ null
    → h p ≡ some n
    → modify p f h ≡ some (write h p (some (f n)))
unfolding modify
modify_node p f h n ne at = let test : (p == null) ≡ false = ground arith in rw (test, at)

pub load_node :
    (p : Ptr) (h : PoolHeap) (n : PoolNode) → p ≢ null → h p ≡ some n → load p h ≡ some n
unfolding load
load_node p h n ne at = let test : (p == null) ≡ false = ground arith in rw test at

pub apart_of_has : (a n : Ptr) (xs : List Ptr) → has a xs ≡ true → has n xs ≡ false → a ≢ n
apart_of_has a n xs i out e = ground (arith, ap (λ z. has z xs) e)

module _ (h g : PoolHeap) (data_of : Ptr → ServerNode) (n : Ptr) (n_ne : n ≢ null) where
  -- A sequence with `n` linked behind its last node, in a memory `g` that differs in these two.
  Linked-append :
      (p : Ptr) (xs : List Ptr)
      → Linked h data_of (p ∷ xs)
      → has n (p ∷ xs) ≡ false
      → ((a : Ptr) → has a (p ∷ xs) ≡ true → a ≢ last (p ∷ xs) → g a ≡ h a)
      → g (last (p ∷ xs)) ≡ some (pool_node (data_of (last (p ∷ xs))) n)
      → g n ≡ some (pool_node (data_of n) null)
      → Linked g data_of ((p ∷ xs) ++ (n ∷ []))
  Linked-append p [] (ne, out, at, c) fresh same end new =
      (ne, ground arith, end, (n_ne, refl, new, tt))
  Linked-append p (q ∷ xs) (ne, out, at, c) fresh same end new =
      let inner : p ≢ last (q ∷ xs) =
        λ e. ground (arith, last-mem q xs, ap (λ a. has a (q ∷ xs)) e) in
      (
        ne,
        ground (arith, has-append p xs n),
        same p (ground arith) inner ∙ at,
        Linked-append q xs c (ground arith) (λ a i. same a (ground arith)) end new,
      )

Linked-last :
    (h : PoolHeap) (data_of : Ptr → ServerNode) (p : Ptr) (xs : List Ptr)
    → Linked h data_of (p ∷ xs)
    → (last (p ∷ xs) ≢ null) × (h (last (p ∷ xs)) ≡ some (pool_node (data_of (last (p ∷ xs))) null))
Linked-last h data_of p [] c = (c.0, c.2)
Linked-last h data_of p (q ∷ xs) c = Linked-last h data_of q xs c.3

first-ne_null :
    (h : PoolHeap) (data_of : Ptr → ServerNode) (p : Ptr) (xs : List Ptr) (q : Ptr)
    → Linked h data_of (p ∷ xs)
    → q ≡ p
    → (q == null) ≡ false
first-ne_null h data_of p xs q c e = ground (arith, c.0)

abbrev behind : PoolHeap → (Ptr → ServerNode) → (b n : Ptr) → PoolHeap
behind h data_of b n =
    write (write h b (some (pool_node (data_of b) n))) n (some (pool_node (data_of n) null))

behind-other :
    (h : PoolHeap) (data_of : Ptr → ServerNode) (b n a : Ptr)
    → a ≢ b
    → a ≢ n
    → behind h data_of b n a ≡ h a
behind-other h data_of b n a ne_b ne_n = ground arith

behind-back :
    (h : PoolHeap) (data_of : Ptr → ServerNode) (b n : Ptr)
    → n ≢ b
    → behind h data_of b n b ≡ some (pool_node (data_of b) n)
behind-back h data_of b n ne = ground arith

behind-new :
    (h : PoolHeap) (data_of : Ptr → ServerNode) (b n : Ptr)
    → behind h data_of b n n ≡ some (pool_node (data_of n) null)
behind-new h data_of b n = ground arith

write-kept : (h : PoolHeap) (b n : Ptr) (v : Option PoolNode) → n ≢ b → write h b v n ≡ h n
write-kept h b n v ne = ground arith

write-new : (h : PoolHeap) (n : Ptr) (v : Option PoolNode) → write h n v n ≡ v
write-new h n v = ground arith

-- `add_server` of a node that is in memory and not yet in the pool does not fault: the pool is then the
-- same sequence of servers with that node behind it, and `num_servers` is one more.
pub add_server-IsPool :
    (h : PoolHeap) (data_of : Ptr → ServerNode) (pool : ServerPool) (xs : List Ptr) (n link : Ptr)
    → IsPool h data_of pool xs
    → n ≢ null
    → has n xs ≡ false
    → h n ≡ some (pool_node (data_of n) link)
    → (pool' : ServerPool) × (g : PoolHeap) × (add_server pool n h ≡ some (pool', g))
      × IsPool g data_of pool' (xs ++ (n ∷ []))
      × (pool'.num_servers ≡ pool.num_servers + 1)
unfolding add_server
add_server-IsPool h data_of pool [] n link i ne fresh at = (
  record { head = n; tail = n; num_servers = pool.num_servers + 1 },
  write h n (some (pool_node (data_of n) null)),
  rw (i.head, modify_node n (λ m. record m { next = null }) h (pool_node (data_of n) link) ne at),
  record { head = refl; tail = refl; links = (ne, refl, write-new h n _, tt) },
  refl,
)
add_server-IsPool h data_of pool (p ∷ xs) n link i ne fresh at =
    let b = last (p ∷ xs) in
    let (b_ne, at_b) = Linked-last h data_of p xs i.links in
    let apart : n ≢ b = λ e. ground (arith, last-mem p xs, ap (λ a. has a (p ∷ xs)) e) in
    let g1 : PoolHeap = write h b (some (pool_node (data_of b) n)) in
    (
      record pool { tail = n; num_servers = pool.num_servers + 1 },
      behind h data_of b n,
      rw (
        first-ne_null h data_of p xs pool.head i.links i.head,
        i.tail,
        modify_node b (λ m. record m { next = n }) h (pool_node (data_of b) null) b_ne at_b,
        modify_node n (λ m. record m { next = null }) g1 (pool_node (data_of n) link) ne
            (write-kept h b n _ apart ∙ at),
      ),
      record {
        head = i.head;
        tail = sym (last-append (p ∷ xs) n);
        links =
            Linked-append h (behind h data_of b n) data_of n ne p xs i.links fresh
              (λ a m not_b. behind-other h data_of b n a not_b (apart_of_has a n (p ∷ xs) m fresh))
              (behind-back h data_of b n apart) (behind-new h data_of b n);
      },
      refl,
    )

-- ===== src/ServerPool/Delete.antt =====
-- `delete_server` of code/web_switch/server_pool.c.
use heimdall_web_switch.Prelude.{
  ℕ, zero, suc, ◌+◌, ◌<◌, ◌≡◌, refl, sym, ap, ◌∙◌, ◌≢◌, true, false, none, some, List, [], ◌∷◌,
  ◌++◌, arith, ◌==◌, if◌then◌else◌, length,
}
use heimdall_web_switch.Pointers.{Ptr, null, write, load, has, first, last}
use heimdall_web_switch.RequestQueue.Chain.{last-mem}
use heimdall_web_switch.Scheduler.{ServerNode}
use heimdall_web_switch.ServerPool.{
  PoolNode, PoolHeap, ServerPool, fault, done, find_previous, unlink, delete_server,
}
use heimdall_web_switch.ServerPool.Links.{
  pool_node, Linked, IsPool, Linked-frame, modify_node, load_node, apart_of_has,
}

has-middle : (xs : List Ptr) (p d : Ptr) (ys : List Ptr) → has d (xs ++ (p ∷ d ∷ ys)) ≡ true
has-middle [] p d ys = ground arith
has-middle (x ∷ xs) p d ys = ground (arith, has-middle xs p d ys)

has-previous : (xs : List Ptr) (p d : Ptr) (ys : List Ptr) → has p (xs ++ (p ∷ d ∷ ys)) ≡ true
has-previous [] p d ys = ground arith
has-previous (x ∷ xs) p d ys = ground (arith, has-previous xs p d ys)

has-first : (d : Ptr) (ys : List Ptr) → has d (d ∷ ys) ≡ true
has-first d ys = ground arith

-- The first of a nonempty rest is not `d` when `d` comes later.
first-ne :
    (h : PoolHeap) (data_of : Ptr → ServerNode) (xs : List Ptr) (p d : Ptr) (ys : List Ptr)
    → Linked h data_of (xs ++ (p ∷ d ∷ ys))
    → first (xs ++ (p ∷ d ∷ ys)) ≢ d
first-ne h data_of [] p d ys c = λ e. apart_of_has d p (d ∷ ys) (has-first d ys) c.1 (sym e)
first-ne h data_of (x ∷ xs) p d ys c =
    λ e. apart_of_has d x (xs ++ (p ∷ d ∷ ys)) (has-middle xs p d ys) c.1 (sym e)

find_previous-step :
    (fuel : ℕ) (x d : Ptr) (h : PoolHeap) (n : PoolNode)
    → x ≢ null
    → h x ≡ some n
    → n.next ≢ d
    → find_previous (suc fuel) x d h ≡ find_previous fuel n.next d h
unfolding find_previous
find_previous-step fuel x d h n ne at other =
    let test : (n.next == d) ≡ false = ground arith in
    rw (load_node x h n ne at, test, find_previous)

find_previous-done :
    (fuel : ℕ) (h : PoolHeap) (data_of : Ptr → ServerNode) (xs : List Ptr) (p d : Ptr)
    (ys : List Ptr)
    → Linked h data_of (xs ++ (p ∷ d ∷ ys))
    → length xs < fuel
    → find_previous fuel (first (xs ++ (p ∷ d ∷ ys))) d h ≡ done p
unfolding find_previous
find_previous-done zero h data_of xs p d ys c enough = absurd (omega arith)
find_previous-done (suc fuel) h data_of [] p d ys c enough =
    let test : (d == d) ≡ true = ground arith in
    rw (find_previous, load_node p h (pool_node (data_of p) d) c.0 c.2, test) refl
find_previous-done (suc fuel) h data_of (x ∷ xs) p d ys c enough =
    find_previous-step fuel x d h (pool_node (data_of x) (first (xs ++ (p ∷ d ∷ ys)))) c.0 c.2
      (first-ne h data_of xs p d ys c.3)
    ∙ find_previous-done fuel h data_of xs p d ys c.3 (omega arith)

-- No node of a sequence leads to an address that is not behind its first.
find_previous-fault :
    (fuel : ℕ) (h : PoolHeap) (data_of : Ptr → ServerNode) (xs : List Ptr) (d : Ptr)
    → Linked h data_of xs
    → d ≢ null
    → has d xs ≡ false
    → length xs < fuel
    → find_previous fuel (first xs) d h ≡ fault
unfolding find_previous load
find_previous-fault zero h data_of xs d c ne out enough = absurd (omega arith)
find_previous-fault (suc fuel) h data_of [] d c ne out enough = refl
find_previous-fault (suc fuel) h data_of (x ∷ []) d c ne out enough =
    find_previous-step fuel x d h (pool_node (data_of x) null) c.0 c.2 (λ e. ne (sym e))
    ∙ find_previous-fault fuel h data_of [] d tt ne refl (omega arith)
find_previous-fault (suc fuel) h data_of (x ∷ y ∷ xs) d c ne out enough =
    find_previous-step fuel x d h (pool_node (data_of x) y) c.0 c.2 (λ e. ground arith)
    ∙ find_previous-fault fuel h data_of (y ∷ xs) d c.3 ne (ground arith) (omega arith)

first-fault :
    (fuel : ℕ) (h : PoolHeap) (data_of : Ptr → ServerNode) (d : Ptr) (ys : List Ptr)
    → Linked h data_of (d ∷ ys)
    → length ys < fuel
    → find_previous (suc fuel) d d h ≡ fault
first-fault fuel h data_of d ys (ne, out, at, rest) enough =
    find_previous-step fuel d d h (pool_node (data_of d) (first ys)) ne at (not_first ys out)
    ∙ find_previous-fault fuel h data_of ys d rest ne out enough
  where
    not_first : (zs : List Ptr) → has d zs ≡ false → first zs ≢ d
    not_first [] o e = ne (sym e)
    not_first (z ∷ zs) o e = apart_of_has z d (z ∷ zs) (has-first z zs) o e

abbrev removed : PoolHeap → (p d : Ptr) → PoolNode → PoolHeap
removed h p d n = write (write h p (some n)) d none

removed-other :
    (h : PoolHeap) (p d a : Ptr) (n : PoolNode) → a ≢ p → a ≢ d → removed h p d n a ≡ h a
removed-other h p d a n ne_p ne_d = ground arith

removed-previous : (h : PoolHeap) (p d : Ptr) (n : PoolNode) → p ≢ d → removed h p d n p ≡ some n
removed-previous h p d n ne = ground arith

removed-freed : (h : PoolHeap) (p d : Ptr) (n : PoolNode) → removed h p d n d ≡ none
removed-freed h p d n = ground arith

has-without :
    (a : Ptr) (xs : List Ptr) (p d : Ptr) (ys : List Ptr)
    → has a (xs ++ (p ∷ d ∷ ys)) ≡ false
    → has a (xs ++ (p ∷ ys)) ≡ false
has-without a [] p d ys out = ground arith
has-without a (x ∷ xs) p d ys out = ground (arith, has-without a xs p d ys)

first-without :
    (xs : List Ptr) (p d : Ptr) (ys : List Ptr)
    → first (xs ++ (p ∷ d ∷ ys)) ≡ first (xs ++ (p ∷ ys))
first-without [] p d ys = refl
first-without (x ∷ xs) p d ys = refl

module _ (h : PoolHeap) (data_of : Ptr → ServerNode) (p d : Ptr) (ys : List Ptr) where
  abbrev after : PoolHeap
  after = removed h p d (pool_node (data_of p) (first ys))

  Linked-removed :
      (xs : List Ptr)
      → Linked h data_of (xs ++ (p ∷ d ∷ ys))
      → Linked after data_of (xs ++ (p ∷ ys))
  Linked-removed [] (ne, out, at, inner) =
      let (d_ne, d_out, at_d, rest) = inner in
      let apart : p ≢ d = λ e. apart_of_has d p (d ∷ ys) (has-first d ys) out (sym e) in
      let p_out : has p ys ≡ false = ground arith in
      (
        ne,
        p_out,
        removed-previous h p d _ apart,
        Linked-frame h after data_of ys rest (λ a i.
            removed-other h p d a _ (apart_of_has a p ys i p_out) (apart_of_has a d ys i d_out)),
      )
  Linked-removed (x ∷ xs) (ne, out, at, inner) = (
    ne,
    has-without x xs p d ys out,
    removed-other h p d x _
          (λ e. apart_of_has p x (xs ++ (p ∷ d ∷ ys)) (has-previous xs p d ys) out (sym e))
          (λ e. apart_of_has d x (xs ++ (p ∷ d ∷ ys)) (has-middle xs p d ys) out (sym e))
        ∙ at
        ∙ ap (λ l. some (pool_node (data_of x) l)) (first-without xs p d ys),
    Linked-removed xs inner,
  )

  Linked-from :
      (xs : List Ptr) → Linked h data_of (xs ++ (p ∷ d ∷ ys)) → Linked h data_of (p ∷ d ∷ ys)
  Linked-from [] c = c
  Linked-from (x ∷ xs) c = Linked-from xs c.3

last-nonempty :
    (x : Ptr) (xs : List Ptr) (q : Ptr) (zs : List Ptr)
    → last (x ∷ (xs ++ (q ∷ zs))) ≡ last (xs ++ (q ∷ zs))
last-nonempty x [] q zs = refl
last-nonempty x (y ∷ xs) q zs = refl

last-from : (xs : List Ptr) (q : Ptr) (zs : List Ptr) → last (xs ++ (q ∷ zs)) ≡ last (q ∷ zs)
last-from [] q zs = refl
last-from (x ∷ xs) q zs = last-nonempty x xs q zs ∙ last-from xs q zs

-- The tail that `delete_server` sets is the last of the nodes that are left.
tail-without :
    (p d : Ptr) (ys : List Ptr)
    → has d ys ≡ false
    → (if last (p ∷ d ∷ ys) == d then p else last (p ∷ d ∷ ys)) ≡ last (p ∷ ys)
tail-without p d [] out = let test : (d == d) ≡ true = ground arith in rw test
tail-without p d (y ∷ ys) out =
    let test : (last (y ∷ ys) == d) ≡ false =
      ground (arith, apart_of_has (last (y ∷ ys)) d (y ∷ ys) (last-mem y ys) out) in
    rw test

unlink-removed :
    (h : PoolHeap) (data_of : Ptr → ServerNode) (pool : ServerPool) (p d : Ptr) (ys : List Ptr)
    → Linked h data_of (p ∷ d ∷ ys)
    → unlink pool p d h
      ≡ some (
        record pool { tail = if pool.tail == d then p else pool.tail },
        removed h p d (pool_node (data_of p) (first ys)),
      )
unfolding unlink
unlink-removed h data_of pool p d ys (ne, out, at, (d_ne, d_out, at_d, rest)) = rw (
  load_node d h (pool_node (data_of d) (first ys)) d_ne at_d,
  modify_node p (λ m. record m { next = first ys }) h (pool_node (data_of p) d) ne at,
)

-- `delete_server` of a node `d` behind another one ends within as many rounds of its loop as there are
-- nodes before `d`, without a fault. It frees `d`, and the pool is then the same sequence of servers
-- without it; `num_servers` is not changed.
pub delete_server-IsPool :
    (fuel : ℕ) (h : PoolHeap) (data_of : Ptr → ServerNode) (pool : ServerPool) (xs : List Ptr)
    (p d : Ptr) (ys : List Ptr)
    → IsPool h data_of pool (xs ++ (p ∷ d ∷ ys))
    → length xs < fuel
    → (pool' : ServerPool) × (g : PoolHeap) × (delete_server fuel pool d h ≡ done (pool', g))
      × IsPool g data_of pool' (xs ++ (p ∷ ys))
      × (g d ≡ none)
      × (pool'.num_servers ≡ pool.num_servers)
unfolding delete_server
delete_server-IsPool fuel h data_of pool xs p d ys i enough =
    let from : Linked h data_of (p ∷ d ∷ ys) = Linked-from h data_of p d ys xs i.links in
    let at_tail : pool.tail ≡ last (p ∷ d ∷ ys) = i.tail ∙ last-from xs p (d ∷ ys) in
    let n = pool_node (data_of p) (first ys) in
    let found : find_previous fuel pool.head d h ≡ done p =
      ap (λ q. find_previous fuel q d h) i.head
      ∙ find_previous-done fuel h data_of xs p d ys i.links enough in
    (
      record pool { tail = if pool.tail == d then p else pool.tail },
      removed h p d n,
      rw (found, unlink-removed h data_of pool p d ys from, delete_server),
      record {
        head = i.head ∙ first-without xs p d ys;
        tail = rw at_tail (tail-without p d ys from.3.1) ∙ sym (last-from xs p ys);
        links = Linked-removed h data_of p d ys xs i.links;
      },
      removed-freed h p d n,
      refl,
    )

-- `delete_server` of the first node of the pool runs off its end: with enough rounds of its loop it
-- reads through NULL.
pub delete_server-fault :
    (fuel : ℕ) (h : PoolHeap) (data_of : Ptr → ServerNode) (pool : ServerPool) (d : Ptr)
    (ys : List Ptr)
    → IsPool h data_of pool (d ∷ ys)
    → length ys + 1 < fuel
    → delete_server fuel pool d h ≡ fault
unfolding delete_server
delete_server-fault zero h data_of pool d ys i enough = absurd (omega arith)
delete_server-fault (suc fuel) h data_of pool d ys i enough =
    let lost : find_previous (suc fuel) pool.head d h ≡ fault =
      ap (λ q. find_previous (suc fuel) q d h) i.head
      ∙ first-fault fuel h data_of d ys i.links (omega arith) in
    rw (lost, delete_server)

-- ===== src/Worker/Requests.antt =====
-- The requests in the queue of a worker (code/web_switch/worker.c), over the changes of its nodes.
use heimdall_web_switch.Prelude.{
  ℕ, zero, suc, ◌≡◌, refl, sym, ap, ◌∙◌, Option, none, some, List, [], ◌∷◌, ◌++◌, append_assoc,
  append-nil, get_elem?, set,
}
use heimdall_web_switch.HttpRequest.{HttpRequest, Chars}
use heimdall_web_switch.Worker.{Node, fresh, unserved, served, failed, answered, fill_last}

-- The request that was received into a node, and those of a queue.
abbrev pub request_of : Node → List HttpRequest
request_of fresh = []
request_of (unserved r) = r ∷ []
request_of (served r) = r ∷ []
request_of (failed r) = r ∷ []
request_of (answered r response) = r ∷ []

abbrev pub requests : List Node → List HttpRequest
requests [] = []
requests (n ∷ ns) = request_of n ++ requests ns

requests-append : (xs ys : List Node) → requests (xs ++ ys) ≡ requests xs ++ requests ys
requests-append [] ys = refl
requests-append (x ∷ xs) ys =
    ap (λ rs. request_of x ++ rs) (requests-append xs ys)
    ∙ sym (append_assoc (request_of x) (requests xs) (requests ys))

fill_last-append :
    (node n : Node) (xs : List Node) → fill_last node (xs ++ (n ∷ [])) ≡ xs ++ (node ∷ [])
fill_last-append node n [] = refl
fill_last-append node n (x ∷ []) = refl
fill_last-append node n (x ∷ y ∷ xs) = ap (λ ns. x ∷ ns) (fill_last-append node n (y ∷ xs))

abbrev requests_of : Option Node → List HttpRequest
requests_of none = []
requests_of (some n) = request_of n

-- A node with the same request in place of a served one.
pub requests-set :
    (ns : List Node) (i : ℕ) (r : HttpRequest) (n : Node)
    → get_elem? ns i ≡ some (served r)
    → request_of n ≡ r ∷ []
    → requests (set ns i n) ≡ requests ns
requests-set [] i r n e k = refl
requests-set (m ∷ ns) zero r n e k = ap (λ rs. rs ++ requests ns) (k ∙ sym (ap requests_of e))
requests-set (m ∷ ns) (suc i) r n e k = ap (λ rs. request_of m ++ rs) (requests-set ns i r n e k)

-- Everything but the last node is left by a change of a served one.
pub record HasFresh (ns : List Node) : Type 0 where
  pub before : List Node
  pub ends : ns ≡ before ++ (fresh ∷ [])

pub HasFresh-set :
    (xs : List Node) (i : ℕ) (r : HttpRequest) (n : Node)
    → get_elem? (xs ++ (fresh ∷ [])) i ≡ some (served r)
    → set (xs ++ (fresh ∷ [])) i n ≡ set xs i n ++ (fresh ∷ [])
HasFresh-set [] zero r n e = absurd (cc e)
HasFresh-set [] (suc i) r n e = refl
HasFresh-set (x ∷ xs) zero r n e = refl
HasFresh-set (x ∷ xs) (suc i) r n e = ap (λ ns. x ∷ ns) (HasFresh-set xs i r n e)

pub requests-fresh : (ns : List Node) → requests (ns ++ (fresh ∷ [])) ≡ requests ns
requests-fresh ns = requests-append ns (fresh ∷ []) ∙ append-nil (requests ns)

pub requests-fill_last :
    (ns : List Node) (n : Node) (r : HttpRequest)
    → HasFresh ns
    → request_of n ≡ r ∷ []
    → requests (fill_last n ns) ≡ requests ns ++ (r ∷ [])
requests-fill_last ns n r f e =
    ap (λ ms. requests (fill_last n ms)) f.ends
    ∙ ap requests (fill_last-append n fresh f.before)
    ∙ requests-append f.before (n ∷ [])
    ∙ ap (λ rs. requests f.before ++ rs) (append-nil (request_of n) ∙ e)
    ∙ ap (λ rs. rs ++ (r ∷ [])) (sym (requests-fresh f.before) ∙ ap requests (sym f.ends))

pub HasFresh-rest :
    (r : HttpRequest) (s : Chars) (ns : List Node) → HasFresh (answered r s ∷ ns) → HasFresh ns
HasFresh-rest r s ns f = go f.before f.ends
  where
    rest : List Node → List Node
    rest [] = []
    rest (m ∷ ms) = ms

    go : (before : List Node) → answered r s ∷ ns ≡ before ++ (fresh ∷ []) → HasFresh ns
    go [] e = absurd (cc e)
    go (x ∷ xs) e = record { before = xs; ends = ap rest e }

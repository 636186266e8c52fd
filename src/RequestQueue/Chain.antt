-- ===== src/RequestQueue/Chain.antt =====
-- Chains of doubly linked nodes in memory.
use heimdall_web_switch.Prelude.{
  ◌≡◌, refl, ◌≢◌, ◌∙◌, ap, true, false, ◌||◌, some, List, [], ◌∷◌, ◌++◌, arith, ◌==◌,
}
use heimdall_web_switch.Pointers.{Ptr, null, has, first, last}
use heimdall_web_switch.RequestQueue.{RequestNode, Heap}

abbrev pub node : Ptr → Ptr → RequestNode
node p n = record { previous = p; next = n }

-- The distinct nodes `xs`, each linked to its neighbours; the first one's `previous` is `prev`.
abbrev pub Chain : Heap → Ptr → List Ptr → Type 0
Chain h prev [] = Unit {0}
Chain h prev (p ∷ xs) =
    (p ≢ null) × (has p xs ≡ false) × (h p ≡ some (node prev (first xs))) × Chain h p xs

pub Chain-frame :
    (h g : Heap) (prev : Ptr) (xs : List Ptr)
    → Chain h prev xs
    → ((a : Ptr) → has a xs ≡ true → g a ≡ h a)
    → Chain g prev xs
Chain-frame h g prev [] c same = tt
Chain-frame h g prev (p ∷ xs) (ne, out, at, c) same =
    (ne, out, same p (ground arith) ∙ at, Chain-frame h g p xs c (λ a i. same a (ground arith)))

pub last-mem : (p : Ptr) (xs : List Ptr) → has (last (p ∷ xs)) (p ∷ xs) ≡ true
last-mem p [] = ground arith
last-mem p (q ∷ xs) = ground (arith, last-mem q xs)

pub last-append : (xs : List Ptr) (n : Ptr) → last (xs ++ (n ∷ [])) ≡ n
last-append [] n = refl
last-append (p ∷ []) n = refl
last-append (p ∷ q ∷ xs) n = last-append (q ∷ xs) n

pub Chain-ne_null :
    (h : Heap) (prev p : Ptr) (xs : List Ptr) → Chain h prev (p ∷ xs) → last (p ∷ xs) ≢ null
Chain-ne_null h prev p [] c = c.0
Chain-ne_null h prev p (q ∷ xs) c = Chain-ne_null h p q xs c.3

-- The last node of a chain has no next one.
pub Chain-last :
    (h : Heap) (prev p : Ptr) (xs : List Ptr)
    → Chain h prev (p ∷ xs)
    → (q : Ptr) × (h (last (p ∷ xs)) ≡ some (node q null))
Chain-last h prev p [] c = (prev, c.2)
Chain-last h prev p (q ∷ xs) c = Chain-last h p q xs c.3

pub has-append :
    (p : Ptr) (xs : List Ptr) (n : Ptr) → has p (xs ++ (n ∷ [])) ≡ (has p xs || (p == n))
has-append p [] n = ground arith
has-append p (x ∷ xs) n = ground (arith, has-append p xs n)

module _ (h g : Heap) (n : Ptr) (n_ne : n ≢ null) where
  -- A chain with `n` linked behind its last node, in a memory `g` that differs from `h` in these two.
  pub Chain-append :
      (prev p : Ptr) (xs : List Ptr)
      → Chain h prev (p ∷ xs)
      → has n (p ∷ xs) ≡ false
      → ((a : Ptr) → has a (p ∷ xs) ≡ true → a ≢ last (p ∷ xs) → g a ≡ h a)
      → ((q : Ptr) → h (last (p ∷ xs)) ≡ some (node q null) → g (last (p ∷ xs)) ≡ some (node q n))
      → g n ≡ some (node (last (p ∷ xs)) null)
      → Chain g prev ((p ∷ xs) ++ (n ∷ []))
  Chain-append prev p [] (ne, out, at, c) fresh same end new =
      (ne, ground arith, end prev at, (n_ne, refl, new, tt))
  Chain-append prev p (q ∷ xs) (ne, out, at, c) fresh same end new =
      let inner : p ≢ last (q ∷ xs) =
        λ e. ground (arith, last-mem q xs, ap (λ a. has a (q ∷ xs)) e) in
      (
        ne,
        ground (arith, has-append p xs n),
        same p (ground arith) inner ∙ at,
        Chain-append p q xs c (ground arith) (λ a i. same a (ground arith)) end new,
      )

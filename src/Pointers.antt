-- ===== src/Pointers.antt =====
-- Memory as a partial function from addresses to nodes. Address 0 is NULL. A read or write through
-- NULL or an address that holds nothing is a fault, `none`.
use heimdall_web_switch.Prelude.{ℕ, Bool, false, ◌||◌, Option, none, some, List, [], ◌∷◌}
use heimdall_web_switch.Prelude.{◌==◌, if◌then◌else◌}

abbrev pub Ptr : Type 0
Ptr = ℕ

abbrev pub null : Ptr
null = 0

infixl 5 ◌>>=◌
abbrev pub ◌>>=◌ {ℓ κ} : {A : Type ℓ} {B : Type κ} → Option A → (A → Option B) → Option B
none >>= f = none
some a >>= f = f a

module _ {N : Type 0} where
  abbrev pub write : (Ptr → Option N) → Ptr → Option N → Ptr → Option N
  write h p n q = if q == p then n else h q

  unfoldable pub load : Ptr → (Ptr → Option N) → Option N
  load p h = if p == null then none else h p

  -- `p->field = ...`: the node behind `p` is changed by `f`.
  unfoldable pub modify : Ptr → (N → N) → (Ptr → Option N) → Option (Ptr → Option N)
  unfolding load
  modify p f h = do n ← load p h; some (write h p (some (f n)))

abbrev pub has : Ptr → List Ptr → Bool
has p [] = false
has p (q ∷ xs) = (p == q) || has p xs

-- The first address, or NULL.
abbrev pub first : List Ptr → Ptr
first [] = null
first (p ∷ xs) = p

-- The last address, or NULL.
abbrev pub last : List Ptr → Ptr
last [] = null
last (p ∷ []) = p
last (p ∷ q ∷ xs) = last (q ∷ xs)

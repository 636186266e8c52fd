-- ===== src/RoundRobin/Exchange.antt =====
-- The exchange sort of `weight_servers` (code/web_switch/round_robin.c), and the sum that it keeps.
use heimdall_web_switch.Prelude.{
  ℕ, zero, suc, ◌+◌, ◌≤◌, ◌<◌, ◌≡◌, refl, ◌⊎◌, inl, inr, false, ap, ap₂, subst, ltb, ◌∙◌,
}
use heimdall_web_switch.Prelude.{
  some, List, [], ◌∷◌, arith, if◌then◌else◌, Bool-cases, length, dec_lt,
}
use heimdall_web_switch.Prelude.Int.{ℤ, pos, pos_part, neg_part, ltb_ℤ, ◌+ℤ◌}
use heimdall_web_switch.Types.{Server}
use heimdall_web_switch.RoundRobin.{exchange, weigh}

-- The weight as a number; `NonNeg` servers have no other.
abbrev pub heft : Server → ℕ
heft x = pos_part x.weight

abbrev pub NonNeg : List Server → Type 0
NonNeg [] = Unit {0}
NonNeg (x ∷ xs) = (neg_part x.weight ≡ 0) × NonNeg xs

-- A sum over the entries.
abbrev pub sum_of : (Server → ℕ) → List Server → ℕ
sum_of f [] = 0
sum_of f (x ∷ xs) = f x + sum_of f xs

abbrev pub total : List Server → ℕ
total xs = sum_of heft xs

abbrev pub NotAbove : ℕ → List Server → Type 0
NotAbove n [] = Unit {0}
NotAbove n (x ∷ xs) = (n ≤ heft x) × NotAbove n xs

-- The weights do not fall along the array.
abbrev pub Ascending : List Server → Type 0
Ascending [] = Unit {0}
Ascending (x ∷ xs) = NotAbove (heft x) xs × Ascending xs

exchange-sum_of :
    (f : Server → ℕ) (x : Server) (xs : List Server)
    → f (exchange x xs).0 + sum_of f (exchange x xs).1 ≡ f x + sum_of f xs
unfolding exchange
exchange-sum_of f x [] = refl
exchange-sum_of f x (y ∷ ys) = elim (Bool-cases (ltb_ℤ y.weight x.weight)) [
  | inl lighter ↦ rw lighter (omega (arith, exchange-sum_of f y ys))
  | inr other ↦ rw other (omega (arith, exchange-sum_of f x ys))
]

exchange-length : (x : Server) (xs : List Server) → length (exchange x xs).1 ≡ length xs
unfolding exchange
exchange-length x [] = refl
exchange-length x (y ∷ ys) = ap suc (exchange-length (if ltb_ℤ y.weight x.weight then y else x) ys)

exchange-NonNeg :
    (x : Server) (xs : List Server)
    → neg_part x.weight ≡ 0
    → NonNeg xs
    → (neg_part (exchange x xs).0.weight ≡ 0) × NonNeg (exchange x xs).1
unfolding exchange
exchange-NonNeg x [] h hs = (h, tt)
exchange-NonNeg x (y ∷ ys) h hs = elim (Bool-cases (ltb_ℤ y.weight x.weight)) [
  | inl lighter ↦ rw lighter (let r = exchange-NonNeg y ys hs.0 hs.1 in (r.0, (h, r.1)))
  | inr other ↦ rw other (let r = exchange-NonNeg x ys h hs.1 in (r.0, (hs.0, r.1)))
]

-- The first entry of the exchange is the lightest.
exchange-least :
    (x : Server) (xs : List Server)
    → neg_part x.weight ≡ 0
    → NonNeg xs
    → (heft (exchange x xs).0 ≤ heft x) × NotAbove (heft (exchange x xs).0) (exchange x xs).1
unfolding exchange
exchange-least x [] h hs = (omega arith, tt)
exchange-least x (y ∷ ys) h hs =
    let nonneg : neg_part (if ltb_ℤ y.weight x.weight then y else x).weight ≡ 0 = ground arith in
    let r = exchange-least (if ltb_ℤ y.weight x.weight then y else x) ys nonneg hs.1 in
    (ground (arith, r.0), (ground (arith, r.0), r.1))

-- Where nothing is lighter, nothing is exchanged.
exchange-NotAbove :
    (x : Server) (xs : List Server)
    → neg_part x.weight ≡ 0
    → NonNeg xs
    → NotAbove (heft x) xs
    → exchange x xs ≡ (x, xs)
unfolding exchange
exchange-NotAbove x [] h hs above = refl
exchange-NotAbove x (y ∷ ys) h hs above =
    let stays : ltb_ℤ y.weight x.weight ≡ false = ground arith in
    rw stays (rw (exchange-NotAbove x ys h hs.1 above.1))

-- Where the first entry keeps its weight, nothing was lighter.
exchange-same :
    (x : Server) (xs : List Server)
    → neg_part x.weight ≡ 0
    → NonNeg xs
    → heft x ≤ heft (exchange x xs).0
    → NotAbove (heft x) xs
unfolding exchange
exchange-same x [] h hs least = tt
exchange-same x (y ∷ ys) h hs least = elim (Bool-cases (ltb_ℤ y.weight x.weight)) [
  | inl lighter ↦ absurd (ground (arith, exchange-least y ys hs.0 hs.1))
  | inr other ↦ (ground arith, exchange-same x ys h hs.1 (ground arith))
]

add-NonNeg : (a : ℕ) (w : ℤ) → neg_part w ≡ 0 → pos a +ℤ w ≡ pos (a + pos_part w)
unfolding ◌+ℤ◌
add-NonNeg a w h = ground arith

-- What the outer loop ends with, on nonnegative weights.
pub record Weighed (xs ys : List Server) (added : ℕ) : Type 0 where
  pub same : (f : Server → ℕ) → sum_of f ys ≡ sum_of f xs
  pub keeps : NonNeg ys
  pub entries : length ys ≡ length xs
  pub sorted : Ascending ys
  pub excess : Ascending xs × (ys ≡ xs) × (added ≡ total xs) ⊎ (total xs < added)

-- How many entries are lighter than `n`.
abbrev lighter_than : ℕ → List Server → ℕ
lighter_than n xs = sum_of (λ x. if ltb (heft x) n then 1 else 0) xs

lighter_than-NotAbove : (n : ℕ) (xs : List Server) → NotAbove n xs → lighter_than n xs ≡ 0
lighter_than-NotAbove n [] above = refl
lighter_than-NotAbove n (x ∷ xs) above = ground (arith, lighter_than-NotAbove n xs above.1)

NotAbove-lighter_than : (n : ℕ) (xs : List Server) → lighter_than n xs ≡ 0 → NotAbove n xs
NotAbove-lighter_than n [] none_lighter = tt
NotAbove-lighter_than n (x ∷ xs) none_lighter =
    (ground arith, NotAbove-lighter_than n xs (ground arith))

abbrev pub Outcome : ℕ → ℕ → List Server → Type 0
Outcome n a xs =
    (ys : List Server) × (added : ℕ) × (weigh (suc n) xs (pos a) ≡ some (ys, pos (a + added)))
    × Weighed xs ys added

excess-cons :
    (x : Server) (xs ys : List Server) (added : ℕ)
    → neg_part x.weight ≡ 0
    → NonNeg xs
    → Weighed (exchange x xs).1 ys added
    → Ascending (x ∷ xs) × ((exchange x xs).0 ∷ ys ≡ x ∷ xs) × (heft x + added ≡ total (x ∷ xs))
      ⊎ (total (x ∷ xs) < heft x + added)
excess-cons x xs ys added h hs w = elim (dec_lt (heft (exchange x xs).0) (heft x)) [
  | yes less ↦ inr (elim w.excess [
    | inl (asc, same, exact) ↦ omega (arith, exchange-sum_of heft x xs)
    | inr more ↦ omega (arith, exchange-sum_of heft x xs)
  ])
  | no same ↦
      let above = exchange-same x xs h hs (omega arith) in
      let stays = exchange-NotAbove x xs h hs above in
      elim w.excess [
        | inl (asc, eq, exact) ↦ inl (
          (above, subst Ascending (ap (λ r. r.1) stays) asc),
          ap₂ ◌∷◌ (ap (λ r. r.0) stays) (eq ∙ ap (λ r. r.1) stays),
          omega (arith, exchange-sum_of heft x xs, ap (λ r. heft r.0) stays),
        )
        | inr more ↦ inr (omega (arith, exchange-sum_of heft x xs, ap (λ r. heft r.0) stays))
      ]
]

weigh-cons :
    (n a : ℕ) (x : Server) (xs : List Server)
    → NonNeg (x ∷ xs)
    → Outcome n (a + heft x) (exchange x xs).1
    → Outcome (suc n) a (x ∷ xs)
unfolding weigh
weigh-cons n a x xs h (ys, added, e, w) = (
  (exchange x xs).0 ∷ ys,
  heft x + added,
  rw (add-NonNeg a x.weight h.0, e, weigh)
      (ap (λ k. some ((exchange x xs).0 ∷ ys, pos k)) (omega arith)),
  record {
    same = λ f. omega (arith, exchange-sum_of f x xs, w.same f);
    keeps = ((exchange-NonNeg x xs h.0 h.1).0, w.keeps);
    entries = omega (arith, w.entries, exchange-length x xs);
    sorted = (
      NotAbove-lighter_than (heft (exchange x xs).0) ys (
          w.same _
          ∙ lighter_than-NotAbove (heft (exchange x xs).0) (exchange x xs).1
              (exchange-least x xs h.0 h.1).1),
      w.sorted,
    );
    excess = excess-cons x xs ys added h.0 h.1 w;
  },
)

-- The outer loop over `server_num` nonnegative weights.
pub weigh-Weighed : (n a : ℕ) (xs : List Server) → length xs ≡ suc n → NonNeg xs → Outcome n a xs
unfolding weigh
weigh-Weighed n a [] len h = absurd (omega arith)
weigh-Weighed zero a (x ∷ []) len h = (
  x ∷ [],
  heft x,
  rw (add-NonNeg a x.weight h.0),
  record {
    same = λ f. refl;
    keeps = h;
    entries = refl;
    sorted = (tt, tt);
    excess = inl ((tt, tt), refl, omega arith);
  },
)
weigh-Weighed zero a (x ∷ y ∷ xs) len h = absurd (omega arith)
weigh-Weighed (suc n) a (x ∷ xs) len h = weigh-cons n a x xs h (
    weigh-Weighed n (a + heft x) (exchange x xs).1 (omega (arith, exchange-length x xs))
      (exchange-NonNeg x xs h.0 h.1).1)

-- On ascending weights nothing moves, and `weight_sum` is the sum of the weights.
pub weigh-Ascending :
    (n a : ℕ) (xs : List Server)
    → length xs ≡ suc n
    → NonNeg xs
    → Ascending xs
    → weigh (suc n) xs (pos a) ≡ some (xs, pos (a + total xs))
unfolding weigh
weigh-Ascending n a [] len h asc = absurd (omega arith)
weigh-Ascending zero a (x ∷ []) len h asc =
    rw (add-NonNeg a x.weight h.0) (ap (λ k. some (x ∷ [], pos k)) (omega arith))
weigh-Ascending zero a (x ∷ y ∷ xs) len h asc = absurd (omega arith)
weigh-Ascending (suc n) a (x ∷ xs) len h asc =
    rw
      (
        exchange-NotAbove x xs h.0 h.1 asc.0,
        add-NonNeg a x.weight h.0,
        weigh-Ascending n (a + heft x) xs (omega arith) h.1 asc.1,
        weigh,
      )
      (rw (exchange-NotAbove x xs h.0 h.1 asc.0) (ap (λ k. some (x ∷ xs, pos k)) (omega arith)))

-- ===== src/RoundRobin/Even.antt =====
-- The pattern of `weight_servers` (code/web_switch/round_robin.c) when all weights are 1.
use heimdall_web_switch.Prelude.{
  ℕ, zero, suc, ◌+◌, ◌<◌, ◌≡◌, refl, ap, ap₂, sym, subst, ◌∙◌, some, List, [], ◌∷◌, ◌++◌, length,
  length-append, get_or, set, append_assoc, arith,
}
use heimdall_web_switch.Prelude.Int.{pos, pos_part, neg_part, ◌-ℤ◌}
use heimdall_web_switch.Types.{Server}
use heimdall_web_switch.Circular.{no_server}
use heimdall_web_switch.RoundRobin.{pattern_loop, weigh, weight_pattern}
use heimdall_web_switch.RoundRobin.Exchange.{
  heft, NonNeg, total, NotAbove, Ascending, weigh-Ascending,
}
use heimdall_web_switch.RoundRobin.Taking.{
  lighter, taken, next_index, loop-take, loop-break, length-taken, total-lighter,
}

-- Every weight is 1.
abbrev pub AllOne : List Server → Type 0
AllOne [] = Unit {0}
AllOne (x ∷ xs) = (x.weight ≡ pos 1) × AllOne xs

get_or-append :
    (d rest : List Server) (x : Server) → get_or (d ++ (x ∷ rest)) (length d) no_server ≡ x
get_or-append [] rest x = refl
get_or-append (y ∷ d) rest x = get_or-append d rest x

set-append :
    (d rest : List Server) (x v : Server) → set (d ++ (x ∷ rest)) (length d) v ≡ d ++ (v ∷ rest)
set-append [] rest x v = refl
set-append (y ∷ d) rest x v = ap (λ l. y ∷ l) (set-append d rest x v)

abbrev one_less : Server → Server
one_less x = record x { weight = x.weight -ℤ pos 1 }

lighter-append :
    (d rest : List Server) (x : Server)
    → lighter (d ++ (x ∷ rest)) (length d) ≡ d ++ (one_less x ∷ rest)
lighter-append d rest x = rw (get_or-append d rest x) (set-append d rest x (one_less x))

-- With all weights 1 from `s` on, the loop takes what is left, in its order.
pattern_loop-AllOne :
    (rest : List Server) (x : Server) (d out xs : List Server) (n s fuel : ℕ)
    → xs ≡ d ++ (x ∷ rest)
    → s ≡ length d
    → n ≡ length d + suc (length rest)
    → length out ≡ length d
    → AllOne (x ∷ rest)
    → NonNeg xs
    → length rest < fuel
    → pattern_loop fuel n (pos n) xs s out ≡ some (out ++ (x ∷ rest))
pattern_loop-AllOne rest x d out xs n s zero exs es en eo ones nonneg h = absurd (omega arith)
pattern_loop-AllOne [] x d out xs n s (suc fuel) exs es en eo ones nonneg h =
    let at : get_or xs s no_server ≡ x =
      ap₂ (λ l k. get_or l k no_server) exs es ∙ get_or-append d [] x in
    let positive : 0 < heft (get_or xs s no_server) = ground (arith, ones.0, at) in
    loop-break fuel n n s xs out nonneg positive (omega arith) ∙ ap (λ y. some (out ++ (y ∷ []))) at
pattern_loop-AllOne (y ∷ rest) x d out xs n s (suc fuel) exs es en eo ones nonneg h =
    let at : get_or xs s no_server ≡ x =
      ap₂ (λ l k. get_or l k no_server) exs es ∙ get_or-append d (y ∷ rest) x in
    let positive : 0 < heft (get_or xs s no_server) = ground (arith, ones.0, at) in
    let left : lighter xs s ≡ (d ++ (one_less x ∷ [])) ++ (y ∷ rest) =
      ap₂ lighter exs es
      ∙ lighter-append d (y ∷ rest) x
      ∙ sym (append_assoc d (one_less x ∷ []) (y ∷ rest)) in
    let on : next_index n s ≡ length (d ++ (one_less x ∷ [])) =
      ground (arith, length-append d (one_less x ∷ [])) in
    loop-take fuel n n s xs out nonneg positive (omega arith)
    ∙ pattern_loop-AllOne rest y (d ++ (one_less x ∷ [])) (taken xs s out) (lighter xs s) n
        (next_index n s) fuel left on (omega (arith, length-append d (one_less x ∷ [])))
        (omega (arith, length-append d (one_less x ∷ []), length-taken xs s out)) ones.1
        (total-lighter xs s nonneg positive).1 (omega arith)
    ∙ ap some (ap (λ z. (out ++ (z ∷ [])) ++ (y ∷ rest)) at ∙ append_assoc out (x ∷ []) (y ∷ rest))

total-AllOne : (xs : List Server) → AllOne xs → total xs ≡ length xs
total-AllOne [] ones = refl
total-AllOne (x ∷ xs) ones = omega (arith, total-AllOne xs ones.1, ap pos_part ones.0)

NonNeg-AllOne : (xs : List Server) → AllOne xs → NonNeg xs
NonNeg-AllOne [] ones = tt
NonNeg-AllOne (x ∷ xs) ones = (ap neg_part ones.0, NonNeg-AllOne xs ones.1)

NotAbove-AllOne : (xs : List Server) → AllOne xs → NotAbove 1 xs
NotAbove-AllOne [] ones = tt
NotAbove-AllOne (x ∷ xs) ones = (omega (arith, ap pos_part ones.0), NotAbove-AllOne xs ones.1)

Ascending-AllOne : (xs : List Server) → AllOne xs → Ascending xs
Ascending-AllOne [] ones = tt
Ascending-AllOne (x ∷ xs) ones = (
  subst (λ (w : ℕ). NotAbove w xs) (sym (ap pos_part ones.0)) (NotAbove-AllOne xs ones.1),
  Ascending-AllOne xs ones.1,
)

-- The pattern of servers of weight 1 is the servers themselves.
pub weight_pattern-AllOne :
    (x : Server) (xs : List Server) (fuel : ℕ)
    → AllOne (x ∷ xs)
    → length xs < fuel
    → weight_pattern fuel (x ∷ xs) (suc (length xs)) ≡ some (x ∷ xs, pos (suc (length xs)))
unfolding weight_pattern
weight_pattern-AllOne x xs fuel ones h =
    let sum : 0 + total (x ∷ xs) ≡ suc (length xs) = omega (arith, total-AllOne (x ∷ xs) ones) in
    let sorted : weigh (suc (length xs)) (x ∷ xs) (pos 0) ≡ some (x ∷ xs, pos (suc (length xs))) =
      weigh-Ascending (length xs) 0 (x ∷ xs) refl (NonNeg-AllOne (x ∷ xs) ones)
        (Ascending-AllOne (x ∷ xs) ones)
      ∙ ap (λ n. some (x ∷ xs, pos n)) sum in
    let looped =
      pattern_loop-AllOne xs x [] [] (x ∷ xs) (suc (length xs)) 0 fuel refl refl (omega arith) refl
        ones (NonNeg-AllOne (x ∷ xs) ones) h in
    rw (sorted, weight_pattern) (rw looped)

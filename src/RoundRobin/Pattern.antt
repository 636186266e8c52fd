-- ===== src/RoundRobin/Pattern.antt =====
-- The weighted pattern of `weight_servers` (code/web_switch/round_robin.c).
use heimdall_web_switch.Prelude.{
  ℕ, zero, suc, ◌+◌, ◌-◌, ◌*◌, ◌≤◌, ◌<◌, ◌≡◌, refl, ℕ_discrete, ◌⊎◌, inl, inr, Bool, ap, ◌∙◌,
}
use heimdall_web_switch.Prelude.{none, some, List, [], ◌∷◌, arith, length, get_or, drop}
use heimdall_web_switch.Prelude.{length-set, count_if}
use heimdall_web_switch.Prelude.Int.{pos}
use heimdall_web_switch.Types.{Server}
use heimdall_web_switch.Circular.{no_server}
use heimdall_web_switch.RoundRobin.{pattern_loop, weigh, weight_pattern}
use heimdall_web_switch.RoundRobin.Exchange.{
  heft, NonNeg, total, Ascending, weigh-Weighed, weigh-Ascending,
}
use heimdall_web_switch.RoundRobin.Taking.{
  lighter, total-lighter, weight_in, IgnoresWeight, next_index, taken, length-taken, loop-skip,
  loop-take, loop-break, zero_or_pos, pattern_loop-counts, pattern_loop-none,
}

abbrev pub Ends : ℕ → ℕ → ℕ → ℕ → List Server → List Server → Type 0
Ends fuel n w s xs out = (pat : List Server) × (pattern_loop fuel n (pos w) xs s out ≡ some pat)

drop-nil {ℓ} : (A : Type ℓ) (s : ℕ) → drop {A = A} s [] ≡ []
drop-nil A zero = refl
drop-nil A (suc s) = refl

total-drop :
    (xs : List Server) (s : ℕ)
    → total (drop s xs) ≡ heft (get_or xs s no_server) + total (drop (suc s) xs)
total-drop [] s = rw drop-nil refl
total-drop (x ∷ xs) zero = refl
total-drop (x ∷ xs) (suc s) = total-drop xs s

total-drop_all : (xs : List Server) (s : ℕ) → length xs ≤ s → total (drop s xs) ≡ 0
total-drop_all [] s h = rw drop-nil
total-drop_all (x ∷ xs) zero h = absurd (omega arith)
total-drop_all (x ∷ xs) (suc s) h = total-drop_all xs s (omega arith)

-- `w` is what the weights that are left can still fill.
record IsOpen (n w : ℕ) (xs out : List Server) : Type 0 where
  nonneg : NonNeg xs
  entries : length xs ≡ n
  fills : total xs + length out ≡ w
  left : 0 < total xs

-- One step, given that the loop ends from the next index on.
step-Ends :
    (n w fuel s : ℕ) (xs out : List Server)
    → IsOpen n w xs out
    → ((heft (get_or xs s no_server) ≡ 0) → Ends fuel n w (next_index n s) xs out)
    → ((o : IsOpen n w (lighter xs s) (taken xs s out))
        → (total (lighter xs s) + 1 ≡ total xs)
        → Ends fuel n w (next_index n s) (lighter xs s) (taken xs s out))
    → Ends (suc fuel) n w s xs out
step-Ends n w fuel s xs out o skip on = elim (zero_or_pos (heft (get_or xs s no_server))) [
  | inl empty ↦ let (pat, e) = skip empty in (pat, loop-skip fuel n w s xs out o.nonneg empty ∙ e)
  | inr positive ↦ elim (ℕ_discrete (length out + 1) w) [
    | yes full ↦ (taken xs s out, loop-break fuel n w s xs out o.nonneg positive full)
    | no more ↦
        let less = total-lighter xs s o.nonneg positive in
        let o' : IsOpen n w (lighter xs s) (taken xs s out) = record {
          nonneg = less.1;
          entries = length-set xs s _ ∙ o.entries;
          fills = omega (arith, less.0, o.fills, length-taken xs s out);
          left = omega (arith, less.0, o.fills);
        } in
        let (pat, e) = on o' less.0 in (pat, loop-take fuel n w s xs out o.nonneg positive more ∙ e)
  ]
]

abbrev Progress : ℕ → ℕ → List Server → Type 0
Progress r s xs = (total xs < r) ⊎ (total xs ≤ r) × (0 < total (drop s xs))

module _ (n w r f : ℕ)
    (again : (xs out : List Server) → IsOpen n w xs out → total xs < r → Ends f n w 0 xs out) where
  -- At the last index of a round.
  wraps :
      (fuel s : ℕ) (xs out : List Server)
      → fuel ≡ f
      → s + 1 ≡ n
      → IsOpen n w xs out
      → Progress r (suc s) xs
      → Ends fuel n w (next_index n s) xs out
  wraps fuel s xs out e at o p =
      let first : next_index n s ≡ 0 = ground arith in
      rw (first, e)
        (again xs out o (omega (arith, p, total-drop_all xs (suc s) (omega (arith, o.entries)))))

  -- The rest of a round: it ends, or comes back to index 0 with less weight than at its start.
  round-Ends :
      (k fuel s : ℕ) (xs out : List Server)
      → fuel ≡ suc k + f
      → s + suc k ≡ n
      → IsOpen n w xs out
      → Progress r s xs
      → Ends fuel n w s xs out
  round-Ends k zero s xs out e at o p = absurd (omega arith)
  round-Ends zero (suc fuel) s xs out e at o p =
      step-Ends n w fuel s xs out o
        (λ empty.
          wraps fuel s xs out (omega arith) (omega arith) o (omega (arith, p, total-drop xs s)))
        (λ o' less.
          wraps fuel s (lighter xs s) (taken xs s out) (omega arith) (omega arith) o'
            (inl (omega (arith, p))))
  round-Ends (suc k) (suc fuel) s xs out e at o p =
      let onward : next_index n s ≡ suc s = ground arith in
      step-Ends n w fuel s xs out o
        (λ empty. rw onward (
          round-Ends k fuel (suc s) xs out (omega arith) (omega arith) o
            (omega (arith, p, total-drop xs s))))
        (λ o' less. rw onward (
          round-Ends k fuel (suc s) (lighter xs s) (taken xs s out) (omega arith) (omega arith) o'
            (inl (omega (arith, p)))))

-- A round takes a turn of at least one server, so `n` rounds for each unit of weight are enough.
pattern_loop-Ends :
    (r n w fuel : ℕ) (xs out : List Server)
    → IsOpen n w xs out
    → total xs ≤ r
    → 0 < n
    → n * r ≤ fuel
    → Ends fuel n w 0 xs out
pattern_loop-Ends zero n w fuel xs out o le p enough = absurd (omega (arith, o.left))
pattern_loop-Ends (suc r) n w fuel xs out o le p enough =
    round-Ends n w (suc r) (fuel - n)
      (λ xs' out' o' less.
        pattern_loop-Ends r n w (fuel - n) xs' out' o' (omega arith) p (omega arith))
      (n - 1) fuel 0 xs out (omega arith) (omega arith) o (inr (le, o.left))

-- On servers whose weights are nonnegative, not all zero, and in ascending order, `weight_servers`
-- makes its pattern within `server_num` times the sum of the weights steps of its loop. The pattern has
-- one entry for each unit of weight, and by any test that does not look at the weight each server has
-- as many entries as its weight.
pub weight_pattern-Ascending :
    (p : Server → Bool) (n fuel : ℕ) (xs : List Server)
    → IgnoresWeight p
    → length xs ≡ suc n
    → NonNeg xs
    → Ascending xs
    → 0 < total xs
    → suc n * total xs ≤ fuel
    → (pat : List Server) × (weight_pattern fuel xs (suc n) ≡ some (pat, pos (total xs)))
      × (length pat ≡ total xs)
      × (count_if p pat ≡ weight_in p xs)
unfolding weight_pattern
weight_pattern-Ascending p n fuel xs blind len h asc positive enough =
    let o : IsOpen (suc n) (total xs) xs [] = record {
      nonneg = h;
      entries = len;
      fills = omega arith;
      left = positive;
    } in
    let (pat, ends) =
      pattern_loop-Ends (total xs) (suc n) (total xs) fuel xs [] o (omega arith) (omega arith)
        enough in
    let weighed : weigh (suc n) xs (pos 0) ≡ some (xs, pos (total xs)) =
      weigh-Ascending n 0 xs len h asc ∙ ap (λ k. some (xs, pos k)) (omega arith) in
    let counts =
      pattern_loop-counts p blind fuel (suc n) (total xs) 0 xs [] pat h (omega arith) ends in
    (pat, rw (weighed, ends, weight_pattern), counts.0, omega (arith, counts.1))

-- On nonnegative weights that are not in ascending order the loop of `weight_servers` ends within no
-- number of steps: `weight_sum` has counted the weights that stood at each position before lighter ones
-- were exchanged into it, and is more than the pattern can get.
pub weight_pattern-unsorted :
    (n fuel : ℕ) (xs : List Server)
    → length xs ≡ suc n
    → NonNeg xs
    → ¬ Ascending xs
    → weight_pattern fuel xs (suc n) ≡ none
unfolding weight_pattern
weight_pattern-unsorted n fuel xs len h unsorted =
    let (ys, added, e, w) = weigh-Weighed n 0 xs len h in
    let more : total xs < added = elim w.excess [
      | inl (asc, same, exact) ↦ absurd (unsorted asc)
      | inr more ↦ more
    ] in
    rw (
      e,
      pattern_loop-none fuel (suc n) (0 + added) 0 ys [] w.keeps (omega (arith, w.same heft)),
      weight_pattern,
    )

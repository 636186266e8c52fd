-- ===== src/RoundRobin/Taking.antt =====
-- The loop of `weight_servers` (code/web_switch/round_robin.c) that makes the pattern, turn by turn.
use heimdall_web_switch.Prelude.{
  ℕ, zero, suc, ◌+◌, ◌≤◌, ◌<◌, ◌≡◌, refl, sym, ◌≢◌, ℕ_discrete, ◌⊎◌, inl, inr, Bool, true, false,
  ◌∙◌,
}
use heimdall_web_switch.Prelude.{
  none, some, List, [], ◌∷◌, ◌++◌, arith, ◌==◌, if◌then◌else◌, length, get_or, set,
}
use heimdall_web_switch.Prelude.{length-append, count_if, count_if-append}
use heimdall_web_switch.Prelude.Int.{ℤ, pos, pos_part, neg_part, ltb_ℤ, eq_ℤ, ◌-ℤ◌}
use heimdall_web_switch.Types.{Server}
use heimdall_web_switch.Circular.{no_server}
use heimdall_web_switch.RoundRobin.{pattern_loop}
use heimdall_web_switch.RoundRobin.Exchange.{heft, NonNeg, sum_of, total}

-- The entry at `s` after one of its turns was taken.
abbrev pub lighter : List Server → ℕ → List Server
lighter xs s =
    set xs s (record (get_or xs s no_server) { weight = (get_or xs s no_server).weight -ℤ pos 1 })

get_or-NonNeg : (xs : List Server) (s : ℕ) → NonNeg xs → neg_part (get_or xs s no_server).weight ≡ 0
get_or-NonNeg [] s h = refl
get_or-NonNeg (x ∷ xs) zero h = h.0
get_or-NonNeg (x ∷ xs) (suc s) h = get_or-NonNeg xs s h.1

set-NonNeg :
    (xs : List Server) (s : ℕ) (v : Server)
    → NonNeg xs
    → neg_part v.weight ≡ 0
    → NonNeg (set xs s v)
set-NonNeg [] s v h hv = tt
set-NonNeg (x ∷ xs) zero v h hv = (hv, h.1)
set-NonNeg (x ∷ xs) (suc s) v h hv = (h.0, set-NonNeg xs s v h.1 hv)

one_less :
    (w : ℤ)
    → neg_part w ≡ 0
    → 0 < pos_part w
    → (pos_part (w -ℤ pos 1) + 1 ≡ pos_part w) × (neg_part (w -ℤ pos 1) ≡ 0)
unfolding ◌-ℤ◌
one_less w h p = ground arith

-- A positive entry is in the array, and writing it trades its share of a sum.
sum_of-set :
    (f : Server → ℕ) (xs : List Server) (s : ℕ) (v : Server)
    → 0 < heft (get_or xs s no_server)
    → sum_of f (set xs s v) + f (get_or xs s no_server) ≡ sum_of f xs + f v
sum_of-set f [] s v p = absurd (omega arith)
sum_of-set f (x ∷ xs) zero v p = omega arith
sum_of-set f (x ∷ xs) (suc s) v p = omega (arith, sum_of-set f xs s v p)

pub total-lighter :
    (xs : List Server) (s : ℕ)
    → NonNeg xs
    → 0 < heft (get_or xs s no_server)
    → (total (lighter xs s) + 1 ≡ total xs) × NonNeg (lighter xs s)
total-lighter xs s h p =
    let less = one_less (get_or xs s no_server).weight (get_or-NonNeg xs s h) p in
    (
      omega (
        arith,
        less.0,
        sum_of-set heft xs s
            (record (get_or xs s no_server) { weight = (get_or xs s no_server).weight -ℤ pos 1 }) p,
      ),
      set-NonNeg xs s _ h less.1,
    )

-- The weight of the entries that pass a test.
abbrev pub weight_in : (Server → Bool) → List Server → ℕ
weight_in p xs = sum_of (λ x. if p x then heft x else 0) xs

weight_in-le : (p : Server → Bool) (xs : List Server) → weight_in p xs ≤ total xs
weight_in-le p [] = omega arith
weight_in-le p (x ∷ xs) = ground (arith, weight_in-le p xs)

-- The test does not look at the weight, which falls while the pattern is made.
abbrev pub IgnoresWeight : (Server → Bool) → Type 0
IgnoresWeight p = (x : Server) (w : ℤ) → p (record x { weight = w }) ≡ p x

-- The index behind `s`, round the array.
abbrev pub next_index : ℕ → ℕ → ℕ
next_index n s = if s + 1 == n then 0 else s + 1

abbrev pub taken : List Server → ℕ → List Server → List Server
taken xs s out = out ++ (get_or xs s no_server ∷ [])

pub length-taken :
    (xs : List Server) (s : ℕ) (out : List Server) → length (taken xs s out) ≡ length out + 1
length-taken xs s out = omega (arith, length-append out (get_or xs s no_server ∷ []))

module _ (fuel n w s : ℕ) (xs out : List Server) (h : NonNeg xs) where
  pub loop-skip :
      heft (get_or xs s no_server) ≡ 0
      → pattern_loop (suc fuel) n (pos w) xs s out
        ≡ pattern_loop fuel n (pos w) xs (next_index n s) out
  unfolding pattern_loop
  loop-skip empty =
      let test : ltb_ℤ (pos 0) (get_or xs s no_server).weight ≡ false = ground arith in rw test

  pub loop-take :
      0 < heft (get_or xs s no_server)
      → length out + 1 ≢ w
      → pattern_loop (suc fuel) n (pos w) xs s out
        ≡ pattern_loop fuel n (pos w) (lighter xs s) (next_index n s) (taken xs s out)
  unfolding pattern_loop
  loop-take positive more =
      let test : ltb_ℤ (pos 0) (get_or xs s no_server).weight ≡ true =
        ground (arith, get_or-NonNeg xs s h) in
      let on : eq_ℤ (pos (length (taken xs s out))) (pos w) ≡ false =
        ground (arith, length-taken xs s out) in
      rw (test, on)

  pub loop-break :
      0 < heft (get_or xs s no_server)
      → length out + 1 ≡ w
      → pattern_loop (suc fuel) n (pos w) xs s out ≡ some (taken xs s out)
  unfolding pattern_loop
  loop-break positive full =
      let test : ltb_ℤ (pos 0) (get_or xs s no_server).weight ≡ true =
        ground (arith, get_or-NonNeg xs s h) in
      let done : eq_ℤ (pos (length (taken xs s out))) (pos w) ≡ true =
        ground (arith, length-taken xs s out) in
      rw (test, done)

pub zero_or_pos : (n : ℕ) → (n ≡ 0) ⊎ (0 < n)
zero_or_pos n = omega arith

module _ (p : Server → Bool) (blind : IgnoresWeight p) where
  weight_in-lighter :
      (xs : List Server) (s : ℕ)
      → NonNeg xs
      → 0 < heft (get_or xs s no_server)
      → weight_in p (lighter xs s) + (if p (get_or xs s no_server) then 1 else 0) ≡ weight_in p xs
  weight_in-lighter xs s h positive =
      let c = get_or xs s no_server in
      ground (
        arith,
        sum_of-set (λ x. if p x then heft x else 0) xs s (record c { weight = c.weight -ℤ pos 1 })
            positive,
        one_less c.weight (get_or-NonNeg xs s h) positive,
        blind c (c.weight -ℤ pos 1),
      )

  pub pattern_loop-counts :
      (fuel n w s : ℕ) (xs out pat : List Server)
      → NonNeg xs
      → total xs + length out ≡ w
      → pattern_loop fuel n (pos w) xs s out ≡ some pat
      → (length pat ≡ w) × (count_if p pat ≡ count_if p out + weight_in p xs)
  unfolding pattern_loop
  pattern_loop-counts zero n w s xs out pat h t e = cc
  pattern_loop-counts (suc fuel) n w s xs out pat h t e =
      let c = get_or xs s no_server in
      elim (zero_or_pos (heft c)) [
        | inl empty ↦
            pattern_loop-counts fuel n w (next_index n s) xs out pat h t
              (sym (loop-skip fuel n w s xs out h empty) ∙ e)
        | inr positive ↦
            let less = total-lighter xs s h positive in
            let part = weight_in-lighter xs s h positive in
            elim (ℕ_discrete (length out + 1) w) [
              | yes full ↦
                  let same : pat ≡ taken xs s out =
                    cc (loop-break fuel n w s xs out h positive full) in
                  rw same (
                    omega (arith, length-taken xs s out),
                    omega (
                      arith,
                      count_if-append p out (c ∷ []),
                      part,
                      less.0,
                      weight_in-le p (lighter xs s),
                    ),
                  )
              | no more ↦
                  let r =
                    pattern_loop-counts fuel n w (next_index n s) (lighter xs s) (taken xs s out)
                      pat less.1 (omega (arith, less.0, length-taken xs s out))
                      (sym (loop-take fuel n w s xs out h positive more) ∙ e) in
                  (r.0, omega (arith, r.1, part, count_if-append p out (c ∷ [])))
            ]
      ]

-- The loop has not ended within any fuel when `weight_sum` is more than the weights can fill.
pub pattern_loop-none :
    (fuel n w s : ℕ) (xs out : List Server)
    → NonNeg xs
    → total xs + length out < w
    → pattern_loop fuel n (pos w) xs s out ≡ none
unfolding pattern_loop
pattern_loop-none zero n w s xs out h t = refl
pattern_loop-none (suc fuel) n w s xs out h t = elim (zero_or_pos (heft (get_or xs s no_server))) [
  | inl empty ↦
      loop-skip fuel n w s xs out h empty ∙ pattern_loop-none fuel n w (next_index n s) xs out h t
  | inr positive ↦
      let less = total-lighter xs s h positive in
      loop-take fuel n w s xs out h positive (omega (arith, less.0))
      ∙ pattern_loop-none fuel n w (next_index n s) (lighter xs s) (taken xs s out) less.1
          (omega (arith, less.0, length-taken xs s out))
]

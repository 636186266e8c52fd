-- ===== src/Scheduler/Start/Rounds.antt =====
-- A round of `update_server_routine` (code/web_switch/scheduler.c) from the answers of the servers to the buffer
-- of the round robin.
use heimdall_web_switch.Prelude.{
  ℕ, zero, suc, ◌+◌, ◌-◌, ◌*◌, ◌≤◌, ◌<◌, ◌≡◌, refl, ◌⊎◌, inl, inr, ap, sym, subst, ◌∙◌, Bool, true,
  Option, none, some, List, [], ◌∷◌, length, ltb, count_if, arith,
}
use heimdall_web_switch.Prelude.Int.{ℤ, pos, pos_part}
use heimdall_web_switch.Throwable.{ok_from}
use heimdall_web_switch.Types.{Server}
use heimdall_web_switch.Circular.{Circular}
use heimdall_web_switch.RoundRobin.{weight_pattern}
use heimdall_web_switch.RoundRobin.Exchange.{
  NonNeg, total, Ascending, weigh-Weighed, weigh-Ascending,
}
use heimdall_web_switch.RoundRobin.Taking.{IgnoresWeight, weight_in}
use heimdall_web_switch.RoundRobin.Pattern.{weight_pattern-Ascending, weight_pattern-unsorted}
use heimdall_web_switch.Scheduler.{ServerNode, Answers, update_pool, auxiliary_buffer}
use heimdall_web_switch.Scheduler.Update.{
  AllWellWeighted, Answered, update_pool-Answered, auxiliary_buffer-NonNeg,
}
use heimdall_web_switch.Scheduler.Start.{
  asked, Updater, goes_on, end_update, update_round, reset_from,
}
use heimdall_web_switch.Scheduler.Start.Reset.{holding, reset_from-holding, reset_from-endless}

length-asked :
    (answers : ℕ → Answers) (nodes : List ServerNode) → length (asked answers nodes) ≡ length nodes
unfolding asked
length-asked answers [] = refl
length-asked answers (x ∷ nodes) = ap suc (length-asked (λ k. answers (suc k)) nodes)

-- The pattern's size is at most five times the number of servers.
total-AllWellWeighted :
    (nodes : List ServerNode)
    → AllWellWeighted nodes
    → total (auxiliary_buffer nodes) ≤ 5 * length nodes
unfolding auxiliary_buffer
total-AllWellWeighted [] all = omega arith
total-AllWellWeighted (x ∷ nodes) ((w, e, low, high), all) =
    ground (arith, total-AllWellWeighted nodes all)

abbrev sum_of_pattern : Option (List Server × ℤ) → ℕ
sum_of_pattern none = 0
sum_of_pattern (some (xs, w)) = pos_part w

mul-least : (k a b : ℕ) → a ≤ b → k * a ≤ k * b
mul-least zero a b h = omega arith
mul-least (suc k) a b h = omega (arith, mul-least k a b h)

Ascending-or :
    (n : ℕ) (xs : List Server) → length xs ≡ suc n → NonNeg xs → Ascending xs ⊎ (¬ Ascending xs)
Ascending-or n xs len nonneg =
    let (ys, added, e, w) = weigh-Weighed n 0 xs len nonneg in
    elim w.excess [
      | inl (asc, same, exact) ↦ inl asc
      | inr more ↦ inr (λ asc.
          let twice : some (ys, pos (0 + added)) ≡ some (xs, pos (0 + total xs)) =
            sym e ∙ weigh-Ascending n 0 xs len nonneg asc in
          absurd (omega (arith, more, ap sum_of_pattern twice)))
    ]

-- The state behind a round that gave this pattern.
abbrev pub renewed : ℕ → Circular → List ServerNode → List Server → Updater
renewed finished c nodes pattern = record {
  nodes = nodes;
  circular = holding c pattern;
  up_since = finished;
}

module _ (fuel finished : ℕ) (c : Circular) (nodes : List ServerNode) where
  end_update-Ascending :
      (p : Server → Bool) (n : ℕ)
      → IgnoresWeight p
      → length nodes ≡ suc n
      → AllWellWeighted nodes
      → Ascending (auxiliary_buffer nodes)
      → length nodes * (5 * length nodes) ≤ fuel
      → (pattern : List Server) × (end_update fuel c finished true true nodes (pos 0)
          ≡ some (goes_on (renewed finished c nodes pattern)))
        × (length pattern ≡ total (auxiliary_buffer nodes))
        × (count_if p pattern ≡ weight_in p (auxiliary_buffer nodes))
  unfolding end_update ok_from
  end_update-Ascending p n blind number wells asc enough =
      let servers = auxiliary_buffer nodes in
      let (nonneg, len, least) = auxiliary_buffer-NonNeg nodes wells in
      let most : suc n * total servers ≤ suc n * (5 * length nodes) =
        mul-least (suc n) (total servers) (5 * length nodes) (total-AllWellWeighted nodes wells) in
      let same : suc n * (5 * length nodes) ≡ length nodes * (5 * length nodes) =
        ap (λ k. k * (5 * length nodes)) (sym number) in
      let (pat, made, full, shares) =
        weight_pattern-Ascending p n fuel servers blind (len ∙ number) nonneg asc (omega arith)
          (omega (arith, most, same, enough)) in
      let reset : reset_from fuel c servers (length nodes) true true
          ≡ some (holding c pat, ok_from "reset_servers") =
        reset_from-holding fuel c servers (length nodes) pat (total servers)
          (ap (weight_pattern fuel servers) number ∙ made) full (omega arith) in
      (pat, rw (reset, end_update) refl, full, shares)

  end_update-unsorted :
      (n : ℕ)
      → length nodes ≡ suc n
      → AllWellWeighted nodes
      → ¬ Ascending (auxiliary_buffer nodes)
      → end_update fuel c finished true true nodes (pos 0) ≡ none
  unfolding end_update
  end_update-unsorted n number wells unsorted =
      let servers = auxiliary_buffer nodes in
      let (nonneg, len, least) = auxiliary_buffer-NonNeg nodes wells in
      let reset : reset_from fuel c servers (length nodes) true true ≡ none =
        reset_from-endless fuel c servers (length nodes) (
          ap (weight_pattern fuel servers) number
          ∙ weight_pattern-unsorted n fuel servers (len ∙ number) nonneg unsorted) in
      rw (reset, end_update)

module _ (p : Server → Bool) (fuel up_time now finished : ℕ) (answers : ℕ → Answers)
    (u : Updater) where
  -- A round that is due has ended, with its buffer made from these nodes.
  pub record IsRenewed (nodes : List ServerNode) : Type 0 where
    pub sorted : Ascending (auxiliary_buffer nodes)
    pub pattern : List Server
    pub ends :
        update_round fuel up_time now finished answers true true u
        ≡ some (goes_on (renewed finished u.circular nodes pattern))
    pub shares : count_if p pattern ≡ weight_in p (auxiliary_buffer nodes)
    pub least : length nodes ≤ length pattern
    pub most : length pattern ≤ 5 * length nodes

  -- A round that is due ends within no number of steps.
  pub record IsEndless (nodes : List ServerNode) : Type 0 where
    pub unsorted : ¬ Ascending (auxiliary_buffer nodes)
    pub endless : (k : ℕ) → update_round k up_time now finished answers true true u ≡ none

  update_round-proceeds :
      (nodes : List ServerNode) (k : ℕ)
      → up_time < now - u.up_since
      → update_pool (asked answers u.nodes) (pos 0) ≡ some (nodes, pos 0)
      → update_round k up_time now finished answers true true u
        ≡ end_update k u.circular finished true true nodes (pos 0)
  unfolding update_round
  update_round-proceeds nodes k due e =
      let test : ltb up_time (now - u.up_since) ≡ true = ground arith in rw (test, e, update_round)

  -- A round of `update_server_routine` that is due, over one or more servers of which each gives its counts, with
  -- a worker idle and one busy, or does not reply, scans the pool with `update_pool`, which keeps the number of the servers and gives every server a
  -- weight from 1 to 5. When the weights that it gave stand in ascending order in the pool, and the mutex calls succeed, the
  -- round ends within five times the square of the number of servers steps of the loop of `weight_servers`:
  -- its buffer then holds each server, by any test that does not look at the weight, as often as its
  -- weight, between once and five times for each server in all. When they do not, the round ends within no
  -- number of steps.
  pub update_round-Answered :
      IgnoresWeight p
      → up_time < now - u.up_since
      → 0 < length u.nodes
      → Answered (asked answers u.nodes)
      → length u.nodes * (5 * length u.nodes) ≤ fuel
      → (nodes : List ServerNode) × (update_pool (asked answers u.nodes) (pos 0)
          ≡ some (nodes, pos 0))
        × (length nodes ≡ length u.nodes)
        × AllWellWeighted nodes
        × (IsRenewed nodes ⊎ IsEndless nodes)
  update_round-Answered blind due some_server all enough =
      let (nodes, e, count, wells) = update_pool-Answered (asked answers u.nodes) (pos 0) all in
      let same : length nodes ≡ length u.nodes = count ∙ length-asked answers u.nodes in
      let (nonneg, len, least) = auxiliary_buffer-NonNeg nodes wells in
      let number : length nodes ≡ suc (length nodes - 1) = omega (arith, same) in
      (
        nodes,
        e,
        same,
        wells,
        elim (Ascending-or (length nodes - 1) (auxiliary_buffer nodes) (len ∙ number) nonneg) [
          | inl asc ↦
              let (pat, ends, full, shares) =
                end_update-Ascending fuel finished u.circular nodes p (length nodes - 1) blind
                  number wells asc (subst (λ k. k * (5 * k) ≤ fuel) (sym same) enough) in
              inl (record {
                sorted = asc;
                pattern = pat;
                ends = update_round-proceeds nodes fuel due e ∙ ends;
                shares = shares;
                least = omega (arith, full, least);
                most = omega (arith, full, total-AllWellWeighted nodes wells);
              })
          | inr unsorted ↦ inr (record {
            unsorted = unsorted;
            endless = λ k.
                update_round-proceeds nodes k due e
                ∙ end_update-unsorted k finished u.circular nodes (length nodes - 1) number wells
                    unsorted;
          })
        ],
      )

-- ===== src/ThreadPool/Selection.antt =====
-- Which worker the thread pool takes (`thread_pool_loop` of code/web_switch/thread_pool.c).
use heimdall_web_switch.Prelude.{ℕ, ◌+◌, ◌≤◌, ◌<◌, ◌≡◌, refl, ◌≢◌, ◌⊎◌, inl, inr}
use heimdall_web_switch.Prelude.{Option, none, some, List, arith, ◌==◌, leb}
use heimdall_web_switch.Prelude.{get_or, count_up-inv, subst, Bool-cases}
use heimdall_web_switch.Types.{ThpSharedMem}
use heimdall_web_switch.ThreadPool.{Best, consider, select_worker}

module _ (busy counter : List ℕ) where
  -- The worker at `p` is free, none of the first `n` free ones has been used less, and none behind it
  -- as little.
  pub record IsChoice (n : ℕ) (b : Best) : Type 0 where
    pub in_range : b.position < n
    pub free : get_or busy b.position 1 ≡ 0
    pub used : b.least ≡ get_or counter b.position 0
    pub least_used : (j : ℕ) → j < n → get_or busy j 1 ≡ 0 → b.least ≤ get_or counter j 0
    pub last_of :
        (j : ℕ) → b.position < j → j < n → get_or busy j 1 ≡ 0 → b.least < get_or counter j 0

  abbrev pub AllBusy : ℕ → Type 0
  AllBusy n = (j : ℕ) → j < n → get_or busy j 1 ≢ 0

  abbrev pub Chosen : ℕ → Option Best → Type 0
  Chosen n none = AllBusy n
  Chosen n (some b) = IsChoice n b

  below_or_last : (i j : ℕ) → j < i + 1 → (j < i) ⊎ (j ≡ i)
  below_or_last i j h = omega arith

  consider-Chosen :
      (i : ℕ) (best : Option Best) → Chosen i best → Chosen (i + 1) (consider busy counter i best)
  unfolding consider
  consider-Chosen i none all = elim (Bool-cases (get_or busy i 1 == 0)) [
    | inl free ↦ rw free (record {
      in_range = omega arith;
      free = ground arith;
      used = refl;
      least_used = λ j h f. elim (below_or_last i j h) [
        | inl old ↦ absurd (all j old f)
        | inr e ↦ rw e (omega arith)
      ];
      last_of = λ j lo hi f. absurd (omega arith);
    })
    | inr taken ↦
        rw taken
          (λ j h f. elim (below_or_last i j h) [ inl old ↦ all j old f | inr e ↦ ground arith ])
  ]
  consider-Chosen i (some b) c = elim (Bool-cases (get_or busy i 1 == 0)) [
    | inl free ↦ elim (Bool-cases (leb (get_or counter i 0) b.least)) [
      | inl less ↦
          rw (free, less)
            (record {
              in_range = omega arith;
              free = ground arith;
              used = refl;
              least_used = λ j h f. elim (below_or_last i j h) [
                | inl old ↦ ground (arith, c.least_used j old f)
                | inr e ↦ rw e (omega arith)
              ];
              last_of = λ j lo hi f. absurd (omega arith);
            })
      | inr more ↦
          rw (free, more)
            (record {
              in_range = omega (arith, c.in_range);
              free = c.free;
              used = c.used;
              least_used = λ j h f. elim (below_or_last i j h) [
                | inl old ↦ c.least_used j old f
                | inr e ↦ rw e (ground arith)
              ];
              last_of = λ j lo h f. elim (below_or_last i j h) [
                | inl old ↦ c.last_of j lo old f
                | inr e ↦ rw e (ground arith)
              ];
            })
    ]
    | inr taken ↦ rw taken (record {
      in_range = omega (arith, c.in_range);
      free = c.free;
      used = c.used;
      least_used = λ j h f. elim (below_or_last i j h) [
        | inl old ↦ c.least_used j old f
        | inr e ↦ absurd (ground arith)
      ];
      last_of = λ j lo h f. elim (below_or_last i j h) [
        | inl old ↦ c.last_of j lo old f
        | inr e ↦ absurd (ground arith)
      ];
    })
  ]

-- The scan ends with no position exactly when all of the `n_prefork` workers are busy. Otherwise the
-- position that it finds is below `n_prefork` and free, no free worker has been used less often, and
-- of those used equally often it is the last.
pub select_worker-Chosen :
    (n_prefork : ℕ) (pool : ThpSharedMem)
    → Chosen pool.worker_busy pool.worker_counter n_prefork (select_worker n_prefork pool)
unfolding select_worker
select_worker-Chosen n_prefork pool =
    count_up-inv (Chosen pool.worker_busy pool.worker_counter)
      (consider pool.worker_busy pool.worker_counter) none (λ j h. absurd (omega arith))
      (consider-Chosen pool.worker_busy pool.worker_counter) n_prefork

pub select_worker-IsChoice :
    (n_prefork : ℕ) (pool : ThpSharedMem) (b : Best)
    → select_worker n_prefork pool ≡ some b
    → IsChoice pool.worker_busy pool.worker_counter n_prefork b
select_worker-IsChoice n_prefork pool b e =
    subst (Chosen pool.worker_busy pool.worker_counter n_prefork) e
      (select_worker-Chosen n_prefork pool)

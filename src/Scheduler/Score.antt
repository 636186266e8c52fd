-- ===== src/Scheduler/Score.antt =====
-- The range of the score (`apache_score` of code/web_switch/scheduler.c).
use heimdall_web_switch.Prelude.{
  ℕ, zero, suc, ◌+◌, ◌*◌, ◌/◌, ◌-◌, ◌≤◌, ◌<◌, ◌≡◌, refl, none, some, arith,
}
use heimdall_web_switch.Prelude.Int.{
  ℤ, pos, negsuc, ◌≤ℤ◌, ◌+ℤ◌, ◌-ℤ◌, ◌*ℤ◌, pos_add, pos_sub, pos_mul,
}
use heimdall_web_switch.Scheduler.{score, div_ℤ, weight_default, weight_maximum}

div_ℤ-pos : (a n : ℕ) → 0 < n → div_ℤ (pos a) (pos n) ≡ some (pos (a / n))
unfolding div_ℤ
div_ℤ-pos a n h = ground arith

quotient-le : (idle busy : ℕ) → 0 < idle → 1 < busy + idle → (idle - 1) * 4 / (busy + idle - 1) ≤ 4
quotient-le idle busy h k = grind arith

pub score_lem :
    (idle busy : ℕ)
    → 0 < idle
    → 1 < busy + idle
    → score (pos idle) (pos busy) ≡ some (pos ((idle - 1) * 4 / (busy + idle - 1) + 1))
unfolding score
score_lem idle busy h k =
    let idle_part : pos idle -ℤ weight_default ≡ pos (idle - 1) = pos_sub idle 1 h in
    let span : weight_maximum -ℤ weight_default ≡ pos 4 = pos_sub 5 1 (omega arith) in
    let workers : pos (busy + idle) -ℤ weight_default ≡ pos (busy + idle - 1) =
      pos_sub (busy + idle) 1 (omega arith) in
    let shift : pos ((idle - 1) * 4 / (busy + idle - 1)) +ℤ weight_default
        ≡ pos ((idle - 1) * 4 / (busy + idle - 1) + 1) =
      pos_add ((idle - 1) * 4 / (busy + idle - 1)) 1 in
    rw (
      score,
      pos_add busy idle,
      idle_part,
      span,
      workers,
      pos_mul (idle - 1) 4,
      div_ℤ-pos ((idle - 1) * 4) (busy + idle - 1) (omega arith),
      shift,
    )

-- With at least one worker idle and at least two in all, the score is between WEIGHT_DEFAULT and
-- WEIGHT_MAXIMUM.
pub score-range :
    (idle busy : ℕ)
    → 0 < idle
    → 1 < busy + idle
    → (s : ℕ) × (score (pos idle) (pos busy) ≡ some (pos s)) × (1 ≤ s) × (s ≤ 5)
score-range idle busy h k = (
  (idle - 1) * 4 / (busy + idle - 1) + 1,
  score_lem idle busy h k,
  omega arith,
  omega (arith, quotient-le idle busy h k),
)

-- With no worker idle and from two to five busy, the score is not above 0: below WEIGHT_DEFAULT.
pub score-below :
    (busy : ℕ) → 1 < busy → busy < 6 → (s : ℤ) × (score (pos 0) (pos busy) ≡ some s) × (s ≤ℤ pos 0)
unfolding score div_ℤ ◌+ℤ◌ ◌-ℤ◌ ◌*ℤ◌
score-below zero h k = absurd (omega arith)
score-below (suc zero) h k = absurd (omega arith)
score-below (suc (suc zero)) h k = (negsuc 2, refl, omega arith)
score-below (suc (suc (suc zero))) h k = (negsuc 0, refl, omega arith)
score-below (suc (suc (suc (suc zero)))) h k = (pos 0, refl, omega arith)
score-below (suc (suc (suc (suc (suc zero))))) h k = (pos 0, refl, omega arith)
score-below (suc (suc (suc (suc (suc (suc n)))))) h k = absurd (omega arith)

-- With one worker in all the score divides by zero.
pub score-divides_by_zero : (idle busy : ℕ) → busy + idle ≡ 1 → score (pos idle) (pos busy) ≡ none
unfolding score div_ℤ ◌-ℤ◌
score-divides_by_zero idle busy h = rw (pos_add busy idle, h, score) refl

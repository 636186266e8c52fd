-- ===== src/Prelude/Loops.antt =====
-- Loops that count from 0.
use Prim.Native.Nat.{ℕ, zero, suc, ◌+◌}
use mathlib.Core.Path.{subst}
use native.Mathlib.Omega.{arith}

-- `for (i = 0; i < n; i++) s = step i s`: the last round runs at `n - 1`.
unfoldable pub count_up {ℓ} : {S : Type ℓ} → (ℕ → S → S) → S → ℕ → S
count_up step s zero = s
count_up step s (suc n) = step n (count_up step s n)

module _ {ℓ κ} {S : Type ℓ} (Inv : ℕ → S → Type κ) (step : ℕ → S → S) (s : S) (begins : Inv 0 s)
    (kept : (i : ℕ) (t : S) → Inv i t → Inv (i + 1) (step i t)) where
  pub count_up-inv : (n : ℕ) → Inv n (count_up step s n)
  unfolding count_up
  count_up-inv zero = begins
  count_up-inv (suc n) =
      subst (λ k. Inv k (step n (count_up step s n))) (omega arith)
        (kept n (count_up step s n) (count_up-inv n))

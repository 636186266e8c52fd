-- ===== src/WorkerPool/Registration.antt =====
-- Registration of the children (`do_prefork` of code/main.c), and finding them again.
use heimdall_web_switch.Prelude.{ℕ, zero, suc, ◌+◌, ◌<◌, ◌≡◌, refl, ◌≢◌, true, ◌∙◌, ap}
use heimdall_web_switch.Prelude.{some, List, [], ◌∷◌, ◌++◌, arith}
use heimdall_web_switch.Prelude.{length, get_elem?, replicate, append_assoc, set}
use heimdall_web_switch.WorkerPool.{register_scan, register_all, find_worker, release_worker}
use heimdall_web_switch.Types.{ThpSharedMem}

-- No pid is 0, which marks a free position.
abbrev pub NonZero : List ℕ → Type 0
NonZero [] = Unit {0}
NonZero (x ∷ xs) = (x ≢ 0) × NonZero xs

register_scan-append :
    (pid k : ℕ) (xs : List ℕ)
    → NonZero xs
    → register_scan pid (xs ++ replicate (suc k) 0) ≡ (xs ++ (pid ∷ replicate k 0), true)
unfolding register_scan
register_scan-append pid k [] nz = refl
register_scan-append pid k (x ∷ xs) nz = ground (arith, register_scan-append pid k xs nz.1)

NonZero-append : (xs : List ℕ) (pid : ℕ) → NonZero xs → pid ≢ 0 → NonZero (xs ++ (pid ∷ []))
NonZero-append [] pid nz ne = (ne, tt)
NonZero-append (x ∷ xs) pid nz ne = (nz.0, NonZero-append xs pid nz.1 ne)

register_all-append :
    (pids xs : List ℕ)
    → NonZero xs
    → NonZero pids
    → register_all pids (xs ++ replicate (length pids) 0) ≡ some (xs ++ pids)
unfolding register_all
register_all-append [] xs nz ne = refl
register_all-append (pid ∷ pids) xs nz ne = rw (register_scan-append pid (length pids) xs nz) (
    rw (← append_assoc xs (pid ∷ []) (replicate (length pids) 0)) (
      rw (← append_assoc xs (pid ∷ []) pids)
        (register_all-append pids (xs ++ (pid ∷ [])) (NonZero-append xs pid nz ne.0) ne.1)))

-- When no child's pid is 0 and the fresh table has a position for each child, the registration of
-- the children succeeds, and the table then holds exactly their pids in the order they were made.
pub register_all-fresh :
    (pids : List ℕ) → NonZero pids → register_all pids (replicate (length pids) 0) ≡ some pids
register_all-fresh pids ne = register_all-append pids [] tt ne

-- `pid` stands at position `p` and nowhere before it.
pub record FirstAt (pid p : ℕ) (xs : List ℕ) : Type 0 where
  pub here : get_elem? xs p ≡ some pid
  pub before : (j : ℕ) → j < p → get_elem? xs j ≢ some pid

find_worker-shift :
    (pid n i p : ℕ) (xs : List ℕ) → p < n → FirstAt pid p xs → find_worker pid n i xs ≡ some (i + p)
unfolding find_worker
find_worker-shift pid zero i p xs h f = absurd (omega arith)
find_worker-shift pid (suc n) i p [] h f = cc f.here
find_worker-shift pid (suc n) i zero (x ∷ xs) h f = ground (arith, f.here)
find_worker-shift pid (suc n) i (suc p) (x ∷ xs) h f =
    let rest : FirstAt pid p xs = record {
      here = f.here;
      before = λ j b. f.before (suc j) (omega arith);
    } in
    ground
      (arith, f.before 0 (omega arith), find_worker-shift pid n (i + 1) p xs (omega arith) rest)

-- The scan for a pid finds its first position, if that is below the number of workers.
pub find_worker-FirstAt :
    (pid n p : ℕ) (xs : List ℕ) → p < n → FirstAt pid p xs → find_worker pid n 0 xs ≡ some p
find_worker-FirstAt pid n p xs h f = find_worker-shift pid n 0 p xs h f ∙ ap some (omega arith)

-- A worker whose pid first stands at `p` clears its own flag and nothing else.
pub release_worker-FirstAt :
    (n pid p : ℕ) (pool : ThpSharedMem)
    → p < n
    → FirstAt pid p pool.worker_array
    → release_worker n pid pool ≡ record pool { worker_busy = set pool.worker_busy p 0 }
unfolding release_worker
release_worker-FirstAt n pid p pool h f =
    rw (find_worker-FirstAt pid n p pool.worker_array h f, release_worker)

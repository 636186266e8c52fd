-- ===== src/WorkerPool/Sessions.antt =====
-- Connections over the worker table: the thread pool takes a worker (code/web_switch/thread_pool.c),
-- and the worker serves and gives itself free (code/web_switch/worker.c), in any interleaving.
use heimdall_web_switch.Prelude.{ℕ, ◌-◌, ◌≤◌, ◌<◌, ◌≡◌, refl, ◌∙◌}
use heimdall_web_switch.Prelude.{some, List, [], ◌∷◌, arith, ◌==◌, if◌then◌else◌}
use heimdall_web_switch.Prelude.{
  length, get_or, set, count_if, length-set, get_or-set_self, get_or-set_ne, get_elem?-eq-get_or,
  get_elem?-set_self, ℕ_discrete,
}
use heimdall_web_switch.Types.{Server, ThpSharedMem}
use heimdall_web_switch.ThreadPool.{Best, select_worker, assign_worker}
use heimdall_web_switch.ThreadPool.Selection.{select_worker-IsChoice}
use heimdall_web_switch.WorkerPool.{find_worker, remote_of, release_worker}
use heimdall_web_switch.WorkerPool.Registration.{FirstAt, find_worker-FirstAt}

-- The table has an entry of each kind for each of the `n` workers.
pub record IsTable (n : ℕ) (pool : ThpSharedMem) : Type 0 where
  pub pids : length pool.worker_array ≡ n
  pub flags : length pool.worker_busy ≡ n
  pub uses : length pool.worker_counter ≡ n
  pub servers : length pool.worker_server ≡ n
  pub distinct :
      (i j : ℕ)
      → i < n
      → j < n
      → get_or pool.worker_array i 0 ≡ get_or pool.worker_array j 0
      → i ≡ j

get_or-set :
    (xs : List ℕ) (i j v d : ℕ)
    → i < length xs
    → get_or (set xs i v) j d ≡ (if i == j then v else get_or xs j d)
get_or-set xs i j v d h = elim (ℕ_discrete i j) [
  | yes e ↦ ground (arith, get_or-set_self xs i v d h)
  | no ne ↦ ground (arith, get_or-set_ne xs v d ne)
]

module _ {n : ℕ} {pool : ThpSharedMem} (v : IsTable n pool) {p : ℕ} (h : p < n) where
  FirstAt-own : FirstAt (get_or pool.worker_array p 0) p pool.worker_array
  FirstAt-own = record {
    here = get_elem?-eq-get_or pool.worker_array p 0 (omega (arith, v.pids));
    before = λ j b e.
        let same : get_or pool.worker_array j 0 ≡ get_or pool.worker_array p 0 =
          cc (get_elem?-eq-get_or pool.worker_array j 0 (omega (arith, v.pids))) in
        absurd (omega (arith, v.distinct j p (omega arith) h same));
  }

  find-own : find_worker (get_or pool.worker_array p 0) n 0 pool.worker_array ≡ some p
  find-own = find_worker-FirstAt (get_or pool.worker_array p 0) n p pool.worker_array h FirstAt-own

  -- In a table of `n` workers with distinct pids, the worker that the thread pool takes for a server
  -- is addressed by its own pid, and finds that server when it looks for its own entry.
  pub remote_of-assign_worker :
      (server : Server)
      → let (pool', pid) = assign_worker pool p server in
        (pid ≡ get_or pool.worker_array p 0) × (remote_of n pid pool' ≡ some server)
  unfolding remote_of assign_worker
  remote_of-assign_worker server = (
    refl,
    rw (find-own, remote_of)
        (get_elem?-set_self pool.worker_server p server (omega (arith, v.servers))),
  )

  -- A worker that gives itself free clears its own flag and nothing else.
  pub release_worker-own :
      release_worker n (get_or pool.worker_array p 0) pool
      ≡ record pool { worker_busy = set pool.worker_busy p 0 }
  unfolding release_worker
  release_worker-own = rw (find-own, release_worker)

-- The table, and the positions of the workers that hold a connection.
pub record Switch : Type 0 where
  pub pool : ThpSharedMem
  pub serving : List ℕ

-- `p` once less.
unfoldable pub remove : ℕ → List ℕ → List ℕ
remove p [] = []
remove p (x ∷ xs) = let rest = remove p xs in if x == p then xs else x ∷ rest

abbrev pub sessions_of : ℕ → List ℕ → ℕ
sessions_of p serving = count_if (λ x. x == p) serving

-- What can happen to the table once the workers run: the thread pool takes the worker that its scan
-- finds, for any server, or a worker that holds a connection ends it.
pub data Step (n : ℕ) : Switch → Switch → Type 0 where
  take_worker :
      (s : Switch) (b : Best) (server : Server)
      → select_worker n s.pool ≡ some b
      → Step n s (record {
        pool = (assign_worker s.pool b.position server).0;
        serving = b.position ∷ s.serving;
      })
  end_session :
      (s : Switch) (p : ℕ)
      → p < n
      → 0 < sessions_of p s.serving
      → Step n s (record {
        pool = release_worker n (get_or s.pool.worker_array p 0) s.pool;
        serving = remove p s.serving;
      })

pub data Reach (n : ℕ) (s : Switch) : Switch → Type 0 where
  here : Reach n s s
  next : {t u : Switch} → Reach n s t → Step n t u → Reach n s u

pub record IsConsistent (n : ℕ) (s : Switch) : Type 0 where
  pub table : IsTable n s.pool
  pub flagged : (p : ℕ) → p < n → sessions_of p s.serving ≡ get_or s.pool.worker_busy p 1
  pub exclusive : (p : ℕ) → p < n → sessions_of p s.serving ≤ 1

sessions_of-remove :
    (p q : ℕ) (xs : List ℕ)
    → sessions_of q (remove p xs) ≡ sessions_of q xs - (if p == q then 1 else 0)
unfolding remove
sessions_of-remove p q [] = ground arith
sessions_of-remove p q (x ∷ xs) = ground (arith, sessions_of-remove p q xs)

pub take_worker-IsConsistent :
    {n : ℕ} (s : Switch) (b : Best) (server : Server)
    → select_worker n s.pool ≡ some b
    → IsConsistent n s
    → IsConsistent n (record {
      pool = (assign_worker s.pool b.position server).0;
      serving = b.position ∷ s.serving;
    })
unfolding assign_worker
take_worker-IsConsistent {n} s b server e c =
    let choice = select_worker-IsChoice n s.pool b e in
    let in_range : b.position < length s.pool.worker_busy =
      omega (arith, choice.in_range, c.table.flags) in
    record {
      table = record {
        pids = c.table.pids;
        flags = length-set s.pool.worker_busy b.position 1 ∙ c.table.flags;
        uses = length-set s.pool.worker_counter b.position _ ∙ c.table.uses;
        servers = length-set s.pool.worker_server b.position server ∙ c.table.servers;
        distinct = c.table.distinct;
      };
      flagged = λ p h.
          rw (get_or-set s.pool.worker_busy b.position p 1 1 in_range)
            (ground (arith, c.flagged p h, choice.free));
      exclusive = λ p h. ground (arith, c.flagged p h, c.exclusive p h, choice.free);
    }

pub end_session-IsConsistent :
    {n : ℕ} (s : Switch) (p : ℕ)
    → p < n
    → 0 < sessions_of p s.serving
    → IsConsistent n s
    → IsConsistent n (record {
      pool = release_worker n (get_or s.pool.worker_array p 0) s.pool;
      serving = remove p s.serving;
    })
end_session-IsConsistent {n} s p h m c = rw (release_worker-own c.table h) (record {
  table = record {
    pids = c.table.pids;
    flags = length-set s.pool.worker_busy p 0 ∙ c.table.flags;
    uses = c.table.uses;
    servers = c.table.servers;
    distinct = c.table.distinct;
  };
  flagged = λ q k.
      rw
        (
          get_or-set s.pool.worker_busy p q 0 1 (omega (arith, c.table.flags)),
          sessions_of-remove p q,
        )
        (ground (arith, c.flagged q k, c.exclusive q k));
  exclusive = λ q k. rw (sessions_of-remove p q) (ground (arith, c.exclusive q k));
})

-- From a table whose flags agree with the connections held, however the thread pool takes workers and
-- the workers end their connections: every worker holds at most one connection, and its flag is 1
-- exactly while it holds one.
pub Reach-IsConsistent : {n : ℕ} {s t : Switch} → IsConsistent n s → Reach n s t → IsConsistent n t
Reach-IsConsistent c here = c
Reach-IsConsistent c (next r (take_worker s b server e)) =
    take_worker-IsConsistent s b server e (Reach-IsConsistent c r)
Reach-IsConsistent c (next r (end_session s p h m)) =
    end_session-IsConsistent s p h m (Reach-IsConsistent c r)

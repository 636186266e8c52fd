-- ===== src/RoundRobin/Scan.antt =====
-- `get_server` of code/web_switch/round_robin.c: the search for a server that is up.
use heimdall_web_switch.Prelude.{
  ℕ, zero, suc, ◌+◌, ◌-◌, ◌%◌, ◌<◌, ◌≡◌, refl, sym, ◌≢◌, ◌⊎◌, inl, inr, true, false, ap, subst, ◌∙◌,
}
use heimdall_web_switch.Prelude.{
  some, List, arith, ◌==◌, Bool-cases, length, get_or, dec_lt, ℕ_discrete,
}
use heimdall_web_switch.Prelude.Int.{eq_ℤ}
use native.Mathlib.Nat.{mod-lt, mod-add-mod, mod-eq_of_lt, mod-eq-sub-mod, add-mod_right}
use heimdall_web_switch.Types.{Server, server_status_ready, server_status_broken}
use heimdall_web_switch.Circular.{Circular, progress, at_tail, no_server, allocate_buffer}
use heimdall_web_switch.RoundRobin.{find_ready, get_server}

abbrev pub IsReady : Server → Type 0
IsReady x = x.status ≡ server_status_ready

-- The entry at an index.
abbrev pub entry : Circular → ℕ → Server
entry c j = get_or c.buffer j no_server

-- The buffer is not empty and its position is one of its indices.
pub record IsRing (c : Circular) : Type 0 where
  pub len : c.buffer_len ≡ length c.buffer
  pub in_range : c.buffer_position < c.buffer_len
  pub head_in : c.head < c.buffer_len

-- What a search found that started with `current` and was to look at `more` entries from the head of
-- `c` on: a server that is up, from the buffer, or none of those entries is up.
pub record Found (c : Circular) (current : Server) (more : ℕ) (out : Server) : Type 0 where
  pub ready : IsReady out
  pub from :
      (out ≡ current) ⊎ ((m : ℕ) × (m < more) × (out ≡ entry c ((c.head + m) % c.buffer_len)))

pub record AllDown (c : Circular) (current : Server) (more : ℕ) (out : Server) : Type 0 where
  pub broken : out.status ≡ server_status_broken
  pub current_down : ¬ IsReady current
  pub rest_down : (m : ℕ) → m < more → ¬ IsReady (entry c ((c.head + m) % c.buffer_len))

pub progress-IsRing : (c : Circular) → IsRing c → IsRing (progress c)
unfolding progress
progress-IsRing c v = ground (arith, mod-lt (c.buffer_position + 1) {m = c.buffer_len})

IsReady-or_not :
    (x : Server)
    → (eq_ℤ x.status server_status_ready ≡ true) × IsReady x
      ⊎ (eq_ℤ x.status server_status_ready ≡ false) × (¬ IsReady x)
IsReady-or_not x = elim (Bool-cases (eq_ℤ x.status server_status_ready)) [
  | inl up ↦ inl (up, ground arith)
  | inr down ↦ inr (down, λ e. ground (arith, ap (λ z. eq_ℤ z server_status_ready) e))
]

-- After a step of the ring the head is the position.
abbrev pub IsSynced : Circular → Type 0
IsSynced c = c.head ≡ c.buffer_position

pub progress-IsSynced : (c : Circular) → IsSynced (progress c)
unfolding progress
progress-IsSynced c = refl

len-progress : (c : Circular) → (progress c).buffer_len ≡ c.buffer_len
unfolding progress
len-progress c = refl

abbrev Search : ℕ → Circular → Server → ℕ → Type 0
Search rounds c current k =
    (c' : Circular) × (out : Server) × (find_ready rounds c current k ≡ some (c', out))
    × (Found c current (rounds - 1) out ⊎ AllDown c current (rounds - 1) out)

module _ (c : Circular) (v : IsRing c) where
  index-zero : (c.head + 0) % c.buffer_len ≡ c.head
  index-zero = ap (λ k. k % c.buffer_len) (omega arith) ∙ mod-eq_of_lt v.head_in

  index-suc :
      (m : ℕ)
      → IsSynced c
      → (c.head + suc m) % c.buffer_len
        ≡ ((c.buffer_position + 1) % c.buffer_len + m) % c.buffer_len
  index-suc m synced =
      ap (λ k. k % c.buffer_len) (omega (arith, synced))
      ∙ sym (mod-add-mod (c.buffer_position + 1) c.buffer_len m)

-- What the rest of the search did not find, counted from one entry earlier.
rest_down-suc :
    (c : Circular) (r : ℕ) (out : Server)
    → IsRing c
    → IsSynced c
    → AllDown (progress c) (at_tail (progress c)) r out
    → (m : ℕ) → m < suc r
    → ¬ IsReady (entry c ((c.head + m) % c.buffer_len))
unfolding progress
rest_down-suc c r out v synced d zero h = rw (index-zero c v) d.current_down
rest_down-suc c r out v synced d (suc m) h =
    rw (index-suc c v m synced) (d.rest_down m (omega arith))

-- The search goes on from the entry at the head.
Search-on :
    (r k : ℕ) (c : Circular) (current : Server)
    → IsRing c
    → IsSynced c
    → ¬ IsReady current
    → eq_ℤ current.status server_status_ready ≡ false
    → (k + 1 == c.buffer_len) ≡ false
    → Search (suc r) (progress c) (at_tail (progress c)) (k + 1)
    → Search (suc (suc r)) c current k
unfolding find_ready progress
Search-on r k c current v synced down test more (c', out, e, res) = (
  c',
  out,
  rw (test, more, find_ready) e,
  elim res [
    | inl f ↦ inl (record {
      ready = f.ready;
      from = inr (elim f.from [
        | inl same ↦ (0, omega arith, same ∙ ap (entry c) (sym (index-zero c v)))
        | inr (m, h, same) ↦
            (suc m, omega arith, same ∙ ap (entry c) (sym (index-suc c v m synced)))
      ]);
    })
    | inr d ↦
        let d' : AllDown (progress c) (at_tail (progress c)) r out = record {
          broken = d.broken;
          current_down = d.current_down;
          rest_down = λ m h. d.rest_down m (omega arith);
        } in
        inr (record {
          broken = d.broken;
          current_down = down;
          rest_down = λ m h. rest_down-suc c r out v synced d' m (omega arith);
        })
  ],
)

find_ready-Search :
    (rounds k : ℕ) (c : Circular) (current : Server)
    → IsRing c
    → IsSynced c
    → k + rounds ≡ c.buffer_len
    → 0 < rounds
    → Search rounds c current k
unfolding find_ready
find_ready-Search zero k c current v synced at p = absurd (omega arith)
find_ready-Search (suc zero) k c current v synced at p = elim (IsReady-or_not current) [
  | inl (test, up) ↦
      (c, current, rw (test, find_ready), inl (record { ready = up; from = inl refl }))
  | inr (test, down) ↦
      let last : (k + 1 == c.buffer_len) ≡ true = ground arith in
      (
        progress c,
        record (at_tail (progress c)) { status = server_status_broken },
        rw (test, last, find_ready),
        inr (record {
          broken = refl;
          current_down = down;
          rest_down = λ m h. absurd (omega arith);
        }),
      )
]
find_ready-Search (suc (suc r)) k c current v synced at p = elim (IsReady-or_not current) [
  | inl (test, up) ↦
      (c, current, rw (test, find_ready), inl (record { ready = up; from = inl refl }))
  | inr (test, down) ↦ Search-on r k c current v synced down test (ground arith) (
      find_ready-Search (suc r) (k + 1) (progress c) (at_tail (progress c)) (progress-IsRing c v)
        (progress-IsSynced c) (omega (arith, len-progress c)) (omega arith))
]

-- Every index of a ring is its head or one of the others in order from behind the head.
index-covered :
    (n p j : ℕ) → p < n → j < n → (j ≡ p) ⊎ ((m : ℕ) × (m < n - 1) × (((p + 1) % n + m) % n ≡ j))
index-covered n p j hp hj = elim (dec_lt p j) [
  | yes after ↦ inr (
    j - p - 1,
    omega arith,
    mod-add-mod (p + 1) n (j - p - 1) ∙ ap (λ k. k % n) (omega arith) ∙ mod-eq_of_lt hj,
  )
  | no before ↦ elim (ℕ_discrete j p) [
    | yes same ↦ inl same
    | no ne ↦ inr (
      n - (p - j) - 1,
      omega arith,
      mod-add-mod (p + 1) n (n - (p - j) - 1)
          ∙ ap (λ k. k % n) (omega arith)
          ∙ add-mod_right j n
          ∙ mod-eq_of_lt hj,
    )
  ]
]

-- On a ring whose head is at its position `get_server` always returns. If some server of the buffer is
-- up, what it returns is an entry of the buffer that is up; if none is, the status of what it returns
-- is SERVER_STATUS_BROKEN.
pub get_server-IsReady :
    (c : Circular)
    → IsRing c
    → IsSynced c
    → (c' : Circular) × (out : Server) × (get_server c ≡ some (c', out))
      × (IsReady out × ((j : ℕ) × (j < c.buffer_len) × (out ≡ entry c j))
          ⊎ (out.status ≡ server_status_broken)
            × ((j : ℕ) → j < c.buffer_len → ¬ IsReady (entry c j)))
unfolding get_server
get_server-IsReady c v synced =
    let (c', out, e, res) =
      find_ready-Search c.buffer_len 0 (progress c) (at_tail (progress c)) (progress-IsRing c v)
        (progress-IsSynced c) (omega (arith, len-progress c)) (omega (arith, v.in_range)) in
    (
      c',
      out,
      e,
      elim res [
        | inl f ↦ inl (
          f.ready,
          elim f.from [
            | inl same ↦ (c.head, v.head_in, same)
            | inr (m, h, same) ↦ (
              ((c.buffer_position + 1) % c.buffer_len + m) % c.buffer_len,
              mod-lt ((c.buffer_position + 1) % c.buffer_len + m) (omega (arith, v.in_range)),
              same,
            )
          ],
        )
        | inr d ↦ inr (
          d.broken,
          λ j h. elim (index-covered c.buffer_len c.buffer_position j v.in_range h) [
            | inl same ↦ rw (same, ← synced) d.current_down
            | inr (m, k, same) ↦ subst (λ i. ¬ IsReady (entry c i)) same (d.rest_down m k)
          ],
        )
      ],
    )

-- Fewer than `n` steps from `p` on do not come back to it.
index-missed : (n p m : ℕ) → p < n → m < n - 1 → ((p + 1) % n + m) % n ≢ p
index-missed n p m hp hm = elim (dec_lt (p + 1 + m) n) [
  | yes below ↦ omega (arith, mod-add-mod (p + 1) n m, mod-eq_of_lt below)
  | no past ↦ omega (
    arith,
    mod-add-mod (p + 1) n m,
    mod-eq-sub-mod {n = p + 1 + m} {m = n} (omega arith),
    mod-eq_of_lt {n = p + 1 + m - n} {m = n} (omega arith),
  )
]

-- The buffer right after it was allocated.
abbrev allocated : Circular → List Server → ℕ → Circular
allocated c servers len = record c { buffer = servers; buffer_len = len; head = 0; tail = len - 1 }

allocate_buffer-allocated :
    (c : Circular) (servers : List Server) (len : ℕ)
    → 0 < len
    → (allocate_buffer c (some servers) len true true).0 ≡ allocated c servers len
unfolding allocate_buffer
allocate_buffer-allocated c servers len h = let test : (len == 0) ≡ false = ground arith in rw test

-- `allocate_buffer` leaves the position of the old buffer. If that is an index `p` of the new buffer
-- other than 0, the next `get_server` does not look at the entry `p`: where no other entry is up it
-- returns SERVER_STATUS_BROKEN, also when the server at `p` is up.
pub get_server-stale :
    (c : Circular) (servers : List Server) (len : ℕ) (p : ℕ)
    → c.buffer_position ≡ p
    → 0 < p
    → p < len
    → length servers ≡ len
    → ((j : ℕ) → j < len → j ≢ p → ¬ IsReady (get_or servers j no_server))
    → (c' : Circular) × (out : Server) × (get_server
          (allocate_buffer c (some servers) len true true).0
        ≡ some (c', out))
      × (out.status ≡ server_status_broken)
unfolding get_server
get_server-stale c servers len p at positive h sized down =
    let c0 = allocated c servers len in
    let v : IsRing c0 = record { len = sym sized; in_range = omega arith; head_in = omega arith } in
    let (c', out, e, res) =
      find_ready-Search len 0 (progress c0) (at_tail (progress c0)) (progress-IsRing c0 v)
        (progress-IsSynced c0) (omega (arith, len-progress c0)) (omega arith) in
    (
      c',
      out,
      rw (allocate_buffer-allocated c servers len (omega arith)) e,
      elim res [
        | inl f ↦ absurd (elim f.from [
          | inl same ↦ down 0 (omega arith) (omega arith) (subst IsReady same f.ready)
          | inr (m, k, same) ↦
              down (((c.buffer_position + 1) % len + m) % len)
                (mod-lt ((c.buffer_position + 1) % len + m) (omega arith))
                (λ same_index.
                  index-missed len c.buffer_position m (omega arith) k (same_index ∙ sym at))
                (subst IsReady same f.ready)
        ])
        | inr d ↦ d.broken
      ],
    )

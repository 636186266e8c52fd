-- ===== src/RoundRobin.antt =====
-- code/web_switch/round_robin.c: the weighted schedule and the choice of a server.
pub mod Exchange
pub mod Taking
pub mod Pattern
pub mod Even
pub mod Scan
pub mod Turns
mod Tests
use heimdall_web_switch.Prelude.{
  ℕ, zero, suc, ◌+◌, ◌-◌, ◌%◌, Bool, true, false, Option, none, some, List, [], ◌∷◌, ◌++◌,
}
use heimdall_web_switch.Prelude.{◌==◌, if◌then◌else◌, get_or, set, length}
use heimdall_web_switch.Prelude.Int.{ℤ, pos, pos_part, ltb_ℤ, eq_ℤ, ◌+ℤ◌, ◌-ℤ◌}
use heimdall_web_switch.Types.{Server, server_status_ready, server_status_broken}
use heimdall_web_switch.Circular.{Circular, progress, at_tail, no_server}

-- The inner loop of `weight_servers` at a fixed `i`: `x` is `servers[i]`, the list is the rest of the
-- array, and a lighter entry is exchanged with it.
pub exchange : Server → List Server → Server × List Server
exchange x [] = (x, [])
exchange x (y ∷ ys) =
    let (z, zs) = exchange (if ltb_ℤ y.weight x.weight then y else x) ys in
    (z, (if ltb_ℤ y.weight x.weight then x else y) ∷ zs)

-- The outer loop for the `n` entries that are left, and the line behind it: the entries after the
-- loop, and `weight_sum`. Each weight is added before the inner loop runs at its position.
-- `none`: `servers[-1]` is read, out of the array.
pub weigh : ℕ → List Server → ℤ → Option (List Server × ℤ)
weigh zero servers weight_sum = none
weigh (suc n) [] weight_sum = none
weigh (suc zero) (x ∷ xs) weight_sum = some (x ∷ xs, weight_sum +ℤ x.weight)
weigh (suc (suc n)) (x ∷ xs) weight_sum =
    let (z, zs) = exchange x xs in
    let rest = weigh (suc n) zs (weight_sum +ℤ x.weight) in
    elim rest [ none ↦ none | some (sorted, total) ↦ some (z ∷ sorted, total) ]

-- The endless loop that makes the pattern, on fuel: `none` when it has not ended. `w` is the length
-- of `w_servers`, which grows at its end.
pub pattern_loop :
    ℕ → (server_num : ℕ) → (weight_sum : ℤ) → List Server → ℕ → List Server → Option (List Server)
pattern_loop zero server_num weight_sum servers s w_servers = none
pattern_loop (suc fuel) server_num weight_sum servers s w_servers =
    let current = get_or servers s no_server in
    let next_s = if s + 1 == server_num then 0 else s + 1 in
    let lighter = set servers s (record current { weight = current.weight -ℤ pos 1 }) in
    let taken = w_servers ++ (current ∷ []) in
    let on = pattern_loop fuel server_num weight_sum lighter next_s taken in
    let skip = pattern_loop fuel server_num weight_sum servers next_s w_servers in
    if ltb_ℤ (pos 0) current.weight
    then (if eq_ℤ (pos (length taken)) weight_sum then some taken else on)
    else skip

-- `weight_servers` up to the call of `allocate_buffer`, which takes its result: the pattern, and its
-- length `weight_sum`.
pub weight_pattern : ℕ → List Server → ℕ → Option (List Server × ℤ)
unfolding weigh pattern_loop
weight_pattern fuel servers server_num = elim (weigh server_num servers (pos 0)) [
  | none ↦ none
  | some (sorted, weight_sum) ↦ elim (pattern_loop fuel server_num weight_sum sorted 0 []) [
    | none ↦ none
    | some w_servers ↦ some (w_servers, weight_sum)
  ]
]

-- The loop of `get_server` from the server read last; `rounds` bounds `buffer_len - not_available`.
pub find_ready : ℕ → Circular → Server → ℕ → Option (Circular × Server)
find_ready zero circular server_ready not_available = none
find_ready (suc rounds) circular server_ready not_available =
    let circular' = progress circular in
    let next = at_tail circular' in
    let on = find_ready rounds circular' next (not_available + 1) in
    if eq_ℤ server_ready.status server_status_ready
    then some (circular, server_ready)
    else if not_available + 1 == circular.buffer_len
    then some (circular', record next { status = server_status_broken })
    else on

-- `get_server` with both mutex calls and `malloc` successful. `none`: the loop does not end.
unfoldable pub get_server : Circular → Option (Circular × Server)
unfolding find_ready progress
get_server circular =
    let first = progress circular in find_ready circular.buffer_len first (at_tail first) 0

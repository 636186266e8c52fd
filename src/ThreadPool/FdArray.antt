-- ===== src/ThreadPool/FdArray.antt =====
-- The descriptor array as a bag of waiting descriptors.
use heimdall_web_switch.Prelude.{
  ℕ, zero, suc, ◌+◌, ◌≤◌, ◌≡◌, refl, ◌≢◌, ◌⊎◌, inl, inr, Bool, true, false,
}
use heimdall_web_switch.Prelude.{
  length-replicate, none, some, List, [], ◌∷◌, arith, ◌==◌, if◌then◌else◌,
}
use heimdall_web_switch.Prelude.{Bool-cases, length, count_if}
use heimdall_web_switch.Throwable.{text, ok_from, error_from}
use heimdall_web_switch.ThreadPool.{
  init_fd_array, add_scan, add_fd_to_array, get_scan, get_status, get_fd,
}

-- The descriptors that wait, in the order of their positions.
unfoldable pub waiting : List ℕ → List ℕ
waiting [] = []
waiting (x ∷ xs) = if x == 0 then waiting xs else x ∷ waiting xs

-- How often `v` waits.
abbrev pub occurrences : ℕ → List ℕ → ℕ
occurrences v xs = count_if (λ x. x == v) (waiting xs)

-- Whether an entry is free.
unfoldable pub has_room : List ℕ → Bool
has_room [] = false
has_room (x ∷ xs) = if x == 0 then true else has_room xs

add_scan-flag : (fd : ℕ) (xs : List ℕ) → (add_scan fd xs).1 ≡ has_room xs
unfolding add_scan has_room
add_scan-flag fd [] = refl
add_scan-flag fd (x ∷ xs) = ground (arith, add_scan-flag fd xs)

add_scan-length : (fd : ℕ) (xs : List ℕ) → length (add_scan fd xs).0 ≡ length xs
unfolding add_scan
add_scan-length fd [] = refl
add_scan-length fd (x ∷ xs) = ground (arith, add_scan-length fd xs)

add_scan-full : (fd : ℕ) (xs : List ℕ) → has_room xs ≡ false → (add_scan fd xs).0 ≡ xs
unfolding add_scan has_room
add_scan-full fd [] h = refl
add_scan-full fd (x ∷ xs) h = ground (arith, add_scan-full fd xs)

add_scan-occurrences :
    (fd v : ℕ) (xs : List ℕ)
    → fd ≢ 0
    → has_room xs ≡ true
    → occurrences v (add_scan fd xs).0 ≡ occurrences v xs + (if fd == v then 1 else 0)
unfolding add_scan has_room waiting
add_scan-occurrences fd v [] ne h = cc
add_scan-occurrences fd v (x ∷ xs) ne h = ground (arith, add_scan-occurrences fd v xs)

add_scan-waiting :
    (fd : ℕ) (xs : List ℕ)
    → fd ≢ 0
    → has_room xs ≡ true
    → length (waiting (add_scan fd xs).0) ≡ suc (length (waiting xs))
unfolding add_scan has_room waiting
add_scan-waiting fd [] ne h = cc
add_scan-waiting fd (x ∷ xs) ne h = ground (arith, add_scan-waiting fd xs)

-- As many descriptors more as were added wait afterwards.
pub add_fd_to_array-waiting :
    (fd : ℕ) (xs : List ℕ)
    → fd ≢ 0
    → has_room xs ≡ true
    → length (waiting (add_fd_to_array fd xs).0) ≡ suc (length (waiting xs))
unfolding add_fd_to_array
add_fd_to_array-waiting fd xs ne h = add_scan-waiting fd xs ne h

pub waiting-le : (xs : List ℕ) → length (waiting xs) ≤ length xs
unfolding waiting
waiting-le [] = omega arith
waiting-le (x ∷ xs) = ground (arith, waiting-le xs)

-- `add_fd_to_array` of a descriptor other than 0 keeps the array's length. If an entry is free it
-- returns STATUS_OK and the bag of waiting descriptors gains that descriptor once and nothing else;
-- if none is free it returns the error and the array is unchanged.
pub add_fd_to_array_lem :
    (fd : ℕ) (xs : List ℕ)
    → fd ≢ 0
    → let (ys, t) = add_fd_to_array fd xs in
      (length ys ≡ length xs)
      × ((has_room xs ≡ true)
            × (t ≡ ok_from "add_fd_to_array()")
            × ((v : ℕ) → occurrences v ys ≡ occurrences v xs + (if fd == v then 1 else 0))
          ⊎ (has_room xs ≡ false)
            × (t ≡ error_from (text "Cannot add fd to array") "add_fd_to_array")
            × (ys ≡ xs))
unfolding add_fd_to_array
add_fd_to_array_lem fd xs ne = (
  add_scan-length fd xs,
  elim (Bool-cases (has_room xs)) [
    | inl room ↦
        inl (room, rw (add_scan-flag fd xs, room), λ v. add_scan-occurrences fd v xs ne room)
    | inr full ↦ inr (full, rw (add_scan-flag fd xs, full), add_scan-full fd xs full)
  ],
)

get_scan-length : (xs : List ℕ) → length (get_scan xs).0 ≡ length xs
unfolding get_scan
get_scan-length [] = refl
get_scan-length (x ∷ xs) = ground (arith, get_scan-length xs)

get_scan-waiting :
    (xs : List ℕ)
    → ((waiting xs ≡ []) × (get_scan xs ≡ (xs, none)))
      ⊎ ((fd : ℕ) × ((get_scan xs).1 ≡ some fd)
          × (waiting xs ≡ fd ∷ waiting (get_scan xs).0)
          × (fd ≢ 0))
unfolding get_scan waiting
get_scan-waiting [] = inl (refl, refl)
get_scan-waiting (x ∷ xs) = elim (Bool-cases (x == 0)) [
  | inl free ↦ elim (get_scan-waiting xs) [
    | inl (none_left, same) ↦ inl (ground arith, ground arith)
    | inr (fd, got, first, ne) ↦ inr (fd, ground arith, ground arith, ne)
  ]
  | inr taken ↦ inr (x, ground arith, ground arith, ground arith)
]

-- `get_fd` keeps the array's length. If no descriptor waits it returns the error, stores nothing and
-- leaves the array as it is; otherwise it returns STATUS_OK and stores the waiting descriptor of the
-- lowest position, never 0, and those that wait afterwards are the others in the same order.
pub get_fd_lem :
    (xs : List ℕ)
    → let (ys, got, t) = get_fd xs in
      (length ys ≡ length xs)
      × ((waiting xs ≡ [])
            × (got ≡ none)
            × (ys ≡ xs)
            × (t ≡ error_from (text "Cannot get fd") "get_fd")
          ⊎ ((fd : ℕ) × (got ≡ some fd)
              × (fd ≢ 0)
              × (waiting xs ≡ fd ∷ waiting ys)
              × (t ≡ ok_from "get_fd()")))
unfolding get_fd
get_fd_lem xs = (
  get_scan-length xs,
  elim (get_scan-waiting xs) [
    | inl (empty, same) ↦ inl (empty, rw same, rw same, rw same)
    | inr (fd, got, first, ne) ↦ inr (fd, got, ne, first, rw got)
  ],
)

pub init_fd_array-length : (max_fd : ℕ) → length (init_fd_array max_fd) ≡ max_fd
unfolding init_fd_array
init_fd_array-length max_fd = length-replicate max_fd 0

pub init_fd_array-waiting : (max_fd : ℕ) → waiting (init_fd_array max_fd) ≡ []
unfolding init_fd_array waiting
init_fd_array-waiting zero = refl
init_fd_array-waiting (suc max_fd) = init_fd_array-waiting max_fd

pub add_fd_to_array-first :
    (fd : ℕ) (xs : List ℕ) → add_fd_to_array fd (0 ∷ xs) ≡ (fd ∷ xs, ok_from "add_fd_to_array()")
unfolding add_fd_to_array
add_fd_to_array-first fd xs = refl

pub get_fd-first :
    (fd : ℕ) (xs : List ℕ) → fd ≢ 0 → get_fd (fd ∷ xs) ≡ (0 ∷ xs, some fd, ok_from "get_fd()")
unfolding get_fd
get_fd-first fd xs ne =
    let taken : (fd == 0) ≡ false = ground arith in rw (taken, get_scan, get_status)

-- The order of arrival is not the order of service: when the first entry is free, a descriptor that
-- is added now is the next one that `get_fd` returns, whatever waits already.
pub get_fd-overtakes :
    (fd : ℕ) (xs : List ℕ) → fd ≢ 0 → (get_fd (add_fd_to_array fd (0 ∷ xs)).0).1 ≡ some fd
unfolding get_fd add_fd_to_array
get_fd-overtakes fd xs ne = ground arith

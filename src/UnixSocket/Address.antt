-- ===== src/UnixSocket/Address.antt =====
-- Which paths fit into an address, and the descriptors that the calls of code/utils/unix_socket.c leave open.
use heimdall_web_switch.Prelude.{
  ℕ, zero, suc, ◌+◌, ◌-◌, ◌<◌, ◌≤◌, ◌≡◌, refl, ◌⊎◌, inl, inr, ap, Bool, true, false, ltb, leb,
  Option, none, some, List, [], ◌∷◌, ◌++◌, length, take, replicate, length-append, length-replicate,
  arith, Bool-cases,
}
use Prim.Native.String.{String}
use heimdall_web_switch.Throwable.{text, ok_from, error_from, thrown}
use heimdall_web_switch.Scheduler.{failed}
use heimdall_web_switch.HttpRequest.{Chars, string_at}
use heimdall_web_switch.HttpRequest.FirstLine.{ZeroFree, string_at-append}
use heimdall_web_switch.UnixSocket.{
  einval_text, close_fd, Opened, copied_into, unix_build_address, bound_socket, unix_passive_socket,
  unix_listen, connected_socket, unix_connect,
}

close_fd-newest : (fd : ℕ) (opened : List ℕ) → close_fd fd (fd ∷ opened) ≡ opened
unfolding close_fd
close_fd-newest fd opened = ground arith

-- How a call that makes a socket ends: with an error and nothing more open than before, or with the socket,
-- which is then open.
abbrev pub Ends : List ℕ → String → Opened → Type 0
Ends opened frame o =
    ((o.value ≡ none) × (o.opened ≡ opened) × (failed o.throwable ≡ true))
    ⊎ ((sd : ℕ) × (o.value ≡ some sd) × (o.opened ≡ sd ∷ opened) × (o.throwable ≡ ok_from frame))

module _ (size : ℕ) where
  bound_socket-Ends :
      (sd : ℕ) (bind listen : Bool) (opened : List ℕ)
      → Ends opened "unix_passive_socket" (bound_socket size sd bind true listen opened)
  unfolding bound_socket error_from
  bound_socket-Ends sd true true opened = inr (sd, refl, refl, refl)
  bound_socket-Ends sd true false opened = inl (refl, close_fd-newest sd opened, refl)
  bound_socket-Ends sd false listen opened = inl (refl, close_fd-newest sd opened, refl)

  unix_passive_socket-Ends :
      (path : Option Chars) (socket : Option ℕ) (bind listen : Bool) (opened : List ℕ)
      → Ends opened "unix_passive_socket"
          (unix_passive_socket size path true socket bind listen opened)
  unfolding unix_passive_socket thrown error_from
  unix_passive_socket-Ends path socket bind listen opened =
      elim (Bool-cases (failed (unix_build_address size path).1)) [
        | inl bad ↦ rw bad (inl (refl, refl, bad))
        | inr fine ↦ rw fine (with_socket socket)
      ]
    where
      with_socket :
          (socket : Option ℕ)
          → Ends opened "unix_passive_socket" (elim socket [
            | none ↦ record {
              opened = opened;
              value = none;
              throwable = error_from (text "socket") "unix_passive_socket";
            }
            | some sd ↦ bound_socket size sd bind true listen opened
          ])
      with_socket none = inl (refl, refl, refl)
      with_socket (some sd) = bound_socket-Ends sd bind listen opened

  -- Whatever the calls of the system answer, `unix_listen` ends with an error and leaves nothing open that
  -- it opened, or returns STATUS_OK with a socket, which is the one descriptor that is open in addition.
  pub unix_listen-Ends :
      (path : Option Chars) (socket : Option ℕ) (bind listen : Bool) (opened : List ℕ)
      → Ends opened "unix_listen" (unix_listen size path socket bind listen opened)
  unfolding unix_listen thrown ok_from
  unix_listen-Ends path socket bind listen opened =
      elim (unix_passive_socket-Ends path socket bind listen opened) [
        | inl (no_value, same, bad) ↦ inl (no_value, same, rw bad bad)
        | inr (sd, value, more, fine) ↦ inr (sd, value, more, rw fine)
      ]

  connected_socket-Ends :
      (sd : ℕ) (connect : Bool) (opened : List ℕ)
      → Ends opened "unix_connect" (connected_socket size sd connect opened)
  unfolding connected_socket error_from
  connected_socket-Ends sd true opened = inr (sd, refl, refl, refl)
  connected_socket-Ends sd false opened = inl (refl, close_fd-newest sd opened, refl)

  -- The same of `unix_connect`.
  pub unix_connect-Ends :
      (path : Option Chars) (socket : Option ℕ) (connect : Bool) (opened : List ℕ)
      → Ends opened "unix_connect" (unix_connect size path socket connect opened)
  unfolding unix_connect thrown error_from
  unix_connect-Ends path socket connect opened =
      elim (Bool-cases (failed (unix_build_address size path).1)) [
        | inl bad ↦ rw bad (inl (refl, refl, bad))
        | inr fine ↦ rw fine (with_socket socket)
      ]
    where
      with_socket :
          (socket : Option ℕ)
          → Ends opened "unix_connect" (elim socket [
            | none ↦ record {
              opened = opened;
              value = none;
              throwable = error_from (text "socket") "unix_connect";
            }
            | some sd ↦ connected_socket size sd connect opened
          ])
      with_socket none = inl (refl, refl, refl)
      with_socket (some sd) = connected_socket-Ends sd connect opened

take-all : (n : ℕ) (xs : List ℕ) → length xs ≤ n → take n xs ≡ xs
take-all zero [] h = refl
take-all zero (x ∷ xs) h = absurd (omega arith)
take-all (suc n) [] h = refl
take-all (suc n) (x ∷ xs) h = ap (λ ys. x ∷ ys) (take-all n xs (omega arith))

copied_into-fits :
    (size : ℕ) (path : Chars)
    → length path + 1 < size
    → copied_into size (size - 1) path ≡ path ++ replicate (suc (size - length path - 1)) 0
copied_into-fits size path h =
    let left : size - length path ≡ suc (size - length path - 1) = omega arith in
    rw (take-all (size - 1) path (omega arith)) (ap (λ n. path ++ replicate n 0) left)

-- A path without a zero: if it is shorter than `size` by 2 bytes at least, `unix_build_address` returns
-- STATUS_OK and the address holds exactly this path and a zero behind it; otherwise it returns the error of
-- EINVAL, never that of ENAMETOOLONG, though a path one byte shorter than `size` would fit with its zero.
pub unix_build_address_lem :
    (size : ℕ) (path : Chars)
    → ZeroFree path
    → ((length path + 1 < size)
        × ((address : List ℕ) × (unix_build_address size (some path)
              ≡ (some address, ok_from "unix_build_address"))
            × (string_at address ≡ path)
            × (length address ≡ size)))
      ⊎ ((size ≤ length path + 1)
          × (unix_build_address size (some path)
              ≡ (none, error_from einval_text "unix_build_address")))
unfolding unix_build_address
unix_build_address_lem size path z = elim (Bool-cases (leb (size - 1) (length path))) [
  | inl long ↦ inr (ground arith, rw long)
  | inr fits ↦
      let h : length path + 1 < size = ground arith in
      let short : ltb (length path) size ≡ true = ground arith in
      inl (
        h,
        (
          path ++ replicate (suc (size - length path - 1)) 0,
          rw (fits, short) (rw (copied_into-fits size path h)),
          string_at-append path (replicate (size - length path - 1) 0) z,
          rw (length-append path (replicate (suc (size - length path - 1)) 0))
              (omega (arith, length-replicate {0} (size - length path - 1) (zero))),
        ),
      )
]

-- ===== src/ApacheStatus/Retrieve/Left.antt =====
-- What every end of `retrieve_apache_status` of code/web_switch/apache_status.c leaves of the status and
-- of its socket.
use heimdall_web_switch.Prelude.{
  ℕ, ◌≡◌, refl, ◌⊎◌, inl, inr, Bool-cases, true, false, Option, none, some, List, [], if◌then◌else◌,
}
use heimdall_web_switch.Throwable.{Throwable, ok_from, thrown}
use heimdall_web_switch.Helper.{Strtol}
use heimdall_web_switch.Scheduler.{failed}
use heimdall_web_switch.HttpRequest.{Chars, string_at, make_simple_request}
use heimdall_web_switch.HttpResponse.{
  ResponseEnd, HttpResponse, new_http_response, get_http_response,
}
use heimdall_web_switch.HttpResponse
use heimdall_web_switch.Connection.{send_http}
use heimdall_web_switch.Connection.Messages.{MessageEnd, waiting, freed, returned, receive_http}
use heimdall_web_switch.Connection.Sockets.{hostname_to_ip, create_client_socket}
use heimdall_web_switch.ApacheStatus.{ApacheServerStatus}
use heimdall_web_switch.ApacheStatus.Retrieve.{
  RetrieveCalls, RetrieveEnd, waits, faults, returns, store_page, receive_page, send_page,
  status_request, retrieve_apache_status,
}

-- The socket that the calls give, if any.
abbrev pub socket_of : RetrieveCalls → Option ℕ
socket_of calls = (create_client_socket 0 calls.socket calls.inet_pton calls.connect).0

module _ {F : Type 0} (self : ApacheServerStatus F) (calls : RetrieveCalls) where
  -- An error: the status is as it was, and the socket is open if there is one.
  pub record IsLeaked (status : ApacheServerStatus F) (left_open : Option ℕ) (t : Throwable)
      : Type 0 where
    pub error : failed t ≡ true
    pub same : status ≡ self
    pub socket :
        (failed (hostname_to_ip calls.getaddrinfo).1 ≡ true) × (left_open ≡ none)
        ⊎ (failed (hostname_to_ip calls.getaddrinfo).1 ≡ false) × (left_open ≡ socket_of calls)

  -- STATUS_OK: only the page may have changed, and the socket is closed if `close` succeeds.
  pub record IsStored (status : ApacheServerStatus F) (left_open : Option ℕ) (t : Throwable)
      : Type 0 where
    pub fine : failed t ≡ false
    pub page : Option Chars
    pub changed : status ≡ record self { status_page = page }
    pub closed : left_open ≡ (if calls.close then none else socket_of calls)

  abbrev pub IsLeft : RetrieveEnd F → Type 0
  IsLeft waits = Unit {0}
  IsLeft faults = Unit {0}
  IsLeft (returns status sent left_open t) =
      IsLeaked status left_open t ⊎ IsStored status left_open t

  -- An error is passed on, and what follows is good.
  or_error :
      (t : Throwable) (sent : List ℕ) (left_open : Option ℕ) (on : RetrieveEnd F)
      → ((failed (hostname_to_ip calls.getaddrinfo).1 ≡ true) × (left_open ≡ none)
          ⊎ (failed (hostname_to_ip calls.getaddrinfo).1 ≡ false) × (left_open ≡ socket_of calls))
      → IsLeft on
      → IsLeft
          (if failed t then returns self sent left_open (thrown t "retrieve_apache_status") else on)
  unfolding thrown
  or_error t sent left_open on socket good = elim (Bool-cases (failed t)) [
    | inl bad ↦ rw bad (inl (record { error = bad; same = refl; socket = socket }))
    | inr fine ↦ rw fine good
  ]

  module _ (tolower : ℕ → ℕ) (copy : Chars → Option Chars) (convert : Chars → Strtol)
      (resolved : failed (hostname_to_ip calls.getaddrinfo).1 ≡ false) where
    store_page-IsLeft :
        (sent : List ℕ) (end : ResponseEnd)
        → IsLeft (
            store_page tolower copy convert self sent
              (if calls.close then none else socket_of calls)
              end)
    unfolding store_page ok_from
    store_page-IsLeft sent HttpResponse.fault = tt
    store_page-IsLeft sent (HttpResponse.done http_response t) =
        stored http_response.http_response_body
      where
        stored :
            (body : Option Chars)
            → IsLeft (elim body [
              | none ↦ faults
              | some page ↦
                  returns
                    (record self { status_page = copy page })
                    sent
                    (if calls.close then none else socket_of calls)
                    (ok_from "retrieve_apache_status")
            ])
        stored none = tt
        stored (some page) =
            inr (record { fine = refl; page = copy page; changed = refl; closed = refl })

    receive_page-IsLeft :
        (sent : List ℕ)
        → IsLeft (receive_page tolower copy convert self sent (socket_of calls) calls)
    unfolding receive_page
    receive_page-IsLeft sent = got (receive_http calls.realloc [] calls.reads)
      where
        page : (response : List ℕ) → RetrieveEnd F
        page response =
            store_page tolower copy convert self sent
              (if calls.close then none else socket_of calls)
              (get_http_response tolower copy convert new_http_response (string_at response))

        got :
            (end : MessageEnd)
            → IsLeft (elim end [
              | waiting ↦ waits
              | freed ↦ faults
              | returned response t ↦
                  if failed t
                  then returns self sent (socket_of calls) (thrown t "retrieve_apache_status")
                  else page response
            ])
        got waiting = tt
        got freed = tt
        got (returned response t) =
            or_error t sent (socket_of calls) (page response) (inr (resolved, refl))
              (store_page-IsLeft sent _)

    send_page-IsLeft :
        (made : Option Chars × Throwable)
        → IsLeft (send_page tolower copy convert self (socket_of calls) calls made)
    unfolding send_page
    send_page-IsLeft (message, t) =
        or_error t [] (socket_of calls) asked (inr (resolved, refl)) (with_message message)
      where
        sent_on : (bytes : Chars) → Option Throwable → RetrieveEnd F
        sent_on bytes result = elim result [
          | none ↦ waits
          | some t' ↦
              if failed t'
              then returns self (send_http bytes calls.writes).0 (socket_of calls)
                  (thrown t' "retrieve_apache_status")
              else receive_page tolower copy convert self (send_http bytes calls.writes).0
                  (socket_of calls) calls
        ]

        sent_on-IsLeft : (bytes : Chars) (result : Option Throwable) → IsLeft (sent_on bytes result)
        sent_on-IsLeft bytes none = tt
        sent_on-IsLeft bytes (some t') =
            or_error t' (send_http bytes calls.writes).0 (socket_of calls) _ (inr (resolved, refl))
              (receive_page-IsLeft (send_http bytes calls.writes).0)

        asked : RetrieveEnd F
        asked = elim message [
          | none ↦ faults
          | some bytes ↦ sent_on bytes (send_http bytes calls.writes).1
        ]

        with_message :
            (m : Option Chars)
            → IsLeft (elim m [
              | none ↦ faults
              | some bytes ↦ sent_on bytes (send_http bytes calls.writes).1
            ])
        with_message none = tt
        with_message (some bytes) = sent_on-IsLeft bytes (send_http bytes calls.writes).1

  module _ (tolower : ℕ → ℕ) (copy : Chars → Option Chars) (convert : Chars → Strtol) where
    connect_page-IsLeft :
        (url : Chars)
        → failed (hostname_to_ip calls.getaddrinfo).1 ≡ false
        → IsLeft (
            if failed (create_client_socket 0 calls.socket calls.inet_pton calls.connect).1
            then returns self [] (socket_of calls) (
                thrown
                  (create_client_socket 0 calls.socket calls.inet_pton calls.connect).1
                  "retrieve_apache_status")
            else send_page tolower copy convert self
                (socket_of calls)
                calls
                (make_simple_request copy (status_request copy url)))
    connect_page-IsLeft url resolved =
        or_error (create_client_socket 0 calls.socket calls.inet_pton calls.connect).1 []
          (socket_of calls) _ (inr (resolved, refl))
          (send_page-IsLeft tolower copy convert resolved
            (make_simple_request copy (status_request copy url)))

    -- Whatever the calls of the system answer, `retrieve_apache_status` waits for one of them, or reads through
    -- NULL or writes into freed memory, or returns. When it returns an error, the status is as it was before, and the socket that
    -- the calls gave stays open: there is none only if the name was not resolved or no socket was
    -- given. When it returns STATUS_OK, nothing but the page has changed, and the socket is closed if
    -- `close` succeeds.
    pub retrieve_apache_status-IsLeft :
        IsLeft (retrieve_apache_status tolower copy convert self calls)
    unfolding retrieve_apache_status thrown
    retrieve_apache_status-IsLeft = with_url self.url
      where
        with_url :
            (url : Option Chars)
            → IsLeft (elim url [
              | none ↦ faults
              | some text ↦
                  if failed (hostname_to_ip calls.getaddrinfo).1
                  then returns self [] none
                      (thrown (hostname_to_ip calls.getaddrinfo).1 "retrieve_apache_status")
                  else if failed
                      (create_client_socket 0 calls.socket calls.inet_pton calls.connect).1
                  then returns self [] (socket_of calls) (
                      thrown
                        (create_client_socket 0 calls.socket calls.inet_pton calls.connect).1
                        "retrieve_apache_status")
                  else send_page tolower copy convert self
                      (socket_of calls)
                      calls
                      (make_simple_request copy (status_request copy text))
            ])
        with_url none = tt
        with_url (some text) = elim (Bool-cases (failed (hostname_to_ip calls.getaddrinfo).1)) [
          | inl bad ↦ rw bad (inl (record { error = bad; same = refl; socket = inl (bad, refl) }))
          | inr fine ↦ rw fine (connect_page-IsLeft text fine)
        ]

-- ===== src/Api/Access.antt =====
-- What a client can do that does not show the token, in
-- src/xmpp_p2p_chat/connection_service/api.py.
use serverless_xmpp.Base.{
  none, ap, ℕ, String, Bool, true, false, not, ◌&&◌, ◌≡◌, refl, arith, Option, some, List, [], ◌∷◌,
  truthy, is_some, All, All-append, inl, inr, Bool-cases,
}
use serverless_xmpp.Base.Outcome.{Done, ok, err}
use serverless_xmpp.Models.JsonData.{Json, null, bool, int, number, str, arr, obj, get}
use serverless_xmpp.Api.{
  event_payload, discard_all, has, send_all, Outcome, RpcServer, discard, is_token, is_auth,
  value_or_null, params_of, send, broadcast, check_token, authenticate, handle_message, closing,
  connect, disconnect, error_payload,
}

-- What happens to the server, with the connections that are open at the time of each event; a
-- message is what `json.loads` makes of it.
pub data Event : Type 0 where
  opened gone : ℕ → Event
  received : (ℕ → Bool) → ℕ → Option Json → Event
  pushed : (ℕ → Bool) → String → Json → Event

-- A message that is an `auth` with the token.
unfoldable pub has_token : String → Json → Bool
has_token token (obj params) = is_token token (get "token" params)
has_token token _ = false

unfoldable pub shows_token : String → Option Json → Bool
unfolding has_token
shows_token token (some (obj message)) =
    is_auth (value_or_null (get "method" message)) && has_token token (params_of message)
shows_token token _ = false

unfoldable pub event_shows : String → Event → Bool
unfolding shows_token
event_shows token (received open_ w v) = shows_token token v
event_shows token _ = false

-- Neither a result nor an event.
unfoldable pub is_refusal : ℕ × Json → Bool
is_refusal (w, obj payload) =
    not (is_some (get "result" payload)) && not (is_some (get "method" payload))
is_refusal _ = false

module _ {S : Type 0} (dispatch : Json → Json → S → Outcome × S) (token : String) where
  -- The loop of a client ends where the handling of its message raises.
  abbrev pub after_message : ℕ → Done × RpcServer S → RpcServer S
  after_message w (ok done, r) = r
  after_message w (err e, r) = disconnect w r

  unfoldable pub step : Event → RpcServer S → RpcServer S
  step (opened w) r = connect token w r
  step (gone w) r = disconnect w r
  step (received open_ w v) r = after_message w (handle_message open_ dispatch token w v r)
  step (pushed open_ event params) r = broadcast open_ token event params r

  unfoldable pub run : List Event → RpcServer S → RpcServer S
  unfolding step
  run [] r = r
  run (e ∷ events) r = run events (step e r)

  module _ (service : S) (required : truthy token ≡ true) where
    -- The state of a server that nobody has shown the token.
    pub record IsLocked (r : RpcServer S) : Type 0 where
      pub untouched : r.service ≡ service
      pub nobody : r.authenticated ≡ []
      pub refusals : All (λ frame. is_refusal frame ≡ true) r.sent

    send-IsLocked :
        (open_ : ℕ → Bool) (w : ℕ) (payload : Json) (r : RpcServer S)
        → is_refusal (w, payload) ≡ true
        → IsLocked r
        → IsLocked (send open_ w payload r).1
    unfolding send
    send-IsLocked open_ w payload r refused h = elim (Bool-cases (open_ w)) [
      | inl e ↦
          rw (send, e)
            (record {
              untouched = h.untouched;
              nobody = h.nobody;
              refusals =
                  All-append (λ frame. is_refusal frame ≡ true) r.sent ((w, payload) ∷ [])
                    h.refusals (refused, tt);
            })
      | inr e ↦ rw (send, e) h
    ]

    error-is_refusal :
        (w : ℕ) (id : Json) (code message : String)
        → is_refusal (w, error_payload id code message) ≡ true
    unfolding is_refusal error_payload get
    error-is_refusal w id code message = refl

    disconnect-IsLocked : (w : ℕ) (r : RpcServer S) → IsLocked r → IsLocked (disconnect w r)
    unfolding disconnect discard
    disconnect-IsLocked w r h = record {
      untouched = h.untouched;
      nobody = rw h.nobody refl;
      refusals = h.refusals;
    }

    after-IsLocked :
        (w : ℕ) (result : Done × RpcServer S)
        → IsLocked result.1
        → IsLocked (after_message w result)
    after-IsLocked w (ok done, r) h = h
    after-IsLocked w (err e, r) h = disconnect-IsLocked w r h

    closing-IsLocked :
        (w : ℕ) (result : Done × RpcServer S) → IsLocked result.1 → IsLocked (closing w result).1
    closing-IsLocked w (ok done, r) h = record {
      untouched = h.untouched;
      nobody = h.nobody;
      refusals = h.refusals;
    }
    closing-IsLocked w (err e, r) h = h

    check_token-IsLocked :
        (open_ : ℕ → Bool) (w : ℕ) (id params : Json) (r : RpcServer S)
        → has_token token params ≡ false
        → IsLocked r
        → IsLocked (check_token open_ dispatch token w id params r).1
    unfolding check_token has_token
    check_token-IsLocked open_ w id (obj params) r shown h =
        rw (check_token, shown)
          (closing-IsLocked w (send open_ w (error_payload id "-32001" "Unauthorized") r) (
            send-IsLocked open_ w (error_payload id "-32001" "Unauthorized") r
              (error-is_refusal w id "-32001" "Unauthorized") h))
    check_token-IsLocked open_ w id null r shown h = h
    check_token-IsLocked open_ w id (bool b) r shown h = h
    check_token-IsLocked open_ w id (int n) r shown h = h
    check_token-IsLocked open_ w id (number s) r shown h = h
    check_token-IsLocked open_ w id (str s) r shown h = h
    check_token-IsLocked open_ w id (arr items) r shown h = h

    authenticate-IsLocked :
        (open_ : ℕ → Bool) (w : ℕ) (v : Json) (r : RpcServer S)
        → shows_token token (some v) ≡ false
        → IsLocked r
        → IsLocked (authenticate open_ dispatch token w v r).1
    unfolding authenticate shows_token
    authenticate-IsLocked open_ w (obj message) r shown h =
        let id = value_or_null (get "id" message) in
        elim (Bool-cases (is_auth (value_or_null (get "method" message)))) [
          | inl e ↦
              rw (authenticate, e)
                (check_token-IsLocked open_ w id (params_of message) r (ground arith) h)
          | inr e ↦
              rw (authenticate, e)
                (send-IsLocked open_ w (error_payload id "-32001" "Auth required") r
                  (error-is_refusal w id "-32001" "Auth required") h)
        ]
    authenticate-IsLocked open_ w null r shown h = h
    authenticate-IsLocked open_ w (bool b) r shown h = h
    authenticate-IsLocked open_ w (int n) r shown h = h
    authenticate-IsLocked open_ w (number s) r shown h = h
    authenticate-IsLocked open_ w (str s) r shown h = h
    authenticate-IsLocked open_ w (arr items) r shown h = h

    handle_message-IsLocked :
        (open_ : ℕ → Bool) (w : ℕ) (v : Option Json) (r : RpcServer S)
        → shows_token token v ≡ false
        → IsLocked r
        → IsLocked (handle_message open_ dispatch token w v r).1
    unfolding handle_message
    handle_message-IsLocked open_ w none r shown h =
        send-IsLocked open_ w (error_payload null "-32700" "Parse error") r
          (error-is_refusal w null "-32700" "Parse error") h
    handle_message-IsLocked open_ w (some v) r shown h =
        let unknown : has w r.authenticated ≡ false = ap (has w) h.nobody in
        rw (handle_message, required, unknown) (authenticate-IsLocked open_ w v r shown h)

    -- A broadcast passes over everyone.
    send_all_nobody :
        (open_ : ℕ → Bool) (payload : Json) (clients : List ℕ) (r : RpcServer S)
        → r.authenticated ≡ []
        → send_all open_ token payload clients r ≡ ([], r)
    unfolding send_all
    send_all_nobody open_ payload [] r nobody = refl
    send_all_nobody open_ payload (w ∷ clients) r nobody =
        let unknown : has w r.authenticated ≡ false = ap (has w) nobody in
        rw (send_all, required, unknown) (send_all_nobody open_ payload clients r nobody)

    broadcast-IsLocked :
        (open_ : ℕ → Bool) (event : String) (params : Json) (r : RpcServer S)
        → IsLocked r
        → IsLocked (broadcast open_ token event params r)
    unfolding broadcast discard_all
    broadcast-IsLocked open_ event params r h =
        rw (broadcast, send_all_nobody open_ (event_payload event params) r.clients r h.nobody)
          (record { untouched = h.untouched; nobody = h.nobody; refusals = h.refusals })

    step-IsLocked :
        (e : Event) (r : RpcServer S)
        → event_shows token e ≡ false
        → IsLocked r
        → IsLocked (step e r)
    unfolding step event_shows connect
    step-IsLocked (opened w) r shown h =
        rw (connect, required)
          (record { untouched = h.untouched; nobody = h.nobody; refusals = h.refusals })
    step-IsLocked (gone w) r shown h = disconnect-IsLocked w r h
    step-IsLocked (received open_ w v) r shown h =
        after-IsLocked w (handle_message open_ dispatch token w v r)
          (handle_message-IsLocked open_ w v r shown h)
    step-IsLocked (pushed open_ event params) r shown h = broadcast-IsLocked open_ event params r h

    run-IsLocked :
        (events : List Event) (r : RpcServer S)
        → All (λ e. event_shows token e ≡ false) events
        → IsLocked r
        → IsLocked (run events r)
    unfolding run
    run-IsLocked [] r shown h = h
    run-IsLocked (e ∷ events) r shown h =
        run-IsLocked events (step e r) shown.1 (step-IsLocked e r shown.0 h)

-- As long as nobody shows the token that the configuration asks for, no sequence of connections,
-- messages and pushes changes the service, and nothing is sent but errors: no result and no event.
pub run-IsLocked_new :
    {S : Type 0} (dispatch : Json → Json → S → Outcome × S) (token : String) (service : S)
    (required : truthy token ≡ true) (events : List Event)
    → All (λ e. event_shows token e ≡ false) events
    → IsLocked dispatch token service required (
        run dispatch token events
          (record { service = service; clients = []; authenticated = []; sent = []; closed = [] }))
run-IsLocked_new dispatch token service required events shown =
    run-IsLocked dispatch token service required events
      (record { service = service; clients = []; authenticated = []; sent = []; closed = [] }) shown
      (record { untouched = refl; nobody = refl; refusals = tt })

-- ===== src/Api.antt =====
-- The JSON-RPC server: src/xmpp_p2p_chat/connection_service/api.py. This file is the server without
-- its methods: the clients, who of them has shown the token, and what is sent to them. The methods
-- are an argument, `dispatch`, which Api/Dispatch.antt gives. A client is a number; whether its
-- connection is open at a moment is an argument, and sending on a closed one raises.
pub mod Access
pub mod Broadcasts
pub mod Replies
pub mod Service
pub mod BookMethods
pub mod SyncMethods
pub mod ChatMethods
pub mod Dispatch
pub mod Consistency
pub mod Pending
pub mod Calls
pub mod Safety
pub mod Tests
use serverless_xmpp.Base.{
  ℕ, String, Bool, true, false, not, ◌&&◌, ◌||◌, Option, none, some, List, [], ◌∷◌, ◌++◌, ◌==◌, eqb,
  any, select, if◌then◌else◌, truthy, contains,
}
use serverless_xmpp.Base.Outcome.{Done, ok, err, transport_error, attribute_error, type_error}
use serverless_xmpp.Models.JsonData as JsonData
use serverless_xmpp.Models.JsonData.{
  Json, null, bool, int, number, str, arr, obj, Items, nil, cons, Fields, end, field, get,
}

-- What a method comes to: a result, a `JsonRpcError` of a code and a message, or another exception,
-- by its text.
pub data Outcome : Type 0 where
  answer : Json → Outcome
  rpc_error : String → String → Outcome
  raised : String → Outcome

-- `sent` has what was sent, and `closed` the connections that the server has closed itself.
pub record RpcServer (S : Type 0) : Type 0 where
  pub service : S
  pub clients : List ℕ
  pub authenticated : List ℕ
  pub sent : List (ℕ × Json)
  pub closed : List ℕ

-- Sets of clients.
abbrev pub has : ℕ → List ℕ → Bool
has w clients = any (λ c. eqb c w) clients

unfoldable pub add : ℕ → List ℕ → List ℕ
add w clients = if has w clients then clients else clients ++ w ∷ []

unfoldable pub discard : ℕ → List ℕ → List ℕ
discard w clients = select (λ c. not (eqb c w)) clients

unfoldable pub discard_all : List ℕ → List ℕ → List ℕ
unfolding discard
discard_all [] clients = clients
discard_all (w ∷ dead) clients = discard_all dead (discard w clients)

-- `message.get(key)`, where `null` is as good as missing
abbrev pub value_or_null : Option Json → Json
value_or_null none = null
value_or_null (some v) = v

-- `message.get("params") or {}`
unfoldable pub params_of : Fields → Json
params_of message = elim (get "params" message) [
  | none ↦ obj end
  | some v ↦ if JsonData.truthy v then v else obj end
]

unfoldable pub method_of : Fields → Json
method_of message = elim (get "method" message) [ none ↦ str "" | some v ↦ v ]

unfoldable pub result_payload : Json → Json → Json
result_payload id result =
    obj (field "jsonrpc" (str "2.0") (field "id" id (field "result" result end)))

unfoldable pub error_payload : Json → String → String → Json
error_payload id code message = obj (
    field "jsonrpc" (str "2.0") (
      field "id" id
        (field "error" (obj (field "code" (number code) (field "message" (str message) end))) end)))

unfoldable pub event_payload : String → Json → Json
event_payload event params =
    obj (field "jsonrpc" (str "2.0") (field "method" (str event) (field "params" params end)))

-- `v == token` of a value of a message
abbrev pub is_token : String → Option Json → Bool
is_token token (some (str s)) = s == token
is_token token none = "" == token
is_token token (some _) = false

-- `"method" in message` of a list
unfoldable pub has_method : Items → Bool
has_method nil = false
has_method (cons (str s) items) = s == "method" || has_method items
has_method (cons _ items) = has_method items

abbrev pub is_auth : Json → Bool
is_auth (str s) = s == "auth"
is_auth _ = false

abbrev pub closing : {S : Type 0} → ℕ → Done × RpcServer S → Done × RpcServer S
closing w (ok done, r) = (ok done, record r { closed = r.closed ++ w ∷ [] })
closing w (err e, r) = (err e, r)

module _ {S : Type 0} (open_ : ℕ → Bool) where
  unfoldable pub send : ℕ → Json → RpcServer S → Done × RpcServer S
  send w payload r =
      if open_ w
      then (ok tt, record r { sent = r.sent ++ (w, payload) ∷ [] })
      else (err transport_error, r)

  abbrev pub send_result : ℕ → Json → Json → RpcServer S → Done × RpcServer S
  send_result w id result r = send w (result_payload id result) r

  abbrev pub send_error : ℕ → Json → String → String → RpcServer S → Done × RpcServer S
  send_error w id code message r = send w (error_payload id code message) r

  -- The clients that cannot be reached, in `broadcast`.
  unfoldable pub send_all : String → Json → List ℕ → RpcServer S → List ℕ × RpcServer S
  unfolding send
  send_all token payload [] r = ([], r)
  send_all token payload (w ∷ clients) r =
      if truthy token && not (has w r.authenticated)
      then send_all token payload clients r
      else let (done, r') = send w payload r in
        let (dead, r'') = send_all token payload clients r' in
        (if open_ w then dead else w ∷ dead, r'')

  -- `broadcast`
  unfoldable pub broadcast : String → String → Json → RpcServer S → RpcServer S
  unfolding send_all discard_all
  broadcast token event params r =
      let (dead, r') = send_all token (event_payload event params) r.clients r in
      record r' {
        clients = discard_all dead r'.clients;
        authenticated = discard_all dead r'.authenticated;
      }

  module _ (dispatch : Json → Json → S → Outcome × S) where
    -- What is said to a client that could not be told the result: it cannot be told that either.
    abbrev pub or_failed : ℕ → Json → Done × RpcServer S → Done × RpcServer S
    or_failed w id (ok done, r) = (ok done, r)
    or_failed w id (err e, r) = send_error w id "-32603" "" r

    unfoldable pub reply : ℕ → Json → Outcome → RpcServer S → Done × RpcServer S
    unfolding send
    reply w null (answer result) r = (ok tt, r)
    reply w id (answer result) r = or_failed w id (send_result w id result r)
    reply w id (rpc_error code message) r = send_error w id code message r
    reply w id (raised text) r = send_error w id "-32603" text r

    -- `_handle_request`
    unfoldable pub handle_request : ℕ → Fields → RpcServer S → Done × RpcServer S
    unfolding reply method_of params_of
    handle_request w message r =
        let (outcome, service) = dispatch (method_of message) (params_of message) r.service in
        reply w (value_or_null (get "id" message)) outcome (record r { service = service })

    -- A value that is no object has no method `get`; one that has no `in` raises before.
    unfoldable pub handle_value : ℕ → Json → RpcServer S → Done × RpcServer S
    unfolding handle_request has_method
    handle_value w (obj message) r = elim (get "method" message) [
      | none ↦ (ok tt, r)
      | some method ↦ handle_request w message r
    ]
    handle_value w (arr items) r = if has_method items then (err attribute_error, r) else (ok tt, r)
    handle_value w (str s) r = if contains s "method" then (err attribute_error, r) else (ok tt, r)
    handle_value w null r = (err type_error, r)
    handle_value w (bool b) r = (err type_error, r)
    handle_value w (int n) r = (err type_error, r)
    handle_value w (number s) r = (err type_error, r)

    -- The answer to an `auth`, by the value of `params`.
    unfoldable pub check_token : String → ℕ → Json → Json → RpcServer S → Done × RpcServer S
    unfolding send add
    check_token token w id (obj params) r =
        if is_token token (get "token" params)
        then send_result w id (obj (field "ok" (bool true) end))
            (record r { authenticated = add w r.authenticated })
        else closing w (send_error w id "-32001" "Unauthorized" r)
    check_token token w id _ r = (err attribute_error, r)

    unfoldable pub authenticate : String → ℕ → Json → RpcServer S → Done × RpcServer S
    unfolding check_token send params_of
    authenticate token w (obj message) r =
        let id = value_or_null (get "id" message) in
        if is_auth (value_or_null (get "method" message))
        then check_token token w id (params_of message) r
        else send_error w id "-32001" "Auth required" r
    authenticate token w _ r = (err attribute_error, r)

    -- The body of the loop of `handle_client`, for what `json.loads` gives.
    unfoldable pub handle_message : String → ℕ → Option Json → RpcServer S → Done × RpcServer S
    unfolding authenticate handle_value send
    handle_message token w none r = send_error w null "-32700" "Parse error" r
    handle_message token w (some v) r =
        if truthy token && not (has w r.authenticated)
        then authenticate token w v r
        else handle_value w v r

module _ {S : Type 0} where
  -- The beginning and the end of `handle_client`.
  unfoldable pub connect : String → ℕ → RpcServer S → RpcServer S
  unfolding add
  connect token w r = record r {
    clients = add w r.clients;
    authenticated = if truthy token then r.authenticated else add w r.authenticated;
  }

  unfoldable pub disconnect : ℕ → RpcServer S → RpcServer S
  unfolding discard
  disconnect w r = record r {
    clients = discard w r.clients;
    authenticated = discard w r.authenticated;
  }

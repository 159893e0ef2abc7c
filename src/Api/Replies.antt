-- ===== src/Api/Replies.antt =====
-- What a client hears of its request, in src/xmpp_p2p_chat/connection_service/api.py.
use serverless_xmpp.Base.{ℕ, String, Bool, true, ◌≡◌, ◌≢◌, some, List, [], ◌∷◌, is_some}
use serverless_xmpp.Models.JsonData.{Json, null, number, str, obj, Fields, field, end, get}
use serverless_xmpp.Api.{
  Outcome, answer, rpc_error, raised, RpcServer, value_or_null, params_of, method_of,
  handle_message,
}

-- The answer to a request, written out.
unfoldable pub answer_to : Json → Outcome → Json
answer_to id (answer result) =
    obj (field "jsonrpc" (str "2.0") (field "id" id (field "result" result end)))
answer_to id (rpc_error code message) = obj (
    field "jsonrpc" (str "2.0") (
      field "id" id
        (field "error" (obj (field "code" (number code) (field "message" (str message) end))) end)))
answer_to id (raised text) = obj (
    field "jsonrpc" (str "2.0") (
      field "id" id (
        field "error" (obj (field "code" (number "-32603") (field "message" (str text) end))) end)))

-- A request that is to be answered: it has a method and an id.
pub record IsRequest (message : Fields) : Type 0 where
  pub has_method : is_some (get "method" message) ≡ true
  pub has_id : value_or_null (get "id" message) ≢ null

module _ {S : Type 0} (open_ : ℕ → Bool) (dispatch : Json → Json → S → Outcome × S) (w : ℕ)
    (message : Fields) (r : RpcServer S) (is_open : open_ w ≡ true) where
  abbrev pub ran : Outcome × S
  ran = dispatch (method_of message) (params_of message) r.service

module _ {S : Type 0} (dispatch : Json → Json → S → Outcome × S) (w : ℕ) where
  -- What the methods come to, each run on the service that the one before has left.
  unfoldable pub answers : List Fields → S → List (ℕ × Json)
  answers [] s = []
  answers (m ∷ ms) s =
      let (outcome, s') = dispatch (method_of m) (params_of m) s in
      (w, answer_to (value_or_null (get "id" m)) outcome) ∷ answers ms s'

  unfoldable pub after : List Fields → S → S
  after [] s = s
  after (m ∷ ms) s = after ms (dispatch (method_of m) (params_of m) s).1

module _ {S : Type 0} (open_ : ℕ → Bool) (dispatch : Json → Json → S → Outcome × S) (token : String)
    (w : ℕ) where
  -- The loop of `handle_client` over messages that are objects.
  unfoldable pub serve : List Fields → RpcServer S → RpcServer S
  serve [] r = r
  serve (m ∷ ms) r = serve ms (handle_message open_ dispatch token w (some (obj m)) r).1

-- ===== src/Api/Tests.antt =====
-- A server with a token, and instances of the theorems on it.
use serverless_xmpp.Base.{ℕ, suc, true, ◌≡◌, refl, some, List, [], ◌∷◌, eqb}
use serverless_xmpp.Models.JsonData as JsonData
use serverless_xmpp.Models.JsonData.{Json, null, int, str, obj, field, end}
use serverless_xmpp.Api.{Outcome, answer, RpcServer, broadcast, event_payload, params_of}
use serverless_xmpp.Api.Access.{
  Event, opened, received, pushed, IsLocked, event_shows, shows_token, has_token, run,
  run-IsLocked_new,
}
use serverless_xmpp.Api.Broadcasts.{frames, reached, lost, without, broadcast_lem}

-- A method that counts its calls.
abbrev counting : Json → Json → ℕ → Outcome × ℕ
counting method params n = (answer (int n), suc n)

abbrev wrong : Json
wrong =
    obj (field "method" (str "auth") (field "params" (obj (field "token" (str "guess") end)) end))

abbrev events : List Event
events =
    opened 1
    ∷ received (λ w. true) 1 (some wrong)
    ∷ received (λ w. true) 1 (some (obj (field "method" (str "system.shutdown") end)))
    ∷ pushed (λ w. true) "message.received" null
    ∷ []

run-IsLocked_new_example : IsLocked counting "secret" 0 refl (
    run counting "secret" events
      (record { service = 0; clients = []; authenticated = []; sent = []; closed = [] }))
unfolding event_shows shows_token has_token params_of JsonData.get JsonData.truthy
run-IsLocked_new_example =
    run-IsLocked_new counting "secret" 0 refl events (refl, (refl, (refl, (refl, tt))))

-- Three clients, of whom two have shown the token and one of these is gone.
abbrev server : RpcServer ℕ
server = record {
  service = 0;
  clients = 1 ∷ 2 ∷ 3 ∷ [];
  authenticated = 1 ∷ 2 ∷ [];
  sent = [];
  closed = [];
}

broadcast_lem_example :
    let r' = broadcast (λ w. eqb w 1) "secret" "discovery.updated" null server in
    let dead = lost (λ w. eqb w 1) "secret" (1 ∷ 2 ∷ []) (1 ∷ 2 ∷ 3 ∷ []) in
    (r'.sent
      ≡ frames
          (event_payload "discovery.updated" null)
          (reached (λ w. eqb w 1) "secret" (1 ∷ 2 ∷ []) (1 ∷ 2 ∷ 3 ∷ [])))
    × (r'.clients ≡ without dead (1 ∷ 2 ∷ 3 ∷ []))
    × (r'.authenticated ≡ without dead (1 ∷ 2 ∷ []))
    × (r'.service ≡ 0)
broadcast_lem_example = broadcast_lem (λ w. eqb w 1) "secret" "discovery.updated" null server

abbrev request : JsonData.Fields
request = field "id" (int 7) (field "method" (str "system.health") end)

abbrev unknown_request : JsonData.Fields
unknown_request = field "id" (str "b") (field "method" (str "x") end)

abbrev two_requests : List JsonData.Fields
two_requests = request ∷ unknown_request ∷ []

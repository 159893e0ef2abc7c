-- ===== src/Api/ChatMethods.antt =====
-- The methods of src/xmpp_p2p_chat/connection_service/api.py on chats, presence, connections,
-- discovery and the system.
use serverless_xmpp.Base.{
  ℕ, String, true, Option, none, some, List, if◌then◌else◌, truthy, length, is_some, eqb,
}
use serverless_xmpp.Base.Outcome.{Result, Done, ok, err, type_error, ◌>>=◌}
use serverless_xmpp.Config.{effective_local_jid}
use serverless_xmpp.Models.{Datetime, Message, ChatSession}
use serverless_xmpp.Models.JsonData as JsonData
use serverless_xmpp.Models.JsonData.{Json, null, bool, int, str, arr, obj, Fields, end, field}
use serverless_xmpp.Persistence.{get_history, pending_outbox_count}
use serverless_xmpp.AddressBook.{sorted_contacts}
use serverless_xmpp.DirectP2p.Listening as Listening
use serverless_xmpp.Discovery.{DiscoveredPeer}
use serverless_xmpp.Session.{SessionManager, start_chat, send_message}
use serverless_xmpp.Session.Setup.{connection_status}
use serverless_xmpp.Session.Links.{Links, reconnect, p2p_fingerprint, discovered_peers}
use serverless_xmpp.Session.Discovering.{Applied, apply_discovered_endpoint}
use serverless_xmpp.Api.{Outcome, answer, rpc_error, raised}
use serverless_xmpp.Api.Service.{
  ApiPlatform, Call, Service, SyncState, HealthStatus, book_of, with_manager, required, optional,
  text_or, outcome_of, finish, to_items,
}
use serverless_xmpp.Api.SyncMethods.{ok_answer}

abbrev pub text_or_null : Option String → Json
text_or_null none = null
text_or_null (some s) = str s

unfoldable pub peer_fields : DiscoveredPeer → Json
peer_fields p = obj (
    field "jid" (str p.jid) (
      field "host" (str p.host) (
        field "port" (int p.port) (
          field "fingerprint" (text_or_null p.fingerprint)
            (field "service_name" (str p.service_name) end)))))

module _ (a : ApiPlatform) (call : Call) where
  abbrev pub chat_started : Service → ChatSession × SessionManager → Outcome × Service
  chat_started s (session, m) = (
    answer (
        obj
          (field "chat_id" (str session.chat_id) (field "session" (a.dumps.session session) end))),
    with_manager s m,
  )

  unfoldable pub chat_start : Json → Service → Outcome × Service
  chat_start params s = finish a.describe s (chat_started s) (
      required "contact_id" params >>= λ contact_id.
      start_chat a.base.unicode call.net call.now contact_id s.manager)

  abbrev pub message_sent : Result Message → Outcome
  message_sent result =
      outcome_of a.describe
        (λ message. answer (obj (field "message" (a.dumps.message message) end))) result

  abbrev pub chat_and_body : Json → Result (String × String)
  chat_and_body params = do
    chat_id ← required "chat_id" params
    body ← required "body" params
    ok (chat_id, body)

  -- What `send_message` has changed stays when it raises.
  unfoldable pub chat_send_message : Json → Service → Outcome × Service
  chat_send_message params s =
      finish a.describe s
        (λ (x : String × String).
          let (result, m) =
            send_message a.base.unicode call.net call.now call.new_id x.0 x.1 s.manager in
          (message_sent result, with_manager s m))
        (chat_and_body params)

  -- `before`, if it is not empty
  unfoldable pub before_of : Option Json → Result (Option Datetime)
  before_of none = ok none
  before_of (some (str s)) =
      if truthy s then (a.parse_iso s >>= λ time. ok (some time)) else ok none
  before_of (some v) = if JsonData.truthy v then err type_error else ok none

  abbrev pub limit_of : Option Json → Result (Option ℕ)
  limit_of none = ok (some 50)
  limit_of (some v) = a.to_int v

  unfoldable pub history_of : Json → Service → Result (List Message)
  unfolding before_of
  history_of params s = do
    before ← optional "before" params >>= before_of
    chat_id ← required "chat_id" params
    limit ← optional "limit" params >>= limit_of
    get_history chat_id limit before s.manager.db

  unfoldable pub chat_get_history : Json → Service → Outcome × Service
  unfolding history_of
  chat_get_history params s = (
    outcome_of a.describe
        (λ messages. answer (obj (field "messages" (arr (to_items a.dumps.message messages)) end)))
        (history_of params s),
    s,
  )

  -- The presence is sent, and changes nothing here.
  unfoldable pub presence_set : Json → Service → Outcome × Service
  presence_set params s =
      finish a.describe s (λ (x : String × String). (ok_answer, s))
        (text_or "show" "available" params >>= λ show.
          text_or "status" "" params >>= λ status. ok (show, status))

  abbrev pub fingerprint_fields : Service → Fields
  fingerprint_fields s = elim (p2p_fingerprint s.links) [
    | none ↦ end
    | some fp ↦
        if truthy fp
        then field "p2p_fingerprint" (str fp)
            (field "p2p_listen_port" (int s.config.p2p.listen_port) end)
        else end
  ]

  unfoldable pub connection_status_method : Service → Outcome × Service
  connection_status_method s =
      let statuses =
        connection_status a.keyring s.config (sorted_contacts a.base (book_of s).contacts)
          (elim s.links.p2p [ none ↦ none | some t ↦ some (Listening.status t) ])
          (elim s.links.xmpp [ none ↦ none | some state ↦ some (a.xmpp_status state) ]) in
      (
        answer (
            obj (
              field "transports" (arr (to_items a.dumps.transport statuses))
                (field "local_jid" (str (effective_local_jid s.config)) (fingerprint_fields s)))),
        s,
      )

  -- A transport by the server gives the sync its sender.
  abbrev pub wired : Links → Option SyncState → Option SyncState
  wired l none = none
  wired l (some state) =
      some (record state { has_sender = if is_some l.xmpp then true else state.has_sender })

  abbrev pub done_or_raised : Done → Outcome
  done_or_raised (ok done) = ok_answer
  done_or_raised (err e) = raised (a.describe e)

  unfoldable pub connection_reconnect : Service → Outcome × Service
  connection_reconnect s =
      let (done, m, l) =
        reconnect a.base s.config call.answers a.keyring call.net s.manager s.links in
      (done_or_raised done, record s { manager = m; links = l; sync = wired l s.sync })

  unfoldable pub discovery_list : Service → Outcome × Service
  unfolding peer_fields
  discovery_list s =
      (answer (obj (field "peers" (arr (to_items peer_fields (discovered_peers s.links))) end)), s)

  abbrev pub applied : Service → Applied a.base call.now → Outcome × Service
  applied s (none, book, l) = (rpc_error "-32004" "No matching discovered peer for contact", s)
  applied s (some contact, book, l) = (
    answer (obj (field "contact" (obj (a.base.schema.dump contact)) end)),
    record s { manager = record s.manager { book = book }; links = l },
  )

  unfoldable pub discovery_apply : Json → Service → Outcome × Service
  discovery_apply params s = finish a.describe s (applied s) (
      required "contact_id" params >>= λ contact_id.
      apply_discovered_endpoint a.base call.now contact_id (book_of s) s.links)

  unfoldable pub system_health : Service → Outcome × Service
  system_health s =
      let health : HealthStatus = record {
        ok = eqb (length (book_of s).warnings) 0;
        uptime_seconds = call.uptime;
        contact_count = length (book_of s).contacts;
        active_chats = length s.manager.sessions;
        pending_outbox = pending_outbox_count s.manager.db;
        warnings = (book_of s).warnings;
      } in
      (answer (a.dumps.health health), s)

  unfoldable pub system_shutdown : Service → Outcome × Service
  system_shutdown s = (ok_answer, record s { stopping = true })

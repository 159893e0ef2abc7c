-- ===== src/Session.antt =====
-- The routing of chats over the transports: `SessionManager` of
-- src/xmpp_p2p_chat/connection_service/session.py. What the transports answer is an argument; a
-- call that raises leaves the state of that moment behind, so it returns the state beside its result.
pub mod Routing
pub mod Setup
pub mod Incoming
pub mod Draining
pub mod Links
pub mod Discovering
pub mod Starting
pub mod Books
pub mod Sending
pub mod Receiving
pub mod Tests
pub mod LinkTests
use serverless_xmpp.Base.{
  ◌&&◌, ℕ, String, Bool, true, false, ◌||◌, Option, none, some, List, [], ◌∷◌, ◌++◌, ◌==◌,
  if◌then◌else◌, truthy, is_some, Unicode, strip, before_first, has_char,
}
use serverless_xmpp.Base.Outcome.{◌>>=◌, Result, ok, err, value_error, runtime_error}
use serverless_xmpp.Base.Table
use serverless_xmpp.Models.{
  Datetime, Contact, Message, ChatSession, ConnectionState, connected, connecting, disconnected,
  TransportStatus, out, in_, pending, sent, delivered,
}
use serverless_xmpp.Sanitize.{sanitize_message_body}
use serverless_xmpp.Persistence.{
  Db, save_message, save_chat, save_presence, get_chat, queue_outbound, mark_sent, mark_delivered,
  get_pending_outbox, list_active_chats,
}
use serverless_xmpp.AddressBook.{AddressBook, get}

-- The two transports.
pub data Route : Type 0 where
  direct_p2p xmpp_server : Route

-- What the transports answer: the state of the one that `_ensure_xmpp()` returns, or of the one
-- for a contact after `connect_peer`; and the stanza id of a message that was handed over, from its
-- JID, text and id.
pub record Transports : Type 0 where
  pub ensure_xmpp : Result ConnectionState
  pub connect_peer : Contact → Result ConnectionState
  pub send : Route → String → String → String → Result String

-- The calls of `on_push`.
pub data Push : Type 0 where
  message_updated message_received : String → Message → Push
  presence_updated : String → String → String → Push
  connection_changed : TransportStatus → Push

-- `default_transport` is of the configuration, and `sessions` and `jid_to_contact` are the two
-- dicts.
pub record SessionManager : Type 0 where
  pub default_transport : String
  pub book : AddressBook
  pub db : Db
  pub sessions : List ChatSession
  pub jid_to_contact : List (String × String)
  pub pushed : List Push

abbrev pub session_key : ChatSession → String
session_key s = s.chat_id

abbrev pub jid_key : String × String → String
jid_key e = e.0

abbrev pub push : Push → SessionManager → SessionManager
push p m = record m { pushed = m.pushed ++ p ∷ [] }

abbrev pub store_session : ChatSession → SessionManager → SessionManager
store_session s m = record m { sessions = Table.upsert session_key s m.sessions }

unfoldable pub resolve_transport_name : String → Contact → String
resolve_transport_name fallback contact =
    if contact.preferred_transport == "direct-p2p" && is_some contact.direct
    then "direct-p2p"
    else if contact.preferred_transport == "xmpp-server"
    then "xmpp-server"
    else if is_some contact.direct && fallback == "direct-p2p"
    then "direct-p2p"
    else fallback

abbrev pub by_route : Route → Result ConnectionState → Result (Route × ConnectionState)
by_route route (err e) = err e
by_route route (ok state) = ok (route, state)

-- The transport for a contact, and the state that it is in.
unfoldable pub get_transport : Transports → String → Contact → Result (Route × ConnectionState)
unfolding resolve_transport_name
get_transport net fallback contact =
    if resolve_transport_name fallback contact == "direct-p2p"
    then if is_some contact.direct
      then by_route direct_p2p (net.connect_peer contact)
      else err value_error
    else by_route xmpp_server net.ensure_xmpp

-- A new session has the time of the call.
abbrev pub opened : Datetime → String → String → String → ChatSession
opened now chat_id remote_jid transport = record {
  chat_id = chat_id;
  contact_id = chat_id;
  remote_jid = remote_jid;
  transport = transport;
  active = true;
  created_at = now;
}

unfoldable pub start_chat :
    Unicode
    → Transports
    → Datetime
    → String
    → SessionManager
    → Result (ChatSession × SessionManager)
start_chat u net now contact_id m = elim (get contact_id m.book) [
  | none ↦ err value_error
  | some contact ↦ elim (Table.find session_key contact_id m.sessions) [
    | some existing ↦ ok (existing, m)
    | none ↦ do
      transport ← get_transport net m.default_transport contact
      let session =
          opened now contact_id contact.jid (resolve_transport_name m.default_transport contact)
      ok (
        session,
        record (store_session session m) {
          jid_to_contact = Table.upsert jid_key (u.lower contact.jid, contact_id) m.jid_to_contact;
          db = save_chat session m.db;
        },
      )
  ]
]

abbrev pub is_open : ConnectionState → Bool
is_open connected = true
is_open connecting = true
is_open _ = false

unfoldable pub send_if_open :
    Transports → Route × ConnectionState → ChatSession → Message → Result String
send_if_open net (route, state) session message =
    if is_open state
    then net.send route session.remote_jid message.body message.id
    else err runtime_error

-- The stanza id from the transport, which must be connected or connecting.
unfoldable pub hand_over : Transports → String → Contact → ChatSession → Message → Result String
hand_over net fallback contact session message = do
  transport ← get_transport net fallback contact
  send_if_open net transport session message

-- The session of a chat, in memory or else from the database, from where it is taken into memory.
unfoldable pub find_session : String → SessionManager → Option ChatSession
find_session chat_id m = elim (Table.find session_key chat_id m.sessions) [
  | some session ↦ some session
  | none ↦ get_chat chat_id m.db
]

unfoldable pub keep_session : String → ChatSession → SessionManager → SessionManager
keep_session chat_id session m =
    if is_some (Table.find session_key chat_id m.sessions) then m else store_session session m

abbrev pub outgoing : Datetime → String → String → String → Message
outgoing now mid chat_id body = record {
  id = mid;
  chat_id = chat_id;
  direction = out;
  body = body;
  timestamp = now;
  stanza_id = none;
  delivered = false;
  read = false;
  status = pending;
  raw_stanza = none;
}

-- The end of `send_message`: saved as sent, or queued.
unfoldable pub settle : Result String → Message → SessionManager → Message × SessionManager
settle (ok stanza_id) message m =
    let done : Message = record message {
      stanza_id = some stanza_id;
      status = sent;
      delivered = true;
    } in
    (done, push (message_updated message.chat_id done) (record m { db = save_message done m.db }))
settle (err e) message m = (
  message,
  push (message_updated message.chat_id message) (record m { db = queue_outbound message m.db }),
)

abbrev pub max_length : ℕ
max_length = 65536

unfoldable pub send_in_session :
    Unicode
    → Transports
    → Datetime
    → String
    → ChatSession
    → String
    → String
    → SessionManager
    → Result Message × SessionManager
unfolding settle hand_over
send_in_session u net now mid session chat_id text m =
    let body = sanitize_message_body text max_length in
    if truthy (strip u.is_space body)
    then (elim (get session.contact_id m.book) [
      | none ↦ (err value_error, m)
      | some contact ↦
          let message = outgoing now mid chat_id body in
          let (done, m') =
            settle (hand_over net m.default_transport contact session message) message m in
          (ok done, m')
    ])
    else (err value_error, m)

-- `send_message`; the new id and the time are arguments.
unfoldable pub send_message :
    Unicode
    → Transports
    → Datetime
    → String
    → String
    → String
    → SessionManager
    → Result Message × SessionManager
unfolding find_session keep_session send_in_session
send_message u net now mid chat_id text m = elim (find_session chat_id m) [
  | none ↦ (err value_error, m)
  | some session ↦
      send_in_session u net now mid session chat_id text (keep_session chat_id session m)
]

-- ===== src/Session/Draining.antt =====
-- `_drain_outbox` of src/xmpp_p2p_chat/connection_service/session.py, and the change of a
-- transport's state that calls it.
use serverless_xmpp.Base.{
  String, Bool, true, false, Option, none, some, List, [], ◌∷◌, if◌then◌else◌,
}
use serverless_xmpp.Base.Outcome.{◌>>=◌, Result, ok, err, value_error}
use serverless_xmpp.Models.{
  Contact, Message, ChatSession, ConnectionState, connected, TransportStatus, delivered,
}
use serverless_xmpp.Persistence.{mark_sent, mark_delivered, get_pending_outbox}
use serverless_xmpp.AddressBook.{get}
use serverless_xmpp.Session.{
  SessionManager, Transports, push, find_session, get_transport, message_updated,
  connection_changed,
}

-- The session and the contact that a queued message is for, in `_drain_outbox`.
unfoldable pub recipient : SessionManager → Message → Option (ChatSession × Contact)
unfolding find_session
recipient m message = elim (find_session message.chat_id m) [
  | none ↦ none
  | some session ↦ elim (get session.contact_id m.book) [
    | none ↦ none
    | some contact ↦ some (session, contact)
  ]
]

-- `_drain_outbox` does not ask for the state of the transport.
unfoldable pub resend :
    Transports → String → Message → Option (ChatSession × Contact) → Result String
resend net fallback message none = err value_error
resend net fallback message (some (session, contact)) = do
  transport ← get_transport net fallback contact
  net.send transport.0 session.remote_jid message.body message.id

unfoldable pub deliver : Result String → Message → SessionManager → SessionManager
deliver (err e) message m = m
deliver (ok stanza_id) message m =
    let done : Message = record message { status = delivered; delivered = true } in
    push (message_updated message.chat_id done)
      (record m { db = mark_delivered message.id (mark_sent message.id (some stanza_id) m.db) })

unfoldable pub drain_list : Transports → List Message → SessionManager → SessionManager
drain_list net [] m = m
drain_list net (message ∷ messages) m =
    drain_list net messages
      (deliver (resend net m.default_transport message (recipient m message)) message m)

unfoldable pub drain_outbox : Transports → SessionManager → Result SessionManager
unfolding drain_list
drain_outbox net m = do messages ← get_pending_outbox none m.db; ok (drain_list net messages m)

abbrev pub is_connected : ConnectionState → Bool
is_connected connected = true
is_connected _ = false

unfoldable pub handle_transport_state :
    Transports → TransportStatus → SessionManager → Result SessionManager
unfolding drain_outbox
handle_transport_state net status m =
    let told = push (connection_changed status) m in
    if is_connected status.state then drain_outbox net told else ok told

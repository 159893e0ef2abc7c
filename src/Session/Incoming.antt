-- ===== src/Session/Incoming.antt =====
-- What arrives, in `SessionManager` of src/xmpp_p2p_chat/connection_service/session.py: messages and
-- presences.
use serverless_xmpp.Base.{
  String, Bool, true, false, Option, none, some, List, if◌then◌else◌, truthy, is_some, Unicode,
  before_first, has_char,
}
use serverless_xmpp.Base.Table
use serverless_xmpp.Models.{Datetime, Contact, Message, ChatSession, in_, delivered}
use serverless_xmpp.Sanitize.{sanitize_message_body}
use serverless_xmpp.Persistence.{save_message, save_chat, save_presence}
use serverless_xmpp.AddressBook.{get}
use serverless_xmpp.Session.{
  SessionManager, session_key, jid_key, push, store_session, opened, max_length, message_received,
  presence_updated,
}

-- The contact for a bare JID; a JID that is not known is taken into the dict with its local part.
unfoldable pub contact_for : String → List (String × String) → String
contact_for bare known = elim (Table.find jid_key bare known) [
  | none ↦ before_first b'@' bare
  | some e ↦ if truthy e.1 then e.1 else before_first b'@' bare
]

abbrev pub known_jid : String → List (String × String) → Bool
known_jid bare known = elim (Table.find jid_key bare known) [ none ↦ false | some e ↦ truthy e.1 ]

unfoldable pub learn : String → List (String × String) → List (String × String)
unfolding contact_for
learn bare known =
    if known_jid bare known
    then known
    else Table.upsert jid_key (bare, contact_for bare known) known

abbrev pub bare_of : Unicode → String → String
bare_of u from_jid = u.lower (before_first b'/' from_jid)

abbrev pub incoming : Unicode → Datetime → String → String → String → Option String → Message
incoming u now mid chat_id text stanza_id = record {
  id = mid;
  chat_id = chat_id;
  direction = in_;
  body = sanitize_message_body text max_length;
  timestamp = now;
  stanza_id = stanza_id;
  delivered = true;
  read = false;
  status = delivered;
  raw_stanza = none;
}

-- The session for a chat that has none in memory.
unfoldable pub session_for : Datetime → String → String → String → Option Contact → ChatSession
session_for now contact_id bare from_jid contact =
    opened now contact_id
      (if has_char b'@' bare then bare else elim contact [ none ↦ from_jid | some c ↦ c.jid ])
      (elim contact [ none ↦ "direct-p2p" | some c ↦ c.preferred_transport ])

unfoldable pub ensure_session :
    Datetime → String → String → String → SessionManager → SessionManager
ensure_session now contact_id bare from_jid m =
    if is_some (Table.find session_key contact_id m.sessions)
    then m
    else let session = session_for now contact_id bare from_jid (get contact_id m.book) in
      record (store_session session m) { db = save_chat session m.db }

unfoldable pub handle_incoming_message :
    Unicode → Datetime → String → String → String → Option String → SessionManager → SessionManager
handle_incoming_message u now mid from_jid text stanza_id m =
    let bare = bare_of u from_jid in
    let contact_id = contact_for bare m.jid_to_contact in
    let known : SessionManager = record m { jid_to_contact = learn bare m.jid_to_contact } in
    let m' = ensure_session now contact_id bare from_jid known in
    let message = incoming u now mid contact_id text stanza_id in
    push (message_received contact_id message) (record m' { db = save_message message m'.db })

-- The presence of a JID whose entry is missing goes to its local part.
unfoldable pub handle_presence :
    Unicode → Datetime → String → String → String → SessionManager → SessionManager
handle_presence u now from_jid show status m =
    let bare = bare_of u from_jid in
    let contact_id : String = elim (Table.find jid_key bare m.jid_to_contact) [
      | none ↦ before_first b'@' bare
      | some e ↦ e.1
    ] in
    push (presence_updated contact_id show status)
      (record m { db = save_presence now contact_id show status m.db })

-- ===== src/Persistence.antt =====
-- src/xmpp_p2p_chat/connection_service/persistence.py: the SQLite tables and what each statement
-- does to them. A table is the list of its rows in rowid order. The connection itself is not
-- modelled: every method is run between `initialize` and `close`.
pub mod Rows
pub mod WellFormed
pub mod History
pub mod Outbox
pub mod Invariant
pub mod Tests
use serverless_xmpp.Base.{
  ℕ, String, Bool, true, false, ◌&&◌, Option, none, some, List, [], ◌∷◌, map, reverse, ◌==◌, eqb,
  if◌then◌else◌, text_leb, truthy, length, take, select, or_else,
}
use serverless_xmpp.Base.Sorting.{sort_by}
use serverless_xmpp.Base.Outcome.{Result, ok, err, value_error, integrity_error, ◌>>=◌}
use serverless_xmpp.Base.Table
use serverless_xmpp.Models.{
  Datetime, Message, ChatSession, DeliveryStatus, AddressBookSyncPending, sent, delivered,
  status_value,
}
use Rows.{
  MessageRow, OutboxRow, ChatRow, PresenceRow, message_row, chat_row, row_to_message, row_to_chat,
  ChatRow,
}

pub record Db : Type 0 where
  pub messages : List MessageRow
  pub chats : List ChatRow
  pub outbox : List OutboxRow
  pub presence : List PresenceRow
  pub sync_pending : List AddressBookSyncPending

-- `executescript(SCHEMA)` on a new file
abbrev pub empty : Db
empty = record { messages = []; chats = []; outbox = []; presence = []; sync_pending = [] }

abbrev pub message_key : MessageRow → String
message_key r = r.id

abbrev pub outbox_key : OutboxRow → String
outbox_key r = r.message_id

abbrev pub chat_key : ChatRow → String
chat_key r = r.chat_id

abbrev pub presence_key : PresenceRow → String
presence_key r = r.contact_id

abbrev pub sync_key : AddressBookSyncPending → String
sync_key r = r.id

unfoldable pub save_message : Message → Db → Db
save_message message db = record db {
  messages = Table.upsert message_key (message_row message) db.messages;
}

-- `WHERE chat_id = ?`, with ` AND timestamp < ?` if a time is given
unfoldable pub in_history : String → Option Datetime → MessageRow → Bool
in_history chat_id none r = r.chat_id == chat_id
in_history chat_id (some before) r =
    r.chat_id == chat_id && (if text_leb before r.timestamp then false else true)

abbrev pub by_timestamp : MessageRow → MessageRow → Bool
by_timestamp r s = text_leb r.timestamp s.timestamp

-- `LIMIT n`; `none` is a negative number, which sets no limit.
unfoldable pub sql_limit {ℓ} : {A : Type ℓ} → Option ℕ → List A → List A
sql_limit none rows = rows
sql_limit (some n) rows = take n rows

-- `[self._row_to_message(row) for row in rows]`; the first bad row raises
unfoldable pub decode_all {ℓ κ} :
    {A : Type ℓ} {B : Type κ} → (A → Result B) → List A → Result (List B)
decode_all decode [] = ok []
decode_all decode (r ∷ rows) = do x ← decode r; xs ← decode_all decode rows; ok (x ∷ xs)

-- The rows of one chat before a time, oldest first. SQLite answers `ORDER BY timestamp DESC` by
-- the index, backwards.
unfoldable pub selected_rows : String → Option Datetime → Db → List MessageRow
selected_rows chat_id before db =
    sort_by by_timestamp (select (in_history chat_id before) db.messages)

unfoldable pub history_rows : String → Option ℕ → Option Datetime → Db → List MessageRow
unfolding selected_rows sql_limit
history_rows chat_id limit before db =
    reverse (sql_limit limit (reverse (selected_rows chat_id before db)))

unfoldable pub get_history : String → Option ℕ → Option Datetime → Db → Result (List Message)
get_history chat_id limit before db =
    decode_all row_to_message (history_rows chat_id limit before db)

unfoldable pub queue_outbound : Message → Db → Db
unfolding save_message
queue_outbound message db =
    let db' = save_message message db in
    record db' {
      outbox =
          Table.insert_ignore outbox_key
            (record {
              message_id = message.id;
              chat_id = message.chat_id;
              body = message.body;
              created_at = message.timestamp;
            })
            db'.outbox;
    }

abbrev pub set_delivered : MessageRow → MessageRow
set_delivered r = record r { delivered = 1; status = status_value delivered }

unfoldable pub mark_delivered : String → Db → Db
mark_delivered message_id db = record db {
  messages = Table.update message_key message_id set_delivered db.messages;
  outbox = Table.delete outbox_key message_id db.outbox;
}

-- `COALESCE(?, stanza_id)`
abbrev pub coalesce : Option String → Option String → Option String
coalesce none old = old
coalesce (some s) old = some s

abbrev pub set_sent : Option String → MessageRow → MessageRow
set_sent stanza_id r = record r {
  status = status_value sent;
  stanza_id = coalesce stanza_id r.stanza_id;
}

unfoldable pub mark_sent : String → Option String → Db → Db
mark_sent message_id stanza_id db = record db {
  messages = Table.update message_key message_id (set_sent stanza_id) db.messages;
}

abbrev pub by_created_at : OutboxRow → OutboxRow → Bool
by_created_at r s = text_leb r.created_at s.created_at

unfoldable pub in_outbox : Option String → OutboxRow → Bool
in_outbox none r = true
in_outbox (some chat_id) r = if truthy chat_id then r.chat_id == chat_id else true

-- The messages of the outbox rows, by `JOIN messages m ON m.id = o.message_id`
unfoldable pub join_messages : List OutboxRow → List MessageRow → List MessageRow
join_messages [] messages = []
join_messages (o ∷ outbox) messages = elim (Table.find message_key o.message_id messages) [
  | none ↦ join_messages outbox messages
  | some m ↦ m ∷ join_messages outbox messages
]

unfoldable pub pending_rows : Option String → Db → List MessageRow
unfolding join_messages in_outbox
pending_rows chat_id db =
    join_messages (sort_by by_created_at (select (in_outbox chat_id) db.outbox)) db.messages

unfoldable pub get_pending_outbox : Option String → Db → Result (List Message)
get_pending_outbox chat_id db = decode_all row_to_message (pending_rows chat_id db)

unfoldable pub pending_outbox_count : Db → ℕ
pending_outbox_count db = length db.outbox

unfoldable pub save_chat : ChatSession → Db → Db
save_chat session db = record db { chats = Table.upsert chat_key (chat_row session) db.chats }

unfoldable pub get_chat : String → Db → Option ChatSession
get_chat chat_id db = elim (Table.find chat_key chat_id db.chats) [
  | none ↦ none
  | some r ↦ some (row_to_chat r)
]

unfoldable pub list_active_chats : Db → List ChatSession
list_active_chats db = map row_to_chat (select (λ r. eqb r.active 1) db.chats)

-- The time of the write is the argument `now`.
unfoldable pub save_presence : Datetime → String → String → String → Db → Db
save_presence now contact_id show status db = record db {
  presence =
      Table.upsert presence_key
        (record { contact_id = contact_id; show = show; status = status; updated_at = now })
        db.presence;
}

unfoldable pub get_presence : String → Db → String × String
get_presence contact_id db = elim (Table.find presence_key contact_id db.presence) [
  | none ↦ ("offline", "")
  | some r ↦ (r.show, r.status)
]

-- A plain `INSERT`: a second row with the id is refused.
unfoldable pub save_sync_pending : AddressBookSyncPending → Db → Result Db
save_sync_pending row db = elim (Table.find sync_key row.id db.sync_pending) [
  | none ↦ ok (record db { sync_pending = Table.upsert sync_key row db.sync_pending })
  | some r ↦ err integrity_error
]

abbrev pub by_received_at : AddressBookSyncPending → AddressBookSyncPending → Bool
by_received_at r s = text_leb r.received_at s.received_at

unfoldable pub list_sync_pending : Db → List AddressBookSyncPending
list_sync_pending db = sort_by by_received_at db.sync_pending

unfoldable pub get_sync_pending : String → Db → Option AddressBookSyncPending
get_sync_pending pending_id db = Table.find sync_key pending_id db.sync_pending

unfoldable pub delete_sync_pending : String → Db → Db
delete_sync_pending pending_id db = record db {
  sync_pending = Table.delete sync_key pending_id db.sync_pending;
}

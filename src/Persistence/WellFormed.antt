-- ===== src/Persistence/WellFormed.antt =====
-- The invariant of the tables of src/xmpp_p2p_chat/connection_service/persistence.py.
use serverless_xmpp.Base.{true, ◌≡◌, All, is_some}
use serverless_xmpp.Base.Outcome.{ok}
use serverless_xmpp.Base.Table
use serverless_xmpp.Models.{Message}
use serverless_xmpp.Persistence.Rows.{MessageRow, OutboxRow, row_to_message}
use serverless_xmpp.Persistence.{Db, message_key, outbox_key, chat_key, presence_key, sync_key}

-- The row converts back: its direction and status columns hold values of the enumerations.
abbrev pub Decodes : MessageRow → Type 0
Decodes r = (m : Message) × (row_to_message r ≡ ok m)

-- The message that the outbox row is about is stored.
abbrev pub HasMessage : Db → OutboxRow → Type 0
HasMessage db o = is_some (Table.find message_key o.message_id db.messages) ≡ true

pub record IsWellFormed (db : Db) : Type 0 where
  pub messages_unique : Table.HasUniqueKeys message_key db.messages
  pub outbox_unique : Table.HasUniqueKeys outbox_key db.outbox
  pub chats_unique : Table.HasUniqueKeys chat_key db.chats
  pub presence_unique : Table.HasUniqueKeys presence_key db.presence
  pub sync_unique : Table.HasUniqueKeys sync_key db.sync_pending
  pub decodes : All Decodes db.messages
  pub linked : All (HasMessage db) db.outbox

-- ===== src/Persistence/Invariant.antt =====
-- Every statement of src/xmpp_p2p_chat/connection_service/persistence.py keeps the tables
-- well-formed.
use serverless_xmpp.Base.{
  inl, inr, Option-cases, String, Option, List, [], ◌∷◌, true, ◌≡◌, refl, arith, eq_iff, All,
  is_some,
}
use serverless_xmpp.Base.Outcome.{ok, err}
use serverless_xmpp.Base.Table
use serverless_xmpp.Models.{Message, ChatSession, AddressBookSyncPending, Datetime, delivered, sent}
use serverless_xmpp.Persistence.Rows.{
  MessageRow, OutboxRow, message_row, chat_row, row_to_message, row_to_message-message_row,
  status_of-value,
}
use serverless_xmpp.Persistence.WellFormed.{Decodes, HasMessage, IsWellFormed}
use serverless_xmpp.Persistence.{
  Db, empty, message_key, outbox_key, chat_key, presence_key, sync_key, save_message,
  queue_outbound, mark_delivered, mark_sent, set_delivered, set_sent, coalesce, save_chat,
  save_presence, save_sync_pending, delete_sync_pending,
}

pub empty-IsWellFormed : IsWellFormed empty
empty-IsWellFormed = record {
  messages_unique = tt;
  outbox_unique = tt;
  chats_unique = tt;
  presence_unique = tt;
  sync_unique = tt;
  decodes = tt;
  linked = tt;
}

-- What `HasMessage` says of one table of messages carries over to another that has its keys.
HasMessage-mono :
    (db db' : Db) (outbox : List OutboxRow)
    → ((k : String)
        → is_some (Table.find message_key k db.messages) ≡ true
        → is_some (Table.find message_key k db'.messages) ≡ true)
    → All (HasMessage db) outbox
    → All (HasMessage db') outbox
HasMessage-mono db db' [] f h = tt
HasMessage-mono db db' (o ∷ os) f h = (f o.message_id h.0, HasMessage-mono db db' os f h.1)

message_row-Decodes : (m : Message) → Decodes (message_row m)
message_row-Decodes m = (_, row_to_message-message_row m)

-- The statuses that updates write are values of the enumeration.
set_delivered-Decodes : (r : MessageRow) → Decodes r → Decodes (set_delivered r)
unfolding row_to_message
set_delivered-Decodes r (m, h) =
    (record m { delivered = true; status = delivered }, ground (arith, status_of-value delivered))

set_sent-Decodes : (s : Option String) (r : MessageRow) → Decodes r → Decodes (set_sent s r)
unfolding row_to_message
set_sent-Decodes s r (m, h) = (
  record m { status = sent; stanza_id = coalesce s m.stanza_id },
  ground (arith, status_of-value sent),
)

pub save_message-IsWellFormed :
    (m : Message) (db : Db) → IsWellFormed db → IsWellFormed (save_message m db)
unfolding save_message
save_message-IsWellFormed m db w = record {
  messages_unique =
      Table.upsert-HasUniqueKeys message_key (message_row m) db.messages w.messages_unique;
  outbox_unique = w.outbox_unique;
  chats_unique = w.chats_unique;
  presence_unique = w.presence_unique;
  sync_unique = w.sync_unique;
  decodes =
      Table.All-upsert message_key Decodes (message_row m) db.messages (message_row-Decodes m)
        w.decodes;
  linked =
      HasMessage-mono db (save_message m db) db.outbox
        (λ k h. ground (arith, Table.find-upsert message_key k (message_row m) db.messages))
        w.linked;
}

save_message-HasMessage :
    (m : Message) (db : Db)
    → is_some (Table.find message_key m.id (save_message m db).messages) ≡ true
unfolding save_message message_row
save_message-HasMessage m db =
    ground (arith, Table.find-upsert message_key m.id (message_row m) db.messages, eq_iff m.id m.id)

pub queue_outbound-IsWellFormed :
    (m : Message) (db : Db) → IsWellFormed db → IsWellFormed (queue_outbound m db)
unfolding queue_outbound
queue_outbound-IsWellFormed m db w =
    let saved = save_message-IsWellFormed m db w in
    record {
      messages_unique = saved.messages_unique;
      outbox_unique = Table.insert_ignore-HasUniqueKeys outbox_key _ db.outbox w.outbox_unique;
      chats_unique = saved.chats_unique;
      presence_unique = saved.presence_unique;
      sync_unique = saved.sync_unique;
      decodes = saved.decodes;
      linked =
          Table.All-insert_ignore outbox_key (HasMessage (save_message m db)) _ db.outbox
            (save_message-HasMessage m db) saved.linked;
    }

module _ (k : String) (db : Db) where
  pub mark_delivered-IsWellFormed : IsWellFormed db → IsWellFormed (mark_delivered k db)
  unfolding mark_delivered
  mark_delivered-IsWellFormed w = record {
    messages_unique =
        Table.update-HasUniqueKeys message_key k set_delivered (λ r. refl) db.messages
          w.messages_unique;
    outbox_unique = Table.delete-HasUniqueKeys outbox_key k db.outbox w.outbox_unique;
    chats_unique = w.chats_unique;
    presence_unique = w.presence_unique;
    sync_unique = w.sync_unique;
    decodes =
        Table.All-update message_key Decodes k set_delivered db.messages set_delivered-Decodes
          w.decodes;
    linked = Table.All-delete outbox_key (HasMessage (mark_delivered k db)) k db.outbox (
        HasMessage-mono db (mark_delivered k db) db.outbox
          (λ j h.
            ground (arith, Table.find-update message_key k set_delivered (λ r. refl) j db.messages))
          w.linked);
  }

  pub mark_sent-IsWellFormed :
      (s : Option String) → IsWellFormed db → IsWellFormed (mark_sent k s db)
  unfolding mark_sent
  mark_sent-IsWellFormed s w = record {
    messages_unique =
        Table.update-HasUniqueKeys message_key k (set_sent s) (λ r. refl) db.messages
          w.messages_unique;
    outbox_unique = w.outbox_unique;
    chats_unique = w.chats_unique;
    presence_unique = w.presence_unique;
    sync_unique = w.sync_unique;
    decodes =
        Table.All-update message_key Decodes k (set_sent s) db.messages (set_sent-Decodes s)
          w.decodes;
    linked =
        HasMessage-mono db (mark_sent k s db) db.outbox
          (λ j h.
            ground (arith, Table.find-update message_key k (set_sent s) (λ r. refl) j db.messages))
          w.linked;
  }

pub save_chat-IsWellFormed :
    (s : ChatSession) (db : Db) → IsWellFormed db → IsWellFormed (save_chat s db)
unfolding save_chat
save_chat-IsWellFormed s db w = record {
  messages_unique = w.messages_unique;
  outbox_unique = w.outbox_unique;
  chats_unique = Table.upsert-HasUniqueKeys chat_key (chat_row s) db.chats w.chats_unique;
  presence_unique = w.presence_unique;
  sync_unique = w.sync_unique;
  decodes = w.decodes;
  linked = HasMessage-mono db (save_chat s db) db.outbox (λ k h. h) w.linked;
}

pub save_presence-IsWellFormed :
    (now : Datetime) (c show status : String) (db : Db)
    → IsWellFormed db
    → IsWellFormed (save_presence now c show status db)
unfolding save_presence
save_presence-IsWellFormed now c show status db w = record {
  messages_unique = w.messages_unique;
  outbox_unique = w.outbox_unique;
  chats_unique = w.chats_unique;
  presence_unique = Table.upsert-HasUniqueKeys presence_key _ db.presence w.presence_unique;
  sync_unique = w.sync_unique;
  decodes = w.decodes;
  linked = HasMessage-mono db (save_presence now c show status db) db.outbox (λ k h. h) w.linked;
}

with_sync-IsWellFormed :
    (rows : List AddressBookSyncPending) (db : Db)
    → Table.HasUniqueKeys sync_key rows
    → IsWellFormed db
    → IsWellFormed (record db { sync_pending = rows })
with_sync-IsWellFormed rows db u w = record {
  messages_unique = w.messages_unique;
  outbox_unique = w.outbox_unique;
  chats_unique = w.chats_unique;
  presence_unique = w.presence_unique;
  sync_unique = u;
  decodes = w.decodes;
  linked = HasMessage-mono db (record db { sync_pending = rows }) db.outbox (λ k h. h) w.linked;
}

-- The changes that the methods make, one after the other.
pub data Write : Type 0 where
  message : Message → Write
  outbound : Message → Write
  delivered_mark : String → Write
  sent_mark : String → Option String → Write
  chat : ChatSession → Write
  presence : Datetime → String → String → String → Write
  sync : AddressBookSyncPending → Write
  sync_delete : String → Write

-- A refused insertion leaves the table as it is.
pub write : Write → Db → Db
write (message m) db = save_message m db
write (outbound m) db = queue_outbound m db
write (delivered_mark k) db = mark_delivered k db
write (sent_mark k s) db = mark_sent k s db
write (chat s) db = save_chat s db
write (presence now c show status) db = save_presence now c show status db
write (sync row) db = elim (save_sync_pending row db) [ ok db' ↦ db' | err e ↦ db ]
write (sync_delete k) db = delete_sync_pending k db

pub writes : List Write → Db → Db
writes [] db = db
writes (w ∷ ws) db = writes ws (write w db)

sync-IsWellFormed :
    (row : AddressBookSyncPending) (db : Db) → IsWellFormed db → IsWellFormed (write (sync row) db)
unfolding write save_sync_pending
sync-IsWellFormed row db w = elim (Option-cases (Table.find sync_key row.id db.sync_pending)) [
  | inl e ↦
      rw (e, write, save_sync_pending)
        (with_sync-IsWellFormed _ db
          (Table.upsert-HasUniqueKeys sync_key row db.sync_pending w.sync_unique) w)
  | inr (r, e) ↦ rw (e, write, save_sync_pending) w
]

pub write-IsWellFormed : (x : Write) (db : Db) → IsWellFormed db → IsWellFormed (write x db)
unfolding write
write-IsWellFormed (message m) db w = save_message-IsWellFormed m db w
write-IsWellFormed (outbound m) db w = queue_outbound-IsWellFormed m db w
write-IsWellFormed (delivered_mark k) db w = mark_delivered-IsWellFormed k db w
write-IsWellFormed (sent_mark k s) db w = mark_sent-IsWellFormed k db s w
write-IsWellFormed (chat s) db w = save_chat-IsWellFormed s db w
write-IsWellFormed (presence now c show status) db w =
    save_presence-IsWellFormed now c show status db w
write-IsWellFormed (sync row) db w = sync-IsWellFormed row db w
write-IsWellFormed (sync_delete k) db w =
    unfold delete_sync_pending in
    with_sync-IsWellFormed (Table.delete sync_key k db.sync_pending) db
      (Table.delete-HasUniqueKeys sync_key k db.sync_pending w.sync_unique) w

-- Whatever the program writes, from a well-formed database on, the database stays well-formed: ids
-- are unique in each table, every stored message converts back, and every outbox row has its
-- message.
pub writes-IsWellFormed :
    (ws : List Write) (db : Db) → IsWellFormed db → IsWellFormed (writes ws db)
unfolding writes
writes-IsWellFormed [] db w = w
writes-IsWellFormed (x ∷ ws) db w = writes-IsWellFormed ws (write x db) (write-IsWellFormed x db w)
